-- ===== src/Tracer/Setup/Once.antt =====
-- Any sequence of settings of a tracer (ext/raygun/raygun_tracer.c): one sink at most, and set up whole.
use raygun_apm_ruby.Base.{
  ℕ, ◌≡◌, ◌≢◌, refl, sym, ap, ◌∙◌, arith, List, [], ◌∷◌, Option, none, some, Bool, true, false, inl,
  inr, not, ltb, ◌&&◌, ◌||◌, pos, Option-cases, if◌then◌else◌,
}
use mathlib.Core.Path.{subst}
use raygun_apm_ruby.Tracer.Names.{env_development, env_production}
use raygun_apm_ruby.Tracer.Timer.{is_nil, SinkType, sink_none, sink_callback, sink_udp, sink_tcp}
use raygun_apm_ruby.Tracer.Setup.{
  Value, fixnum, num2int, batched_sink, Config, World, SinkArgs, Outcome,
  rb_rg_tracer_callback_sink_set, rb_rg_tracer_udp_sink_set, rb_rg_tracer_tcp_sink_set,
  start_dispatcher, start_udp_sink, connect, rb_rg_tracer_log_level_equals,
  rb_rg_tracer_environment_equals, rb_rg_tracer_debug_blacklist_equals, rb_rg_tracer_api_key_equals,
  rb_rg_tracer_noop_bang, is_sink_none, is_one, SetupError, qtrue, is_string, is_fixnum, not_a_proc,
  wrong_arity, wrong_socket, wrong_host, wrong_port, wrong_receive_buffer_size, only_one_sink, nil,
  qfalse, string, object, invalid_log_level, invalid_environment, out_of_range, wrong_type, byte_of,
  log_none, log_blacklist,
}
use raygun_apm_ruby.Tracer.Setup.Calls.{
  SetupCall, set_callback_sink, set_udp_sink, set_tcp_sink, set_log_level, set_environment,
  set_debug_blacklist, set_api_key, set_noop, setup, run_setup, SinkPart, sink_part, Works,
  Provides, AllProvide,
}

-- One step: the sink works, and one that is set stays.
record Keeps (c c' : Config) : Type 0 where
  works : Works (sink_part c')
  stays : c.type ≢ sink_none → sink_part c' ≡ sink_part c

keeps : {c c' : Config} → Works (sink_part c) → sink_part c' ≡ sink_part c → Keeps c c'
keeps works e = record { works = subst Works (sym e) works; stays = λ h. e }

if_guard {ℓ ℓ'} :
    {A : Type ℓ} (P : A → Type ℓ') (b : Bool) (x y : A)
    → (b ≡ true → P x)
    → (b ≡ false → P y)
    → P (if b then x else y)
if_guard P true x y f g = f refl
if_guard P false x y f g = g refl

is_sink_none-eq : (t : SinkType) → not (is_sink_none t) ≡ false → t ≡ sink_none
is_sink_none-eq sink_none e = refl
is_sink_none-eq sink_callback e = ground (arith, e)
is_sink_none-eq sink_udp e = ground (arith, e)
is_sink_none-eq sink_tcp e = ground (arith, e)

is_nil-eq {ℓ} : {A : Type ℓ} (o : Option A) → is_nil o ≡ true → o ≡ none
is_nil-eq none e = refl
is_nil-eq (some x) e = ground (arith, e)

module _ (w : World) (c : Config) (works : Works (sink_part c)) where
  record Kept (o : Outcome) : Type 0 where
    kept : Keeps c o.0

  refused : (e : SetupError) → Kept (c, inl e)
  refused e = record { kept = keeps works refl }

  -- A sink is set only where there was none.
  set_first :
      (c' : Config) (v : Value) → c.type ≡ sink_none → Works (sink_part c') → Kept (c', inr v)
  set_first c' v e k = record { kept = record { works = k; stays = λ h. absurd (h e) } }

  -- An argument that is refused.
  guarded :
      (b : Bool) (e : SetupError) (o : Outcome)
      → (b ≡ false → Kept o)
      → Kept (if b then (c, inl e) else o)
  guarded b e o k = if_guard Kept b (c, inl e) o (λ h. refused e) k

  callback_sink_set-Keeps : (v : Value) → Kept (rb_rg_tracer_callback_sink_set w c v)
  unfolding rb_rg_tracer_callback_sink_set
  callback_sink_set-Keeps v = elim (Option-cases (w.proc_arity v)) [
    | inl other ↦ rw (rb_rg_tracer_callback_sink_set, other) (refused not_a_proc)
    | inr (arity, proc) ↦
        rw (rb_rg_tracer_callback_sink_set, proc)
          (guarded (not (is_one arity)) wrong_arity _ (λ h.
            guarded (not (is_sink_none c.type)) only_one_sink _
              (λ h'. set_first _ v (is_sink_none-eq c.type h') refl)))
  ]

  -- The dispatcher is started on settings whose sink function is the batched sink.
  start_dispatcher-Keeps :
      (c₁ : Config) (t : SinkType) (result : Value)
      → c.type ≡ sink_none
      → ((q th : Option ℕ) → q ≢ none → th ≢ none → Works (t, c₁.sink, q, th, c₁.callback))
      → w.ring_buffer ≢ none
      → w.thread ≢ none
      → Kept (start_dispatcher w c₁ t result)
  unfolding start_dispatcher
  start_dispatcher-Keeps c₁ t result fresh batched ring thread =
      if_guard Kept (is_nil w.ring_buffer) _ _ (λ h. absurd (ring (is_nil-eq w.ring_buffer h)))
        (λ h.
          if_guard Kept (is_nil w.thread) _ _ (λ h'. absurd (thread (is_nil-eq w.thread h')))
            (λ h'. set_first _ result fresh (batched w.ring_buffer w.thread ring thread)))

  start_udp_sink-Keeps :
      (any : SinkArgs) (size : Value)
      → let k : SinkArgs = record any { receive_buffer_size = size } in
        c.type ≡ sink_none → Provides w (set_udp_sink k) → Kept (start_udp_sink w c k)
  unfolding start_udp_sink
  start_udp_sink-Keeps any (fixnum n) fresh (ring, thread, fits) = elim (Option-cases (num2int n)) [
    | inl outside ↦ absurd (fits outside)
    | inr (size, inside) ↦
        rw (start_udp_sink, inside)
          (start_dispatcher-Keeps
            (record c {
              sink = batched_sink;
              sock = any.socket;
              host = any.host;
              port = any.port;
              receive_buffer_size = size;
            })
            sink_udp any.socket fresh (λ q th r t. (refl, r, t)) ring thread)
  ]
  start_udp_sink-Keeps any nil fresh p = refused wrong_receive_buffer_size
  start_udp_sink-Keeps any qtrue fresh p = refused wrong_receive_buffer_size
  start_udp_sink-Keeps any qfalse fresh p = refused wrong_receive_buffer_size
  start_udp_sink-Keeps any (string s) fresh p = refused wrong_receive_buffer_size
  start_udp_sink-Keeps any (object o) fresh p = refused wrong_receive_buffer_size

  udp_sink_set-Keeps :
      (k : SinkArgs) → Provides w (set_udp_sink k) → Kept (rb_rg_tracer_udp_sink_set w c k)
  unfolding rb_rg_tracer_udp_sink_set
  udp_sink_set-Keeps k p =
      guarded (not (w.responds_to_send k.socket && w.responds_to_connect k.socket)) wrong_socket _
        (λ h₁. guarded (not (is_string k.host)) wrong_host _ (λ h₂.
          guarded (not (is_fixnum k.port)) wrong_port _ (λ h₃.
            guarded (not (is_fixnum k.receive_buffer_size)) wrong_receive_buffer_size _ (λ h₄.
              guarded (not (is_sink_none c.type)) only_one_sink _
                (λ h. start_udp_sink-Keeps k k.receive_buffer_size (is_sink_none-eq c.type h) p)))))

  connect-Keeps : (o : Outcome) → Kept o → Kept (connect w o)
  connect-Keeps (c', inl e) k = k
  connect-Keeps (c', inr v) k = record {
    kept = record { works = k.kept.works; stays = k.kept.stays };
  }

  tcp_sink_set-Keeps :
      (k : SinkArgs) → Provides w (set_tcp_sink k) → Kept (rb_rg_tracer_tcp_sink_set w c k)
  unfolding rb_rg_tracer_tcp_sink_set
  tcp_sink_set-Keeps k p = guarded (not (is_string k.host)) wrong_host _ (λ h₁.
      guarded (not (is_fixnum k.port)) wrong_port _ (λ h₂.
        guarded (not (is_sink_none c.type)) only_one_sink _ (λ h. connect-Keeps _ (
          start_dispatcher-Keeps
            (record c {
              sink = batched_sink;
              sock = nil;
              host = k.host;
              port = k.port;
              receive_buffer_size = pos 0;
            })
            sink_tcp qtrue (is_sink_none-eq c.type h) (λ q th r t. (refl, r, t)) p.0 p.1))))

  -- A setting of something else.
  other_set : (c' : Config) (v : Value) → sink_part c' ≡ sink_part c → Kept (c', inr v)
  other_set c' v e = record { kept = keeps works e }

  log_level-Keeps : (v : Value) → Kept (rb_rg_tracer_log_level_equals c v)
  unfolding rb_rg_tracer_log_level_equals
  log_level-Keeps (fixnum n) = elim (Option-cases (num2int n)) [
    | inl outside ↦ rw (rb_rg_tracer_log_level_equals, outside) (refused out_of_range)
    | inr (i, inside) ↦
        rw (rb_rg_tracer_log_level_equals, inside)
          (guarded (ltb (byte_of i) log_none || ltb log_blacklist (byte_of i)) invalid_log_level _
            (λ h. other_set _ qtrue refl))
  ]
  log_level-Keeps nil = refused wrong_type
  log_level-Keeps qtrue = refused wrong_type
  log_level-Keeps qfalse = refused wrong_type
  log_level-Keeps (string s) = refused wrong_type
  log_level-Keeps (object o) = refused wrong_type

  environment-Keeps : (v : Value) → Kept (rb_rg_tracer_environment_equals c v)
  unfolding rb_rg_tracer_environment_equals
  environment-Keeps (fixnum n) = elim (Option-cases (num2int n)) [
    | inl outside ↦ rw (rb_rg_tracer_environment_equals, outside) (refused out_of_range)
    | inr (i, inside) ↦
        rw (rb_rg_tracer_environment_equals, inside)
          (guarded (ltb (byte_of i) env_development || ltb env_production (byte_of i))
            invalid_environment _ (λ h. other_set _ qtrue refl))
  ]
  environment-Keeps nil = refused wrong_type
  environment-Keeps qtrue = refused wrong_type
  environment-Keeps qfalse = refused wrong_type
  environment-Keeps (string s) = refused wrong_type
  environment-Keeps (object o) = refused wrong_type

  setup-Keeps : (call : SetupCall) → Provides w call → Kept (setup w c call)
  unfolding setup rb_rg_tracer_debug_blacklist_equals rb_rg_tracer_api_key_equals
      rb_rg_tracer_noop_bang
  setup-Keeps (set_callback_sink v) p = callback_sink_set-Keeps v
  setup-Keeps (set_udp_sink k) p = udp_sink_set-Keeps k p
  setup-Keeps (set_tcp_sink k) p = tcp_sink_set-Keeps k p
  setup-Keeps (set_log_level v) p = log_level-Keeps v
  setup-Keeps (set_environment v) p = environment-Keeps v
  setup-Keeps (set_debug_blacklist v) p = other_set _ qtrue refl
  setup-Keeps (set_api_key v) p =
      if_guard Kept (is_string v) _ _ (λ h. other_set _ qtrue refl) (λ h. refused wrong_type)
  setup-Keeps set_noop p = other_set _ qtrue refl

-- From settings whose sink works, any calls, whether they raise or not, leave a sink that works, if
-- ring buffers and threads are given and every receive buffer size that is a Fixnum fits an `int`: no
-- sink is the blackhole, and a sink over the network has its ring buffer and its thread. A sink
-- that is set stays the only one: its type, function, ring buffer, thread and callback are kept.
pub run_setup-one_sink :
    (c : Config) (calls : List (World × SetupCall))
    → Works (sink_part c)
    → AllProvide calls
    → Works (sink_part (run_setup c calls))
      × (c.type ≢ sink_none → sink_part (run_setup c calls) ≡ sink_part c)
unfolding run_setup
run_setup-one_sink c [] works p = (works, λ h. refl)
run_setup-one_sink c ((w, call) ∷ calls) works p =
    let step = (setup-Keeps w c works call p.0).kept in
    let (works', stays') = run_setup-one_sink (setup w c call).0 calls step.works p.1 in
    (
      works',
      λ h.
          let same = step.stays h in
          stays' (λ e. h (sym (ap (λ (s : SinkPart). s.0) same) ∙ e)) ∙ same,
    )
