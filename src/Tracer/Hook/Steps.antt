-- ===== src/Tracer/Hook/Steps.antt =====
-- A call and a return through `rb_rg_tracing_hook_i` (ext/raygun/raygun_tracer.c) do what Frames says of
-- one shadow thread, and hand the sink the BEGIN or END command.
use raygun_apm_ruby.Base.{
  ℕ, Bool, ◌≡◌, ◌≢◌, refl, sym, ap, ◌∙◌, arith, Option, none, some, true, false, ◌||◌, ◌==◌,
  if◌then◌else◌, length, List, [], ◌∷◌, ◌++◌, Bool-cases, inl, inr,
}
use mathlib.Core.Path.{subst}
use mathlib.Core.List.{append-nil}
use raygun_apm_ruby.Memory.{◌>>=◌}
use raygun_apm_ruby.Memory.Laws.{length-overwrite}
use raygun_apm_ruby.Protocol.{Thread, EventData, Method, begin, end, scratch_buffer_size}
use raygun_apm_ruby.Encoder.Emit.{Context, Sink, hand_over}
use raygun_apm_ruby.Encoder.Emit.Delivery.{encoded, Delivers, begin_end-Delivers}
use raygun_apm_ruby.Tracer.Table.{st_lookup, lookup-insert_self}
use raygun_apm_ruby.Tracer.Frames.{
  enter_vm, leave_vm, shadow_full, vm_too_deep, frameless, call_method, return_method,
}
use raygun_apm_ruby.Tracer.Frames.Safe.{
  call_method-full, call_method-room, return_method-ignored, return_method-counted,
}
use raygun_apm_ruby.Tracer.Frames.Balance.{Calls, finished, called, Signal, begun, ended, report}
use raygun_apm_ruby.Tracer.Filters.{Rax}
use raygun_apm_ruby.Tracer.Names.{TraceArg, rb_rg_method_id}
use raygun_apm_ruby.Tracer.Hook.{
  Ruby, Running, TraceEvent, call, return, State, store_thread, load_thread, observed, emitted,
  return_value, hook_call, hook_return, hook_event, followed_thread, rb_rg_tracing_hook_i,
  method_of_call, begin_method, end_method,
}
use raygun_apm_ruby.Tracer.Hook.Begins.{is_own}
use raygun_apm_ruby.Tracer.Hook.Handled.{return_value-IsVariable}

pub some-injective : {A : Type 0} {a b : A} → ◌≡◌ {A = Option A} (some a) (some b) → a ≡ b
some-injective h = cc

-- A stretch of a program as Ruby shows it: which method is called, what it does, and what follows. The
-- method of the table goes with the call.
pub data Program : Type 0 where
  stop : Program
  invoke : TraceArg → Method → Program → Program → Program

unfoldable pub calls_of : Program → Calls
calls_of stop = finished
calls_of (invoke tparg m body rest) = called m (calls_of body) (calls_of rest)

-- A sink that keeps which functions begin and end.
abbrev pub signals_of : EventData → List Signal
signals_of (begin b) = begun b.function_id ∷ []
signals_of (end e) = ended e.function_id ∷ []
signals_of _ = []

abbrev pub recording : Sink (List Signal)
recording ctx u none n = some (0, u)
recording ctx u (some e) n = some (0, u ++ signals_of e.payload)

module _ {rax : Rax} (ruby : Ruby) where
  abbrev pub entry_of : State rax (List Signal) → TraceArg → Option (Option Method)
  entry_of s tparg =
      st_lookup (rb_rg_method_id ruby.hashes s.tracer.environment s.tracer.builtin_translator tparg)
        s.tracer.method_table.filters.methodinfo

  -- Every method is in the table, and none is the profiler's own.
  unfoldable pub AreKnown : State rax (List Signal) → Program → Type 0
  AreKnown s stop = Unit
  AreKnown s (invoke tparg m body rest) =
      (entry_of s tparg ≡ some (some m))
      × (tparg.namespace ≢ ruby.tracer_class)
      × AreKnown s body
      × AreKnown s rest

  -- Ruby calls the hook on each call and each return.
  unfoldable pub run_program :
      ℕ → Running → Program → State rax (List Signal) → Option (State rax (List Signal))
  run_program now running stop s = some s
  run_program now running (invoke tparg m body rest) s =
      rb_rg_tracing_hook_i ruby recording now s none now running (call tparg) >>= λ s₁.
      run_program now running body s₁ >>= λ s₂.
      rb_rg_tracing_hook_i ruby recording now s₂ none now running (return tparg) >>= λ s₃.
      run_program now running rest s₃

  -- What the calls and returns leave as it was.
  pub record Same (s s' : State rax (List Signal)) : Type 0 where
    pub entries : (tparg : TraceArg) → entry_of s' tparg ≡ entry_of s tparg
    pub sink_thread : s'.tracer.sink_thread ≡ s.tracer.sink_thread
    pub timer_thread : s'.tracer.timer_thread ≡ s.tracer.timer_thread
    pub traced : s'.trace_context.thread ≡ s.trace_context.thread

  pub Same-trans : (a b c : State rax (List Signal)) → Same a b → Same b c → Same a c
  Same-trans a b c p q = record {
    entries = λ tparg. q.entries tparg ∙ p.entries tparg;
    sink_thread = q.sink_thread ∙ p.sink_thread;
    timer_thread = q.timer_thread ∙ p.timer_thread;
    traced = q.traced ∙ p.traced;
  }

  pub Same-AreKnown :
      (s s' : State rax (List Signal)) (p : Program) → Same s s' → AreKnown s p → AreKnown s' p
  unfolding AreKnown
  Same-AreKnown s s' stop same k = tt
  Same-AreKnown s s' (invoke tparg m body rest) same (found, other, inside, after) = (
    same.entries tparg ∙ found,
    other,
    Same-AreKnown s s' body same inside,
    Same-AreKnown s s' rest same after,
  )

  -- What the state is when the running thread is that of the trace, with its shadow thread.
  pub record Traces (running : Running) (th : Thread) (s : State rax (List Signal)) : Type 0 where
    pub room : length s.context.buf ≡ scratch_buffer_size
    pub loaded : load_thread s running.thread ≡ some th
    pub traced : running.thread ≡ s.trace_context.thread
    pub watched : is_own ruby s running ≡ false

  -- What a call or a return makes of the state.
  pub record Steps (running : Running) (th : Thread) (sent : List Signal)
      (s s' : State rax (List Signal)) : Type 0 where
    pub traces : Traces running th s'
    pub same : Same s s'
    pub reported : s'.sink_data ≡ s.sink_data ++ sent

  -- The end of both handlers, with `s₀` before them and `s` before the last write of the shadow thread.
  stored-Steps :
      (now : ℕ) (running : Running) (s₀ s : State rax (List Signal)) (th₀ th' : Thread) (b : Bool)
      (d : EventData) (emit : Option (ℕ × List Signal × Context))
      → Traces running th₀ s
      → Same s₀ s
      → s.sink_data ≡ s₀.sink_data
      → Delivers s.context now th'.tid d recording s.sink_data emit
      → (s' : State rax (List Signal)) × ((if b
            then (emit >>= λ r. some (emitted (store_thread s running.thread th') r))
            else some (store_thread s running.thread th'))
          ≡ some s')
        × Steps running th' (if b then signals_of d else []) s₀ s'
  unfolding hand_over
  stored-Steps now running s₀ s th₀ th' true d emit t same data_ sent =
      let ctx = encoded s.context now th'.tid d in
      (
        emitted (store_thread s running.thread th') (0, s.sink_data ++ signals_of d, ctx),
        rw sent,
        record {
          traces = record {
            room = length-overwrite s.context.buf 0 _ ∙ t.room;
            loaded = lookup-insert_self running.thread th' s.tracer.thread_table.threadsinfo;
            traced = t.traced;
            watched = t.watched;
          };
          same = record {
            entries = same.entries;
            sink_thread = same.sink_thread;
            timer_thread = same.timer_thread;
            traced = same.traced;
          };
          reported = ap (λ u. u ++ signals_of d) data_;
        },
      )
  stored-Steps now running s₀ s th₀ th' false d emit t same data_ sent = (
    store_thread s running.thread th',
    refl,
    record {
      traces = record {
        room = t.room;
        loaded = lookup-insert_self running.thread th' s.tracer.thread_table.threadsinfo;
        traced = t.traced;
        watched = t.watched;
      };
      same = record {
        entries = same.entries;
        sink_thread = same.sink_thread;
        timer_thread = same.timer_thread;
        traced = same.traced;
      };
      reported = data_ ∙ sym (append-nil s₀.sink_data);
    },
  )

  -- An event on the thread of the trace goes to its handler.
  own_event :
      (now : ℕ) (running : Running) (s : State rax (List Signal)) (e : TraceEvent) (th : Thread)
      → Traces running th s
      → rb_rg_tracing_hook_i ruby recording now s none now running e
        ≡ hook_event ruby recording now (observed s running e) none now running.thread running e
  unfolding rb_rg_tracing_hook_i followed_thread
  own_event now running s e th t = ground (arith, t.traced, t.watched)

  pub call-Steps :
      (now : ℕ) (running : Running) (s : State rax (List Signal)) (tparg : TraceArg) (m : Method)
      (th : Thread) (out : Thread × Bool)
      → Traces running th s
      → entry_of s tparg ≡ some (some m)
      → tparg.namespace ≢ ruby.tracer_class
      → call_method m th ≡ some out
      → (s' : State rax (List Signal)) × (rb_rg_tracing_hook_i ruby recording now s none now running
            (call tparg)
          ≡ some s')
        × Steps running out.0 (report out.1 (begun m.function_id)) s s'
  unfolding hook_event hook_call method_of_call begin_method
  call-Steps now running s tparg m th out t found other called_ =
      let o = observed s running (call tparg) in
      let th₁ = enter_vm th in
      let s₁ = store_thread o running.thread th₁ in
      let t₁ : Traces running th₁ s₁ = record {
        room = t.room;
        loaded = lookup-insert_self running.thread th₁ s.tracer.thread_table.threadsinfo;
        traced = t.traced;
        watched = t.watched;
      } in
      let same : Same s s₁ = record {
        entries = λ a. refl;
        sink_thread = refl;
        timer_thread = refl;
        traced = refl;
      } in
      elim (Bool-cases (shadow_full th₁)) [
        | inl full ↦
            subst
              (λ (out : Thread × Bool).
                (s' : State rax (List Signal)) × (rb_rg_tracing_hook_i ruby recording now s none now
                    running (call tparg)
                  ≡ some s')
                × Steps running out.0 (report out.1 (begun m.function_id)) s s')
              (some-injective (sym (call_method-full m th full) ∙ called_))
              (
                s₁,
                own_event now running s (call tparg) th t ∙ rw (hook_call, t.loaded) (rw full),
                record { traces = t₁; same = same; reported = sym (append-nil s.sink_data) },
              )
        | inr room ↦
            (let blocked : (shadow_full th₁ || (tparg.namespace == ruby.tracer_class)) ≡ false =
                ground (arith, room, other) in
              let (s', done, steps) =
                stored-Steps now running s s₁ th₁ out.0 out.1
                  (begin
                    (record { function_id = m.function_id; instance_id = tparg.self; argc = 0 }))
                  _ t₁ same refl
                  (begin_end-Delivers recording s₁.context s₁.sink_data now out.0.tid m.function_id
                    tparg.self return_value return_value-IsVariable t.room).0 in
              (
                s',
                own_event now running s (call tparg) th t
                    ∙ rw (hook_call, t.loaded)
                        (rw blocked (
                          rw (method_of_call, found)
                            (rw (sym (call_method-room m th room) ∙ called_) done))),
                steps,
              ))
      ]

  pub return-Steps :
      (now : ℕ) (running : Running) (s : State rax (List Signal)) (tparg : TraceArg) (m : Method)
      (th : Thread) (out : Thread × Bool)
      → Traces running th s
      → entry_of s tparg ≡ some (some m)
      → tparg.namespace ≢ ruby.tracer_class
      → return_method m th ≡ some out
      → (s' : State rax (List Signal)) × (rb_rg_tracing_hook_i ruby recording now s none now running
            (return tparg)
          ≡ some s')
        × Steps running out.0 (report out.1 (ended m.function_id)) s s'
  unfolding hook_event hook_return end_method
  return-Steps now running s tparg m th out t found other returned =
      let o = observed s running (return tparg) in
      let th₁ = leave_vm th in
      let s₁ = store_thread o running.thread th₁ in
      let t₁ : Traces running th₁ s₁ = record {
        room = t.room;
        loaded = lookup-insert_self running.thread th₁ s.tracer.thread_table.threadsinfo;
        traced = t.traced;
        watched = t.watched;
      } in
      let same : Same s s₁ = record {
        entries = λ a. refl;
        sink_thread = refl;
        timer_thread = refl;
        traced = refl;
      } in
      elim (Bool-cases (vm_too_deep th₁ || frameless th₁)) [
        | inl ignored ↦
            subst
              (λ (out : Thread × Bool).
                (s' : State rax (List Signal)) × (rb_rg_tracing_hook_i ruby recording now s none now
                    running (return tparg)
                  ≡ some s')
                × Steps running out.0 (report out.1 (ended m.function_id)) s s')
              (some-injective (sym (return_method-ignored m th ignored) ∙ returned))
              (
                s₁,
                own_event now running s (return tparg) th t
                    ∙ rw (hook_return, t.loaded) (rw ignored),
                record { traces = t₁; same = same; reported = sym (append-nil s.sink_data) },
              )
        | inr counted ↦
            (let kept : (vm_too_deep th₁ || frameless th₁ || (tparg.namespace == ruby.tracer_class))
                  ≡ false =
                ground (arith, counted, other) in
              let (s', done, steps) =
                stored-Steps now running s s₁ th₁ out.0 out.1
                  (end (record {
                    function_id = m.function_id;
                    tail_call = 0;
                    returnvalue = return_value;
                  }))
                  _ t₁ same refl
                  (begin_end-Delivers recording s₁.context s₁.sink_data now out.0.tid m.function_id
                    0 return_value return_value-IsVariable t.room).1 in
              (
                s',
                own_event now running s (return tparg) th t
                    ∙ rw (hook_return, t.loaded)
                        (rw kept (
                          rw found
                            (rw (sym (return_method-counted m th counted) ∙ returned) done))),
                steps,
              ))
      ]
