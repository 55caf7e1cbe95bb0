-- ===== src/Tracer/Hook/Begins.antt =====
-- A thread that begins (ext/raygun/raygun_tracer.c, `rb_rg_tracing_hook_i`): under which id, and whose
-- child it is said to be.
use raygun_apm_ruby.Base.{
  ℕ, u32, Bool, if_false, ◌+◌, ◌<◌, ◌≡◌, ◌≢◌, length, refl, ap, ◌∙◌, arith, Option, none, some,
  true, false, ◌||◌, ◌&&◌, not, ◌==◌, if◌then◌else◌, inl, inr, Bool-cases,
}
use raygun_apm_ruby.Memory.{◌>>=◌}
use raygun_apm_ruby.Memory.Laws.{bind_assoc}
use raygun_apm_ruby.Protocol.{Thread, Method, scratch_buffer_size, thread_orphaned, thread_started}
use raygun_apm_ruby.Encoder.Wire.{body_bytes}
use raygun_apm_ruby.Encoder.Emit.{Context, Sink, hand_over}
use raygun_apm_ruby.Encoder.Emit.Delivery.{delivered, encoded, threads-Deliver}
use raygun_apm_ruby.Tracer.Table.{st_lookup, lookup-insert, lookup-insert_self, lookup-insert_other}
use raygun_apm_ruby.Tracer.Threads.{
  ThreadTable, new_thread, register_thread, rb_rg_thread, parent_tid_of, parent_or_current,
  rb_rg_thread_started,
}
use raygun_apm_ruby.Tracer.Filters.{Rax}
use raygun_apm_ruby.Tracer.Hook.{
  Ruby, Running, TraceEvent, call, return, raise, thread_begin, thread_end, parent_after, State,
  rb_rg_thread_group, hook_thread_begin, observed, followed_thread, rb_rg_tracing_hook_i,
}
use raygun_apm_ruby.Tracer.Threads.Numbered.{IsNumbered}

unknown_thread :
    (t : ThreadTable) (thread : ℕ)
    → st_lookup thread t.threadsinfo ≡ none
    → rb_rg_thread t thread ≡ register_thread t thread thread_orphaned
unfolding rb_rg_thread
unknown_thread t thread unknown = rw (rb_rg_thread, unknown)

module _ {rax : Rax} (ruby : Ruby) {U : Type 0} (s : State rax U) (running : Running) where
  -- A thread of the profiler itself, which is ignored.
  abbrev pub is_own : Bool
  is_own = (running.thread == s.tracer.sink_thread) || (running.thread == s.tracer.timer_thread)

  -- Another thread than that of the trace, in its thread group.
  abbrev pub is_grouped : Bool
  is_grouped =
      let group = rb_rg_thread_group ruby running.thgroup in
      not (running.thread == s.trace_context.thread)
      && (not (group == ruby.default_thread_group) && (group == s.trace_context.thgroup))

-- The parent's id of a new thread that is registered twice: with no parent known, or the thread itself,
-- it is the first id of the thread.
abbrev pub parent_id : ThreadTable → Option ℕ → ℕ → ℕ
parent_id t none thread = t.threads + 1
parent_id t (some parent) thread =
    if parent == thread then t.threads + 1 else parent_tid_of t parent

module _ {U : Type 0} (sink : Sink U) (ctx : Context) (u : U) (now : ℕ) where
  -- The answer of the sink to the one command that announces a thread.
  abbrev pub announced : Thread → Option (ℕ × U × Context)
  announced th =
      let d = thread_started (record { parent_tid = th.parent_tid }) in
      hand_over sink u (encoded ctx now th.tid d) (delivered ctx now th.tid d)
        (19 + length (body_bytes d))

parent_id-registered :
    (t : ThreadTable) (thread : ℕ) (parent : Option ℕ)
    → st_lookup thread t.threadsinfo ≡ none
    → t.threads + 2 < 4294967296
    → parent_tid_of (register_thread t thread thread_orphaned).1 (parent_or_current parent thread)
      ≡ parent_id t parent thread
unfolding register_thread new_thread parent_tid_of
parent_id-registered t thread none unknown small = ground (
  arith,
  lookup-insert_self thread (new_thread (u32 (t.threads + 1)) thread_orphaned) t.threadsinfo,
  small,
)
parent_id-registered t thread (some parent) unknown small = elim (Bool-cases (parent == thread)) [
  | inl same ↦ ground (
    arith,
    same,
    lookup-insert_self thread (new_thread (u32 (t.threads + 1)) thread_orphaned) t.threadsinfo,
    small,
  )
  | inr other ↦ ground (
    arith,
    other,
    lookup-insert_other parent thread (new_thread (u32 (t.threads + 1)) thread_orphaned)
        t.threadsinfo (ground (arith, other)),
  )
]

-- A thread that is registered twice is in the table under the second id, and nothing is under the first.
registered_twice :
    (t : ThreadTable) (thread parent_tid : ℕ)
    → IsNumbered t
    → t.threads + 2 < 4294967296
    → let (_, t₁) = register_thread t thread thread_orphaned in
      let (th, t₂) = register_thread t₁ thread parent_tid in
      (st_lookup thread t₂.threadsinfo ≡ some th)
      × (th.tid ≡ t.threads + 2)
      × (t₂.threads ≡ t.threads + 2)
      × ((k : ℕ) (other : Thread)
          → st_lookup k t₂.threadsinfo ≡ some other
          → other.tid ≢ t.threads + 1)
unfolding register_thread new_thread
registered_twice t thread parent_tid v small =
    let (_, t₁) = register_thread t thread thread_orphaned in
    let (th, t₂) = register_thread t₁ thread parent_tid in
    (
      lookup-insert_self thread th t₁.threadsinfo,
      omega (arith, small),
      omega (arith, small),
      λ k other h first. elim (lookup-insert k thread th other t₁.threadsinfo h) [
        | inl (e, same) ↦ ground (arith, same, small, first)
        | inr (ne, old) ↦
            elim (lookup-insert k thread (new_thread (u32 (t.threads + 1)) thread_orphaned) other
              t.threadsinfo old) [
                | inl (e, same) ↦ ne e
                | inr (ne', older) ↦ omega (arith, v.counted k other older, first)
              ]
      ],
    )

module _ {rax : Rax} (ruby : Ruby) {U : Type 0} (sink : Sink U) (now : ℕ) (s : State rax U)
    (stale : Option (Option Method)) (before : ℕ) (running : Running)
    (watched : is_own ruby s running ≡ false) (grouped : is_grouped ruby s running ≡ true)
    (room : length s.context.buf ≡ scratch_buffer_size) where
  looked_up :
      rb_rg_tracing_hook_i ruby sink now s stale before running (thread_begin running.thread)
      ≡ hook_thread_begin ruby sink now
          (record s {
            tracer = record s.tracer {
              thread_table = (rb_rg_thread s.tracer.thread_table running.thread).1;
            };
          })
          running.thread
          running.thread
  unfolding rb_rg_tracing_hook_i followed_thread
  looked_up = ground arith

  pub thread_begin-doubles :
      st_lookup running.thread s.tracer.thread_table.threadsinfo ≡ none
      → s.tracer.thread_table.threads + 2 < 4294967296
      → IsNumbered s.tracer.thread_table
      → (th : Thread) × (t' : ThreadTable) × (rb_rg_tracing_hook_i ruby sink now s stale before
            running
            (thread_begin running.thread)
          ≡ (announced sink s.context s.sink_data now th >>= λ r. some (record s {
            tracer = record s.tracer { thread_table = t' };
            sink_data = r.1;
            context = r.2;
          })))
        × (st_lookup running.thread t'.threadsinfo ≡ some th)
        × (th.tid ≡ s.tracer.thread_table.threads + 2)
        × (t'.threads ≡ s.tracer.thread_table.threads + 2)
        × (th.parent_tid
            ≡ parent_id s.tracer.thread_table s.trace_context.parent_thread running.thread)
        × ((k : ℕ) (other : Thread)
            → st_lookup k t'.threadsinfo ≡ some other
            → other.tid ≢ s.tracer.thread_table.threads + 1)
  unfolding hook_thread_begin rb_rg_thread_started
  thread_begin-doubles unknown small numbered =
      let t = s.tracer.thread_table in
      let parent = s.trace_context.parent_thread in
      let (_, t₁) = register_thread t running.thread thread_orphaned in
      let (th, t₂) =
        register_thread t₁ running.thread
          (parent_tid_of t₁ (parent_or_current parent running.thread)) in
      let registered =
        looked_up
        ∙ ap
            (λ (p : Thread × ThreadTable).
              hook_thread_begin ruby sink now
                (record s { tracer = record s.tracer { thread_table = p.1 } }) running.thread
                running.thread)
            (unknown_thread t running.thread unknown) in
      let finish : ThreadTable × U × Context → Option (State rax U) = λ r. some (record s {
        tracer = record s.tracer { thread_table = r.0 };
        sink_data = r.1;
        context = r.2;
      }) in
      let (found, next, counted, unused) =
        registered_twice t running.thread
          (parent_tid_of t₁ (parent_or_current parent running.thread)) numbered small in
      (
        th,
        t₂,
        registered
            ∙ ap (λ o. (o >>= λ r. some (t₂, r.1, r.2)) >>= finish)
                (threads-Deliver sink s.context s.sink_data now th room).0
            ∙ bind_assoc (announced sink s.context s.sink_data now th) (λ r. some (t₂, r.1, r.2))
                finish,
        found,
        next,
        counted,
        parent_id-registered t running.thread parent unknown small,
        unused,
      )

abbrev pub is_begin : TraceEvent → Bool
is_begin (thread_begin k) = true
is_begin _ = false

parent_after-other :
    (parent : Option ℕ) (running : Running) (e : TraceEvent)
    → is_begin e ≡ false
    → parent_after parent running e ≡ some running.thread
parent_after-other parent running (call tparg) h = refl
parent_after-other parent running (return tparg) h = refl
parent_after-other parent running (raise e) h = refl
parent_after-other parent running (thread_begin k) h = cc
parent_after-other parent running (thread_end k) h = refl

module _ {rax : Rax} (ruby : Ruby) {U : Type 0} (sink : Sink U) (now : ℕ) (s : State rax U)
    (stale : Option (Option Method)) (before : ℕ) (outside running : Running) where
  -- An event on a thread outside of the trace (neither the profiler's own nor of the group of the
  -- trace), other than a thread that begins, sends nothing and changes neither the tables nor the
  -- encoder. But when the next event is that another thread, which is of the group of the trace (not the
  -- default group, neither the thread of the trace nor one of the profiler's own) and not in the table yet,
  -- begins on itself, with all given ids counted and different, ids left for two threads and a scratch
  -- buffer of its declared size, then the sink is handed exactly one command, which announces that
  -- thread as a child of the thread outside of the trace, or of the orphans' 0 if that one is not in
  -- the table.
  pub outside_event-adopts :
      (e : TraceEvent)
      → is_own ruby s outside ≡ false
      → outside.thread ≢ s.trace_context.thread
      → is_grouped ruby s outside ≡ false
      → is_begin e ≡ false
      → is_own ruby s running ≡ false
      → is_grouped ruby s running ≡ true
      → length s.context.buf ≡ scratch_buffer_size
      → st_lookup running.thread s.tracer.thread_table.threadsinfo ≡ none
      → s.tracer.thread_table.threads + 2 < 4294967296
      → IsNumbered s.tracer.thread_table
      → outside.thread ≢ running.thread
      → (s₁ : State rax U) × (th : Thread) × (t' : ThreadTable) × (rb_rg_tracing_hook_i ruby sink
            now s stale before outside e
          ≡ some s₁)
        × (s₁.tracer ≡ s.tracer)
        × (s₁.context ≡ s.context)
        × (s₁.sink_data ≡ s.sink_data)
        × (rb_rg_tracing_hook_i ruby sink now s₁ stale before running (thread_begin running.thread)
            ≡ (announced sink s.context s.sink_data now th >>= λ r. some (record s₁ {
              tracer = record s.tracer { thread_table = t' };
              sink_data = r.1;
              context = r.2;
            })))
        × (st_lookup running.thread t'.threadsinfo ≡ some th)
        × (th.parent_tid ≡ parent_tid_of s.tracer.thread_table outside.thread)
  unfolding rb_rg_tracing_hook_i followed_thread
  outside_event-adopts e own foreign ungrouped other watched grouped room unknown small numbered
        different =
      let s₁ = observed s outside e in
      let (th, t', ran, found, _, _, parent, _) =
        thread_begin-doubles ruby sink now s₁ stale before running watched grouped room unknown
          small numbered in
      (
        s₁,
        th,
        t',
        ground (arith, own, foreign, ungrouped),
        refl,
        refl,
        refl,
        ran,
        found,
        parent
            ∙ ap (λ p. parent_id s.tracer.thread_table p running.thread)
                (parent_after-other s.trace_context.parent_thread outside e other)
            ∙ if_false (outside.thread == running.thread) (s.tracer.thread_table.threads + 1)
                (parent_tid_of s.tracer.thread_table outside.thread) (ground (arith, different)),
      )
