-- ===== src/Tracer/Hook/Total.antt =====
-- `rb_rg_tracing_hook_i` (ext/raygun/raygun_tracer.c) as a whole: it handles every event.
use raygun_apm_ruby.Base.{
  ℕ, ◌+◌, ◌<◌, ◌≡◌, ◌≢◌, refl, arith, Option, some, ◌||◌, ◌&&◌, not, ◌==◌, Bool-cases, inl, inr,
}
use raygun_apm_ruby.Protocol.{Thread, Method, thread_frameless}
use raygun_apm_ruby.Encoder.Emit.{Sink}
use raygun_apm_ruby.Tracer.Table.{st_lookup}
use raygun_apm_ruby.Tracer.Threads.{rb_rg_thread}
use raygun_apm_ruby.Tracer.Filters.{Rax}
use raygun_apm_ruby.Tracer.Names.{rb_rg_method_id, rb_rg_fill_class_and_method}
use raygun_apm_ruby.Tracer.Hook.{
  Ruby, Running, TraceEvent, call, return, raise, thread_begin, thread_end, State, load_thread,
  rb_rg_thread_group, hook_event, observed, followed_thread, rb_rg_tracing_hook_i,
}
use raygun_apm_ruby.Tracer.Hook.Sound.{Passes, methodinfo_size, exception_size, Answers, Sound}
use raygun_apm_ruby.Tracer.Hook.Handled.{Handles, hook_call-Handles, hook_return-Handles}
use raygun_apm_ruby.Tracer.Hook.Others.{
  rb_rg_thread-SoundTable, threads-Sound, table-Sound, hook_raise-Handles,
  hook_thread_begin-Handles, hook_thread_end-Handles,
}

-- A call and an exception have names whose announcements the batched sink takes; a return is of a method
-- that was called before, and an exception is raised below a frame that is followed.
abbrev pub Permitted : {rax : Rax} {U : Type 0} → Ruby → State rax U → Running → TraceEvent → Type 0
Permitted ruby s running (return tparg) =
    (entry : Option Method) × (st_lookup
        (rb_rg_method_id ruby.hashes s.tracer.environment s.tracer.builtin_translator tparg)
        s.tracer.method_table.filters.methodinfo
      ≡ some entry)
Permitted ruby s running (raise e) =
    (th : Thread) × (load_thread s running.thread ≡ some th)
    × (th.shadow_top ≢ thread_frameless)
    × Passes (
        exception_size ruby e.class_name
          (ruby.correlation_of s.context.pid s.tracer.address e.exception))
Permitted ruby s running (call tparg) =
    Passes (methodinfo_size ruby (rb_rg_fill_class_and_method s.tracer.builtin_translator tparg))
Permitted ruby s running _ = Unit

-- There are ids left for two threads and a method, and the thread of the trace has not ended.
pub record HasRoom {rax : Rax} {U : Type 0} (s : State rax U) : Type 0 where
  pub threads : s.tracer.thread_table.threads + 2 < 4294967296
  pub methods : s.tracer.method_table.methods + 1 < 4294967296
  pub traced : (th : Thread) × (load_thread s s.trace_context.thread ≡ some th)

-- Looking a thread up keeps what an event needs.
known-Permitted :
    {rax : Rax} {U : Type 0} (ruby : Ruby) (s : State rax U) (running : Running) (e : TraceEvent)
    → Permitted ruby s running e
    → Permitted ruby
        (record s {
          tracer = record s.tracer {
            thread_table = (rb_rg_thread s.tracer.thread_table running.thread).1;
          };
        })
        running
        e
unfolding rb_rg_thread
known-Permitted ruby s running (call tparg) p = p
known-Permitted ruby s running (return tparg) p = p
known-Permitted ruby s running (raise e) (th, known, framed, passes) =
    (th, rw (rb_rg_thread, known) known, framed, passes)
known-Permitted ruby s running (thread_begin k) p = p
known-Permitted ruby s running (thread_end k) p = p

-- So does observing it.
observed-Permitted :
    {rax : Rax} {U : Type 0} (ruby : Ruby) (s : State rax U) (running : Running) (e : TraceEvent)
    → Permitted ruby s running e
    → Permitted ruby (observed s running e) running e
observed-Permitted ruby s running (call tparg) p = p
observed-Permitted ruby s running (return tparg) p = p
observed-Permitted ruby s running (raise e) p = p
observed-Permitted ruby s running (thread_begin k) p = p
observed-Permitted ruby s running (thread_end k) p = p

module _ {rax : Rax} (ruby : Ruby) {U : Type 0} (sink : Sink U) (now : ℕ) {Fit : U → Type 0}
    (answers : Answers sink Fit) where
  hook_event-Handles :
      (s : State rax U) (stale : Option (Option Method)) (before : ℕ) (running : Running)
      (e : TraceEvent) (th : Thread)
      → Sound Fit s
      → load_thread s running.thread ≡ some th
      → s.tracer.thread_table.threads + 1 < 4294967296
      → s.tracer.method_table.methods + 1 < 4294967296
      → Permitted ruby s running e
      → Handles Fit (hook_event ruby sink now s stale before running.thread running e)
  unfolding hook_event
  hook_event-Handles s stale before running (call tparg) th v known threads methods permitted =
      hook_call-Handles ruby sink now answers s before running.thread th tparg v known methods
        permitted
  hook_event-Handles s stale before running (return tparg) th v known threads methods (m, found) =
      hook_return-Handles ruby sink now answers s stale running.thread th tparg m v known found
  hook_event-Handles s stale before running (raise e) th v known threads methods
        (t, loaded, framed, passes) =
      hook_raise-Handles ruby sink now answers s running.thread t e v loaded framed passes
  hook_event-Handles s stale before running (thread_begin k) th v known threads methods permitted =
      hook_thread_begin-Handles ruby sink now answers s running.thread k v threads
  hook_event-Handles s stale before running (thread_end k) th v known threads methods permitted =
      hook_thread_end-Handles ruby sink now answers s k v threads

  -- After a thread of the group was looked up, with the thread that it is.
  grouped-Handles :
      (s : State rax U) (stale : Option (Option Method)) (before : ℕ) (running : Running)
      (e : TraceEvent)
      → Sound Fit s
      → s.tracer.thread_table.threads + 2 < 4294967296
      → s.tracer.method_table.methods + 1 < 4294967296
      → Permitted ruby s running e
      → Handles Fit (
          hook_event ruby sink now
            (record s {
              tracer = record s.tracer {
                thread_table = (rb_rg_thread s.tracer.thread_table running.thread).1;
              };
            })
            stale
            before
            running.thread
            running
            e)
  grouped-Handles s stale before running e v threads methods permitted =
      let (th, t') = rb_rg_thread s.tracer.thread_table running.thread in
      let (w, found, counted) =
        rb_rg_thread-SoundTable s.tracer.thread_table running.thread (table-Sound s v)
          (omega (arith, threads)) in
      let s' : State rax U = record s { tracer = record s.tracer { thread_table = t' } } in
      hook_event-Handles s' stale before running e th
        (threads-Sound s t' s.sink_data s.context v w refl v.fit) found
        (omega (arith, threads, counted)) methods (known-Permitted ruby s running e permitted)

  -- For a sink that, from every state that is fit, answers for a command of any size but 4084 to 4093
  -- bytes and is in a fit state again, as the batched sink does between two calls. With the sink in such
  -- a state, ids left for two threads and a method, all given ids counted and different, a trace whose
  -- thread has not ended, a scratch buffer of its declared size and shadow stacks within their bounds,
  -- the hook comes to its end, whatever the uninitialized variable holds and on whatever thread: on a
  -- call if a METHODINFO with the names of its method does not have 4084 to 4093 bytes; on a return of a
  -- method that is in the table; on an exception below a frame that is followed, if EXCEPTION_THROWN with
  -- its class and its id does not have 4084 to 4093 bytes; and whenever a thread begins or ends.
  -- Nothing is accessed outside of an array; and afterwards the sink is in a fit state, the buffer has
  -- its size, the stacks are within their bounds, and no two threads and no two methods have the same id.
  pub tracing_hook-Handles :
      (s : State rax U) (stale : Option (Option Method)) (before : ℕ) (running : Running)
      (e : TraceEvent)
      → Sound Fit s
      → HasRoom s
      → Permitted ruby s running e
      → Handles Fit (rb_rg_tracing_hook_i ruby sink now s stale before running e)
  unfolding rb_rg_tracing_hook_i followed_thread
  tracing_hook-Handles s stale before running e v room permitted =
      let s' = observed s running e in
      let v' : Sound Fit s' = record {
        fit = v.fit;
        room = v.room;
        numbered = v.numbered;
        stacks = v.stacks;
        counted = v.counted;
      } in
      let permitted' = observed-Permitted ruby s running e permitted in
      let group = rb_rg_thread_group ruby running.thgroup in
      elim (Bool-cases
        ((running.thread == s.tracer.sink_thread) || (running.thread == s.tracer.timer_thread))) [
          | inl own ↦ (s, rw own, v)
          | inr other ↦ elim (Bool-cases (running.thread == s.trace_context.thread)) [
            | inl same ↦
                (let (th, known) = room.traced in
                  let e_same : running.thread ≡ s.trace_context.thread = ground (arith, same) in
                  let (s'', done, w) =
                    hook_event-Handles s' stale before running e th v' (rw e_same known)
                      (omega (arith, room.threads)) room.methods permitted' in
                  (s'', rw other (rw (rb_rg_tracing_hook_i, same) done), w))
            | inr foreign ↦
                elim (Bool-cases (
                  not (group == ruby.default_thread_group) && (group == s.trace_context.thgroup))) [
                    | inl grouped ↦
                        (let (s'', done, w) =
                            grouped-Handles s' stale before running e v' room.threads room.methods
                              permitted' in
                          (s'', rw other (rw (rb_rg_tracing_hook_i, foreign) (rw grouped done)), w))
                    | inr outside ↦
                        (s', rw other (rw (rb_rg_tracing_hook_i, foreign) (rw outside)), v')
                  ]
          ]
        ]
