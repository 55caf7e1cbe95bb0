-- ===== src/Tracer/Hook.antt =====
-- `rb_rg_tracing_hook_i` (ext/raygun/raygun_tracer.c), which Ruby calls for each event that it traces,
-- with every event and every early return.
pub mod Sound
pub mod Handled
pub mod Others
pub mod Batched
pub mod Total
pub mod Begins
pub mod Steps
pub mod Runs
mod Tests
use raygun_apm_ruby.Base.{
  ℕ, ◌≡◌, List, Option, none, some, Bool, true, false, ◌||◌, ◌&&◌, not, pos, ltb_ℤ, ◌==◌,
  if◌then◌else◌, replicate,
}
use raygun_apm_ruby.Memory.{◌>>=◌}
use raygun_apm_ruby.Protocol.{
  Thread, Method, VariableInfo, vt_void, max_variable_name, trace_entrypoint_frame_id,
}
use raygun_apm_ruby.Encoder.Emit.{Context, Sink, rg_begin, rg_end, rg_exception_thrown}
use raygun_apm_ruby.Coercion.Strings.{rb_rg_encode_string}
use raygun_apm_ruby.Tracer.Stack.{rb_rg_stack_peek}
use raygun_apm_ruby.Tracer.Table.{st_lookup, st_insert}
use raygun_apm_ruby.Tracer.Threads.{
  ThreadTable, rb_rg_thread, rb_rg_thread_started, rb_rg_thread_ended,
}
use raygun_apm_ruby.Tracer.Filters.{Rax}
use raygun_apm_ruby.Tracer.Methods.{MethodTable, unset_ascii, rb_rg_methodinfo}
use raygun_apm_ruby.Tracer.Names.{TraceArg, Hashes, rb_rg_fill_class_and_method, rb_rg_method_id}
use raygun_apm_ruby.Tracer.Frames.{
  enter_vm, shadow_full, leave_vm, vm_too_deep, frameless, enter_method, leave_method, level,
}

-- What the tracer takes from Ruby: its hashes, `rb_str_encode`, the text that `rb_sprintf` makes of the
-- pid, the tracer and an exception, and the VALUEs of nil, a thread group and two classes.
pub record Ruby : Type 0 where
  pub hashes : Hashes
  pub rb_str_encode : ℕ → List ℕ → List ℕ
  pub correlation_of : ℕ → ℕ → ℕ → List ℕ
  pub nil : ℕ
  pub default_thread_group : ℕ
  pub tracer_class : ℕ
  pub fatal_class : ℕ

pub record Raised : Type 0 where
  pub exception : ℕ  -- VALUE
  pub class : ℕ  -- VALUE
  pub class_name : List ℕ

pub data TraceEvent : Type 0 where
  call : TraceArg → TraceEvent
  return : TraceArg → TraceEvent
  raise : Raised → TraceEvent
  thread_begin : ℕ → TraceEvent
  thread_end : ℕ → TraceEvent

-- The thread that runs when the event is traced, and its `thgroup`, which is 0 if it has none.
pub record Running : Type 0 where
  pub thread : ℕ
  pub thgroup : ℕ

-- The members of `rb_rg_trace_context_t`. Its `rg_thread` is the entry of the thread table for
-- `thread`: Ruby begins a thread before the thread can start a trace.
pub record TraceContext : Type 0 where
  pub thread : ℕ
  pub parent_thread : Option ℕ  -- none is nil
  pub thgroup : ℕ

module _ (rax : Rax) where
  -- The members of `rb_rg_tracer_t` that the hook reads.
  pub record Tracer : Type 0 where
    pub address : ℕ
    pub method_table : MethodTable rax
    pub thread_table : ThreadTable
    pub environment : ℕ
    pub builtin_translator : List (List ℕ × List ℕ)
    pub sink_thread : ℕ
    pub timer_thread : ℕ

  -- All that an event may change: the tracer, the trace context, the encoder's context, the sink's data
  -- and the correlation ids that exceptions keep.
  pub record State (U : Type 0) : Type 0 where
    pub tracer : Tracer
    pub trace_context : TraceContext
    pub context : Context
    pub sink_data : U
    pub correlations : List (ℕ × List ℕ)

-- `return_value`, which is written once.
abbrev pub return_value : VariableInfo
return_value = record {
  length = 0;
  name_length = 0;
  name = replicate max_variable_name 0;
  value = vt_void;
}

unfoldable pub rb_rg_thread_group : Ruby → ℕ → ℕ
rb_rg_thread_group ruby thgroup = if thgroup == 0 then ruby.nil else thgroup

-- The parent of the next thread that begins is the last thread that another event was seen on.
abbrev pub parent_after : Option ℕ → Running → TraceEvent → Option ℕ
parent_after parent running (thread_begin started) = parent
parent_after parent running e = some running.thread

module _ {rax : Rax} {U : Type 0} where
  -- A write through `rg_thread`.
  abbrev pub store_thread : State rax U → ℕ → Thread → State rax U
  store_thread s thread th =
      let t = s.tracer.thread_table in
      record s {
        tracer = record s.tracer {
          thread_table = record t { threadsinfo = st_insert thread th t.threadsinfo };
        };
      }

  -- A read through `rg_thread`.
  abbrev pub load_thread : State rax U → ℕ → Option Thread
  load_thread s thread = st_lookup thread s.tracer.thread_table.threadsinfo

  -- What the sink and the encoder leave.
  abbrev pub emitted : State rax U → ℕ × U × Context → State rax U
  emitted s r = record s { sink_data = r.1; context = r.2 }

  -- The state after that.
  abbrev pub observed : State rax U → Running → TraceEvent → State rax U
  observed s running e =
      let c = s.trace_context in
      record s {
        trace_context = record c { parent_thread = parent_after c.parent_thread running e };
      }

  -- The thread that is followed: that of the trace, or another one of its thread group, which is then
  -- looked up, and registered if it is not known. None is a thread outside of the trace.
  unfoldable pub followed_thread : Ruby → State rax U → Running → Option (ℕ × ThreadTable)
  unfolding rb_rg_thread_group
  followed_thread ruby s running =
      let group = rb_rg_thread_group ruby running.thgroup in
      if running.thread == s.trace_context.thread
      then some (running.thread, s.tracer.thread_table)
      else if not (group == ruby.default_thread_group) && (group == s.trace_context.thgroup)
      then some (running.thread, (rb_rg_thread s.tracer.thread_table running.thread).1)
      else none

module _ {rax : Rax} (ruby : Ruby) {U : Type 0} (sink : Sink U) (now : ℕ) where
  -- The exception keeps the correlation id in an instance variable.
  unfoldable pub rb_rg_exception_thrown : State rax U → ℕ → Raised → Option (State rax U)
  rb_rg_exception_thrown s tid e = do
    class_name ← rb_rg_encode_string ruby.rb_str_encode unset_ascii (some e.class_name)
    let correlation_id = ruby.correlation_of s.context.pid s.tracer.address e.exception
    let s' : State rax U = record s {
      correlations = st_insert e.exception correlation_id s.correlations;
    }
    correlation ← rb_rg_encode_string ruby.rb_str_encode unset_ascii (some correlation_id)
    r ← rg_exception_thrown sink s.context s.sink_data now tid e.exception class_name correlation
    some (emitted s' r)

  -- The entry of the method, which is discovered if there is none; none is a method that is not
  -- followed. `before` is the time of the discovery.
  unfoldable pub method_of_call :
      State rax U → ℕ → ℕ → TraceArg → Option (Option Method × State rax U)
  method_of_call s before tid tparg =
      let t = s.tracer in
      let method = rb_rg_method_id ruby.hashes t.environment t.builtin_translator tparg in
      elim (st_lookup method t.method_table.filters.methodinfo) [
        | some entry ↦ some (entry, s)
        | none ↦
            (rb_rg_methodinfo rax ruby.rb_str_encode sink s.context s.sink_data before
                t.method_table tid method (rb_rg_fill_class_and_method t.builtin_translator tparg)
              >>= λ r. some (
                r.0,
                record s {
                  tracer = record t { method_table = r.1 };
                  sink_data = r.2;
                  context = r.3;
                },
              ))
      ]

  -- A method that is followed is entered, and BEGIN is sent if the call is traced.
  unfoldable pub begin_method :
      State rax U → ℕ → Thread → TraceArg → Option Method → Option (State rax U)
  begin_method s thread th tparg none = some s
  begin_method s thread th tparg (some m) = do
    entered ← enter_method m th
    let s' = store_thread s thread entered.0
    let begin =
        rg_begin sink s'.context s'.sink_data now entered.0.tid m.function_id tparg.self >>= λ r.
        some (emitted s' r)
    if entered.1 then begin else some s'

  -- RUBY_EVENT_CALL.
  unfoldable pub hook_call : State rax U → ℕ → ℕ → TraceArg → Option (State rax U)
  unfolding method_of_call begin_method
  hook_call s before thread tparg = do
    th₀ ← load_thread s thread
    let th = enter_vm th₀
    let s' = store_thread s thread th
    if shadow_full th || (tparg.namespace == ruby.tracer_class)
        then some s'
        else (method_of_call s' before th.tid tparg >>= λ r. begin_method r.1 thread th tparg r.0)

  -- A method that is followed is left, and END is sent if the return is traced.
  unfoldable pub end_method : State rax U → ℕ → Thread → Option Method → Option (State rax U)
  end_method s thread th none = some s
  end_method s thread th (some m) = do
    left ← leave_method m th
    let s' = store_thread s thread left.0
    let end = rg_end sink s'.context s'.sink_data now left.0.tid m.function_id return_value >>= λ r.
        some (emitted s' r)
    if left.1 then end else some s'

  -- RUBY_EVENT_RETURN. `stale` is what the variable `entry` holds before the lookup: some of what an
  -- entry is, or none for a word that is no entry. A lookup that fails does not set the variable.
  unfoldable pub hook_return :
      State rax U → Option (Option Method) → ℕ → TraceArg → Option (State rax U)
  unfolding end_method
  hook_return s stale thread tparg = do
    th₀ ← load_thread s thread
    let th = leave_vm th₀
    let s' = store_thread s thread th
    let t = s.tracer
    let method = rb_rg_method_id ruby.hashes t.environment t.builtin_translator tparg
    let entry : Option (Option Method) = elim (st_lookup method t.method_table.filters.methodinfo) [
      | some found ↦ some found
      | none ↦ stale
    ]
    if vm_too_deep th || frameless th || (tparg.namespace == ruby.tracer_class)
        then some s'
        else (entry >>= λ m. end_method s' thread th m)

  -- RUBY_EVENT_RAISE.
  unfoldable pub hook_raise : State rax U → ℕ → Raised → Option (State rax U)
  unfolding rb_rg_exception_thrown
  hook_raise s thread e =
      let thrown = do
        th ← load_thread s thread
        function ← rb_rg_stack_peek th
        if (function == trace_entrypoint_frame_id) || ltb_ℤ (pos 0) (level th)
            then some s
            else rb_rg_exception_thrown s th.tid e
      in if e.class == ruby.fatal_class then some s else thrown

  unfoldable pub hook_thread_begin : State rax U → ℕ → ℕ → Option (State rax U)
  hook_thread_begin s current started = do
    r ←
        rb_rg_thread_started sink s.context s.sink_data now s.tracer.thread_table
          s.trace_context.parent_thread current started
    some (record s {
      tracer = record s.tracer { thread_table = r.0 };
      sink_data = r.1;
      context = r.2;
    })

  unfoldable pub hook_thread_end : State rax U → ℕ → Option (State rax U)
  hook_thread_end s ended = do
    r ← rb_rg_thread_ended sink s.context s.sink_data now s.tracer.thread_table ended
    some (record s {
      tracer = record s.tracer { thread_table = r.0 };
      sink_data = r.1;
      context = r.2;
    })

  -- The `switch`. `thread` is the thread that is followed.
  unfoldable pub hook_event :
      State rax U → Option (Option Method) → ℕ → ℕ → Running → TraceEvent → Option (State rax U)
  unfolding hook_call hook_return hook_raise hook_thread_begin hook_thread_end
  hook_event s stale before thread running (call tparg) = hook_call s before thread tparg
  hook_event s stale before thread running (return tparg) = hook_return s stale thread tparg
  hook_event s stale before thread running (raise e) = hook_raise s thread e
  hook_event s stale before thread running (thread_begin started) =
      hook_thread_begin s running.thread started
  hook_event s stale before thread running (thread_end ended) = hook_thread_end s ended

  unfoldable pub rb_rg_tracing_hook_i :
      State rax U → Option (Option Method) → ℕ → Running → TraceEvent → Option (State rax U)
  unfolding hook_event followed_thread
  rb_rg_tracing_hook_i s stale before running e =
      let s' = observed s running e in
      let followed : Option (State rax U) = elim (followed_thread ruby s' running) [
        | none ↦ some s'
        | some (thread, threads) ↦
            hook_event (record s' { tracer = record s'.tracer { thread_table = threads } }) stale
              before thread running e
      ] in
      if (running.thread == s.tracer.sink_thread) || (running.thread == s.tracer.timer_thread)
      then some s
      else followed
