-- ===== src/Tracer/Traces.antt =====
-- A trace from its start to its end, and the end of the profiler: `rb_rg_tracer_start_trace`,
-- `rb_rg_tracer_end_trace` and `rb_rg_process_ended` (ext/raygun/raygun_tracer.c), with the trace
-- contexts of ext/raygun/raygun_trace_context.c.
pub mod Lifecycle
pub mod Ended
mod Tests
use raygun_apm_ruby.Base.{
  ℕ, List, Option, none, some, Bool, true, false, pos, ◌==◌, if◌then◌else◌, replicate,
}
use raygun_apm_ruby.Memory.{◌>>=◌}
use raygun_apm_ruby.Protocol.{Thread, thread_frameless, shadow_stack_limit}
use raygun_apm_ruby.Encoder.Emit.{
  Context, Sink, rg_process_frequency, rg_begin_transaction, rg_end_transaction, rg_process_type,
  rg_process_ended,
}
use raygun_apm_ruby.Coercion.Strings.{rb_rg_encode_string}
use raygun_apm_ruby.Tracer.Table.{st_lookup, st_insert, st_delete}
use raygun_apm_ruby.Tracer.Threads.{ThreadTable, rb_rg_thread}
use raygun_apm_ruby.Tracer.Methods.{unset_ascii}
use raygun_apm_ruby.Tracer.Hook.{Ruby, Running, TraceContext, rb_rg_thread_group}

abbrev pub timestamp_units_per_second : ℕ
timestamp_units_per_second = 1000000

-- `rb_rg_trace_context_t`: what the hook reads, and the tracepoint, none for nil.
pub record Trace : Type 0 where
  pub trace_context : TraceContext
  pub tracepoint : Option ℕ

-- The members of `rb_rg_tracer_t` that traces are about, the encoder's context, the sink's data, and
-- which tracepoints Ruby has enabled.
pub record Profiler (U : Type 0) : Type 0 where
  pub thread_table : ThreadTable
  pub tracecontexts : List (ℕ × Trace)
  pub api_key : Option (List ℕ)  -- none is nil
  pub technology_type : List ℕ
  pub process_type : List ℕ
  pub noop : Bool
  pub sink_thread : Bool  -- whether there is one
  pub running : Bool  -- of the sink's data
  pub context : Context
  pub sink_data : U
  pub enabled : ℕ → Bool

-- `xs[k] = value`, for a set of tracepoints.
abbrev pub switch_to : Bool → ℕ → (ℕ → Bool) → ℕ → Bool
switch_to value tracepoint enabled k = if k == tracepoint then value else enabled k

-- The shadow thread at the start of a trace.
unfoldable pub reset_thread : Thread → Thread
reset_thread th = record th {
  shadow_top = thread_frameless;
  vm_top = thread_frameless;
  level_deep_into_third_party_lib = pos 0;
  shadow_stack = replicate shadow_stack_limit 0;
}

unfoldable pub rb_rg_trace_context_alloc :
    Ruby → ThreadTable → ℕ → TraceContext × Thread × ThreadTable
unfolding reset_thread
rb_rg_trace_context_alloc ruby t thread =
    let (th, t') = rb_rg_thread t thread in
    (
      record { thread = thread; parent_thread = none; thgroup = ruby.nil },
      reset_thread th,
      record t' { threadsinfo = st_insert thread (reset_thread th) t'.threadsinfo },
    )

-- What is left of the tracepoints that are enabled.
unfoldable pub rb_rg_trace_context_free : Trace → (ℕ → Bool) → ℕ → Bool
rb_rg_trace_context_free trace enabled = elim trace.tracepoint [
  | none ↦ enabled
  | some tracepoint ↦ if enabled tracepoint then switch_to false tracepoint enabled else enabled
]

module _ {U : Type 0} where
  abbrev pub sent : Profiler U → ℕ × U × Context → Profiler U
  sent p r = record p { sink_data = r.1; context = r.2 }

  -- The trace of the current thread's group.
  unfoldable pub current_trace : Ruby → Profiler U → Running → Option Trace
  current_trace ruby p running = st_lookup (rb_rg_thread_group ruby running.thgroup) p.tracecontexts

module _ (ruby : Ruby) {U : Type 0} (sink : Sink U) (now : ℕ) where
  unfoldable pub rb_rg_process_frequency : Profiler U → ℕ → Option (Profiler U)
  rb_rg_process_frequency p frequency = do
    r ← rg_process_frequency sink p.context p.sink_data now 0 frequency
    some (sent p r)

  unfoldable pub rb_rg_process_type : Profiler U → Option (Profiler U)
  rb_rg_process_type p = do
    technology ← rb_rg_encode_string ruby.rb_str_encode unset_ascii (some p.technology_type)
    type ← rb_rg_encode_string ruby.rb_str_encode unset_ascii (some p.process_type)
    r ← rg_process_type sink p.context p.sink_data now 0 technology type
    some (sent p r)

  unfoldable pub rb_rg_begin_transaction : Profiler U → ℕ → Option (Profiler U)
  rb_rg_begin_transaction p tid = do
    api_key ← rb_rg_encode_string ruby.rb_str_encode unset_ascii p.api_key
    technology ← rb_rg_encode_string ruby.rb_str_encode unset_ascii (some p.technology_type)
    type ← rb_rg_encode_string ruby.rb_str_encode unset_ascii (some p.process_type)
    r ← rg_begin_transaction sink p.context p.sink_data now tid api_key technology type
    some (sent p r)

module _ (ruby : Ruby) {U : Type 0} (sink : Sink U) (now : ℕ) where
  -- `group` and `tracepoint` are the objects that Ruby makes; the thread joins the group. `later` is the
  -- time of the second command.
  unfoldable pub rb_rg_tracer_start_trace :
      Profiler U → ℕ → Running → ℕ → ℕ → Option (Bool × Running × Profiler U)
  unfolding current_trace rb_rg_trace_context_alloc rb_rg_process_frequency rb_rg_begin_transaction
  rb_rg_tracer_start_trace p later running group tracepoint =
      let (c, th, threads) = rb_rg_trace_context_alloc ruby p.thread_table running.thread in
      let c' : TraceContext = record c { thgroup = group } in
      let p₁ : Profiler U = record p {
        thread_table = threads;
        tracecontexts =
            st_insert group (record { trace_context = c'; tracepoint = none }) p.tracecontexts;
      } in
      let started = rb_rg_process_frequency ruby sink now p₁ timestamp_units_per_second >>= λ p₂.
      rb_rg_begin_transaction ruby sink later p₂ th.tid >>= λ p₃. some (
        true,
        record running { thgroup = group },
        record p₃ {
          tracecontexts =
              st_insert group (record { trace_context = c'; tracepoint = some tracepoint })
                p₃.tracecontexts;
          enabled = switch_to true tracepoint p₃.enabled;
        },
      ) in
      if p.noop then some (false, running, p) else elim (current_trace ruby p running) [
        | some trace ↦ some (false, running, p)
        | none ↦ started
      ]

  -- The shadow thread of a trace is the entry of the thread table for the trace's thread.
  unfoldable pub rb_rg_tracer_end_trace : Profiler U → Running → Option (Bool × Profiler U)
  unfolding current_trace rb_rg_trace_context_free
  rb_rg_tracer_end_trace p running = elim (current_trace ruby p running) [
    | none ↦ some (false, p)
    | some trace ↦
        (st_lookup trace.trace_context.thread p.thread_table.threadsinfo >>= λ th.
        rg_end_transaction sink p.context p.sink_data now th.tid >>= λ r. some (
          true,
          record (sent p r) {
            tracecontexts = st_delete (rb_rg_thread_group ruby running.thgroup) p.tracecontexts;
            enabled = rb_rg_trace_context_free trace p.enabled;
          },
        ))
  ]

  -- `rb_rg_flush_batched_sink`.
  unfoldable pub rb_rg_flush_batched_sink : Profiler U → Option (Profiler U)
  rb_rg_flush_batched_sink p = do
    r ← sink p.context p.sink_data none 0
    some (record p { sink_data = r.1 })

  -- The wait for the sink thread is Ruby's, and so is what it raises.
  unfoldable pub rb_rg_process_ended : Profiler U → Option (Profiler U)
  unfolding rb_rg_flush_batched_sink
  rb_rg_process_ended p = do
    p' ← rb_rg_flush_batched_sink p
    r ← rg_process_ended sink p'.context p'.sink_data now 0
    let p'' = sent p' r
    some (if p''.sink_thread then record p'' { running = false } else p'')
