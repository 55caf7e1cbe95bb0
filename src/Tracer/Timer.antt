-- ===== src/Tracer/Timer.antt =====
-- The timer thread of ext/raygun/raygun_tracer.c: `rb_rg_timer_thread` and what it calls,
-- `rb_rg_async_emit_methodinfos`.
pub mod Spec
pub mod Schedule
mod Tests
use raygun_apm_ruby.Base.{
  ℕ, ◌+◌, List, [], ◌∷◌, Option, none, some, Bool, true, false, ◌==◌, ◌||◌, ◌&&◌, not,
  if◌then◌else◌,
}
use raygun_apm_ruby.Memory.{◌>>=◌}
use raygun_apm_ruby.Protocol.{Event, Methodinfo, Method}
use raygun_apm_ruby.Encoder.Emit.{Context, Sink}
use raygun_apm_ruby.Tracer.Resync.{emit_all}
use raygun_apm_ruby.Tracer.Hook.{Ruby}
use raygun_apm_ruby.Tracer.Traces.{
  Profiler, timestamp_units_per_second, rb_rg_process_frequency, rb_rg_process_type,
  rb_rg_flush_batched_sink,
}

abbrev pub timer_thread_methodinfo_tick : ℕ
timer_thread_methodinfo_tick = 30

pub data SinkType : Type 0 where
  sink_none : SinkType
  sink_callback : SinkType
  sink_udp : SinkType
  sink_tcp : SinkType

abbrev pub is_tcp : SinkType → Bool
is_tcp sink_tcp = true
is_tcp sink_udp = false
is_tcp sink_callback = false
is_tcp sink_none = false

abbrev pub is_transport : SinkType → Bool
is_transport sink_udp = true
is_transport sink_tcp = true
is_transport sink_callback = false
is_transport sink_none = false

-- What the timer thread finds once it has slept: the time of the two commands, the entries of the
-- method table in the order of `st_foreach`, and the socket that connects, none if that fails.
pub record Tick : Type 0 where
  pub frequency_time : ℕ
  pub type_time : ℕ
  pub methodinfo : List (Option Method)
  pub connection : Option ℕ

-- The local variable of the thread, and the members of the tracer that it uses. No socket is nil.
pub record Timer (U : Type 0) : Type 0 where
  pub profiler : Profiler U
  pub methodinfo_sync_ticks : ℕ
  pub sock : Option ℕ

abbrev pub is_nil {ℓ} : {A : Type ℓ} → Option A → Bool
is_nil none = true
is_nil (some x) = false

module _ (ruby : Ruby) {U : Type 0} (sink : Sink U) (type : SinkType) (stale : Event)
    (unset : Methodinfo) where
  unfoldable pub rb_rg_async_emit_methodinfos : Profiler U → Tick → Option (Profiler U)
  rb_rg_async_emit_methodinfos p tick =
      let announced =
        rb_rg_process_frequency ruby sink tick.frequency_time p timestamp_units_per_second >>= λ p₁.
        rb_rg_process_type ruby sink tick.type_time p₁ >>= λ p₂.
        emit_all sink stale unset p₂.sink_data p₂.context tick.methodinfo >>= λ r.
        some (record p₂ { sink_data = r.0; context = r.1 }) in
      elim tick.methodinfo [
        | [] ↦ some p
        | entry ∷ entries ↦ if not (is_transport type) then some p else announced
      ]

  -- The body of the loop, after the sleep.
  unfoldable pub timer_tick : Timer U → Tick → Option (Timer U)
  unfolding rb_rg_async_emit_methodinfos rb_rg_flush_batched_sink
  timer_tick t tick = do
    p ← rb_rg_flush_batched_sink ruby sink 0 t.profiler
    let due = t.methodinfo_sync_ticks == timer_thread_methodinfo_tick
    p' ← (if due then rb_rg_async_emit_methodinfos p tick else some p)
    some (record {
      profiler = p';
      methodinfo_sync_ticks = 1 + (if due then 0 else t.methodinfo_sync_ticks);
      sock = if is_tcp type && is_nil t.sock then tick.connection else t.sock;
    })

  -- The loop. `running` is a variable that other threads reset: the number of ticks is how often the
  -- thread finds it set.
  unfoldable pub rb_rg_timer_thread : Timer U → List Tick → Option (Timer U)
  unfolding timer_tick
  rb_rg_timer_thread t [] = some t
  rb_rg_timer_thread t (tick ∷ ticks) = timer_tick t tick >>= λ t'. rb_rg_timer_thread t' ticks
