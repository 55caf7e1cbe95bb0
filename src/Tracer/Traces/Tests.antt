-- ===== src/Tracer/Traces/Tests.antt =====
-- Traces (ext/raygun/raygun_tracer.c) with a concrete profiler.
use raygun_apm_ruby.Base.{
  ℕ, ◌+◌, ◌≡◌, refl, arith, List, [], ◌∷◌, ◌++◌, none, some, true, false, if◌then◌else◌, leb, ◌==◌,
  length, take, drop, replicate, length-replicate,
}
use raygun_apm_ruby.Protocol.{
  BeginTransaction, EventData, process_frequency, begin_transaction, end_transaction, process_ended,
  scratch_buffer_size,
}
use raygun_apm_ruby.Encoder.Wire.{command_bytes}
use raygun_apm_ruby.Encoder.Emit.{Context}
use raygun_apm_ruby.Encoder.Emit.Delivery.{delivered}
use raygun_apm_ruby.Sink.Bipbuf.{Bipbuf}
use raygun_apm_ruby.Sink.Batched.{SinkData, rb_rg_batched_sink}
use raygun_apm_ruby.Sink.Spec.{Batching, flat, flush}
use raygun_apm_ruby.Sink.Sends.{offer_all, Holds}
use raygun_apm_ruby.Tracer.Hook.{Ruby, Running}
use raygun_apm_ruby.Tracer.Traces.{
  Profiler, timestamp_units_per_second, current_trace, rb_rg_tracer_start_trace,
  rb_rg_tracer_end_trace, rb_rg_process_ended,
}
use raygun_apm_ruby.Tracer.Traces.Lifecycle.{keeping, trace-ends}
use raygun_apm_ruby.Tracer.Traces.Ended.{process_ended-pending}

abbrev mri : Ruby
mri = record {
  hashes = record {
    rb_hash_start = λ n. n;
    rb_hash_uint = λ h n. h + n;
    rb_hash_end = λ h. h;
    rb_str_hash = λ s. length s;
  };
  rb_str_encode = λ e s. s;
  correlation_of = λ pid tracer e. pid ∷ tracer ∷ e ∷ [];
  nil = 8;
  default_thread_group = 1;
  tracer_class = 2;
  fatal_class = 3;
}

abbrev scratch : Context
scratch = record { pid = 7; buf = replicate scratch_buffer_size 0 }

-- A profiler between two traces.
abbrev idle : {U : Type 0} → U → Profiler U
idle u = record {
  thread_table = record { threads = 0; threadsinfo = [] };
  tracecontexts = [];
  api_key = none;
  technology_type = 82 ∷ [];
  process_type = 87 ∷ [];
  noop = false;
  sink_thread = true;
  running = true;
  context = scratch;
  sink_data = u;
  enabled = λ k. false;
}

abbrev main : Running
main = record { thread = 40; thgroup = 0 }

trace-ends_example :
    let p = idle [] in
    let running' = record main { thgroup = 50 } in
    (p₁ p₂ : Profiler (List EventData)) × (b : BeginTransaction) × (rb_rg_tracer_start_trace mri
        keeping 1 p 2 main 50 60
      ≡ some (true, running', p₁))
    × (p₁.enabled 60 ≡ true)
    × ((group' tracepoint' : ℕ)
        → rb_rg_tracer_start_trace mri keeping 1 p₁ 2 running' group' tracepoint'
          ≡ some (false, running', p₁))
    × (rb_rg_tracer_end_trace mri keeping 3 p₁ running' ≡ some (true, p₂))
    × (p₂.enabled 60 ≡ false)
    × (rb_rg_tracer_end_trace mri keeping 3 p₂ running' ≡ some (false, p₂))
    × (p₂.sink_data
        ≡ []
          ++ process_frequency (record { frequency = timestamp_units_per_second }) ∷ []
          ++ begin_transaction b ∷ []
          ++ end_transaction ∷ [])
unfolding current_trace
trace-ends_example =
    trace-ends mri (idle []) 1 2 main 50 60 3 refl refl (omega arith)
      (length-replicate {A = ℕ} scratch_buffer_size 0)

-- A first-in-first-out buffer of 65536 bytes.
abbrev fifo : Bipbuf
fifo = record {
  Buf = List ℕ;
  used = λ q. length q;
  is_empty = λ q. length q == 0;
  offer = λ q xs. if leb (length q + length xs) 65536 then (length xs, q ++ xs) else (0, q);
  peek = λ q n. if leb n (length q) then some (take n q) else none;
  poll = λ q n. if leb n (length q) then (some (take n q), drop n q) else (none, q);
}

abbrev no_commands : Batching
no_commands = record { pid = 7; sequence = 0; pending = [] }

abbrev quiet : SinkData (List ℕ)
quiet = record {
  ringbuf = [];
  running = true;
  encoded_batched = 0;
  encoded_raw = 0;
  resets = 0;
  batches = 0;
  max_buf_used = 0;
  bytes_sent = 0;
  failed_sends = 0;
  jittered_sends = 0;
  receive_buffer_size = 0;
  batch = record {
    length = 13;
    type = 0xfa;
    count = 0;
    sequence = 0;
    pid = 7;
    buf = replicate 4096 0;
  };
}

quiet-Holds : Holds fifo no_commands quiet
unfolding flat
quiet-Holds = record {
  represents = record {
    room = length-replicate {A = ℕ} 4096 0;
    size = refl;
    small = omega arith;
    number = refl;
    few = omega arith;
    content = refl;
    kind = refl;
    sequence = refl;
    pid = refl;
  };
  within = omega arith;
}

process_ended-pending_example :
    let p = idle quiet in
    (p' : Profiler (SinkData (List ℕ))) × (s' : Batching) × (rb_rg_process_ended mri
        (rb_rg_batched_sink fifo)
        9
        p
      ≡ some p')
    × (p'.sink_data.ringbuf ≡ offer_all fifo 7 (flush no_commands).1 [])
    × Holds fifo s' p'.sink_data
    × (s'.pending ≡ command_bytes (delivered scratch 9 0 process_ended) ∷ [])
    × (p'.running ≡ false)
process_ended-pending_example =
    process_ended-pending fifo mri (idle quiet) no_commands 9 quiet-Holds
      (length-replicate {A = ℕ} scratch_buffer_size 0)
