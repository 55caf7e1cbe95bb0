-- ===== src/Tracer/Emit/Tests.antt =====
-- An event of the Ruby API that is emitted (ext/raygun/raygun_tracer.c).
use raygun_apm_ruby.Base.{
  ℕ, ◌+◌, ◌≡◌, refl, arith, List, [], ◌∷◌, ◌++◌, none, some, true, false, inl, inr, if◌then◌else◌,
  leb, ◌==◌, length, take, drop, replicate, length-replicate,
}
use raygun_apm_ruby.Protocol.{EncodedString, Event, Sql, sql, scratch_buffer_size}
use raygun_apm_ruby.Protocol.Valid.{IsString}
use raygun_apm_ruby.Encoder.Size.{rg_encode_size}
use raygun_apm_ruby.Encoder.Wire.{command_bytes}
use raygun_apm_ruby.Encoder.Emit.{Context}
use raygun_apm_ruby.Event.Encoded.{copied_raw}
use raygun_apm_ruby.Sink.Bipbuf.{Bipbuf}
use raygun_apm_ruby.Sink.Batched.{SinkData, rb_rg_batched_sink}
use raygun_apm_ruby.Sink.Spec.{Batching, flat, step}
use raygun_apm_ruby.Sink.Sends.{offer_all, Holds}
use raygun_apm_ruby.Tracer.Traces.{Profiler}
use raygun_apm_ruby.Tracer.Emit.{rb_rg_tracer_emit}
use raygun_apm_ruby.Tracer.Emit.Sends.{emit-Sends}

abbrev scratch : Context
scratch = record { pid = 7; buf = replicate scratch_buffer_size 0 }

-- A profiler between two traces.
abbrev idle : {U : Type 0} → U → Profiler U
idle u = record {
  thread_table = record { threads = 0; threadsinfo = [] };
  tracecontexts = [];
  api_key = none;
  technology_type = 82 ∷ [];
  process_type = 87 ∷ [];
  noop = false;
  sink_thread = true;
  running = true;
  context = scratch;
  sink_data = u;
  enabled = λ k. false;
}

-- A first-in-first-out buffer of 65536 bytes.
abbrev fifo : Bipbuf
fifo = record {
  Buf = List ℕ;
  used = λ q. length q;
  is_empty = λ q. length q == 0;
  offer = λ q xs. if leb (length q + length xs) 65536 then (length xs, q ++ xs) else (0, q);
  peek = λ q n. if leb n (length q) then some (take n q) else none;
  poll = λ q n. if leb n (length q) then (some (take n q), drop n q) else (none, q);
}

abbrev no_commands : Batching
no_commands = record { pid = 7; sequence = 0; pending = [] }

abbrev quiet : SinkData (List ℕ)
quiet = record {
  ringbuf = [];
  running = true;
  encoded_batched = 0;
  encoded_raw = 0;
  resets = 0;
  batches = 0;
  max_buf_used = 0;
  bytes_sent = 0;
  failed_sends = 0;
  jittered_sends = 0;
  receive_buffer_size = 0;
  batch = record {
    length = 13;
    type = 0xfa;
    count = 0;
    sequence = 0;
    pid = 7;
    buf = replicate 4096 0;
  };
}

quiet-Holds : Holds fifo no_commands quiet
unfolding flat
quiet-Holds = record {
  represents = record {
    room = length-replicate {A = ℕ} 4096 0;
    size = refl;
    small = omega arith;
    number = refl;
    few = omega arith;
    content = refl;
    kind = refl;
    sequence = refl;
    pid = refl;
  };
  within = omega arith;
}

abbrev unset : EncodedString
unset = record { encoding = 0; length = 0; string = replicate 4096 0 }

unset-IsString : IsString unset
unset-IsString = record {
  in_array = omega (arith, length-replicate {A = ℕ} 4096 0);
  array = omega (arith, length-replicate {A = ℕ} 4096 0);
}

abbrev a_query : Sql
a_query = record { provider = unset; host = unset; database = unset; query = unset; duration = 0 }

abbrev an_event : Event
an_event = record { length = 39; pid = 7; tid = 3; timestamp = 0; payload = sql a_query }

-- The struct in memory, all zeros.
abbrev zeros : Event → List ℕ
zeros e = replicate 200 0

emit-Sends_example :
    let (s', ps) = step no_commands (some (command_bytes an_event)) in
    (p' : Profiler (SinkData (List ℕ))) × (rb_rg_tracer_emit
        (rb_rg_batched_sink fifo)
        zeros
        (idle quiet)
        (some an_event)
        (replicate 39 0)
      ≡ some (inr true, p'))
    × (p'.sink_data.ringbuf ≡ offer_all fifo s'.pid ps [])
    × Holds fifo s' p'.sink_data
unfolding copied_raw rg_encode_size
emit-Sends_example =
    emit-Sends fifo zeros (idle quiet) no_commands an_event (replicate 39 0) refl quiet-Holds
      (length-replicate {A = ℕ} scratch_buffer_size 0)
      (unset-IsString, unset-IsString, unset-IsString, unset-IsString) (λ e. cc) refl refl refl
      (inl (omega arith))
