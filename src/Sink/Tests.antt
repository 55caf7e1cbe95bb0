-- ===== src/Sink/Tests.antt =====
-- The sink of ext/raygun/raygun_tracer.c on concrete buffers.
use raygun_apm_ruby.Base.{ℕ, ◌+◌, ◌≤◌, ◌≡◌, refl, arith, true, List, [], ◌∷◌, ◌++◌, none, some, inl}
use raygun_apm_ruby.Base.{leb, ◌==◌, if◌then◌else◌, length, take, drop, replicate, length-replicate}
use raygun_apm_ruby.Protocol.{Event, EventBatch, end_transaction}
use raygun_apm_ruby.Encoder.Emit.{Context}
use raygun_apm_ruby.Sink.Bipbuf.{Bipbuf}
use raygun_apm_ruby.Sink.Batched.{SinkData, rb_rg_batched_sink}
use raygun_apm_ruby.Sink.Spec.{flat, Packet, batched, Batching, step, run, given, commands_of}
use raygun_apm_ruby.Sink.Sends.{offer_all, Holds, Sends}
use raygun_apm_ruby.Sink.Refine.{batched_sink-Sends, batched_sink_overflows}
use raygun_apm_ruby.Sink.Run.{
  SinkCall, emitted, timed, commands, run_sink, next_number, run_sink-conserves,
}

-- A first-in-first-out buffer of 65536 bytes.
abbrev pub fifo : Bipbuf
fifo = record {
  Buf = List ℕ;
  used = λ q. length q;
  is_empty = λ q. length q == 0;
  offer = λ q xs. if leb (length q + length xs) 65536 then (length xs, q ++ xs) else (0, q);
  peek = λ q n. if leb n (length q) then some (take n q) else none;
  poll = λ q n. if leb n (length q) then (some (take n q), drop n q) else (none, q);
}

abbrev scratch : Context
scratch = record { pid = 7; buf = replicate 32768 1 }

abbrev an_event : Event
an_event = record { length = 19; pid = 7; tid = 3; timestamp = 0; payload = end_transaction }

abbrev pub nothing_pending : Batching
nothing_pending = record { pid = 7; sequence = 0; pending = [] }

abbrev pub empty_batch : EventBatch
empty_batch = record {
  length = 13;
  type = 0xfa;
  count = 0;
  sequence = 0;
  pid = 7;
  buf = replicate 4096 0;
}

abbrev pub fresh : SinkData (List ℕ)
fresh = record {
  ringbuf = [];
  running = true;
  encoded_batched = 0;
  encoded_raw = 0;
  resets = 0;
  batches = 0;
  max_buf_used = 0;
  bytes_sent = 0;
  failed_sends = 0;
  jittered_sends = 0;
  receive_buffer_size = 0;
  batch = empty_batch;
}

pub fresh-Holds : Holds fifo nothing_pending fresh
unfolding flat
fresh-Holds = record {
  represents = record {
    room = length-replicate {A = ℕ} 4096 0;
    size = refl;
    small = omega arith;
    number = refl;
    few = omega arith;
    content = refl;
    kind = refl;
    sequence = refl;
    pid = refl;
  };
  within = omega arith;
}

holds_command : (n : ℕ) → n ≤ 32768 → n ≤ length scratch.buf
holds_command n h = omega (arith, h, length-replicate {A = ℕ} 32768 1)

batched_sink-Sends_example :
    let (s', ps) = step nothing_pending (some (take 19 scratch.buf)) in
    Sends fifo [] ps s' (rb_rg_batched_sink fifo scratch fresh (some an_event) 19)
batched_sink-Sends_example =
    batched_sink-Sends fifo scratch nothing_pending fresh an_event 19 fresh-Holds (omega arith)
      (holds_command 19 (omega arith)) (omega arith) (inl (omega arith))

batched_sink_overflows_example : rb_rg_batched_sink fifo scratch fresh (some an_event) 4090 ≡ none
batched_sink_overflows_example =
    batched_sink_overflows fifo scratch nothing_pending fresh an_event 4090 fresh-Holds
      (holds_command 4090 (omega arith)) (omega arith) (omega arith)

abbrev pending_one : Batching
pending_one = record { pid = 7; sequence = 5; pending = (1 ∷ 2 ∷ []) ∷ [] }

abbrev some_calls : List SinkCall
some_calls = emitted scratch an_event 19 ∷ timed scratch 0 ∷ emitted scratch an_event 1400 ∷ []

run_sink-conserves_example :
    (s' : Batching) × (ps : List Packet) × (after : SinkData (List ℕ)) × (run_sink fifo fresh
        some_calls
      ≡ some after)
    × Holds fifo s' after
    × (after.ringbuf ≡ offer_all fifo 7 ps [])
    × (next_number 0 ps ≡ some s'.sequence)
    × (commands_of ps ++ s'.pending ≡ [] ++ given (commands some_calls))
run_sink-conserves_example = run_sink-conserves fifo nothing_pending fresh some_calls fresh-Holds (
  omega arith,
  holds_command 19 (omega arith),
  omega arith,
  (omega arith, holds_command 1400 (omega arith), omega arith, tt),
)

-- Two commands and a flush in between.
flushes : run pending_one (some (3 ∷ []) ∷ none ∷ some (4 ∷ []) ∷ []) ≡ (
  record { pid = 7; sequence = 6; pending = (4 ∷ []) ∷ [] },
  batched 5 ((1 ∷ 2 ∷ []) ∷ (3 ∷ []) ∷ []) ∷ [],
)
unfolding run step flat
flushes = refl
