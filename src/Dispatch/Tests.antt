-- ===== src/Dispatch/Tests.antt =====
-- A wakeup of the dispatchers (ext/raygun/raygun_tracer.c) on a concrete ring buffer.
use raygun_apm_ruby.Base.{
  ℕ, ◌+◌, refl, arith, List, [], ◌∷◌, ◌++◌, Option, none, some, Bool, true, false, length, ◌≤◌,
  replicate, length-replicate, take, take_all, leb, if◌then◌else◌,
}
use raygun_apm_ruby.Sink.Bipbuf.{Bipbuf}
use raygun_apm_ruby.Sink.Batched.{SinkData}
use raygun_apm_ruby.Dispatch.{
  Socket, Dispatcher, udp_wakeup, tcp_wakeup, rg_ringbuf_next_message_size, rb_rg_udp_sink_thread,
  rb_rg_tcp_sink_thread,
}
use raygun_apm_ruby.Dispatch.Queue.{Queue, Fifo}
use raygun_apm_ruby.Protocol.{Event, end_transaction}
use raygun_apm_ruby.Encoder.Emit.{Context}
use raygun_apm_ruby.Sink.Spec.{
  Batching, flat, packet_bytes, run, step, accept, flush, flush_pending,
}
use raygun_apm_ruby.Sink.Sends.{Holds}
use raygun_apm_ruby.Sink.Run.{SinkCall, emitted, timed}
use raygun_apm_ruby.Dispatch.Shutdown.{Ends, Spins, sink_threads-Ends, sink_threads-spin}
use raygun_apm_ruby.Dispatch.Pipeline.{Delivered, all_commands, run_rounds, rounds-Delivered}
use raygun_apm_ruby.Dispatch.Drain.{udp_sent, tcp_sent}

abbrev first : List (List ℕ) → ℕ → Option (List ℕ)
first [] n = none
first (m ∷ ms) n = if leb n (length m) then some (take n m) else none

abbrev total : List (List ℕ) → ℕ
total [] = 0
total (m ∷ ms) = length m + total ms

-- The first `n` bytes leave, which are the first message.
abbrev without : List (List ℕ) → ℕ → List (List ℕ)
without [] n = []
without (m ∷ ms) n = if leb n (length m) then ms else m ∷ ms

abbrev no_message : List (List ℕ) → Bool
no_message [] = true
no_message (m ∷ ms) = false

-- A buffer of messages.
abbrev mailbox : Bipbuf
mailbox = record {
  Buf = List (List ℕ);
  used = total;
  is_empty = no_message;
  offer = λ q m. (length m, q ++ (m ∷ []));
  peek = first;
  poll = λ q n. (first q n, without q n);
}

abbrev mailbox_queue : Queue mailbox
mailbox_queue = record {
  messages = λ q. q;
  empty = λ q h. ground (arith, h);
  filled = λ q m ms h. ground (arith, h);
  peeked = λ q m ms n h k. ground (arith, h, k);
  polled = λ q m ms h. (ground (arith, h, take_all (length m) m), ground (arith, h));
}

-- A socket that keeps what it was given and fails for messages of one length.
abbrev wire : Socket (List (List ℕ))
wire = record { send = λ m sent. (leb (length m) 3, m ∷ sent); disconnect = λ sent. sent }

abbrev filled : SinkData (List (List ℕ))
filled = record {
  ringbuf = (3 ∷ 0 ∷ 9 ∷ []) ∷ (4 ∷ 0 ∷ 8 ∷ 8 ∷ []) ∷ [];
  running = true;
  encoded_batched = 0;
  encoded_raw = 0;
  resets = 0;
  batches = 0;
  max_buf_used = 0;
  bytes_sent = 0;
  failed_sends = 0;
  jittered_sends = 0;
  receive_buffer_size = 5;
  batch = record { length = 13; type = 0xfa; count = 0; sequence = 0; pid = 7; buf = [] };
}

abbrev asleep : Dispatcher mailbox wire
asleep = record { sink_data = filled; world = []; bytes = 0 }

-- The mailbox takes every message.
abbrev mailbox_fifo : Fifo mailbox mailbox_queue
mailbox_fifo = record { capacity = 65536; offered = λ q m h. refl }

abbrev scratch : Context
scratch = record { pid = 7; buf = replicate 32768 1 }

abbrev an_event : Event
an_event = record { length = 19; pid = 7; tid = 3; timestamp = 0; payload = end_transaction }

abbrev nothing_pending : Batching
nothing_pending = record { pid = 7; sequence = 0; pending = [] }

abbrev waiting : Dispatcher mailbox wire
waiting = record {
  sink_data = record filled {
    ringbuf = [];
    batch = record {
      length = 13;
      type = 0xfa;
      count = 0;
      sequence = 0;
      pid = 7;
      buf = replicate 4096 0;
    };
  };
  world = [];
  bytes = 0;
}

waiting-Holds : Holds mailbox nothing_pending waiting.sink_data
unfolding flat
waiting-Holds = record {
  represents = record {
    room = length-replicate {A = ℕ} 4096 0;
    size = refl;
    small = omega arith;
    number = refl;
    few = omega arith;
    content = refl;
    kind = refl;
    sequence = refl;
    pid = refl;
  };
  within = omega arith;
}

holds_command : 19 ≤ length scratch.buf
holds_command = omega (arith, length-replicate {A = ℕ} 32768 1)

-- A command and a flush, then a command that stays pending.
abbrev some_rounds : List (List SinkCall)
some_rounds =
    (emitted scratch an_event 19 ∷ timed scratch 0 ∷ []) ∷ (emitted scratch an_event 19 ∷ []) ∷ []

rounds-Delivered_example :
    Delivered mailbox mailbox_queue mailbox_fifo wire
      (udp_sent mailbox mailbox_queue wire)
      nothing_pending
      waiting
      (all_commands some_rounds)
      (run_rounds mailbox mailbox_queue mailbox_fifo wire
        (udp_wakeup mailbox wire 1)
        waiting
        some_rounds)
    × Delivered mailbox mailbox_queue mailbox_fifo wire
        (tcp_sent mailbox mailbox_queue wire)
        nothing_pending
        waiting
        (all_commands some_rounds)
        (run_rounds mailbox mailbox_queue mailbox_fifo wire
          (tcp_wakeup mailbox wire 1)
          waiting
          some_rounds)
unfolding run step accept flush flush_pending flat packet_bytes
rounds-Delivered_example =
    rounds-Delivered mailbox mailbox_queue mailbox_fifo wire 1 some_rounds nothing_pending waiting
      waiting-Holds refl
      (
        (omega arith, holds_command, omega arith, tt),
        omega arith,
        omega arith,
        ((omega arith, holds_command, omega arith, tt), omega arith, omega arith, tt),
      )

-- Told to stop, with two messages left.
abbrev stopping : Dispatcher mailbox wire
stopping = record { sink_data = record filled { running = false }; world = []; bytes = 0 }

sink_threads-Ends_example :
    Ends mailbox wire mailbox_queue
      (udp_sent mailbox mailbox_queue wire)
      stopping
      (rb_rg_udp_sink_thread mailbox wire 2 ((λ d. d) ∷ []) stopping)
    × Ends mailbox wire mailbox_queue
        (tcp_sent mailbox mailbox_queue wire)
        stopping
        (rb_rg_tcp_sink_thread mailbox wire 2 ((λ d. d) ∷ []) stopping)
sink_threads-Ends_example =
    sink_threads-Ends mailbox wire mailbox_queue 2 (λ d. d) [] stopping refl
      (
        record { not_short = omega arith; signed = omega arith; announced = refl },
        (record { not_short = omega arith; signed = omega arith; announced = refl }, tt),
      )
      (omega arith)

-- A message that announces no bytes.
abbrev stuck : Dispatcher mailbox wire
stuck = record {
  sink_data = record filled { ringbuf = (0 ∷ 0 ∷ 9 ∷ []) ∷ [] };
  world = [];
  bytes = 0;
}

sink_threads-spin_example :
    Spins mailbox wire stuck (rb_rg_udp_sink_thread mailbox wire 1 ((λ d. d) ∷ []) stuck)
    × Spins mailbox wire stuck (rb_rg_tcp_sink_thread mailbox wire 1 ((λ d. d) ∷ []) stuck)
unfolding rg_ringbuf_next_message_size
sink_threads-spin_example = sink_threads-spin mailbox wire 0 ((λ d. d) ∷ []) stuck refl refl
