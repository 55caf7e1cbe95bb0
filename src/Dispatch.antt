-- ===== src/Dispatch.antt =====
-- The dispatcher threads (ext/raygun/raygun_tracer.c), the consumers of the ring buffer. A wakeup is a
-- run of the inner loop of `rb_rg_udp_sink_thread` or `rb_rg_tcp_sink_thread`; the outer loop naps in
-- between. The socket is a parameter, with all that Ruby does on a send.
pub mod Queue
pub mod Drain
pub mod Packets
pub mod Pipeline
pub mod Shutdown
mod Tests
use raygun_apm_ruby.Base.{
  ℕ, zero, suc, ◌+◌, ◌*◌, ◌/◌, ◌%◌, ◌^◌, List, [], ◌∷◌, not, Option, none, some, Bool, true, false,
  ◌&&◌, ◌||◌, le_value,
}
use raygun_apm_ruby.Base.{leb, ◌==◌, if◌then◌else◌, take}
use raygun_apm_ruby.Memory.{◌>>=◌}
use raygun_apm_ruby.Sink.Bipbuf.{Bipbuf}
use raygun_apm_ruby.Sink.Batched.{SinkData, next_size}

-- RG_RINGBUF_SIZE.
abbrev pub ringbuf_size : ℕ
ringbuf_size = 10 * 1024 * 1024

-- `send` is the call of the transport under `rb_protect`: whether it raised, and the socket after it.
-- `disconnect` is `data->sock = Qnil`.
pub record Socket (W : Type 0) : Type 0 where
  pub send : List ℕ → W → Bool × W
  pub disconnect : W → W

module _ (bip : Bipbuf) {W : Type 0} (socket : Socket W) where
  open bip use {Buf, used, is_empty, peek, poll}

  unfoldable pub rg_ringbuf_next_message_size : Buf → ℕ
  rg_ringbuf_next_message_size q = elim (peek q 2) [ none ↦ 0 | some b ↦ le_value b ]

  -- The data of the sink, the socket, and `bytes_to_send_on_wakeup`, which is read only after sizes
  -- above 0 were added.
  pub record Dispatcher : Type 0 where
    pub sink_data : SinkData Buf
    pub world : W
    pub bytes : ℕ

  -- `!(size > 0)` on an `int16_t`.
  abbrev pub not_positive : ℕ → Bool
  not_positive size = (size == 0) || leb 32768 size

  -- `data->running = false; break`.
  abbrev pub stopped : Dispatcher → Dispatcher
  stopped s = record s { sink_data = record s.sink_data { running = false } }

  -- The jitter: the thread sleeps if much was sent since it woke up and the ring buffer has room.
  unfoldable pub jitter : Dispatcher → Dispatcher
  jitter s =
      if leb s.sink_data.receive_buffer_size s.bytes
        && leb (used s.sink_data.ringbuf) (ringbuf_size / 2)
      then record s {
        sink_data = record s.sink_data { jittered_sends = next_size s.sink_data.jittered_sends };
        bytes = 0;
      }
      else s

  unfoldable pub udp_send : List ℕ → ℕ → Dispatcher → Dispatcher
  udp_send payload size s =
      let (status, world) = socket.send payload s.world in
      if status
      then record s {
        sink_data = record s.sink_data { failed_sends = next_size s.sink_data.failed_sends };
        world = world;
      }
      else record s {
        sink_data = record s.sink_data { bytes_sent = (s.sink_data.bytes_sent + size) % 2 ^ 64 };
        world = world;
      }

  unfoldable pub tcp_send : List ℕ → ℕ → Dispatcher → Dispatcher
  tcp_send payload size s =
      let (status, world) = socket.send payload s.world in
      if status
      then record s {
        sink_data = record s.sink_data { failed_sends = next_size s.sink_data.failed_sends };
        world = socket.disconnect world;
      }
      else record s {
        sink_data = record s.sink_data { bytes_sent = (s.sink_data.bytes_sent + size) % 2 ^ 64 };
        world = world;
      }

  -- One iteration of the inner loop, and whether the loop goes on.
  unfoldable pub udp_iteration : Dispatcher → Dispatcher × Bool
  unfolding rg_ringbuf_next_message_size jitter udp_send
  udp_iteration s =
      let size = rg_ringbuf_next_message_size s.sink_data.ringbuf in
      if not_positive size
      then (stopped s, false)
      else (let (ptr, ringbuf) = poll s.sink_data.ringbuf size in
          let s' : Dispatcher = record s {
            sink_data = record s.sink_data { ringbuf = ringbuf };
            bytes = s.bytes + size;
          } in
          elim ptr [
            | none ↦ (stopped s', false)
            | some payload ↦ (udp_send (take size payload) size (jitter s'), true)
          ])

  unfoldable pub tcp_iteration : Dispatcher → Dispatcher × Bool
  unfolding rg_ringbuf_next_message_size tcp_send
  tcp_iteration s =
      let size = rg_ringbuf_next_message_size s.sink_data.ringbuf in
      if not_positive size
      then (stopped s, false)
      else (let (ptr, ringbuf) = poll s.sink_data.ringbuf size in
          let s' : Dispatcher = record s {
            sink_data = record s.sink_data { ringbuf = ringbuf };
            bytes = s.bytes + size;
          } in
          elim ptr [
            | none ↦ (stopped s', false)
            | some payload ↦ (tcp_send (take size payload) size s', true)
          ])

  -- The inner loop on fuel; none is a loop that is not over. Nobody fills the buffer meanwhile.
  unfoldable pub inner_loop : (Dispatcher → Dispatcher × Bool) → ℕ → Dispatcher → Option Dispatcher
  inner_loop body zero s = if is_empty s.sink_data.ringbuf then some s else none
  inner_loop body (suc fuel) s =
      let (s', goes_on) = body s in
      let rest = inner_loop body fuel s' in
      if is_empty s.sink_data.ringbuf then some s else if goes_on then rest else some s'

  -- A wakeup: `bytes_to_send_on_wakeup = 0`, then the inner loop.
  unfoldable pub udp_wakeup : ℕ → Dispatcher → Option Dispatcher
  unfolding inner_loop udp_iteration
  udp_wakeup fuel s = inner_loop udp_iteration fuel (record s { bytes = 0 })

  unfoldable pub tcp_wakeup : ℕ → Dispatcher → Option Dispatcher
  unfolding inner_loop tcp_iteration
  tcp_wakeup fuel s = inner_loop tcp_iteration fuel (record s { bytes = 0 })

  -- `while (data->running || !bipbuf_is_empty(…))`.
  abbrev pub goes_on : Dispatcher → Bool
  goes_on s = s.sink_data.running || not (is_empty s.sink_data.ringbuf)

  -- The outer loop, and whether it is over. A nap is what other threads do to the sink's data while
  -- the thread sleeps, which it does only while it is running; there is one for every iteration.
  unfoldable pub outer_loop :
      (Dispatcher → Option Dispatcher)
      → List (SinkData Buf → SinkData Buf)
      → Dispatcher
      → Option (Dispatcher × Bool)
  outer_loop wakeup [] s = some (s, not (goes_on s))
  outer_loop wakeup (nap ∷ naps) s =
      let iteration = wakeup s >>= λ s'.
      outer_loop wakeup naps
        (if s'.sink_data.running then record s' { sink_data = nap s'.sink_data } else s') in
      if goes_on s then iteration else some (s, true)

  unfoldable pub rb_rg_udp_sink_thread :
      ℕ → List (SinkData Buf → SinkData Buf) → Dispatcher → Option (Dispatcher × Bool)
  unfolding outer_loop udp_wakeup
  rb_rg_udp_sink_thread fuel naps s = outer_loop (udp_wakeup fuel) naps s

  unfoldable pub rb_rg_tcp_sink_thread :
      ℕ → List (SinkData Buf → SinkData Buf) → Dispatcher → Option (Dispatcher × Bool)
  unfolding outer_loop tcp_wakeup
  rb_rg_tcp_sink_thread fuel naps s = outer_loop (tcp_wakeup fuel) naps s
