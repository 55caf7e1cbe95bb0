-- ===== src/Sink/Batched.antt =====
-- `rb_rg_batched_sink` (ext/raygun/raygun_tracer.c), the sink of the UDP and TCP transports.
use raygun_apm_ruby.Base.{
  ℕ, ◌+◌, ◌-◌, ◌%◌, ◌^◌, Option, none, some, Bool, true, false, ◌&&◌, ◌||◌, not,
}
use raygun_apm_ruby.Base.{ltb, leb, ◌==◌, if◌then◌else◌, borrow}
use raygun_apm_ruby.Memory.{read, ◌>>=◌}
use raygun_apm_ruby.Protocol.{
  Event, EventBatch, batch_packet_size, max_batch_packet_size, batch_headlen,
}
use raygun_apm_ruby.Encoder.Emit.{Context, Sink}
use raygun_apm_ruby.Sink.Bipbuf.{Bipbuf}
use raygun_apm_ruby.Sink.Batch.{rg_encode_into_batch, rg_encode_batch_header}

-- `rb_rg_sink_data_t` without the Ruby objects of the socket; `Buf` is the ring buffer.
pub record SinkData (Buf : Type 0) : Type 0 where
  pub ringbuf : Buf
  pub running : Bool
  pub encoded_batched : ℕ  -- size_t, as the counters below
  pub encoded_raw : ℕ
  pub resets : ℕ
  pub batches : ℕ
  pub max_buf_used : ℕ
  pub bytes_sent : ℕ
  pub failed_sends : ℕ
  pub jittered_sends : ℕ
  pub receive_buffer_size : ℕ
  pub batch : EventBatch

-- `x++` on a `size_t`.
abbrev pub next_size : ℕ → ℕ
next_size n = (n + 1) % 2 ^ 64

abbrev pub is_event : Option Event → Bool
is_event none = false
is_event (some _) = true

module _ (bip : Bipbuf) where
  open bip use {Buf, used, offer}

  unfoldable pub rb_rg_spawn_new_batch : SinkData Buf → SinkData Buf
  rb_rg_spawn_new_batch d = record d {
    batch = record d.batch { length = batch_headlen; count = 0 };
    resets = next_size d.resets;
    batches = next_size d.batches;
  }

  unfoldable pub track_buf_used : SinkData Buf → SinkData Buf
  track_buf_used d =
      if ltb d.max_buf_used (used d.ringbuf) then record d { max_buf_used = used d.ringbuf } else d

  -- The scratch buffer is appended to the batch, and counted.
  unfoldable pub append_command : Context → ℕ → SinkData Buf → Option (SinkData Buf)
  append_command ctx buflen d = do
    b ← rg_encode_into_batch ctx.buf buflen d.batch
    some (record d { batch = b; encoded_batched = next_size d.encoded_batched })

  -- `bipbuf_offer(…, batch.buf, batch.length)`.
  unfoldable pub offer_batch : SinkData Buf → Option (ℕ × SinkData Buf)
  offer_batch d = do
    packet ← read d.batch.buf d.batch.length
    let (ret, ringbuf) = offer d.ringbuf packet
    some (ret, record d { ringbuf = ringbuf })

  -- The header is encoded, the batch counted and offered.
  unfoldable pub finalize_batch : SinkData Buf → Option (ℕ × SinkData Buf)
  unfolding offer_batch
  finalize_batch d = do
    b ← rg_encode_batch_header d.batch
    offer_batch (record d { batch = b; batches = next_size d.batches })

  -- The second branch: flush the batch, and begin the next one with the command, if there is one.
  unfoldable pub flush_then_append :
      Context → SinkData Buf → Option Event → ℕ → Option (ℕ × SinkData Buf)
  unfolding finalize_batch rb_rg_spawn_new_batch append_command
  flush_then_append ctx d event buflen =
      if d.batch.length == batch_headlen
      then some (1, d)
      else (finalize_batch d >>= λ r.
          let d' = rb_rg_spawn_new_batch r.1 in
          if is_event event
          then (append_command ctx buflen d' >>= λ d''. some (r.0, d''))
          else some (r.0, d'))

  -- The third branch: a command that no batch of the usual size holds.
  unfoldable pub send_oversized : Context → SinkData Buf → ℕ → Option (ℕ × SinkData Buf)
  unfolding finalize_batch rb_rg_spawn_new_batch offer_batch
  send_oversized ctx d buflen =
      if leb (max_batch_packet_size - 2 + borrow buflen) buflen
      then (read ctx.buf buflen >>= λ raw.
          let (ret, ringbuf) = offer d.ringbuf raw in
          let d' = rb_rg_spawn_new_batch (record d { ringbuf = ringbuf }) in
          some (ret, record d' { encoded_raw = next_size d'.encoded_raw }))
      else do
        (_, d₁) ← finalize_batch d
        let d₂ = rb_rg_spawn_new_batch d₁
        b ← rg_encode_into_batch ctx.buf buflen d₂.batch
        b' ← rg_encode_batch_header b
        (ret, d₃) ← offer_batch (record d₂ { batch = b' })
        some (ret, rb_rg_spawn_new_batch d₃)

  -- The three branches on the size of the command, once the fill of the ring buffer is noted.
  unfoldable pub dispatch_command :
      Context → SinkData Buf → Option Event → ℕ → Option (ℕ × SinkData Buf)
  unfolding append_command flush_then_append send_oversized
  dispatch_command ctx d event buflen =
      if is_event event
        && leb (d.batch.length + buflen) (batch_packet_size + borrow d.batch.length + borrow buflen)
      then (append_command ctx buflen d >>= λ d'. some (1, d'))
      else if not (is_event event)
          || leb (batch_headlen + buflen) (batch_packet_size + borrow buflen)
      then flush_then_append ctx d event buflen
      else send_oversized ctx d buflen

  unfoldable pub rb_rg_batched_sink : Sink (SinkData Buf)
  unfolding track_buf_used dispatch_command
  rb_rg_batched_sink ctx userdata event buflen =
      dispatch_command ctx (track_buf_used userdata) event buflen
