-- ===== src/Sink/Sends.antt =====
-- The steps of the batched sink (ext/raygun/raygun_tracer.c), each against the specification.
use raygun_apm_ruby.Base.{
  ℕ, ◌+◌, ◌≤◌, ◌<◌, ◌≡◌, refl, sym, arith, List, [], ◌∷◌, ◌++◌, Option, some,
}
use raygun_apm_ruby.Base.{length, take}
use mathlib.Core.Path.{subst}
use raygun_apm_ruby.Encoder.Emit.{Context}
use raygun_apm_ruby.Sink.Bipbuf.{Bipbuf}
use raygun_apm_ruby.Sink.Batched.{
  SinkData, rb_rg_spawn_new_batch, track_buf_used, append_command, finalize_batch, next_size,
}
use raygun_apm_ruby.Sink.Spec.{flat, Packet, batched, Batching, packet_bytes, flush_to}
use raygun_apm_ruby.Sink.Represents.{Represents, into_batch-Represents, batch_header-packet}

module _ (bip : Bipbuf) where
  open bip use {Buf, offer}

  -- The ring buffer after the packets are offered in order.
  abbrev pub offer_all : ℕ → List Packet → Buf → Buf
  offer_all pid [] q = q
  offer_all pid (p ∷ ps) q = offer_all pid ps (offer q (packet_bytes pid p)).1

  -- Between two calls the batch holds the pending commands, and no more than a packet of them.
  pub record Holds (s : Batching) (d : SinkData Buf) : Type 0 where
    pub represents : Represents s d.batch
    pub within : length (flat s.pending) ≤ 1387

  -- The call returns, the packets `ps` have been offered, and `s` is what is held.
  pub record Sends (q : Buf) (ps : List Packet) (s : Batching) (result : Option (ℕ × SinkData Buf))
      : Type 0 where
    pub ret : ℕ
    pub after : SinkData Buf
    pub returns : result ≡ some (ret, after)
    pub holds : Holds s after
    pub offered : after.ringbuf ≡ offer_all s.pid ps q

  pub track_batch : (d : SinkData Buf) → (track_buf_used bip d).batch ≡ d.batch
  unfolding track_buf_used
  track_batch d = ground arith

  pub track_ringbuf : (d : SinkData Buf) → (track_buf_used bip d).ringbuf ≡ d.ringbuf
  unfolding track_buf_used
  track_ringbuf d = ground arith

  pub track-Holds : (s : Batching) (d : SinkData Buf) → Holds s d → Holds s (track_buf_used bip d)
  track-Holds s d h = record {
    represents = subst (Represents s) (sym (track_batch d)) h.represents;
    within = h.within;
  }

  -- The state of the sink once its batch was finalized, offered and replaced by an empty one.
  pub finalize-sends :
      (s : Batching) (d : SinkData Buf)
      → Represents s d.batch
      → (r : ℕ × SinkData Buf) × (finalize_batch bip d ≡ some r)
        × (r.1.ringbuf ≡ (offer d.ringbuf (packet_bytes s.pid (batched s.sequence s.pending))).1)
        × Represents (flush_to s []) (rb_rg_spawn_new_batch bip r.1).batch
  unfolding finalize_batch rb_rg_spawn_new_batch
  finalize-sends s d r =
      let (b, encoded, reads, next) = batch_header-packet r in
      let packet = packet_bytes s.pid (batched s.sequence s.pending) in
      (
        (
          (offer d.ringbuf packet).0,
          record d {
            batch = b;
            batches = next_size d.batches;
            ringbuf = (offer d.ringbuf packet).1;
          },
        ),
        rw (encoded, reads),
        refl,
        next,
      )

  pub append-sends :
      (ctx : Context) (n : ℕ) (s : Batching) (d : SinkData Buf)
      → Represents s d.batch
      → 0 < n
      → n ≤ length ctx.buf
      → length (flat s.pending) + n ≤ 4083
      → (d' : SinkData Buf) × (append_command bip ctx n d ≡ some d')
        × (d'.ringbuf ≡ d.ringbuf)
        × Represents (record s { pending = s.pending ++ (take n ctx.buf ∷ []) }) d'.batch
  unfolding append_command
  append-sends ctx n s d r pos fits small =
      let (b, appended, rep) = into_batch-Represents ctx.buf n r pos fits small in
      (
        record d { batch = b; encoded_batched = next_size d.encoded_batched },
        rw appended,
        refl,
        rep,
      )
