-- ===== src/Sink/Refine.antt =====
-- The batched sink implements its specification, except for commands of 4084 to 4093 bytes, which it
-- writes past the end of the batch buffer.
use raygun_apm_ruby.Base.{
  ℕ, ◌+◌, ◌≤◌, ◌<◌, ◌≡◌, ◌≢◌, refl, ap, ◌∙◌, arith, List, [], ◌∷◌, none, some, ◌⊎◌, inl, inr,
}
use raygun_apm_ruby.Base.{length, take, u32, length-take, length-append}
use mathlib.Core.List.{append-nil}
use mathlib.Core.Path.{subst}
use native.Mathlib.Decide.{dec_le}
use raygun_apm_ruby.Memory.{read}
use raygun_apm_ruby.Protocol.{Event}
use raygun_apm_ruby.Encoder.Emit.{Context}
use raygun_apm_ruby.Sink.Bipbuf.{Bipbuf}
use raygun_apm_ruby.Sink.Batched.{
  SinkData, rb_rg_spawn_new_batch, track_buf_used, finalize_batch, flush_then_append,
  send_oversized, dispatch_command, rb_rg_batched_sink, next_size,
}
use raygun_apm_ruby.Sink.Spec.{
  Command, flat, batched, raw, Batching, packet_bytes, flush_to, accept, flush_pending, flush, step,
  accept_within, accept_next, accept_oversized, accept_raw,
}
use raygun_apm_ruby.Sink.Represents.{
  Represents, flat-snoc, into_batch-Represents, into_batch-overflows, batch_header-packet,
}
use raygun_apm_ruby.Sink.Sends.{
  Holds, Sends, track_ringbuf, track-Holds, finalize-sends, append-sends,
}

module _ (bip : Bipbuf) (ctx : Context) where
  open bip use {Buf, offer}

  -- A command that the pending batch has no room for goes into the next one.
  flush_then_append-Sends :
      (s : Batching) (d : SinkData Buf) (e : Event) (n : ℕ)
      → Represents s d.batch
      → length (flat s.pending) ≢ 0
      → 0 < n
      → n ≤ length ctx.buf
      → n ≤ 1387
      → Sends bip d.ringbuf
          (batched s.sequence s.pending ∷ [])
          (flush_to s (take n ctx.buf ∷ []))
          (flush_then_append bip ctx d (some e) n)
  unfolding flush_then_append flat
  flush_then_append-Sends s d e n r ne pos fits small =
      let (out, finalized, offered, next) = finalize-sends bip s d r in
      let (d', appended, ring, rep) =
        append-sends bip ctx n (flush_to s []) (rb_rg_spawn_new_batch bip out.1) next pos fits
          (omega arith) in
      record {
        ret = out.0;
        after = d';
        returns = ground (arith, finalized, appended, r.size);
        holds = record {
          represents = rep;
          within = omega (arith, ap length (append-nil (take n ctx.buf)), length-take n ctx.buf);
        };
        offered = ring ∙ offered;
      }

  flush_pending-Sends :
      (s : Batching) (d : SinkData Buf) (n : ℕ) (cs : List Command)
      → s.pending ≡ cs
      → Holds bip s d
      → let (s', ps) = flush_pending s cs in
        Sends bip d.ringbuf ps s' (flush_then_append bip ctx d none n)
  unfolding flush_then_append flush_pending flat
  flush_pending-Sends s d n [] e h =
      let size = h.represents.size in
      let none_pending = ap (λ l. length (flat l)) e in
      record {
        ret = 1;
        after = d;
        returns = ground (arith, size, none_pending);
        holds = h;
        offered = refl;
      }
  flush_pending-Sends s d n (c ∷ cs) e h =
      let r = h.represents in
      let some_pending = ap length e in
      let (out, finalized, offered, next) = finalize-sends bip s d r in
      record {
        ret = out.0;
        after = rb_rg_spawn_new_batch bip out.1;
        returns = ground (arith, finalized, r.size, r.few, some_pending);
        holds = record { represents = next; within = omega arith };
        offered = offered;
      }

  -- A command that fits no batch of the usual size is sent in one of its own, behind the pending.
  oversized-Sends :
      (s : Batching) (d : SinkData Buf) (n : ℕ)
      → Represents s d.batch
      → 0 < n
      → n ≤ length ctx.buf
      → n < 4084
      → Sends bip d.ringbuf
          (batched s.sequence s.pending ∷ batched (u32 (s.sequence + 1)) (take n ctx.buf ∷ []) ∷ [])
          (flush_to (flush_to s []) [])
          (send_oversized bip ctx d n)
  unfolding send_oversized finalize_batch rb_rg_spawn_new_batch flat
  oversized-Sends s d n r pos fits small =
      let (out, finalized, offered, next) = finalize-sends bip s d r in
      let d₂ = rb_rg_spawn_new_batch bip out.1 in
      let (b, appended, rep) = into_batch-Represents ctx.buf n next pos fits (omega arith) in
      let (b', encoded, reads, empty) = batch_header-packet rep in
      let packet = packet_bytes s.pid (batched (u32 (s.sequence + 1)) (take n ctx.buf ∷ [])) in
      let (ret, ringbuf) = offer d₂.ringbuf packet in
      record {
        ret = ret;
        after = rb_rg_spawn_new_batch bip (record d₂ { batch = b'; ringbuf = ringbuf });
        returns = ground (arith, finalized, appended, encoded, reads);
        holds = record { represents = empty; within = omega arith };
        offered = ap (λ q. (offer q packet).1) offered;
      }

  -- A command of more than 4093 bytes is sent bare, and what was pending is dropped.
  raw-Sends :
      (s : Batching) (d : SinkData Buf) (n : ℕ)
      → Represents s d.batch
      → n ≤ length ctx.buf
      → 4094 ≤ n
      → n < 32768
      → Sends bip d.ringbuf
          (raw (take n ctx.buf) ∷ [])
          (record s { pending = [] })
          (send_oversized bip ctx d n)
  unfolding send_oversized rb_rg_spawn_new_batch flat read packet_bytes
  raw-Sends s d n r fits large small =
      let (ret, ringbuf) = offer d.ringbuf (take n ctx.buf) in
      let d' = rb_rg_spawn_new_batch bip (record d { ringbuf = ringbuf }) in
      record {
        ret = ret;
        after = record d' { encoded_raw = next_size d.encoded_raw };
        returns = ground arith;
        holds = record {
          represents = record {
            room = r.room;
            size = refl;
            small = omega arith;
            number = refl;
            few = omega arith;
            content = refl;
            kind = r.kind;
            sequence = r.sequence;
            pid = r.pid;
          };
          within = omega arith;
        };
        offered = refl;
      }

  module _ (s : Batching) (d : SinkData Buf) (e : Event) (n : ℕ) (r : Represents s d.batch) where
    next_branch :
        1400 < 13 + length (flat s.pending) + n
        → 13 + n ≤ 1400
        → dispatch_command bip ctx d (some e) n ≡ flush_then_append bip ctx d (some e) n
    unfolding dispatch_command
    next_branch p q = ground (arith, r.size, r.small)

    oversized_branch :
        1400 < 13 + n
        → n < 32768
        → dispatch_command bip ctx d (some e) n ≡ send_oversized bip ctx d n
    unfolding dispatch_command
    oversized_branch q small = ground (arith, r.size, r.small)

  dispatch-Sends :
      (s : Batching) (d : SinkData Buf) (e : Event) (n : ℕ)
      → Holds bip s d
      → 0 < n
      → n ≤ length ctx.buf
      → n < 32768
      → (n < 4084) ⊎ (4094 ≤ n)
      → let (s', ps) = accept s (take n ctx.buf) in
        Sends bip d.ringbuf ps s' (dispatch_command bip ctx d (some e) n)
  unfolding dispatch_command
  dispatch-Sends s d e n h pos fits small size =
      let c = take n ctx.buf in
      let len : length c ≡ n = omega (arith, length-take n ctx.buf) in
      let r = h.represents in
      elim (dec_le (13 + length (flat s.pending) + n) 1400) [
        | yes p ↦
            (let (d', appended, ring, rep) = append-sends bip ctx n s d r pos fits (omega arith) in
              rw (accept_within s c (omega arith)) (record {
                ret = 1;
                after = d';
                returns = ground (arith, appended, r.size);
                holds = record {
                  represents = rep;
                  within =
                      omega (
                        arith,
                        ap length (flat-snoc s.pending c),
                        length-append (flat s.pending) c,
                      );
                };
                offered = ring;
              }))
        | no p ↦ elim (dec_le (13 + n) 1400) [
          | yes q ↦
              rw
                (accept_next s c (omega arith) (omega arith), next_branch s d e n r (omega arith) q)
                (flush_then_append-Sends s d e n r (omega arith) pos fits (omega arith))
          | no q ↦ rw (oversized_branch s d e n r (omega arith) small) (elim size [
            | inl below ↦
                rw (accept_oversized s c (omega arith) (omega arith))
                  (oversized-Sends s d n r pos fits below)
            | inr above ↦ rw (accept_raw s c (omega arith)) (raw-Sends s d n r fits above small)
          ])
        ]
      ]

  -- A call with an event, for a command that is not empty, of a size that the scratch buffer holds
  -- and other than 4084 to 4093: it returns, it offers to the ring buffer the packets of the
  -- specification in order and nothing else, and the batch holds what the specification has pending.
  pub batched_sink-Sends :
      (s : Batching) (d : SinkData Buf) (e : Event) (n : ℕ)
      → Holds bip s d
      → 0 < n
      → n ≤ length ctx.buf
      → n < 32768
      → (n < 4084) ⊎ (4094 ≤ n)
      → let (s', ps) = step s (some (take n ctx.buf)) in
        Sends bip d.ringbuf ps s' (rb_rg_batched_sink bip ctx d (some e) n)
  unfolding rb_rg_batched_sink step
  batched_sink-Sends s d e n h pos fits small size =
      let (s', ps) = accept s (take n ctx.buf) in
      subst (λ q. Sends bip q ps s' (rb_rg_batched_sink bip ctx d (some e) n)) (track_ringbuf bip d)
        (dispatch-Sends s (track_buf_used bip d) e n (track-Holds bip s d h) pos fits small size)

  -- A call with no event, which is how the timer thread flushes: it sends what is pending as one
  -- batch, and does nothing if nothing is.
  pub batched_sink_flush-Sends :
      (s : Batching) (d : SinkData Buf) (n : ℕ)
      → Holds bip s d
      → let (s', ps) = step s none in
        Sends bip d.ringbuf ps s' (rb_rg_batched_sink bip ctx d none n)
  unfolding rb_rg_batched_sink dispatch_command step flush
  batched_sink_flush-Sends s d n h =
      let (s', ps) = flush s in
      subst (λ q. Sends bip q ps s' (rb_rg_batched_sink bip ctx d none n)) (track_ringbuf bip d)
        (flush_pending-Sends s (track_buf_used bip d) n s.pending refl (track-Holds bip s d h))

  -- A call with an event whose command has 4084 to 4093 bytes writes past the end of the batch
  -- buffer, whatever is pending: the command is copied behind the 13 bytes of the header of an empty
  -- batch, and ends behind byte 4096.
  pub batched_sink_overflows :
      (s : Batching) (d : SinkData Buf) (e : Event) (n : ℕ)
      → Holds bip s d
      → n ≤ length ctx.buf
      → 4084 ≤ n
      → n < 4094
      → rb_rg_batched_sink bip ctx d (some e) n ≡ none
  unfolding rb_rg_batched_sink send_oversized finalize_batch rb_rg_spawn_new_batch flat
  batched_sink_overflows s d e n h fits low high =
      let d' = track_buf_used bip d in
      let r = (track-Holds bip s d h).represents in
      let (out, finalized, offered, next) = finalize-sends bip s d' r in
      let overflow = into_batch-overflows ctx.buf n next fits (omega arith) in
      rw (oversized_branch s d' e n r (omega arith) (omega arith))
        (ground (arith, finalized, overflow))
