-- ===== src/Tracer/Emit/Sends.antt =====
-- Emitted events and the batched sink (ext/raygun/raygun_tracer.c).
use raygun_apm_ruby.Base.{
  if_false, ℕ, ◌≤◌, ◌<◌, ◌≡◌, ◌≢◌, ◌⊎◌, inr, refl, sym, ◌∙◌, arith, List, some, true, false, length,
  take, i16,
}
use mathlib.Core.Path.{subst}
use raygun_apm_ruby.Memory.{memcpy, overwrite}
use raygun_apm_ruby.Memory.Laws.{memcpy-some, slice-overwrite, length-overwrite}
use raygun_apm_ruby.Protocol.{Event, batch, scratch_buffer_size}
use raygun_apm_ruby.Protocol.Valid.{IsValidData}
use raygun_apm_ruby.Encoder.Size.{rg_encode_size}
use raygun_apm_ruby.Encoder.Wire.{command_bytes}
use raygun_apm_ruby.Encoder.Bounds.{encode_size-body, length-body-le, length-command}
use raygun_apm_ruby.Encoder.Emit.{Context}
use raygun_apm_ruby.Event.Encoded.{rb_rg_event_encoded, copied_raw, event_encoded-command}
use raygun_apm_ruby.Sink.Bipbuf.{Bipbuf}
use raygun_apm_ruby.Sink.Batched.{SinkData, rb_rg_batched_sink}
use raygun_apm_ruby.Sink.Spec.{Batching, Packet, step}
use raygun_apm_ruby.Sink.Sends.{offer_all, Holds, Sends}
use raygun_apm_ruby.Sink.Refine.{batched_sink-Sends}
use raygun_apm_ruby.Tracer.Traces.{Profiler}
use raygun_apm_ruby.Tracer.Emit.{emit_event, rb_rg_tracer_emit}

module _ (bip : Bipbuf) (image : Event → List ℕ) where
  open bip use {Buf}

  -- An event whose encoding is known, and what the sink does with it.
  emit-given :
      (p : Profiler (SinkData Buf)) (e : Event) (buf encoded scratch : List ℕ) (s' : Batching)
      (ps : List Packet)
      → p.noop ≡ false
      → rb_rg_event_encoded image e buf ≡ some encoded
      → memcpy p.context.buf 0 encoded ≡ some scratch
      → i16 (length encoded) ≡ e.length
      → Sends bip p.sink_data.ringbuf ps s' (
          rb_rg_batched_sink bip (record p.context { buf = scratch }) p.sink_data (some e) e.length)
      → (p' : Profiler (SinkData Buf)) × (rb_rg_tracer_emit
            (rb_rg_batched_sink bip)
            image
            p
            (some e)
            buf
          ≡ some (inr true, p'))
        × (p'.sink_data.ringbuf ≡ offer_all bip s'.pid ps p.sink_data.ringbuf)
        × Holds bip s' p'.sink_data
  unfolding rb_rg_tracer_emit emit_event
  emit-given p e buf encoded scratch s' ps live encodes copies told r = (
    record p { context = record p.context { buf = scratch }; sink_data = r.after },
    if_false p.noop (some (inr false, p)) _ live
        ∙ rw encodes (rw copies (rw told (rw r.returns refl))),
    r.offered,
    r.holds,
  )

  -- A valid event of its computed length, other than 4084 to 4093 bytes, that is no batch and whose
  -- struct is not copied raw, is emitted by a profiler with the batched sink that is not silenced
  -- as the specification of the sink says for the bytes of its command: the call answers true, and
  -- exactly those packets are offered to the ring buffer, in order.
  pub emit-Sends :
      (p : Profiler (SinkData Buf)) (s : Batching) (e : Event) (buf : List ℕ)
      → p.noop ≡ false
      → Holds bip s p.sink_data
      → length p.context.buf ≡ scratch_buffer_size
      → IsValidData e.payload
      → e.payload ≢ batch
      → copied_raw e.payload ≡ false
      → e.length ≡ rg_encode_size e.payload
      → length buf ≡ e.length
      → (e.length < 4084) ⊎ (4094 ≤ e.length)
      → let (s', ps) = step s (some (command_bytes e)) in
        (p' : Profiler (SinkData Buf)) × (rb_rg_tracer_emit
            (rb_rg_batched_sink bip)
            image
            p
            (some e)
            buf
          ≡ some (inr true, p'))
        × (p'.sink_data.ringbuf ≡ offer_all bip s'.pid ps p.sink_data.ringbuf)
        × Holds bip s' p'.sink_data
  emit-Sends p s e buf live holds room v n raw size new small =
      let command = command_bytes e in
      let encodes = event_encoded-command image e buf v n raw size new in
      let whole : length command ≡ e.length =
        length-command e ∙ sym (encode_size-body e.payload v n) ∙ sym size in
      let bound : length command ≤ 16423 =
        omega (arith, length-command e, length-body-le e.payload v) in
      let copies : memcpy p.context.buf 0 command ≡ some (overwrite p.context.buf 0 command) =
        memcpy-some p.context.buf 0 command (omega (arith, bound, room)) in
      let ctx : Context = record p.context { buf = overwrite p.context.buf 0 command } in
      let kept : take e.length ctx.buf ≡ command =
        slice-overwrite p.context.buf 0 e.length command (omega (arith, bound, room)) (sym whole) in
      let told : i16 (length command) ≡ e.length = omega (arith, whole, bound) in
      let sends =
        batched_sink-Sends bip ctx s p.sink_data e e.length holds
          (omega (arith, whole, length-command e))
          (omega (arith, whole, bound, room, length-overwrite p.context.buf 0 command))
          (omega (arith, whole, bound)) small in
      let answer = rb_rg_batched_sink bip ctx p.sink_data (some e) e.length in
      emit-given p e buf command ctx.buf _ _ live encodes copies told (
        subst (λ c. Sends bip p.sink_data.ringbuf (step s (some c)).1 (step s (some c)).0 answer)
          kept sends)
