-- ===== src/Tracer/Traces/Ended.antt =====
-- The end of the profiler (ext/raygun/raygun_tracer.c, `rb_rg_process_ended`) with the batched sink.
use raygun_apm_ruby.Base.{
  ℕ, ◌+◌, ◌≤◌, ◌≡◌, refl, sym, ap, ◌∙◌, arith, none, some, Bool, true, false, List, [], ◌∷◌, ◌++◌,
  length, take, inl, if◌then◌else◌,
}
use mathlib.Core.Path.{subst}
use raygun_apm_ruby.Memory.Laws.{slice-overwrite, length-overwrite}
use raygun_apm_ruby.Protocol.{process_ended, scratch_buffer_size}
use raygun_apm_ruby.Encoder.Wire.{command_bytes, body_bytes}
use raygun_apm_ruby.Encoder.Bounds.{length-command}
use raygun_apm_ruby.Encoder.Emit.{hand_over}
use raygun_apm_ruby.Encoder.Emit.Delivery.{delivered, encoded, boundaries-Deliver}
use raygun_apm_ruby.Sink.Bipbuf.{Bipbuf}
use raygun_apm_ruby.Sink.Batched.{SinkData, rb_rg_batched_sink}
use raygun_apm_ruby.Sink.Spec.{
  Batching, Packet, Command, accept_within, flush, flush_pending, flat, step,
}
use raygun_apm_ruby.Sink.Sends.{offer_all, Holds, Sends}
use raygun_apm_ruby.Sink.Refine.{batched_sink-Sends, batched_sink_flush-Sends}
use raygun_apm_ruby.Tracer.Hook.{Ruby}
use raygun_apm_ruby.Tracer.Traces.{Profiler, rb_rg_flush_batched_sink, rb_rg_process_ended}
use raygun_apm_ruby.Tracer.Traces.Lifecycle.{encode_name}

flush_pending-empty :
    (s : Batching) (cs : List Command) → s.pending ≡ cs → (flush_pending s cs).0.pending ≡ []
unfolding flush_pending
flush_pending-empty s [] e = e
flush_pending-empty s (c ∷ cs) e = refl

flush_pending-pid : (s : Batching) (cs : List Command) → (flush_pending s cs).0.pid ≡ s.pid
unfolding flush_pending
flush_pending-pid s [] = refl
flush_pending-pid s (c ∷ cs) = refl

stops {ℓ} :
    {A : Type ℓ} (f : Bool → A) (sink_thread running : Bool)
    → (if sink_thread then f false else f running) ≡ f (if sink_thread then false else running)
stops f true running = refl
stops f false running = refl

module _ (bip : Bipbuf) (ruby : Ruby) where
  open bip use {Buf}

  -- With a scratch buffer of its declared size, the end of the profiler offers to the ring buffer the
  -- batch that was pending and nothing else; the command that tells the Agent of the end is only
  -- appended to the next batch, where it is pending when the sink thread is told to stop.
  pub process_ended-pending :
      (p : Profiler (SinkData Buf)) (s : Batching) (now : ℕ)
      → Holds bip s p.sink_data
      → length p.context.buf ≡ scratch_buffer_size
      → (p' : Profiler (SinkData Buf)) × (s' : Batching) × (rb_rg_process_ended ruby
            (rb_rg_batched_sink bip)
            now
            p
          ≡ some p')
        × (p'.sink_data.ringbuf ≡ offer_all bip s.pid (flush s).1 p.sink_data.ringbuf)
        × Holds bip s' p'.sink_data
        × (s'.pending ≡ command_bytes (delivered p.context now 0 process_ended) ∷ [])
        × (p'.running ≡ (if p.sink_thread then false else p.running))
  unfolding rb_rg_process_ended rb_rg_flush_batched_sink hand_over body_bytes flush step flat
  process_ended-pending p s now holds room =
      let sink = rb_rg_batched_sink bip in
      let (s₁, ps) = flush s in
      let flushed : Sends bip p.sink_data.ringbuf ps s₁ (sink p.context p.sink_data none 0) =
        batched_sink_flush-Sends bip p.context s p.sink_data 0 holds in
      let empty : s₁.pending ≡ [] = flush_pending-empty s s.pending refl in
      let same : s₁.pid ≡ s.pid = flush_pending-pid s s.pending in
      let d = flushed.after in
      let e = delivered p.context now 0 process_ended in
      let ctx = encoded p.context now 0 process_ended in
      let c = command_bytes e in
      let sized : length c ≡ 19 = length-command e in
      let written : take 19 ctx.buf ≡ c =
        slice-overwrite p.context.buf 0 19 c (omega (arith, sized, room)) (sym sized) in
      let name = (encode_name ruby none).2 in
      let delivers = (boundaries-Deliver sink p.context d now 0 _ _ _ 0 0 name name name room).5 in
      let small : 13 + length (flat s₁.pending) + length (take 19 ctx.buf) ≤ 1400 =
        rw empty (rw written (omega (arith, sized))) in
      let s' : Batching = record s₁ { pending = s₁.pending ++ take 19 ctx.buf ∷ [] } in
      let added : Sends bip d.ringbuf [] s' (sink ctx d (some e) 19) =
        subst (λ (r : Batching × List Packet). Sends bip d.ringbuf r.1 r.0 (sink ctx d (some e) 19))
          (accept_within s₁ (take 19 ctx.buf) small)
          (batched_sink-Sends bip ctx s₁ d e 19 flushed.holds (omega arith)
            (omega (arith, room, length-overwrite p.context.buf 0 c)) (omega arith)
            (inl (omega arith))) in
      let p₂ : Profiler (SinkData Buf) = record p { sink_data = added.after; context = ctx } in
      (
        record p₂ { running = if p.sink_thread then false else p.running },
        s',
        rw (flushed.returns, delivers, added.returns)
            (ap some (stops (λ b. record p₂ { running = b }) p.sink_thread p.running)),
        added.offered ∙ flushed.offered ∙ ap (λ k. offer_all bip k ps p.sink_data.ringbuf) same,
        added.holds,
        ap (λ cs. cs ++ take 19 ctx.buf ∷ []) empty ∙ ap (λ x. x ∷ []) written,
        refl,
      )
