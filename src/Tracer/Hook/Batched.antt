-- ===== src/Tracer/Hook/Batched.antt =====
-- The sink that the tracer sets up, `rb_rg_batched_sink` (ext/raygun/raygun_tracer.c), as the hook needs it.
use raygun_apm_ruby.Base.{arith}
use raygun_apm_ruby.Sink.Bipbuf.{Bipbuf}
use raygun_apm_ruby.Sink.Batched.{SinkData, rb_rg_batched_sink}
use raygun_apm_ruby.Sink.Spec.{Batching}
use raygun_apm_ruby.Sink.Sends.{Holds}
use raygun_apm_ruby.Sink.Refine.{batched_sink-Sends}
use raygun_apm_ruby.Tracer.Hook.Sound.{Answers}

module _ (bip : Bipbuf) where
  open bip use {Buf}

  -- Between two calls the batch holds pending commands.
  abbrev pub IsBatching : SinkData Buf → Type 0
  IsBatching d = (s : Batching) × Holds bip s d

  -- Whatever the ring buffer does, the batched sink answers.
  pub batched_sink-Answers : Answers (rb_rg_batched_sink bip) IsBatching
  batched_sink-Answers ctx d e n (s, h) room pos small passes =
      let sends =
        batched_sink-Sends bip ctx s d e n h pos (omega (arith, small, room)) small passes in
      ((sends.ret, sends.after), sends.returns, (_, sends.holds))
