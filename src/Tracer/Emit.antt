-- ===== src/Tracer/Emit.antt =====
-- `rb_rg_tracer_emit` (ext/raygun/raygun_tracer.c): an event that Ruby code has set up is encoded and handed
-- to the sink.
pub mod Sends
mod Tests
use raygun_apm_ruby.Base.{
  ℕ, List, Option, none, some, Bool, true, false, ◌⊎◌, inl, inr, if◌then◌else◌, length, i16,
}
use raygun_apm_ruby.Memory.{◌>>=◌, memcpy}
use raygun_apm_ruby.Protocol.{Event}
use raygun_apm_ruby.Encoder.Emit.{Context, Sink}
use raygun_apm_ruby.Event.Encoded.{rb_rg_event_encoded}
use raygun_apm_ruby.Tracer.Traces.{Profiler}

pub data EmitError : Type 0 where
  invalid_extended_event : EmitError

module _ {U : Type 0} (sink : Sink U) (image : Event → List ℕ) where
  -- What is done with an event: `buf` is the new string that it is encoded into.
  unfoldable pub emit_event : Profiler U → Event → List ℕ → Option (Profiler U)
  emit_event p e buf = do
    encoded ← rb_rg_event_encoded image e buf
    scratch ← memcpy p.context.buf 0 encoded
    let ctx : Context = record p.context { buf = scratch }
    (ret, u) ← sink ctx p.sink_data (some e) (i16 (length encoded))
    some (record p { context = ctx; sink_data = u })

  -- The object is none if it is no Raygun::Apm::Event.
  unfoldable pub rb_rg_tracer_emit :
      Profiler U → Option Event → List ℕ → Option ((EmitError ⊎ Bool) × Profiler U)
  unfolding emit_event
  rb_rg_tracer_emit p evt buf = if p.noop then some (inr false, p) else elim evt [
    | none ↦ some (inl invalid_extended_event, p)
    | some e ↦ (emit_event p e buf >>= λ p'. some (inr true, p'))
  ]
