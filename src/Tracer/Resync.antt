-- ===== src/Tracer/Resync.antt =====
-- `rb_rg_async_emit_methodinfo_i` (ext/raygun/raygun_tracer.c): the timer thread announces the methods of
-- the table again, from the bytes that they keep. The order of the entries is that of `st_foreach`,
-- which is a parameter.
pub mod Announce
mod Tests
use raygun_apm_ruby.Base.{ℕ, List, [], ◌∷◌, Option, none, some, take, i16}
use raygun_apm_ruby.Memory.{◌>>=◌, read, memcpy}
use raygun_apm_ruby.Protocol.{Event, Methodinfo, Method, methodinfo}
use raygun_apm_ruby.Encoder.Emit.{Context, Sink}

module _ {U : Type 0} (sink : Sink U) (stale : Event) (unset : Methodinfo) where
  -- The event on the stack, of which only the type is set: the other fields are what was there before.
  abbrev pub fake_event : Event
  fake_event = record stale { payload = methodinfo unset }

  unfoldable pub rb_rg_async_emit_methodinfo_i : U → Context → Option Method → Option (U × Context)
  rb_rg_async_emit_methodinfo_i u ctx none = some (u, ctx)
  rb_rg_async_emit_methodinfo_i u ctx (some m) = do
    command ← read m.encoded m.encoded_size
    buf ← memcpy ctx.buf 0 command
    let ctx' : Context = record ctx { buf = buf }
    (ret, u') ← sink ctx' u (some fake_event) (i16 m.encoded_size)
    some (u', ctx')

  -- `st_foreach` of the function above: it always returns ST_CONTINUE.
  unfoldable pub emit_all : U → Context → List (Option Method) → Option (U × Context)
  unfolding rb_rg_async_emit_methodinfo_i
  emit_all u ctx [] = some (u, ctx)
  emit_all u ctx (entry ∷ entries) =
      rb_rg_async_emit_methodinfo_i u ctx entry >>= λ r. emit_all r.0 r.1 entries
