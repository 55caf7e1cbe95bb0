-- ===== src/Tracer/Resync/Announce.antt =====
-- The methods that the timer thread announces again (ext/raygun/raygun_tracer.c).
use raygun_apm_ruby.Base.{
  ℕ, true, ◌≤◌, ◌≡◌, refl, ap, ◌∙◌, arith, List, [], ◌∷◌, Option, none, some, i16, leb, length,
  take, take_all,
}
use raygun_apm_ruby.Memory.{◌>>=◌, read, overwrite}
use raygun_apm_ruby.Memory.Laws.{length-overwrite, slice-overwrite, memcpy-some}
use raygun_apm_ruby.Protocol.{Event, Methodinfo, Method, scratch_buffer_size}
use raygun_apm_ruby.Encoder.Emit.{Context, Sink}
use raygun_apm_ruby.Tracer.Resync.{rb_rg_async_emit_methodinfo_i, emit_all}

-- The methods that are followed, among the entries of the table.
unfoldable pub followed : List (Option Method) → List Method
followed [] = []
followed (none ∷ es) = followed es
followed (some m ∷ es) = m ∷ followed es

-- What the method keeps is a whole command.
pub record Keeps (m : Method) : Type 0 where
  pub size : m.encoded_size ≡ length m.encoded
  pub fits : m.encoded_size ≤ 32767

unfoldable pub AllKeep : List Method → Type 0
AllKeep [] = Unit
AllKeep (m ∷ ms) = Keeps m × AllKeep ms

-- A sink that reads the command, of the length that it is told, and the event's type.
unfoldable pub reading : {U : Type 0} → (List ℕ → U → U) → Sink U
reading consume ctx u event n = some (0, consume (take n ctx.buf) u)

unfoldable pub consume_all : {U : Type 0} → (List ℕ → U → U) → U → List Method → U
consume_all consume u [] = u
consume_all consume u (m ∷ ms) = consume_all consume (consume m.encoded u) ms

module _ {U : Type 0} (consume : List ℕ → U → U) (stale : Event) (unset : Methodinfo) where
  announce :
      (m : Method) (u : U) (ctx : Context)
      → Keeps m
      → length ctx.buf ≡ scratch_buffer_size
      → rb_rg_async_emit_methodinfo_i (reading consume) stale unset u ctx (some m)
        ≡ some (consume m.encoded u, record ctx { buf = overwrite ctx.buf 0 m.encoded })
  unfolding rb_rg_async_emit_methodinfo_i reading read
  announce m u ctx k room =
      let whole : take m.encoded_size m.encoded ≡ m.encoded =
        take_all m.encoded_size m.encoded (omega (arith, k.size)) in
      let short : i16 m.encoded_size ≡ length m.encoded = ground (arith, k.size, k.fits) in
      let inside : leb m.encoded_size (length m.encoded) ≡ true = ground (arith, k.size) in
      rw (rb_rg_async_emit_methodinfo_i, inside)
        (rw whole (
          rw (memcpy-some ctx.buf 0 m.encoded (omega (arith, k.size, k.fits, room))) (
            rw short (
              rw
                (slice-overwrite ctx.buf 0 (length m.encoded) m.encoded
                  (omega (arith, k.size, k.fits, room)) refl)
                refl))))

  -- Whatever the order of the entries, when the scratch buffer has its declared size and every method
  -- that is followed keeps a whole command of at most 32767 bytes, announcing the methods again touches
  -- nothing outside of an array, and a sink that reads the command of the length that it is told is
  -- given exactly the kept commands of the methods that are followed, each once and in that order, and
  -- nothing for a method that is excluded.
  pub emit_all-announces :
      (entries : List (Option Method)) (u : U) (ctx : Context)
      → AllKeep (followed entries)
      → length ctx.buf ≡ scratch_buffer_size
      → (ctx' : Context) × (emit_all (reading consume) stale unset u ctx entries
          ≡ some (consume_all consume u (followed entries), ctx'))
        × (ctx'.pid ≡ ctx.pid)
        × (length ctx'.buf ≡ scratch_buffer_size)
  unfolding emit_all followed AllKeep consume_all rb_rg_async_emit_methodinfo_i
  emit_all-announces [] u ctx keep room = (ctx, refl, refl, room)
  emit_all-announces (none ∷ es) u ctx keep room = emit_all-announces es u ctx keep room
  emit_all-announces (some m ∷ es) u ctx keep room =
      let next : Context = record ctx { buf = overwrite ctx.buf 0 m.encoded } in
      let (ctx', e, p, l) =
        emit_all-announces es (consume m.encoded u) next keep.1
          (length-overwrite ctx.buf 0 m.encoded ∙ room) in
      (
        ctx',
        ap (λ o. o >>= λ r. emit_all (reading consume) stale unset r.0 r.1 es)
              (announce m u ctx keep.0 room)
            ∙ e,
        p,
        l,
      )
