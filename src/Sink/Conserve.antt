-- ===== src/Sink/Conserve.antt =====
-- The specification of the batched sink loses nothing that fits a batch, and keeps the order.
use raygun_apm_ruby.Base.{◌<◌, ◌≡◌, refl, sym, arith, List, [], ◌∷◌, ◌++◌, Option, none, some}
use raygun_apm_ruby.Base.{length}
use mathlib.Core.Path.{◌≡⟨◌⟩◌, ◌∎, ap}
use mathlib.Core.List.{append-nil, append_assoc}
use raygun_apm_ruby.Sink.Spec.{
  Command, Packet, batched, raw, Batching, step, commands_of, run, given,
}

-- No command is as long as those that are sent bare.
abbrev pub FitBatch : List (Option Command) → Type 0
FitBatch [] = Unit
FitBatch (some c ∷ os) = (length c < 4094) × FitBatch os
FitBatch (none ∷ os) = FitBatch os

pub commands_of-append :
    (ps qs : List Packet) → commands_of (ps ++ qs) ≡ commands_of ps ++ commands_of qs
commands_of-append [] qs = refl
commands_of-append (batched n cs ∷ ps) qs = simp (commands_of-append ps qs, append_assoc)
commands_of-append (raw c ∷ ps) qs = simp (commands_of-append ps qs)

step-conserves :
    (s : Batching) (o : Option Command)
    → FitBatch (o ∷ [])
    → let (s', ps) = step s o in commands_of ps ++ s'.pending ≡ s.pending ++ given (o ∷ [])
unfolding step
step-conserves s none h = ground (arith, append-nil s.pending)
step-conserves s (some c) h = ground (
  arith,
  append-nil s.pending,
  append-nil (s.pending ++ (c ∷ [])),
  append_assoc s.pending (c ∷ []) [],
)

given-cons :
    (o : Option Command) (os : List (Option Command)) → given (o ∷ os) ≡ given (o ∷ []) ++ given os
given-cons none os = refl
given-cons (some c) os = refl

FitBatch-head :
    (o : Option Command) (os : List (Option Command))
    → FitBatch (o ∷ os)
    → FitBatch (o ∷ []) × FitBatch os
FitBatch-head none os h = (tt, h)
FitBatch-head (some c) os h = ((h.0, tt), h.1)

-- Over any calls with commands below 4094 bytes, flushes in between, the packets that left and what
-- is still pending hold exactly what was pending and the commands given, in order.
pub run-conserves :
    (s : Batching) (os : List (Option Command))
    → FitBatch os
    → let (s', ps) = run s os in commands_of ps ++ s'.pending ≡ s.pending ++ given os
unfolding run
run-conserves s [] h = sym (append-nil _)
run-conserves s (o ∷ os) h =
    let (s', ps) = step s o in
    let (s'', qs) = run s' os in
    let (here, rest) = FitBatch-head o os h in
    commands_of (ps ++ qs) ++ s''.pending
    ≡⟨ (rw (commands_of-append ps qs, append_assoc)) ⟩
      commands_of ps ++ (commands_of qs ++ s''.pending)
    ≡⟨ ap (λ l. commands_of ps ++ l) (run-conserves s' os rest) ⟩
      commands_of ps ++ (s'.pending ++ given os)
    ≡⟨ sym (append_assoc (commands_of ps) s'.pending (given os)) ⟩
      (commands_of ps ++ s'.pending) ++ given os
    ≡⟨ ap (λ l. l ++ given os) (step-conserves s o here) ⟩ (s.pending ++ given (o ∷ [])) ++ given os
    ≡⟨ append_assoc s.pending (given (o ∷ [])) (given os) ⟩
      s.pending ++ (given (o ∷ []) ++ given os)
    ≡⟨ ap (λ l. s.pending ++ l) (sym (given-cons o os)) ⟩ s.pending ++ given (o ∷ os) ∎
