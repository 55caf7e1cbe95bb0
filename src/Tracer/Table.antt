-- ===== src/Tracer/Table.antt =====
-- The symbol tables of the tracer (`st_table` of Ruby): what `st_lookup`, `st_insert` and `st_delete`
-- make of numeric keys, as association lists.
use raygun_apm_ruby.Base.{
  ℕ, ◌≡◌, ◌≢◌, refl, sym, ◌∙◌, arith, List, [], ◌∷◌, Option, none, some, ◌==◌, if◌then◌else◌,
  Bool-cases, ◌⊎◌, inl, inr,
}
use mathlib.Core.Path.{subst}

module _ {ℓ} {A : Type ℓ} where
  abbrev pub st_lookup : ℕ → List (ℕ × A) → Option A
  st_lookup k [] = none
  st_lookup k ((j, a) ∷ t) = let rest = st_lookup k t in if k == j then some a else rest

  abbrev pub st_delete : ℕ → List (ℕ × A) → List (ℕ × A)
  st_delete k [] = []
  st_delete k ((j, a) ∷ t) = let rest = st_delete k t in if k == j then rest else (j, a) ∷ rest

  abbrev pub st_insert : ℕ → A → List (ℕ × A) → List (ℕ × A)
  st_insert k a t = (k, a) ∷ st_delete k t

module _ {ℓ} {A : Type ℓ} where
  pub lookup-delete_self : (k : ℕ) (t : List (ℕ × A)) → st_lookup k (st_delete k t) ≡ none
  lookup-delete_self k [] = refl
  lookup-delete_self k ((j, a) ∷ t) = ground (arith, lookup-delete_self k t)

  pub lookup-delete_other :
      (k j : ℕ) (t : List (ℕ × A)) → k ≢ j → st_lookup k (st_delete j t) ≡ st_lookup k t
  lookup-delete_other k j [] h = refl
  lookup-delete_other k j ((i, a) ∷ t) h = ground (arith, h, lookup-delete_other k j t h)

  pub lookup-insert_self :
      (k : ℕ) (a : A) (t : List (ℕ × A)) → st_lookup k (st_insert k a t) ≡ some a
  lookup-insert_self k a t = ground arith

  pub lookup-insert_other :
      (k j : ℕ) (a : A) (t : List (ℕ × A)) → k ≢ j → st_lookup k (st_insert j a t) ≡ st_lookup k t
  lookup-insert_other k j a t h = ground (arith, h, lookup-delete_other k j t h)

  -- What is found after a deletion or an insertion was there before, or is what was inserted.
  pub lookup-delete :
      (k j : ℕ) (b : A) (t : List (ℕ × A))
      → st_lookup k (st_delete j t) ≡ some b
      → (k ≢ j) × (st_lookup k t ≡ some b)
  lookup-delete k j b t h = elim (Bool-cases (k == j)) [
    | inl same ↦
        (let e : k ≡ j = ground (arith, same) in
          let gone : st_lookup k (st_delete j t) ≡ none =
            subst (λ i. st_lookup i (st_delete j t) ≡ none) (sym e) (lookup-delete_self j t) in
          absurd (cc (sym gone ∙ h)))
    | inr other ↦
        (let ne : k ≢ j = λ e. ground (arith, e, other) in
          (ne, sym (lookup-delete_other k j t ne) ∙ h))
  ]

  pub lookup-insert :
      (k j : ℕ) (a b : A) (t : List (ℕ × A))
      → st_lookup k (st_insert j a t) ≡ some b
      → ((k ≡ j) × (a ≡ b)) ⊎ ((k ≢ j) × (st_lookup k t ≡ some b))
  lookup-insert k j a b t h = elim (Bool-cases (k == j)) [
    | inl same ↦ inl (ground (arith, same), ground (arith, same, h))
    | inr other ↦ inr (lookup-delete k j b t (ground (arith, other, h)))
  ]
