-- ===== src/Memory/Laws.antt =====
-- What a sequence of `memcpy`s leaves in the array.
use raygun_apm_ruby.Base.{ℕ, zero, suc, ◌+◌, ◌≤◌, ◌<◌, ◌≡◌, refl, ap, ◌∙◌, arith}
use raygun_apm_ruby.Base.{List, [], ◌∷◌, ◌++◌, Option, none, some}
use raygun_apm_ruby.Base.{length, take, i16, length-append}
use raygun_apm_ruby.Memory.{
  overwrite, memcpy, read, slice, Cursor, Writer, put, copy, ◌>>◌, ◌>>=◌, nothing, encode_at,
}

pub length-overwrite :
    (buf : List ℕ) (p : ℕ) (xs : List ℕ) → length (overwrite buf p xs) ≡ length buf
unfolding overwrite
length-overwrite [] p xs = refl
length-overwrite (b ∷ bs) zero [] = refl
length-overwrite (b ∷ bs) zero (x ∷ xs) = ap suc (length-overwrite bs zero xs)
length-overwrite (b ∷ bs) (suc p) xs = ap suc (length-overwrite bs p xs)

pub overwrite-nil : (buf : List ℕ) (p : ℕ) → overwrite buf p [] ≡ buf
unfolding overwrite
overwrite-nil [] p = refl
overwrite-nil (b ∷ bs) zero = refl
overwrite-nil (b ∷ bs) (suc p) = ap (λ l. b ∷ l) (overwrite-nil bs p)

-- Writing on from where a write ended.
pub overwrite-append :
    (buf : List ℕ) (p q : ℕ) (xs ys : List ℕ)
    → q ≡ p + length xs
    → overwrite (overwrite buf p xs) q ys ≡ overwrite buf p (xs ++ ys)
unfolding overwrite
overwrite-append [] p q xs ys e = refl
overwrite-append (b ∷ bs) zero zero [] ys e = refl
overwrite-append (b ∷ bs) zero zero (x ∷ xs) ys e = absurd (omega arith)
overwrite-append (b ∷ bs) zero (suc q) [] ys e = absurd (omega arith)
overwrite-append (b ∷ bs) zero (suc q) (x ∷ xs) ys e =
    ap (λ l. x ∷ l) (overwrite-append bs zero q xs ys (omega arith))
overwrite-append (b ∷ bs) (suc p) zero xs ys e = absurd (omega arith)
overwrite-append (b ∷ bs) (suc p) (suc q) xs ys e =
    ap (λ l. b ∷ l) (overwrite-append bs p q xs ys (omega arith))

-- Writing in front of what was written before.
pub overwrite-front :
    (buf : List ℕ) (p q : ℕ) (xs ys : List ℕ)
    → q ≡ p + length xs
    → overwrite (overwrite buf q ys) p xs ≡ overwrite buf p (xs ++ ys)
unfolding overwrite
overwrite-front [] p q xs ys e = refl
overwrite-front (b ∷ bs) zero zero [] ys e = overwrite-nil _ zero
overwrite-front (b ∷ bs) zero zero (x ∷ xs) ys e = absurd (omega arith)
overwrite-front (b ∷ bs) zero (suc q) [] ys e = absurd (omega arith)
overwrite-front (b ∷ bs) zero (suc q) (x ∷ xs) ys e =
    ap (λ l. x ∷ l) (overwrite-front bs zero q xs ys (omega arith))
overwrite-front (b ∷ bs) (suc p) zero xs ys e = absurd (omega arith)
overwrite-front (b ∷ bs) (suc p) (suc q) xs ys e =
    ap (λ l. b ∷ l) (overwrite-front bs p q xs ys (omega arith))

-- What was written is read back.
pub slice-overwrite :
    (buf : List ℕ) (p n : ℕ) (xs : List ℕ)
    → p + length xs ≤ length buf
    → n ≡ length xs
    → slice (overwrite buf p xs) p n ≡ xs
unfolding overwrite
slice-overwrite buf p zero [] h e = refl
slice-overwrite buf p (suc n) [] h e = absurd (omega arith)
slice-overwrite buf p zero (x ∷ xs) h e = absurd (omega arith)
slice-overwrite [] p (suc n) (x ∷ xs) h e = absurd (omega arith)
slice-overwrite (b ∷ bs) zero (suc n) (x ∷ xs) h e =
    ap (λ l. x ∷ l) (slice-overwrite bs zero n xs (omega arith) (omega arith))
slice-overwrite (b ∷ bs) (suc p) (suc n) (x ∷ xs) h e =
    slice-overwrite bs p (suc n) (x ∷ xs) (omega arith) e

-- What lies in front of a write stays.
pub take-overwrite :
    (buf : List ℕ) (p n : ℕ) (xs : List ℕ) → n ≤ p → take n (overwrite buf p xs) ≡ take n buf
unfolding overwrite
take-overwrite buf p zero xs h = refl
take-overwrite [] p (suc n) xs h = refl
take-overwrite (b ∷ bs) zero (suc n) xs h = absurd (omega arith)
take-overwrite (b ∷ bs) (suc p) (suc n) xs h =
    ap (λ l. b ∷ l) (take-overwrite bs p n xs (omega arith))

pub memcpy-some :
    (buf : List ℕ) (p : ℕ) (xs : List ℕ)
    → p + length xs ≤ length buf
    → memcpy buf p xs ≡ some (overwrite buf p xs)
unfolding memcpy
memcpy-some buf p xs h = ground arith

pub memcpy-none :
    (buf : List ℕ) (p : ℕ) (xs : List ℕ) → length buf < p + length xs → memcpy buf p xs ≡ none
unfolding memcpy
memcpy-none buf p xs h = ground arith

-- A writer that does what one `memcpy` of `xs` does, from a pointer into the array.
pub record Writes (w : Writer) (xs : List ℕ) : Type 0 where
  pub writes : (c : Cursor) → c.pos ≤ length c.buf → w c ≡ put xs c

pub put-Writes : (xs : List ℕ) → Writes (put xs) xs
put-Writes xs = record { writes = λ c h. refl }

pub nothing-Writes : Writes nothing []
unfolding put nothing memcpy
nothing-Writes = record { writes = λ c h. ground (arith, overwrite-nil c.buf c.pos) }

pub copy-Writes : (src : List ℕ) (n : ℕ) → n ≤ length src → Writes (copy src n) (take n src)
unfolding copy read
copy-Writes src n h = record { writes = λ c r. ground arith }

pub read-none : (src : List ℕ) (n : ℕ) → length src < n → read src n ≡ none
unfolding read
read-none src n h = ground arith

put-put : (xs ys : List ℕ) (c : Cursor) → (put xs c >>= put ys) ≡ put (xs ++ ys) c
unfolding put memcpy
put-put xs ys c = ground (
  arith,
  length-append xs ys,
  length-overwrite c.buf c.pos xs,
  overwrite-append c.buf c.pos (c.pos + length xs) xs ys,
)

put-in_range : (xs : List ℕ) (c c' : Cursor) → put xs c ≡ some c' → c'.pos ≤ length c'.buf
unfolding put memcpy
put-in_range xs c c' e = ground (arith, length-overwrite c.buf c.pos xs)

>>=-congr :
    (o : Option Cursor) (f g : Writer)
    → ((c : Cursor) → o ≡ some c → f c ≡ g c)
    → (o >>= f) ≡ (o >>= g)
>>=-congr none f g h = refl
>>=-congr (some c) f g h = h c refl

pub >>-Writes :
    {f g : Writer} {xs ys : List ℕ} → Writes f xs → Writes g ys → Writes (f >> g) (xs ++ ys)
unfolding ◌>>◌
>>-Writes {f} {g} {xs} {ys} p q = record {
  writes = λ c h. rw (p.writes c h) (
      >>=-congr (put xs c) g (put ys) (λ c' e. q.writes c' (put-in_range xs c c' e))
      ∙ put-put xs ys c);
}

pub ruleset writing = (put-Writes, copy-Writes, nothing-Writes, >>-Writes)

-- An encoder in one statement: with room for the bytes it succeeds, returns their number and
-- leaves them at `p`.
pub encode_at-some :
    {w : Writer} {xs : List ℕ} (buf : List ℕ) (p : ℕ)
    → Writes w xs
    → p + length xs ≤ length buf
    → encode_at w buf p ≡ some (i16 (length xs), overwrite buf p xs)
unfolding encode_at put memcpy
encode_at-some {xs} buf p v h =
    ground (arith, v.writes (record { buf = buf; pos = p }) (omega arith))

-- Without the room it is a write past the end of the array.
pub encode_at-none :
    {w : Writer} {xs : List ℕ} (buf : List ℕ) (p : ℕ)
    → Writes w xs
    → p ≤ length buf
    → length buf < p + length xs
    → encode_at w buf p ≡ none
unfolding encode_at put memcpy
encode_at-none {xs} buf p v r h = ground (arith, v.writes (record { buf = buf; pos = p }) r)

pub bind_assoc :
    {A B C : Type 0} (o : Option A) (f : A → Option B) (g : B → Option C)
    → (o >>= f) >>= g ≡ o >>= λ a. f a >>= g
bind_assoc none f g = refl
bind_assoc (some a) f g = refl
