-- ===== src/Memory.antt =====
-- Byte arrays of fixed size and `memcpy` through an advancing pointer, the idiom of every encoder:
-- `memcpy(ptr, src, n); ptr += n`. `none` is an access outside of an array.
pub mod Laws
pub mod Seams
use raygun_apm_ruby.Base.{ℕ, zero, suc, ◌+◌, ◌-◌, List, [], ◌∷◌, Option, none, some}
use raygun_apm_ruby.Base.{leb, if◌then◌else◌, length, take, drop, i16}

infixl 5 ◌>>=◌
abbrev pub ◌>>=◌ {ℓ κ} : {A : Type ℓ} {B : Type κ} → Option A → (A → Option B) → Option B
none >>= f = none
some a >>= f = f a

-- The array after `xs` is written at index `p`; what would fall outside is dropped.
unfoldable pub overwrite : List ℕ → ℕ → List ℕ → List ℕ
overwrite [] p xs = []
overwrite (b ∷ bs) zero [] = b ∷ bs
overwrite (b ∷ bs) zero (x ∷ xs) = x ∷ overwrite bs zero xs
overwrite (b ∷ bs) (suc p) xs = b ∷ overwrite bs p xs

-- `memcpy(buf + p, xs, length xs)`.
unfoldable pub memcpy : List ℕ → ℕ → List ℕ → Option (List ℕ)
memcpy buf p xs = if leb (p + length xs) (length buf) then some (overwrite buf p xs) else none

-- The first `n` bytes of the array `src`.
unfoldable pub read : List ℕ → ℕ → Option (List ℕ)
read src n = if leb n (length src) then some (take n src) else none

-- The bytes of `buf` from index `p`, `n` of them.
abbrev pub slice : List ℕ → ℕ → ℕ → List ℕ
slice buf p n = take n (drop p buf)

-- An array with the pointer that an encoder moves.
pub record Cursor : Type 0 where
  pub buf : List ℕ
  pub pos : ℕ

abbrev pub Writer : Type 0
Writer = Cursor → Option Cursor

-- `memcpy(ptr, &field, sizeof(field)); ptr += sizeof(field)`.
unfoldable pub put : List ℕ → Writer
unfolding memcpy
put xs c = do buf ← memcpy c.buf c.pos xs; some (record { buf = buf; pos = c.pos + length xs })

-- `memcpy(ptr, src, n); ptr += n` from an array.
unfoldable pub copy : List ℕ → ℕ → Writer
copy src n c = do xs ← read src n; put xs c

infixl 5 ◌>>◌
unfoldable pub ◌>>◌ : Writer → Writer → Writer
(f >> g) c = f c >>= g

unfoldable pub nothing : Writer
nothing c = some c

-- A whole encoder: it starts at `buf + p`, and returns `(rg_short_t)(ptr - offset)`.
unfoldable pub encode_at : Writer → List ℕ → ℕ → Option (ℕ × List ℕ)
encode_at w buf p = do c ← w (record { buf = buf; pos = p }); some (i16 (c.pos - p), c.buf)
