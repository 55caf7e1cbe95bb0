-- ===== src/Memory/Seams.antt =====
-- Reading across the seam of two writes.
use raygun_apm_ruby.Base.{ℕ, zero, suc, ◌+◌, ◌≤◌, ◌≡◌, ap, arith, List, [], ◌∷◌, ◌++◌}
use raygun_apm_ruby.Base.{length, take}
use raygun_apm_ruby.Memory.{overwrite, slice}
use raygun_apm_ruby.Memory.Laws.{slice-overwrite}

take-overwrite_behind :
    (buf : List ℕ) (n m : ℕ) (ys : List ℕ)
    → m ≡ n + length ys
    → m ≤ length buf
    → take m (overwrite buf n ys) ≡ take n buf ++ ys
unfolding overwrite
take-overwrite_behind buf zero m ys g h = slice-overwrite buf 0 m ys (omega arith) (omega arith)
take-overwrite_behind [] (suc n) m ys g h = absurd (omega arith)
take-overwrite_behind (b ∷ bs) (suc n) zero ys g h = absurd (omega arith)
take-overwrite_behind (b ∷ bs) (suc n) (suc m) ys g h =
    ap (λ l. b ∷ l) (take-overwrite_behind bs n m ys (omega arith) (omega arith))

-- Bytes, and bytes written right behind them.
pub slice-overwrite_behind :
    (buf : List ℕ) (p q n m : ℕ) (ys : List ℕ)
    → q ≡ p + n
    → m ≡ n + length ys
    → p + m ≤ length buf
    → slice (overwrite buf q ys) p m ≡ slice buf p n ++ ys
unfolding overwrite
slice-overwrite_behind buf zero q n m ys f g h =
    let e : q ≡ n = omega arith in rw e (take-overwrite_behind buf n m ys g (omega arith))
slice-overwrite_behind [] (suc p) q n m ys f g h = absurd (omega arith)
slice-overwrite_behind (b ∷ bs) (suc p) zero n m ys f g h = absurd (omega arith)
slice-overwrite_behind (b ∷ bs) (suc p) (suc q) n m ys f g h =
    slice-overwrite_behind bs p q n m ys (omega arith) g (omega arith)

-- Bytes written at the front, and what follows them.
pub take-overwrite_front :
    (buf : List ℕ) (k n m : ℕ) (xs : List ℕ)
    → k ≡ length xs
    → m ≡ k + n
    → k ≤ length buf
    → take m (overwrite buf 0 xs) ≡ xs ++ slice buf k n
unfolding overwrite
take-overwrite_front [] zero n m [] e f h = let g : m ≡ n = omega arith in rw g
take-overwrite_front [] zero n m (x ∷ xs) e f h = absurd (omega arith)
take-overwrite_front [] (suc k) n m xs e f h = absurd (omega arith)
take-overwrite_front (b ∷ bs) zero n m [] e f h = let g : m ≡ n = omega arith in rw g
take-overwrite_front (b ∷ bs) zero n m (x ∷ xs) e f h = absurd (omega arith)
take-overwrite_front (b ∷ bs) (suc k) n m [] e f h = absurd (omega arith)
take-overwrite_front (b ∷ bs) (suc k) n zero (x ∷ xs) e f h = absurd (omega arith)
take-overwrite_front (b ∷ bs) (suc k) n (suc m) (x ∷ xs) e f h =
    ap (λ l. x ∷ l) (take-overwrite_front bs k n m xs (omega arith) (omega arith) (omega arith))
