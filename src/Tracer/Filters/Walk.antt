-- ===== src/Tracer/Filters/Walk.antt =====
-- What the loop up the nodes of a radix tree finds (ext/raygun/raygun_tracer.c,
-- `rb_rg_blacklisted_string_p`).
use raygun_apm_ruby.Base.{
  ℕ, ◌≡◌, ◌≢◌, refl, arith, List, [], ◌∷◌, Option, none, some, Bool, false, ◌||◌, ◌==◌,
  if◌then◌else◌,
}
use raygun_apm_ruby.Tracer.Filters.{Rax, scan, rb_rg_blacklisted_string_p, unlisted, whitelisted}

-- Whether a key on the way is whitelisted.
abbrev pub any_whitelisted : List (Option ℕ) → Bool
any_whitelisted [] = false
any_whitelisted (none ∷ nodes) = any_whitelisted nodes
any_whitelisted (some d ∷ nodes) = (d == whitelisted) || any_whitelisted nodes

-- The data of the shortest prefix that is a key, or else the default.
abbrev pub outermost : List (Option ℕ) → ℕ → ℕ
outermost [] found = found
outermost (none ∷ nodes) found = outermost nodes found
outermost (some d ∷ nodes) found = outermost nodes d

scan-outermost :
    (nodes : List (Option ℕ)) (found : ℕ)
    → scan nodes found ≡ (if any_whitelisted nodes then whitelisted else outermost nodes found)
unfolding scan
scan-outermost [] found = refl
scan-outermost (none ∷ nodes) found = scan-outermost nodes found
scan-outermost (some d ∷ nodes) found = ground (arith, scan-outermost nodes d)

-- If the walk matches a byte or more, a string is whitelisted if any key on the way is, and else
-- listed as the outermost key says, or unlisted without one.
pub string_p-outermost :
    (rax : Rax) (tree : rax.Tree) (needle : List ℕ)
    → (rax.walk tree needle).0 ≢ 0
    → rb_rg_blacklisted_string_p rax tree needle ≡ (
        if any_whitelisted (rax.walk tree needle).1
        then whitelisted
        else outermost (rax.walk tree needle).1 unlisted)
unfolding rb_rg_blacklisted_string_p
string_p-outermost rax tree needle h =
    ground (arith, h, scan-outermost (rax.walk tree needle).1 unlisted)
