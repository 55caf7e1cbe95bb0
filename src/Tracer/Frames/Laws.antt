-- ===== src/Tracer/Frames/Laws.antt =====
-- What one call and one return keep (ext/raygun/raygun_tracer.c, `rb_rg_tracing_hook_i`).
use raygun_apm_ruby.Base.{
  ℕ, zero, suc, ◌+◌, ◌<◌, ◌≡◌, refl, arith, some, ℤ, pos, negsuc, ◌≤ℤ◌, ◌<ℤ◌, suc_ℤ, pred_ℤ, List,
  [], ◌∷◌, length, get_elem?, set, length-set,
}
use raygun_apm_ruby.Protocol.{Thread, shadow_stack_limit}
use raygun_apm_ruby.Tracer.Stack.{rb_rg_stack_peek, rb_rg_stack_push, rb_rg_stack_pop}
use raygun_apm_ruby.Tracer.Frames.{level}

-- The shadow stack has its declared size and a top within it, or none.
pub record IsThread (th : Thread) : Type 0 where
  pub stack : length th.shadow_stack ≡ shadow_stack_limit
  pub above : negsuc 0 ≤ℤ th.shadow_top
  pub below : th.shadow_top ≤ℤ pos 255

get_elem?-some : (xs : List ℕ) (i : ℕ) → i < length xs → (x : ℕ) × (get_elem? xs i ≡ some x)
get_elem?-some [] i h = absurd (omega arith)
get_elem?-some (x ∷ xs) zero h = (x, refl)
get_elem?-some (x ∷ xs) (suc i) h = get_elem?-some xs i (omega arith)

-- The top of a stack that is not empty lies in the array.
pub peek-some :
    (th : Thread) → IsThread th → pos 0 ≤ℤ th.shadow_top → (f : ℕ) × (rb_rg_stack_peek th ≡ some f)
unfolding rb_rg_stack_peek
peek-some th v h = go th.shadow_top refl
  where
    go : (top : ℤ) → th.shadow_top ≡ top → (f : ℕ) × (rb_rg_stack_peek th ≡ some f)
    go (negsuc n) e = absurd (ground arith)
    go (pos n) e =
        let (x, found) = get_elem?-some th.shadow_stack n (ground (arith, v.stack, v.below)) in
        (x, ground (arith, found))

-- A push below the limit stays in the array.
pub push-some :
    (th : Thread) (f : ℕ)
    → IsThread th
    → th.shadow_top <ℤ pos 255
    → (th' : Thread) × (rb_rg_stack_push th f ≡ some th')
      × IsThread th'
      × (th'.shadow_top ≡ suc_ℤ th.shadow_top)
      × (th'.vm_top ≡ th.vm_top)
      × (level th' ≡ level th)
unfolding rb_rg_stack_push
push-some th f v h = go th.shadow_top refl
  where
    go :
        (top : ℤ)
        → th.shadow_top ≡ top
        → (th' : Thread) × (rb_rg_stack_push th f ≡ some th')
          × IsThread th'
          × (th'.shadow_top ≡ suc_ℤ th.shadow_top)
          × (th'.vm_top ≡ th.vm_top)
          × (level th' ≡ level th)
    go (pos n) e = (
      record th { shadow_top = pos (n + 1); shadow_stack = set th.shadow_stack (n + 1) f },
      ground (arith, v.stack),
      ground (arith, v.stack, length-set th.shadow_stack (n + 1) f),
      ground arith,
      refl,
      refl,
    )
    go (negsuc zero) e = (
      record th { shadow_top = pos 0; shadow_stack = set th.shadow_stack 0 f },
      ground (arith, v.stack),
      ground (arith, v.stack, length-set th.shadow_stack 0 f),
      ground arith,
      refl,
      refl,
    )
    go (negsuc (suc n)) e = absurd (ground (arith, v.above))

-- A pop of a stack that is not empty stays in the array.
pub pop-some :
    (th : Thread)
    → IsThread th
    → pos 0 ≤ℤ th.shadow_top
    → (r : ℕ × Thread) × (rb_rg_stack_pop th ≡ some r)
      × (r.1 ≡ record th { shadow_top = pred_ℤ th.shadow_top })
      × IsThread r.1
unfolding rb_rg_stack_pop
pop-some th v h = go th.shadow_top refl
  where
    go :
        (top : ℤ)
        → th.shadow_top ≡ top
        → (r : ℕ × Thread) × (rb_rg_stack_pop th ≡ some r)
          × (r.1 ≡ record th { shadow_top = pred_ℤ th.shadow_top })
          × IsThread r.1
    go (negsuc n) e = absurd (ground arith)
    go (pos n) e =
        let (x, found) = get_elem?-some th.shadow_stack n (ground (arith, v.stack, v.below)) in
        (
          (x, record th { shadow_top = pred_ℤ th.shadow_top }),
          ground (arith, found),
          refl,
          ground (arith, v.stack, v.below),
        )
