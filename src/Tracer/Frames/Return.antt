-- ===== src/Tracer/Frames/Return.antt =====
-- The return of a method undoes its call (ext/raygun/raygun_tracer.c, `rb_rg_tracing_hook_i`).
use raygun_apm_ruby.Base.{
  ℕ, zero, suc, ◌≡◌, ◌≢◌, refl, sym, ap, ◌∙◌, arith, Bool, true, false, some, ℤ, pos, negsuc, ◌≤ℤ◌,
  ◌<ℤ◌, suc_ℤ, pred_ℤ, pred_ℤ-suc_ℤ, leb_ℤ, if◌then◌else◌, Bool-cases, inl, inr,
}
use raygun_apm_ruby.Protocol.{Thread, Method, thread_frameless}
use raygun_apm_ruby.Tracer.Stack.{rb_rg_stack_pop}
use raygun_apm_ruby.Tracer.Frames.{return_method, level, is_library, is_synchronization}
use raygun_apm_ruby.Tracer.Frames.Laws.{IsThread, pop-some}
use raygun_apm_ruby.Tracer.Frames.Pair.{Consistent, SameDepth, inner_level, is_traced, Entered}

abbrev pub outer_level : Method → ℤ → ℤ
outer_level m l = if is_library m then pred_ℤ l else l

-- Whether the return is reported, from the level inside of the method.
abbrev pub was_traced : Method → ℤ → Bool
was_traced m l =
    if is_library m
    then leb_ℤ (pred_ℤ l) (pos 0)
    else if is_synchronization m
    then leb_ℤ l (pos 0)
    else true

-- The call's test and the return's disagree at one place only.
abbrev pub Agrees : Method → ℤ → Type 0
Agrees m l = is_synchronization m ≡ true → is_library m ≡ false → l ≢ pos 1

outer-inner : (m : Method) (l : ℤ) → outer_level m (inner_level m l) ≡ l
outer-inner m l = elim (Bool-cases (is_library m)) [
  | inl b ↦ ground (arith, b, pred_ℤ-suc_ℤ l)
  | inr b ↦ ground (arith, b)
]

leb-gap : (l : ℤ) → l ≢ pos 1 → leb_ℤ l (pos 0) ≡ leb_ℤ l (pos 1)
leb-gap (pos zero) h = refl
leb-gap (pos (suc zero)) h = absurd (h refl)
leb-gap (pos (suc (suc n))) h = ground arith
leb-gap (negsuc n) h = ground arith

leb-suc : (l : ℤ) → leb_ℤ l (pos 0) ≡ leb_ℤ (suc_ℤ l) (pos 1)
leb-suc (pos n) = ground arith
leb-suc (negsuc zero) = refl
leb-suc (negsuc (suc n)) = ground arith

pub was_traced-inner :
    (m : Method) (l : ℤ) → Agrees m l → was_traced m (inner_level m l) ≡ is_traced m l
was_traced-inner m l agrees = elim (Bool-cases (is_library m)) [
  | inl b ↦ ground (arith, b, pred_ℤ-suc_ℤ l, leb-suc l)
  | inr b ↦ elim (Bool-cases (is_synchronization m)) [
    | inl s ↦ ground (arith, b, s, leb-gap l (agrees s b))
    | inr s ↦ ground (arith, b, s)
  ]
]

-- The thread between `--vm_top` and the pop.
abbrev pub leaving : Method → Thread → Thread
leaving m th = record th {
  vm_top = pred_ℤ th.vm_top;
  level_deep_into_third_party_lib = outer_level m (level th);
}

return_traced :
    (m : Method) (th : Thread) (r : ℕ × Thread)
    → pred_ℤ th.vm_top <ℤ pos 255
    → th.shadow_top ≢ thread_frameless
    → was_traced m (level th) ≡ true
    → rb_rg_stack_pop (leaving m th) ≡ some r
    → return_method m th ≡ some (r.1, true)
unfolding return_method
return_traced m th r shallow framed traced popped = ground arith

pub return_untraced :
    (m : Method) (th : Thread)
    → pred_ℤ th.vm_top <ℤ pos 255
    → th.shadow_top ≢ thread_frameless
    → was_traced m (level th) ≡ false
    → return_method m th ≡ some (leaving m th, false)
unfolding return_method
return_untraced m th shallow framed untraced = ground arith

-- What the thread is after the return that ends what `Entered` begins.
pub record Left (th : Thread) (reported : Bool) (r : Thread × Bool) : Type 0 where
  pub consistent : Consistent r.0
  pub depth : SameDepth th r.0
  pub same : r.1 ≡ reported

pub suc_nonneg : (l : ℤ) → negsuc 0 ≤ℤ l → pos 0 ≤ℤ suc_ℤ l
suc_nonneg (pos n) h = ground arith
suc_nonneg (negsuc zero) h = ground arith
suc_nonneg (negsuc (suc n)) h = absurd (ground arith)

pub nonneg_framed : (l : ℤ) → pos 0 ≤ℤ l → l ≢ thread_frameless
nonneg_framed l h e = ground (arith, e, h)

-- The depths are all that consistency is about.
pub SameDepth-Consistent : (a b : Thread) → Consistent a → SameDepth a b → IsThread b → Consistent b
SameDepth-Consistent a b c d v = record {
  thread = v;
  shadow_le_vm = ground (arith, d.shadow_top, d.vm_top, c.shadow_le_vm);
  level_nonneg = ground (arith, d.same_level, c.level_nonneg);
  level_framed = λ h. ground (arith, d.same_level, d.shadow_top, c.level_framed);
}

-- A call that was not traced is below a frame that was.
untraced_framed :
    (m : Method) (th : Thread)
    → Consistent th
    → is_traced m (level th) ≡ false
    → pos 0 ≤ℤ th.shadow_top
untraced_framed m th c untraced = c.level_framed (ground (arith, untraced, c.level_nonneg))

pub return_method-Left :
    (m : Method) (th inside : Thread) (out : Thread × Bool)
    → Consistent th
    → th.vm_top <ℤ pos 255
    → Agrees m (level th)
    → Entered m th out
    → Consistent inside
    → SameDepth out.0 inside
    → (r : Thread × Bool) × (return_method m inside ≡ some r) × Left th out.1 r
return_method-Left m th inside out c deep agrees e ci d =
    let vm : pred_ℤ inside.vm_top ≡ th.vm_top =
      ground (arith, d.vm_top, e.vm, pred_ℤ-suc_ℤ th.vm_top) in
    let shallow : pred_ℤ inside.vm_top <ℤ pos 255 = ground (arith, vm, deep) in
    let lev : level inside ≡ inner_level m (level th) = ground (arith, d.same_level, e.inner) in
    let back : outer_level m (level inside) ≡ level th =
      ground (arith, lev, outer-inner m (level th)) in
    let test : was_traced m (level inside) ≡ is_traced m (level th) =
      ground (arith, lev, was_traced-inner m (level th) agrees) in
    elim (Bool-cases (is_traced m (level th))) [
      | inl traced ↦
          (let top : inside.shadow_top ≡ suc_ℤ th.shadow_top =
              ground (arith, d.shadow_top, e.shadow, traced) in
            let nonneg : pos 0 ≤ℤ inside.shadow_top =
              ground (arith, top, suc_nonneg th.shadow_top c.thread.above) in
            let v : IsThread (leaving m inside) = record {
              stack = ci.thread.stack;
              above = ci.thread.above;
              below = ci.thread.below;
            } in
            let (r, popped, is, vr) = pop-some (leaving m inside) v nonneg in
            let depth : SameDepth th r.1 = record {
              shadow_top =
                  ground (arith, top, pred_ℤ-suc_ℤ th.shadow_top, ap (λ t. t.shadow_top) is);
              vm_top = sym vm ∙ sym (ap (λ t. t.vm_top) is);
              same_level = sym back ∙ sym (ap (λ t. level t) is);
            } in
            (
              (r.1, true),
              return_traced m inside r shallow (nonneg_framed inside.shadow_top nonneg)
                  (test ∙ traced) popped,
              record {
                consistent = SameDepth-Consistent th r.1 c depth vr;
                depth = depth;
                same = sym (e.reported ∙ traced);
              },
            ))
      | inr untraced ↦
          (let top : inside.shadow_top ≡ th.shadow_top =
              ground (arith, d.shadow_top, e.shadow, untraced) in
            let nonneg : pos 0 ≤ℤ inside.shadow_top =
              ground (arith, top, untraced_framed m th c untraced) in
            let depth : SameDepth th (leaving m inside) = record {
              shadow_top = sym top;
              vm_top = sym vm;
              same_level = sym back;
            } in
            let v : IsThread (leaving m inside) = record {
              stack = ci.thread.stack;
              above = ci.thread.above;
              below = ci.thread.below;
            } in
            (
              (leaving m inside, false),
              return_untraced m inside shallow (nonneg_framed inside.shadow_top nonneg)
                  (test ∙ untraced),
              record {
                consistent = SameDepth-Consistent th (leaving m inside) c depth v;
                depth = depth;
                same = sym (e.reported ∙ untraced);
              },
            ))
    ]
