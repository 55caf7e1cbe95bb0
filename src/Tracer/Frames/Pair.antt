-- ===== src/Tracer/Frames/Pair.antt =====
-- A call and its return (ext/raygun/raygun_tracer.c, `rb_rg_tracing_hook_i`) undo one another.
use raygun_apm_ruby.Base.{
  ◌≡◌, refl, sym, arith, Bool, true, false, some, ℤ, pos, ◌≤ℤ◌, ◌<ℤ◌, suc_ℤ, leb_ℤ, if◌then◌else◌,
  Bool-cases, inl, inr,
}
use raygun_apm_ruby.Protocol.{Thread, Method}
use raygun_apm_ruby.Tracer.Stack.{rb_rg_stack_push}
use raygun_apm_ruby.Tracer.Frames.{call_method, level, is_library, is_synchronization}
use raygun_apm_ruby.Tracer.Frames.Laws.{IsThread, push-some}

-- The shadow stack never outgrows the VM's, and library code is below a frame that was followed.
pub record Consistent (th : Thread) : Type 0 where
  pub thread : IsThread th
  pub shadow_le_vm : th.shadow_top ≤ℤ th.vm_top
  pub level_nonneg : pos 0 ≤ℤ level th
  pub level_framed : pos 0 <ℤ level th → pos 0 ≤ℤ th.shadow_top

pub record SameDepth (a b : Thread) : Type 0 where
  pub shadow_top : a.shadow_top ≡ b.shadow_top
  pub vm_top : a.vm_top ≡ b.vm_top
  pub same_level : level a ≡ level b

-- The level inside of the method.
abbrev pub inner_level : Method → ℤ → ℤ
inner_level m l = if is_library m then suc_ℤ l else l

-- Whether the call is reported: not below the first level of library code, for library code itself
-- and for synchronization.
abbrev pub is_traced : Method → ℤ → Bool
is_traced m l =
    if is_library m
    then leb_ℤ (suc_ℤ l) (pos 1)
    else if is_synchronization m
    then leb_ℤ l (pos 1)
    else true

-- What the thread is after the call.
pub record Entered (m : Method) (th : Thread) (out : Thread × Bool) : Type 0 where
  pub consistent : Consistent out.0
  pub vm : out.0.vm_top ≡ suc_ℤ th.vm_top
  pub inner : level out.0 ≡ inner_level m (level th)
  pub shadow :
      out.0.shadow_top ≡ (if is_traced m (level th) then suc_ℤ th.shadow_top else th.shadow_top)
  pub reported : out.1 ≡ is_traced m (level th)

-- The thread between `vm_top++` and the push.
abbrev entering : Method → Thread → Thread
entering m th = record th {
  vm_top = suc_ℤ th.vm_top;
  level_deep_into_third_party_lib = inner_level m (level th);
}

call_traced :
    (m : Method) (th th' : Thread)
    → th.shadow_top <ℤ pos 255
    → is_traced m (level th) ≡ true
    → rb_rg_stack_push (entering m th) m.function_id ≡ some th'
    → call_method m th ≡ some (th', true)
unfolding call_method
call_traced m th th' room traced pushed = ground arith

call_untraced :
    (m : Method) (th : Thread)
    → th.shadow_top <ℤ pos 255
    → is_traced m (level th) ≡ false
    → call_method m th ≡ some (entering m th, false)
unfolding call_method
call_untraced m th room traced = ground arith

-- A call that is not so deep that the VM's frames are no longer counted is entered.
pub call_method-Entered :
    (m : Method) (th : Thread)
    → Consistent th
    → th.vm_top <ℤ pos 255
    → (out : Thread × Bool) × (call_method m th ≡ some out) × Entered m th out
call_method-Entered m th c deep =
    let room : th.shadow_top <ℤ pos 255 = ground (arith, c.shadow_le_vm) in
    elim (Bool-cases (is_traced m (level th))) [
      | inl traced ↦
          (let inside : IsThread (entering m th) = record {
            stack = c.thread.stack;
            above = c.thread.above;
            below = c.thread.below;
          } in
            let (th', pushed, v, top, vm, lev) =
              push-some (entering m th) m.function_id inside room in
            (
              (th', true),
              call_traced m th th' room traced pushed,
              record {
                consistent = record {
                  thread = v;
                  shadow_le_vm = ground (arith, top, vm, c.shadow_le_vm);
                  level_nonneg = ground (arith, lev, c.level_nonneg);
                  level_framed = λ h. ground (arith, top, c.thread.above);
                };
                vm = vm;
                inner = lev;
                shadow = rw traced top;
                reported = sym traced;
              },
            ))
      | inr untraced ↦ (
        (entering m th, false),
        call_untraced m th room untraced,
        record {
          consistent = record {
            thread = record {
              stack = c.thread.stack;
              above = c.thread.above;
              below = c.thread.below;
            };
            shadow_le_vm = ground (arith, c.shadow_le_vm);
            level_nonneg = ground (arith, c.level_nonneg);
            level_framed = λ h. ground (arith, untraced, c.level_framed, c.level_nonneg);
          };
          vm = refl;
          inner = refl;
          shadow = rw untraced;
          reported = sym untraced;
        },
      )
    ]
