-- ===== src/Tracer/Frames/Safe.antt =====
-- A call or a return stays within the shadow stack, however deep the VM is (ext/raygun/raygun_tracer.c).
use raygun_apm_ruby.Base.{◌≡◌, ◌||◌, arith, Bool, true, false, Option, some, Bool-cases, inl, inr}
use raygun_apm_ruby.Protocol.{Thread, Method}
use raygun_apm_ruby.Tracer.Stack.{rb_rg_stack_push}
use raygun_apm_ruby.Tracer.Frames.{
  enter_vm, leave_vm, enter_level, leave_level, enter_method, leave_method, call_method,
  return_method, shadow_full, vm_too_deep, frameless,
}
use raygun_apm_ruby.Tracer.Frames.Laws.{IsThread, push-some, pop-some}

-- The same shadow thread, its stack still within its bounds.
pub record Kept (th : Thread) (th' : Thread) : Type 0 where
  pub thread : IsThread th'
  pub tid : th'.tid ≡ th.tid

abbrev Works : Thread → Option (Thread × Bool) → Type 0
Works th o = (out : Thread × Bool) × (o ≡ some out) × Kept th out.0

push-tid :
    (th : Thread) (f : _) (th' : Thread) → rb_rg_stack_push th f ≡ some th' → th'.tid ≡ th.tid
unfolding rb_rg_stack_push
push-tid th f th' h = ground arith

enter_level-Kept :
    (m : Method) (th : Thread)
    → IsThread th
    → Kept th (enter_level m th).0 × ((enter_level m th).0.shadow_top ≡ th.shadow_top)
unfolding enter_level
enter_level-Kept m th v = ground (arith, v.stack, v.above, v.below)

leave_level-Kept :
    (m : Method) (th : Thread)
    → IsThread th
    → Kept th (leave_level m th).0 × ((leave_level m th).0.shadow_top ≡ th.shadow_top)
unfolding leave_level
leave_level-Kept m th v = ground (arith, v.stack, v.above, v.below)

pub enter_method-Works :
    (m : Method) (th : Thread) → IsThread th → shadow_full th ≡ false → Works th (enter_method m th)
unfolding enter_method
enter_method-Works m th v room =
    let (k, same) = enter_level-Kept m th v in
    let (th', reported) = enter_level m th in
    elim (Bool-cases reported) [
      | inl traced ↦
          (let (pushed, push, w, _, _, _) =
              push-some th' m.function_id k.thread (ground (arith, same, room, v.below)) in
            (
              (pushed, true),
              rw (traced, enter_method) (rw push),
              record {
                thread = w;
                tid = ground (arith, push-tid th' m.function_id pushed push, k.tid);
              },
            ))
      | inr untraced ↦ ((th', false), rw (untraced, enter_method), k)
    ]

pub leave_method-Works :
    (m : Method) (th : Thread) → IsThread th → frameless th ≡ false → Works th (leave_method m th)
unfolding leave_method
leave_method-Works m th v framed =
    let (k, same) = leave_level-Kept m th v in
    let (th', reported) = leave_level m th in
    elim (Bool-cases reported) [
      | inl traced ↦
          (let (r, pop, popped, w) =
              pop-some th' k.thread (ground (arith, same, framed, v.above)) in
            (
              (r.1, true),
              rw (traced, leave_method) (rw pop),
              record { thread = w; tid = ground (arith, popped, k.tid) },
            ))
      | inr untraced ↦ ((th', false), rw (untraced, leave_method), k)
    ]

-- A call and a return by their two branches.
pub call_method-full :
    (m : Method) (th : Thread)
    → shadow_full (enter_vm th) ≡ true
    → call_method m th ≡ some (enter_vm th, false)
unfolding call_method
call_method-full m th full = rw (call_method, full)

pub call_method-room :
    (m : Method) (th : Thread)
    → shadow_full (enter_vm th) ≡ false
    → call_method m th ≡ enter_method m (enter_vm th)
unfolding call_method
call_method-room m th room = rw (call_method, room)

pub return_method-ignored :
    (m : Method) (th : Thread)
    → (vm_too_deep (leave_vm th) || frameless (leave_vm th)) ≡ true
    → return_method m th ≡ some (leave_vm th, false)
unfolding return_method
return_method-ignored m th ignored = ground arith

pub return_method-counted :
    (m : Method) (th : Thread)
    → (vm_too_deep (leave_vm th) || frameless (leave_vm th)) ≡ false
    → return_method m th ≡ leave_method m (leave_vm th)
unfolding return_method
return_method-counted m th counted = ground arith
