-- ===== src/Tracer/Frames/Leaks.antt =====
-- The calls whose return is not recognized (ext/raygun/raygun_tracer.c, `rb_rg_tracing_hook_i`).
use raygun_apm_ruby.Base.{
  ◌≡◌, refl, arith, Bool, true, false, some, pos, ◌<ℤ◌, ◌≤ℤ◌, suc_ℤ, pred_ℤ, pred_ℤ-suc_ℤ,
}
use raygun_apm_ruby.Protocol.{Thread, Method}
use raygun_apm_ruby.Tracer.Frames.{call_method, return_method, is_library, is_synchronization}
use raygun_apm_ruby.Tracer.Frames.Laws.{IsThread, push-some}

-- A method of the application that is called with 256 or more frames of the VM counted (the
-- counter starts at -1, so it is 255 or more), while the
-- shadow stack has room, is pushed and reported with BEGIN; its return neither pops the frame nor
-- reports END.
pub deep_call-leaks :
    (m : Method) (th : Thread)
    → IsThread th
    → pos 255 ≤ℤ th.vm_top
    → th.shadow_top <ℤ pos 255
    → is_library m ≡ false
    → is_synchronization m ≡ false
    → (out r : Thread × Bool) × (call_method m th ≡ some out)
      × (out.1 ≡ true)
      × (return_method m out.0 ≡ some r)
      × (r.1 ≡ false)
      × (r.0.shadow_top ≡ suc_ℤ th.shadow_top)
unfolding call_method return_method
deep_call-leaks m th v deep room own follows =
    let th' : Thread = record th { vm_top = suc_ℤ th.vm_top } in
    let inside : IsThread th' = record { stack = v.stack; above = v.above; below = v.below } in
    let (pushed, push, _, top, vm, _) = push-some th' m.function_id inside room in
    (
      (pushed, true),
      (record pushed { vm_top = pred_ℤ pushed.vm_top }, false),
      ground (arith, push, own, follows),
      refl,
      ground (arith, vm, pred_ℤ-suc_ℤ th.vm_top, deep),
      refl,
      top,
    )
