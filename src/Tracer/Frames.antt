-- ===== src/Tracer/Frames.antt =====
-- What a method call and a return do to the shadow thread that observes them: the RUBY_EVENT_CALL and
-- RUBY_EVENT_RETURN cases of `rb_rg_tracing_hook_i` (ext/raygun/raygun_tracer.c).
pub mod Laws
pub mod Pair
pub mod Return
pub mod Balance
pub mod Leaks
pub mod Safe
use raygun_apm_ruby.Base.{ℕ, Bool, true, false, Option, some, ℤ, pos, negsuc, suc_ℤ, pred_ℤ}
use raygun_apm_ruby.Base.{leb_ℤ, ltb_ℤ, eq_ℤ, ◌==◌, if◌then◌else◌}
use raygun_apm_ruby.Memory.{◌>>=◌}
use raygun_apm_ruby.Protocol.{
  Thread, Method, source_known_library, source_wait_for_synchronization, thread_frameless,
}
use raygun_apm_ruby.Tracer.Stack.{rb_rg_stack_push, rb_rg_stack_pop}

-- `++vm_top`, and whether the shadow stack is full, in which case the call is not followed.
unfoldable pub enter_vm : Thread → Thread
enter_vm th = record th { vm_top = suc_ℤ th.vm_top }

abbrev pub shadow_full : Thread → Bool
shadow_full th = eq_ℤ th.shadow_top (pos 255)

-- `--vm_top`, and whether the return is of a frame that was not followed.
unfoldable pub leave_vm : Thread → Thread
leave_vm th = record th { vm_top = pred_ℤ th.vm_top }

abbrev pub vm_too_deep : Thread → Bool
vm_too_deep th = leb_ℤ (pos 255) th.vm_top

abbrev pub frameless : Thread → Bool
frameless th = eq_ℤ th.shadow_top thread_frameless

abbrev pub is_library : Method → Bool
is_library m = m.source == source_known_library

abbrev pub is_synchronization : Method → Bool
is_synchronization m = m.source == source_wait_for_synchronization

abbrev pub level : Thread → ℤ
level th = th.level_deep_into_third_party_lib

-- The depth into library code after the method is called, and whether the call is traced.
unfoldable pub enter_level : Method → Thread → Thread × Bool
enter_level m th =
    if is_library m
    then (let th' = record th { level_deep_into_third_party_lib = suc_ℤ (level th) } in
        (th', leb_ℤ (level th') (pos 1)))
    else if is_synchronization m
    then (th, leb_ℤ (level th) (pos 1))
    else (th, true)

-- The same on its return.
unfoldable pub leave_level : Method → Thread → Thread × Bool
leave_level m th =
    if is_library m
    then (let th' = record th { level_deep_into_third_party_lib = pred_ℤ (level th) } in
        (th', leb_ℤ (level th') (pos 0)))
    else if is_synchronization m
    then (th, leb_ℤ (level th) (pos 0))
    else (th, true)

-- A traced call is pushed; the Boolean says whether BEGIN is emitted.
unfoldable pub enter_method : Method → Thread → Option (Thread × Bool)
unfolding enter_level
enter_method m th =
    let (th', traced) = enter_level m th in
    if traced
    then (rb_rg_stack_push th' m.function_id >>= λ th''. some (th'', true))
    else some (th', false)

-- A traced return is popped; the Boolean says whether END is emitted.
unfoldable pub leave_method : Method → Thread → Option (Thread × Bool)
unfolding leave_level
leave_method m th =
    let (th', traced) = leave_level m th in
    if traced then (rb_rg_stack_pop th' >>= λ r. some (r.1, true)) else some (th', false)

-- The call of a whitelisted method.
unfoldable pub call_method : Method → Thread → Option (Thread × Bool)
unfolding enter_vm enter_method
call_method m th =
    let th' = enter_vm th in if shadow_full th' then some (th', false) else enter_method m th'

-- The return of a whitelisted method.
unfoldable pub return_method : Method → Thread → Option (Thread × Bool)
unfolding leave_vm leave_method
return_method m th =
    let th' = leave_vm th in
    if vm_too_deep th'
    then some (th', false)
    else if frameless th'
    then some (th', false)
    else leave_method m th'
