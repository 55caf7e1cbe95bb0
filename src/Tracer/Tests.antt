-- ===== src/Tracer/Tests.antt =====
-- The shadow threads of ext/raygun/raygun_tracer.c on concrete calls.
use raygun_apm_ruby.Base.{
  ℕ, ◌≡◌, refl, arith, Bool, true, false, List, [], ◌∷◌, some, ℤ, pos, negsuc, suc_ℤ, ◌≤ℤ◌, ◌<ℤ◌,
}
use raygun_apm_ruby.Base.{replicate, length-replicate}
use raygun_apm_ruby.Protocol.{Thread, Method}
use raygun_apm_ruby.Tracer.Stack.{rb_rg_stack_push, rb_rg_stack_pop}
use raygun_apm_ruby.Tracer.Frames.Return.{Agrees}
use raygun_apm_ruby.Tracer.Frames.{is_synchronization, call_method, return_method}
use raygun_apm_ruby.Tracer.Frames.Pair.{Consistent, SameDepth}
use raygun_apm_ruby.Tracer.Frames.Balance.{
  Calls, finished, called, Signal, begun, ended, run_calls, close, Fits, run_calls-balanced,
}
use raygun_apm_ruby.Tracer.Frames.Leaks.{deep_call-leaks}

abbrev method : ℕ → ℕ → Method
method f source = record {
  function_id = f;
  encoded_size = 0;
  encoded = [];
  source = source;
  name = [];
}

abbrev thread_at : ℤ → ℤ → ℤ → Thread
thread_at shadow vm deep = record {
  tid = 2;
  parent_tid = 1;
  shadow_top = shadow;
  vm_top = vm;
  level_deep_into_third_party_lib = deep;
  shadow_stack = replicate 256 0;
}

thread_at-Consistent :
    (shadow vm deep : ℤ)
    → negsuc 0 ≤ℤ shadow
    → shadow ≤ℤ pos 255
    → shadow ≤ℤ vm
    → pos 0 ≤ℤ deep
    → (pos 0 <ℤ deep → pos 0 ≤ℤ shadow)
    → Consistent (thread_at shadow vm deep)
thread_at-Consistent shadow vm deep a b c d e = record {
  thread = record { stack = length-replicate {A = ℕ} 256 0; above = a; below = b };
  shadow_le_vm = c;
  level_nonneg = d;
  level_framed = e;
}

abbrev fresh : Thread
fresh = thread_at (negsuc 0) (negsuc 0) (pos 0)

fresh-Consistent : Consistent fresh
fresh-Consistent =
    thread_at-Consistent (negsuc 0) (negsuc 0) (pos 0) (omega arith) (omega arith) (omega arith)
      (omega arith) (λ h. absurd (omega (arith, h)))

-- A controller calls a library, which calls another library and is called again.
abbrev a_run : Calls
a_run =
    called (method 10 0)
      (called (method 11 2) (called (method 12 2) finished finished)
        (called (method 11 2) finished finished))
      (called (method 13 4) finished finished)

-- The inner library call is not reported.
a_run_signals :
    (out : Thread) × (run_calls a_run fresh
      ≡ some (
        out,
        begun 10 ∷ begun 11 ∷ ended 11 ∷ begun 11 ∷ ended 11 ∷ ended 10 ∷ begun 13 ∷ ended 13 ∷ [],
      ))
unfolding run_calls call_method return_method rb_rg_stack_push rb_rg_stack_pop
a_run_signals = (_, refl)

other-Agrees : (m : Method) (l : ℤ) → is_synchronization m ≡ false → Agrees m l
other-Agrees m l h s b = absurd (cc)

outside-Agrees : (m : Method) → Agrees m (pos 0)
outside-Agrees m s b e = ground (arith, e)

run_calls-balanced_example :
    (out : Thread × List Signal) × (run_calls a_run fresh ≡ some out)
    × (close (1 ∷ []) out.1 ≡ some (1 ∷ []))
    × SameDepth fresh out.0
unfolding Fits
run_calls-balanced_example = run_calls-balanced a_run fresh (1 ∷ []) fresh-Consistent (
  omega arith,
  other-Agrees (method 10 0) (pos 0) refl,
  (
    omega arith,
    other-Agrees (method 11 2) (pos 0) refl,
    (omega arith, other-Agrees (method 12 2) (pos 1) refl, tt, tt),
    (omega arith, other-Agrees (method 11 2) (pos 0) refl, tt, tt),
  ),
  (omega arith, outside-Agrees (method 13 4), tt, tt),
)

abbrev in_library : Thread
in_library = thread_at (pos 1) (pos 1) (pos 1)

abbrev deep : Thread
deep = thread_at (pos 4) (pos 300) (pos 0)

deep_call-leaks_example :
    (out r : Thread × Bool) × (call_method (method 10 0) deep ≡ some out)
    × (out.1 ≡ true)
    × (return_method (method 10 0) out.0 ≡ some r)
    × (r.1 ≡ false)
    × (r.0.shadow_top ≡ suc_ℤ deep.shadow_top)
deep_call-leaks_example =
    deep_call-leaks (method 10 0) deep
      (record { stack = length-replicate {A = ℕ} 256 0; above = omega arith; below = omega arith })
      (omega arith) (omega arith) refl refl
