-- ===== src/Tracer/Stack.antt =====
-- The shadow stack of a shadow thread (ext/raygun/raygun_tracer.c). `none` is an access outside of
-- the array.
use raygun_apm_ruby.Base.{ℕ, Option, none, some, ℤ, pos, negsuc, suc_ℤ, pred_ℤ}
use raygun_apm_ruby.Base.{ltb, if◌then◌else◌, length, get_elem?, set}
use raygun_apm_ruby.Memory.{◌>>=◌}
use raygun_apm_ruby.Protocol.{Thread}

-- The array index that an `int` is, if it is one.
abbrev pub index : ℤ → Option ℕ
index (pos i) = some i
index (negsuc _) = none

unfoldable pub rb_rg_stack_push : Thread → ℕ → Option Thread
rb_rg_stack_push th function = do
  i ← index (suc_ℤ th.shadow_top)
  if ltb i (length th.shadow_stack)
      then some (record th { shadow_top = pos i; shadow_stack = set th.shadow_stack i function })
      else none

unfoldable pub rb_rg_stack_peek : Thread → Option ℕ
rb_rg_stack_peek th = do i ← index th.shadow_top; get_elem? th.shadow_stack i

unfoldable pub rb_rg_stack_pop : Thread → Option (ℕ × Thread)
unfolding rb_rg_stack_peek
rb_rg_stack_pop th = do
  function ← rb_rg_stack_peek th
  some (function, record th { shadow_top = pred_ℤ th.shadow_top })
