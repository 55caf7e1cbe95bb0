-- ===== src/Event/Numbers.antt =====
-- The number attributes of events (ext/raygun/raygun_event.c).
use raygun_apm_ruby.Base.{ℕ, ◌^◌, ◌<◌, ◌≡◌, some, true, false, Bool, pos}
use raygun_apm_ruby.Protocol.{Event}
use raygun_apm_ruby.Event.Slots.{
  Attribute, id_pid, id_tid, id_timestamp, id_parent_tid, id_frequency, id_function_id,
  id_method_source, id_status, id_duration, integer, Ruby,
}

-- What Ruby documents of its conversions, for integers that the C type holds.
pub record Converts (r : Ruby) : Type 0 where
  pub ull : (n : ℕ) → n < 2 ^ 64 → r.num2ull (integer (pos n)) ≡ some n
  pub ll : (n : ℕ) → n < 2 ^ 63 → r.num2ll (integer (pos n)) ≡ some n
  pub uint : (n : ℕ) → n < 2 ^ 32 → r.num2uint (integer (pos n)) ≡ some n
  pub ushort : (n : ℕ) → n < 2 ^ 16 → r.num2ushort (integer (pos n)) ≡ some n

-- The bound of an attribute's type, of its positive part where that is signed.
abbrev pub bound : Attribute → ℕ
bound id_pid = 2 ^ 32
bound id_tid = 2 ^ 32
bound id_timestamp = 2 ^ 63
bound id_parent_tid = 2 ^ 32
bound id_frequency = 2 ^ 63
bound id_duration = 2 ^ 63
bound id_function_id = 2 ^ 32
bound id_method_source = 2 ^ 8
bound id_status = 2 ^ 16
bound _ = 2 ^ 64

-- The numbers that every event has, outside of the union.
abbrev pub is_common : Attribute → Bool
is_common id_pid = true
is_common id_tid = true
is_common id_timestamp = true
is_common _ = false
