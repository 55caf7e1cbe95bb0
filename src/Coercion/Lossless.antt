-- ===== src/Coercion/Lossless.antt =====
-- The type that a Fixnum is sent as holds its value (ext/raygun/raygun_coercion.c).
use raygun_apm_ruby.Base.{
  ℕ, ◌+◌, ◌-◌, ◌*◌, ◌≡◌, arith, Option, none, some, ℤ, pos, negsuc, ◌≤ℤ◌, ltb, if◌then◌else◌,
}
use native.Mathlib.Decide.{dec_le}
use raygun_apm_ruby.Protocol.{
  VariableValue, vt_short, vt_unsigned_short, vt_int32, vt_unsigned_int32, vt_long,
  vt_unsigned_long, VariableInfo,
}
use raygun_apm_ruby.Encoder.Size.{value_size}
use raygun_apm_ruby.Coercion.Variables.{rb_rg_variable_info_init, rb_rg_vt_coerce_fixnum}

-- The integer that a two's complement pattern of `2 * half` values stands for.
abbrev pub signed : ℕ → ℕ → ℤ
signed half n = if ltb n half then pos n else negsuc (2 * half - 1 - n)

-- What a reader makes of a number on the wire.
unfoldable pub number : VariableValue → Option ℤ
number (vt_short n) = some (signed 32768 n)
number (vt_unsigned_short n) = some (pos n)
number (vt_int32 n) = some (signed 2147483648 n)
number (vt_unsigned_int32 n) = some (pos n)
number (vt_long n) = some (signed 9223372036854775808 n)
number (vt_unsigned_long n) = some (pos n)
number _ = none

-- A Fixnum of 63 bits, without a name, is sent as a number that a reader takes for the same integer,
-- and the length covers the type, the name's length and the value.
pub coerce_fixnum-number :
    (var : VariableInfo) (val : ℤ)
    → negsuc 4611686018427387903 ≤ℤ val
    → val ≤ℤ pos 4611686018427387903
    → (v : VariableInfo) × (rb_rg_vt_coerce_fixnum var none val ≡ some v)
      × (number v.value ≡ some val)
      × (v.length ≡ 2 + v.name_length + value_size v.value)
unfolding rb_rg_vt_coerce_fixnum rb_rg_variable_info_init number value_size
coerce_fixnum-number var (pos n) low high = elim (dec_le n 65535) [
  | yes small ↦ (
    record var { length = 4; name_length = 0; value = vt_unsigned_short n },
    ground arith,
    ground arith,
    ground arith,
  )
  | no more ↦ elim (dec_le n 4294967295) [
    | yes middle ↦ (
      record var { length = 6; name_length = 0; value = vt_unsigned_int32 n },
      ground arith,
      ground arith,
      ground arith,
    )
    | no large ↦ (
      record var { length = 10; name_length = 0; value = vt_unsigned_long n },
      ground arith,
      ground arith,
      ground arith,
    )
  ]
]
coerce_fixnum-number var (negsuc n) low high = elim (dec_le n 32767) [
  | yes small ↦ (
    record var { length = 4; name_length = 0; value = vt_short (65535 - n) },
    ground arith,
    ground arith,
    ground arith,
  )
  | no more ↦ elim (dec_le n 2147483647) [
    | yes middle ↦ (
      record var { length = 6; name_length = 0; value = vt_int32 (4294967295 - n) },
      ground arith,
      ground arith,
      ground arith,
    )
    | no large ↦ (
      record var { length = 10; name_length = 0; value = vt_long (18446744073709551615 - n) },
      ground arith,
      ground arith,
      ground arith,
    )
  ]
]
