-- ===== src/Coercion/Variables.antt =====
-- Variables (ext/raygun/raygun_coercion.c): how a Ruby value becomes a typed value on the wire.
use raygun_apm_ruby.Base.{
  ℕ, ◌+◌, ◌-◌, ◌%◌, ◌^◌, List, Option, none, some, Bool, ◌&&◌, ℤ, pos, negsuc, i16, u8,
}
use raygun_apm_ruby.Base.{leb, ltb, leb_ℤ, ltb_ℤ, ◌==◌, if◌then◌else◌, length, replicate}
use raygun_apm_ruby.Memory.{◌>>=◌}
use raygun_apm_ruby.Protocol.{
  EncodedString, LargeString, VariableValue, vt_boolean, vt_short, vt_unsigned_short, vt_int32,
  vt_unsigned_int32, vt_long, vt_unsigned_long, vt_float, vt_string, vt_emptystring, vt_nullobject,
  vt_largestring, VariableInfo, max_string_size, max_variable_name,
}
use raygun_apm_ruby.Coercion.Strings.{
  copy_string, rb_rg_encode_string_raw, rb_rg_encode_largestring_raw,
}

-- The variable with its type, its name cut to the array, and the length of what is set so far.
unfoldable pub rb_rg_variable_info_init :
    VariableInfo → Option (List ℕ) → VariableValue → Option VariableInfo
unfolding copy_string
rb_rg_variable_info_init var none value =
    some (record var { length = 2; name_length = 0; value = value })
rb_rg_variable_info_init var (some chars) value = do
  let n = u8 (length chars)
  let name_length = if ltb max_variable_name n then max_variable_name else n
  name ← copy_string var.name chars name_length
  some (record { length = 2 + name_length; name_length = name_length; name = name; value = value })

-- `var->length += n`.
abbrev pub lengthen : ℕ → VariableInfo → VariableInfo
lengthen n var = record var { length = i16 (var.length + n) }

-- The two's complement pattern of an integer in `w` bits.
abbrev pub pattern : ℕ → ℤ → ℕ
pattern w (pos n) = n % 2 ^ w
pattern w (negsuc n) = 2 ^ w - 1 - n % 2 ^ w

-- The type that a Fixnum is sent as, and the bytes that it adds to the length: the first range that
-- holds it.
unfoldable pub rb_rg_vt_coerce_fixnum : VariableInfo → Option (List ℕ) → ℤ → Option VariableInfo
unfolding rb_rg_variable_info_init
rb_rg_vt_coerce_fixnum var name val =
    if leb_ℤ (pos 0) val && leb_ℤ val (pos 65535)
    then (rb_rg_variable_info_init var name (vt_unsigned_short (pattern 16 val)) >>= λ v.
        some (lengthen 2 v))
    else if ltb_ℤ val (pos 0) && leb_ℤ (negsuc 32767) val
    then (rb_rg_variable_info_init var name (vt_short (pattern 16 val)) >>= λ v.
        some (lengthen 2 v))
    else if leb_ℤ (pos 32767) val && leb_ℤ val (pos 4294967295)
    then (rb_rg_variable_info_init var name (vt_unsigned_int32 (pattern 32 val)) >>= λ v.
        some (lengthen 4 v))
    else if ltb_ℤ val (negsuc 32767) && leb_ℤ (negsuc 2147483647) val
    then (rb_rg_variable_info_init var name (vt_int32 (pattern 32 val)) >>= λ v.
        some (lengthen 4 v))
    else if ltb_ℤ (pos 2147483647) val
    then (rb_rg_variable_info_init var name (vt_unsigned_long (pattern 64 val)) >>= λ v.
        some (lengthen 8 v))
    else (rb_rg_variable_info_init var name (vt_long (pattern 64 val)) >>= λ v. some (lengthen 8 v))

unfoldable pub rb_rg_vt_coerce_nil : VariableInfo → Option (List ℕ) → Option VariableInfo
unfolding rb_rg_variable_info_init
rb_rg_vt_coerce_nil var name = rb_rg_variable_info_init var name vt_nullobject

unfoldable pub rb_rg_vt_coerce_boolean : VariableInfo → Option (List ℕ) → Bool → Option VariableInfo
unfolding rb_rg_variable_info_init
rb_rg_vt_coerce_boolean var name b =
    rb_rg_variable_info_init var name (vt_boolean (if b then 1 else 0))

-- The argument is the bit pattern of the `float`.
unfoldable pub rb_rg_vt_coerce_float : VariableInfo → Option (List ℕ) → ℕ → Option VariableInfo
unfolding rb_rg_variable_info_init
rb_rg_vt_coerce_float var name f = rb_rg_variable_info_init var name (vt_float f)

-- The arrays of the union before they are written.
abbrev unset_string : EncodedString
unset_string = record { encoding = 0; length = 0; string = replicate max_string_size 0 }

abbrev unset_largestring : LargeString
unset_largestring = record { length = 0; string = replicate max_string_size 0 }

unfoldable coerce_largestring : VariableInfo → Option (List ℕ) → List ℕ → Option VariableInfo
unfolding rb_rg_variable_info_init rb_rg_encode_largestring_raw
coerce_largestring var name encoded = do
  s ← rb_rg_encode_largestring_raw unset_largestring encoded
  v ← rb_rg_variable_info_init var name (vt_largestring s)
  some (lengthen (4 + s.length) v)

unfoldable coerce_usual_string : VariableInfo → Option (List ℕ) → List ℕ → Option VariableInfo
unfolding rb_rg_variable_info_init rb_rg_encode_string_raw
coerce_usual_string var name encoded = do
  s ← rb_rg_encode_string_raw unset_string (some encoded)
  v ← rb_rg_variable_info_init var name (vt_string s)
  some (lengthen (2 + s.length) v)

-- `transcode` is `rb_str_encode` to the default encoding.
unfoldable pub rb_rg_vt_coerce_string :
    (List ℕ → List ℕ) → VariableInfo → Option (List ℕ) → List ℕ → Option VariableInfo
unfolding coerce_largestring coerce_usual_string rb_rg_variable_info_init
rb_rg_vt_coerce_string transcode var name chars =
    if length chars == 0
    then rb_rg_variable_info_init var name vt_emptystring
    else if leb max_string_size (length (transcode chars))
    then coerce_largestring var name (transcode chars)
    else coerce_usual_string var name (transcode chars)
