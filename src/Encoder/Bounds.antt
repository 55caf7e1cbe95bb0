-- ===== src/Encoder/Bounds.antt =====
-- How long commands are: the sizes that the `*_size` functions compute are those of the bytes
-- written, and every command fits the scratch buffer and `rg_short_t`.
use raygun_apm_ruby.Base.{◌+◌, ◌≤◌, ◌≡◌, ◌≢◌, refl, arith}
use raygun_apm_ruby.Base.{length, take, length-append, length-take}
use raygun_apm_ruby.Protocol.{
  EncodedString, EncodedShortString, LargeString, VariableValue, vt_boolean, VariableInfo,
  EventData, begin, batch, end, Event,
}
use raygun_apm_ruby.Protocol.Valid.{
  IsString, IsShortString, IsLargeString, IsValue, IsVariable, IsValidData,
}
use raygun_apm_ruby.Encoder.Size.{value_size, rg_encode_variableinfo_size, rg_encode_size}
use raygun_apm_ruby.Encoder.Wire.{
  text, short_text, large_text, value_bytes, variable_bytes, body_bytes, header_bytes,
  command_bytes,
}

pub length-text : (s : EncodedString) → IsString s → length (text s) ≡ s.length
length-text s v = omega (arith, length-take s.length s.string)

pub length-short_text :
    (s : EncodedShortString) → IsShortString s → length (short_text s) ≡ s.length
length-short_text s v = omega (arith, length-take s.length s.string)

pub length-large_text : (s : LargeString) → IsLargeString s → length (large_text s) ≡ s.length
length-large_text s v = omega (arith, length-take s.length s.string)

ruleset lengths = (arith, length-text, length-short_text, length-large_text)

length-value : (v : VariableValue) → IsValue v → length (value_bytes v) ≡ value_size v
unfolding value_bytes value_size
length-value (vt_boolean b) h = omega arith
length-value _ h = omega (lengths, length-append {0})

value_size-le : (v : VariableValue) → IsValue v → value_size v ≤ 4100
unfolding value_size
value_size-le (vt_boolean b) h = omega arith
value_size-le _ h = omega arith

pub length-variable-le : (v : VariableInfo) → IsVariable v → length (variable_bytes v) ≤ 4304
unfolding variable_bytes
length-variable-le v h = omega (
  arith,
  length-append (take v.name_length v.name) (value_bytes v.value),
  length-take v.name_length v.name,
  length-value v.value h.value,
  value_size-le v.value h.value,
)

length-variable :
    (v : VariableInfo) → IsVariable v → rg_encode_variableinfo_size v ≡ length (variable_bytes v)
unfolding rg_encode_variableinfo_size variable_bytes
length-variable v h = omega (
  arith,
  length-append (take v.name_length v.name) (value_bytes v.value),
  length-take v.name_length v.name,
  length-value v.value h.value,
  value_size-le v.value h.value,
)

pub length-header : (e : Event) → length (header_bytes e) ≡ 19
unfolding header_bytes
length-header e = omega arith

-- No body is longer than that of a SQL command with four strings of full length.
pub length-body-le : (d : EventData) → IsValidData d → length (body_bytes d) ≤ 16404
unfolding body_bytes
length-body-le (begin b) h = omega arith
length-body-le (end e) h = omega (arith, length-variable-le e.returnvalue h)
length-body-le _ h = omega (lengths, length-append {0})

-- The size that is computed for a valid event before it is encoded is the number of bytes of its
-- command, header and body, for every type of event but the batch, which has no encoder.
pub encode_size-body :
    (d : EventData) → IsValidData d → d ≢ batch → rg_encode_size d ≡ 19 + length (body_bytes d)
unfolding rg_encode_size body_bytes
encode_size-body (begin b) h n = omega arith
encode_size-body (end e) h n =
    omega (arith, length-variable-le e.returnvalue h, length-variable e.returnvalue h)
encode_size-body batch h n = absurd (n refl)
encode_size-body _ h n = omega (lengths, length-append {0})

pub length-command : (e : Event) → length (command_bytes e) ≡ 19 + length (body_bytes e.payload)
unfolding command_bytes
length-command e =
    omega (arith, length-header e, length-append (header_bytes e) (body_bytes e.payload))
