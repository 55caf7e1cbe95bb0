-- ===== src/Coercion/Strings.antt =====
-- Strings (ext/raygun/raygun_coercion.c). A Ruby string is its bytes, none is `nil`; the result none is
-- a write outside of the array of the struct.
use raygun_apm_ruby.Base.{ℕ, List, Option, none, some, i16}
use raygun_apm_ruby.Base.{leb, if◌then◌else◌, length}
use raygun_apm_ruby.Memory.{◌>>=◌, read, memcpy}
use raygun_apm_ruby.Protocol.{
  EncodedString, EncodedShortString, LargeString, max_string_size, max_short_string_size,
}

-- The length that is kept of a string.
abbrev pub capped : ℕ → ℕ → ℕ
capped limit n = if leb limit n then limit else n

-- `memcpy(string, StringValuePtr(encoded), length)`.
unfoldable pub copy_string : List ℕ → List ℕ → ℕ → Option (List ℕ)
copy_string array chars n = do xs ← read chars n; memcpy array 0 xs

unfoldable pub rb_rg_encode_string_raw : EncodedString → Option (List ℕ) → Option EncodedString
unfolding copy_string
rb_rg_encode_string_raw s none = some (record s { length = 0 })
rb_rg_encode_string_raw s (some chars) = do
  let n = i16 (length chars)
  array ← copy_string s.string chars n
  some (record s { length = n; string = array })

unfoldable pub rb_rg_encode_largestring_raw : LargeString → List ℕ → Option LargeString
unfolding copy_string
rb_rg_encode_largestring_raw s chars = do
  array ← copy_string s.string chars max_string_size
  some (record { length = max_string_size; string = array })

-- `transcode` is `rb_str_encode` to the encoding of a number in `rg_string_encoding_t`.
module _ (transcode : ℕ → List ℕ → List ℕ) where
  unfoldable pub rb_rg_encode_string : EncodedString → Option (List ℕ) → Option EncodedString
  unfolding copy_string
  rb_rg_encode_string s none = some (record s { length = 0 })
  rb_rg_encode_string s (some chars) = do
    let encoded = transcode s.encoding chars
    let n = capped max_string_size (length encoded)
    array ← copy_string s.string encoded n
    some (record s { length = n; string = array })

  unfoldable pub rb_rg_encode_short_string :
      EncodedShortString → Option (List ℕ) → Option EncodedShortString
  unfolding copy_string
  rb_rg_encode_short_string s none = some (record s { length = 0 })
  rb_rg_encode_short_string s (some chars) = do
    let encoded = transcode s.encoding chars
    let n = capped max_short_string_size (length encoded)
    array ← copy_string s.string encoded n
    some (record s { length = n; string = array })
