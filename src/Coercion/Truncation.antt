-- ===== src/Coercion/Truncation.antt =====
-- What the string coercions keep of a string (ext/raygun/raygun_coercion.c).
use raygun_apm_ruby.Base.{ℕ, ◌≤◌, ◌≡◌, refl, sym, ◌∙◌, arith, Bool-cases, inl, inr, List, some}
use raygun_apm_ruby.Base.{leb, length, take, length-take, take_all}
use raygun_apm_ruby.Memory.{overwrite, read, memcpy}
use raygun_apm_ruby.Memory.Laws.{length-overwrite, slice-overwrite}
use raygun_apm_ruby.Protocol.{
  EncodedString, EncodedShortString, max_string_size, max_short_string_size,
}
use raygun_apm_ruby.Protocol.Valid.{IsString, IsShortString}
use raygun_apm_ruby.Encoder.Wire.{text, short_text}
use raygun_apm_ruby.Coercion.Strings.{
  capped, copy_string, rb_rg_encode_string, rb_rg_encode_short_string,
}

copy_string-some :
    (array chars : List ℕ) (n : ℕ)
    → n ≤ length chars
    → n ≤ length array
    → (out : List ℕ) × (copy_string array chars n ≡ some out)
      × (length out ≡ length array)
      × (take n out ≡ take n chars)
unfolding copy_string read memcpy
copy_string-some array chars n h k =
    let len : length (take n chars) ≡ n = omega (arith, length-take n chars) in
    (
      overwrite array 0 (take n chars),
      ground (arith, len),
      length-overwrite array 0 (take n chars),
      ground (arith, len, slice-overwrite array 0 n (take n chars)),
    )

take-capped : (limit : ℕ) (xs : List ℕ) → take (capped limit (length xs)) xs ≡ take limit xs
take-capped limit xs = elim (Bool-cases (leb limit (length xs))) [
  | inl full ↦ rw full
  | inr less ↦
      rw less
        (take_all (length xs) xs (omega arith) ∙ sym (take_all limit xs (ground (arith, less))))
]

-- The struct holds a string that came from Ruby, cut to the limit of its type.
pub record Stored (encoding : ℕ) (kept : List ℕ) (s : EncodedString) : Type 0 where
  pub valid : IsString s
  pub room : length s.string ≡ max_string_size
  pub same_encoding : s.encoding ≡ encoding
  pub content : text s ≡ kept

pub record StoredShort (encoding : ℕ) (kept : List ℕ) (s : EncodedShortString) : Type 0 where
  pub valid : IsShortString s
  pub room : length s.string ≡ 255
  pub same_encoding : s.encoding ≡ encoding
  pub content : short_text s ≡ kept

module _ (transcode : ℕ → List ℕ → List ℕ) (chars : List ℕ) where
  pub encode_string-Stored :
      (s : EncodedString)
      → length s.string ≡ max_string_size
      → (s' : EncodedString) × (rb_rg_encode_string transcode s (some chars) ≡ some s')
        × Stored s.encoding (take 4096 (transcode s.encoding chars)) s'
  unfolding rb_rg_encode_string
  encode_string-Stored s h =
      let cs = transcode s.encoding chars in
      let (out, copied, len, kept) =
        copy_string-some s.string cs (capped max_string_size (length cs)) (ground arith)
          (ground (arith, h)) in
      (
        record s { length = capped max_string_size (length cs); string = out },
        rw copied,
        record {
          valid = record { in_array = ground (arith, len, h); array = omega (arith, len, h) };
          room = len ∙ h;
          same_encoding = refl;
          content = kept ∙ take-capped max_string_size cs;
        },
      )

  pub encode_short_string-Stored :
      (t : EncodedShortString)
      → length t.string ≡ 255
      → (t' : EncodedShortString) × (rb_rg_encode_short_string transcode t (some chars) ≡ some t')
        × StoredShort t.encoding (take 127 (transcode t.encoding chars)) t'
  unfolding rb_rg_encode_short_string
  encode_short_string-Stored t h =
      let cs = transcode t.encoding chars in
      let (out, copied, len, kept) =
        copy_string-some t.string cs (capped max_short_string_size (length cs)) (ground arith)
          (ground (arith, h)) in
      (
        record t { length = capped max_short_string_size (length cs); string = out },
        rw copied,
        record {
          valid = record { in_array = ground (arith, len, h); array = omega (arith, len, h) };
          room = len ∙ h;
          same_encoding = refl;
          content = kept ∙ take-capped max_short_string_size cs;
        },
      )

  -- A string that is put into a struct with arrays of their declared sizes is never written outside
  -- of it; the struct is valid then, keeps the encoding, and its text is the transcoded string, cut
  -- to 4096 bytes, or to 127 for a short string.
  pub encode_strings-Stored :
      (s : EncodedString) (t : EncodedShortString)
      → length s.string ≡ max_string_size
      → length t.string ≡ 255
      → ((s' : EncodedString) × (rb_rg_encode_string transcode s (some chars) ≡ some s')
          × Stored s.encoding (take 4096 (transcode s.encoding chars)) s')
        × ((t' : EncodedShortString) × (rb_rg_encode_short_string transcode t (some chars)
              ≡ some t')
            × StoredShort t.encoding (take 127 (transcode t.encoding chars)) t')
  encode_strings-Stored s t h k = (encode_string-Stored s h, encode_short_string-Stored t k)
