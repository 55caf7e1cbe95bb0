-- ===== src/Event/Tests.antt =====
-- Events of ext/raygun/raygun_event.c and strings of ext/raygun/raygun_coercion.c on concrete values.
use raygun_apm_ruby.Base.{
  inl, ℕ, ◌+◌, ◌^◌, ◌≡◌, refl, arith, List, [], ◌∷◌, Option, none, some, pos, negsuc, ltb,
  if◌then◌else◌, take, replicate, length-replicate,
}
use raygun_apm_ruby.Protocol.{
  EncodedString, EncodedShortString, VariableInfo, vt_void, Event, Sql, HttpIn, sql, thread_started,
  EventData,
}
use raygun_apm_ruby.Protocol.Valid.{IsString}
use raygun_apm_ruby.Encoder.Size.{rg_encode_size, value_size}
use raygun_apm_ruby.Encoder.Wire.{command_bytes}
use raygun_apm_ruby.Coercion.Strings.{rb_rg_encode_string, rb_rg_encode_short_string}
use raygun_apm_ruby.Coercion.Truncation.{Stored, StoredShort, encode_strings-Stored}
use raygun_apm_ruby.Coercion.Variables.{rb_rg_vt_coerce_fixnum}
use raygun_apm_ruby.Coercion.Lossless.{number, coerce_fixnum-number}
use raygun_apm_ruby.Event.Slots.{id_query, Value, integer, chars, Ruby, string_member}
use raygun_apm_ruby.Event.Attributes.{done, rb_rg_event_aset, rb_rg_event_aref}
use raygun_apm_ruby.Event.Encoded.{
  rb_rg_event_encoded, copied_raw, event_encoded-command, thread_started_encoded-image,
}
use raygun_apm_ruby.Event.RoundTrip.{aset-aref_string}

abbrev below : ℕ → Value → Option ℕ
below limit (integer (pos n)) = if ltb n limit then some n else none
below limit _ = none

-- Conversions that take natural numbers only, and strings that are in their encoding already.
abbrev ruby : Ruby
ruby = record {
  num2ull = below (2 ^ 64);
  num2ll = below (2 ^ 63);
  num2uint = below (2 ^ 32);
  num2ushort = below (2 ^ 16);
  transcode = λ encoding cs. cs;
}

abbrev unset : EncodedString
unset = record { encoding = 0; length = 0; string = replicate 4096 0 }

abbrev unset_verb : EncodedShortString
unset_verb = record { encoding = 0; length = 0; string = replicate 255 0 }

abbrev event_of : EventData → ℕ → Event
event_of d n = record { length = n; pid = 7; tid = 3; timestamp = 0; payload = d }

abbrev a_query : Sql
a_query = record { provider = unset; host = unset; database = unset; query = unset; duration = 0 }

abbrev a_request : HttpIn
a_request = record { url = unset; verb = unset_verb; status = 0; duration = 0 }

abbrev select : List ℕ
select = 83 ∷ 69 ∷ 76 ∷ []

aset-aref_string_example :
    (e' : Event) × (rb_rg_event_aset ruby (event_of (sql a_query) 0) id_query (chars select)
      ≡ done e')
    × (rb_rg_event_aref e' id_query ≡ done (chars (take 4096 select)))
    × (e'.length ≡ rg_encode_size e'.payload)
unfolding string_member
aset-aref_string_example =
    aset-aref_string ruby (event_of (sql a_query) 0) id_query select
      (inl (unset, refl, length-replicate {A = ℕ} 4096 0))

unset-IsString : IsString unset
unset-IsString = record {
  in_array = omega (arith, length-replicate {A = ℕ} 4096 0);
  array = omega (arith, length-replicate {A = ℕ} 4096 0);
}

-- The struct in memory, all zeros.
abbrev zeros : Event → List ℕ
zeros e = replicate 200 0

event_encoded-command_example :
    rb_rg_event_encoded zeros (event_of (sql a_query) 39) (replicate 39 0)
    ≡ some (command_bytes (event_of (sql a_query) 39))
unfolding copied_raw rg_encode_size
event_encoded-command_example =
    event_encoded-command zeros (event_of (sql a_query) 39) (replicate 39 0)
      (unset-IsString, unset-IsString, unset-IsString, unset-IsString) (λ e. cc) refl refl refl

thread_started_encoded-image_example :
    rb_rg_event_encoded zeros
      (event_of (thread_started (record { parent_tid = 1 })) 23)
      (replicate 23 0)
    ≡ some (take 23 (zeros (event_of (thread_started (record { parent_tid = 1 })) 23)))
thread_started_encoded-image_example =
    thread_started_encoded-image zeros (event_of (thread_started (record { parent_tid = 1 })) 23)
      (record { parent_tid = 1 }) (replicate 23 0) refl refl refl (omega arith)

encode_strings-Stored_example :
    ((s' : EncodedString) × (rb_rg_encode_string (λ encoding cs. cs) unset (some select) ≡ some s')
      × Stored 0 (take 4096 select) s')
    × ((t' : EncodedShortString) × (rb_rg_encode_short_string
            (λ encoding cs. cs)
            unset_verb
            (some select)
          ≡ some t')
        × StoredShort 0 (take 127 select) t')
encode_strings-Stored_example =
    encode_strings-Stored (λ encoding cs. cs) select unset unset_verb
      (length-replicate {A = ℕ} 4096 0) (length-replicate {A = ℕ} 255 0)

abbrev a_variable : VariableInfo
a_variable = record { length = 0; name_length = 0; name = replicate 200 0; value = vt_void }

coerce_fixnum-number_example :
    (v : VariableInfo) × (rb_rg_vt_coerce_fixnum a_variable none (negsuc 40000) ≡ some v)
    × (number v.value ≡ some (negsuc 40000))
    × (v.length ≡ 2 + v.name_length + value_size v.value)
coerce_fixnum-number_example =
    coerce_fixnum-number a_variable (negsuc 40000) (omega arith) (omega arith)
