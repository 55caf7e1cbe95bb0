-- ===== src/Event/Slots.antt =====
-- Which member of the union an attribute is (ext/raygun/raygun_event.c). The code tests the type of
-- the event for few attributes; for the others the model stops where the member is not the event's.
use raygun_apm_ruby.Base.{
  ℕ, ◌-◌, ◌*◌, List, Option, none, some, Bool, ℤ, pos, negsuc, ltb, if◌then◌else◌, u8, u32,
}
use raygun_apm_ruby.Protocol.{
  EncodedString, EventData, begin, end, methodinfo, exception_thrown, process_frequency,
  process_type, sql, http_in, http_out, begin_transaction, thread_started,
}

-- The symbols that name attributes.
pub data Attribute : Type 0 where
  id_pid : Attribute
  id_tid : Attribute
  id_parent_tid : Attribute
  id_timestamp : Attribute
  id_frequency : Attribute
  id_exception_id : Attribute
  id_function_id : Attribute
  id_instance_id : Attribute
  id_tailcall : Attribute
  id_method_source : Attribute
  id_class_name : Attribute
  id_method_name : Attribute
  id_provider : Attribute
  id_host : Attribute
  id_database : Attribute
  id_query : Attribute
  id_correlation_id : Attribute
  id_url : Attribute
  id_verb : Attribute
  id_status : Attribute
  id_duration : Attribute
  id_technology_type : Attribute
  id_process_type : Attribute
  id_api_key : Attribute
  id_other : Attribute

-- The Ruby values that attributes have.
pub data Value : Type 0 where
  nil : Value
  integer : ℤ → Value
  boolean : Bool → Value
  chars : List ℕ → Value

-- Ruby's conversions. A number is the pattern of the C type; none raises.
pub record Ruby : Type 0 where
  pub num2ull : Value → Option ℕ
  pub num2ll : Value → Option ℕ
  pub num2uint : Value → Option ℕ
  pub num2ushort : Value → Option ℕ
  -- `rb_str_encode` to the encoding of a number in `rg_string_encoding_t`.
  pub transcode : ℕ → List ℕ → List ℕ

-- What an access comes to: a member, with its value and how a new one is stored; nothing, where the
-- code does nothing; an error that it raises; or a member that is not the event's.
pub data Access (S : Type 0) : Type 0 where
  member : S → (S → EventData) → Access S
  ignored : Access S
  refused : Access S
  elsewhere : Access S

-- RG_STRING_ENCODING_ASCII and RG_STRING_ENCODING_UTF8.
abbrev pub ascii : ℕ
ascii = 3

abbrev pub utf8 : ℕ
utf8 = 5

-- The attributes that are `rg_encoded_string_t`.
unfoldable pub string_member : Attribute → EventData → Access EncodedString
string_member id_class_name (methodinfo m) =
    member m.class_name (λ s. methodinfo (record m { class_name = s }))
string_member id_class_name (exception_thrown x) =
    member x.class_name (λ s. exception_thrown (record x { class_name = s }))
string_member id_class_name _ = ignored
string_member id_method_name (methodinfo m) =
    member m.method_name (λ s. methodinfo (record m { method_name = s }))
string_member id_provider (sql q) = member q.provider (λ s. sql (record q { provider = s }))
string_member id_host (sql q) = member q.host (λ s. sql (record q { host = s }))
string_member id_database (sql q) = member q.database (λ s. sql (record q { database = s }))
string_member id_query (sql q) = member q.query (λ s. sql (record q { query = s }))
string_member id_correlation_id (exception_thrown x) =
    member x.correlation_id (λ s. exception_thrown (record x { correlation_id = s }))
string_member id_url (http_in h) = member h.url (λ s. http_in (record h { url = s }))
string_member id_url (http_out h) = member h.url (λ s. http_out (record h { url = s }))
string_member id_technology_type (process_type p) =
    member p.technology_type (λ s. process_type (record p { technology_type = s }))
string_member id_technology_type (begin_transaction t) =
    member t.technology_type (λ s. begin_transaction (record t { technology_type = s }))
string_member id_technology_type _ = ignored
string_member id_process_type (process_type p) =
    member p.process_type (λ s. process_type (record p { process_type = s }))
string_member id_process_type (begin_transaction t) =
    member t.process_type (λ s. begin_transaction (record t { process_type = s }))
string_member id_process_type _ = ignored
string_member id_api_key (begin_transaction t) =
    member t.api_key (λ s. begin_transaction (record t { api_key = s }))
string_member _ _ = elsewhere

-- The encoding that the setter gives the string.
unfoldable pub encoding_of : Attribute → ℕ
encoding_of id_provider = utf8
encoding_of id_host = utf8
encoding_of id_database = utf8
encoding_of id_query = utf8
encoding_of id_correlation_id = utf8
encoding_of _ = ascii

-- The attributes that are numbers of the union.
unfoldable pub number_member : Attribute → EventData → Access ℕ
number_member id_parent_tid (thread_started t) =
    member t.parent_tid (λ n. thread_started (record { parent_tid = n }))
number_member id_frequency (process_frequency p) =
    member p.frequency (λ n. process_frequency (record { frequency = n }))
number_member id_exception_id (exception_thrown x) =
    member x.exception_id (λ n. exception_thrown (record x { exception_id = n }))
number_member id_function_id (begin b) =
    member b.function_id (λ n. begin (record b { function_id = n }))
number_member id_function_id (end e) =
    member e.function_id (λ n. end (record e { function_id = n }))
number_member id_function_id (methodinfo m) =
    member m.function_id (λ n. methodinfo (record m { function_id = n }))
number_member id_instance_id (begin b) =
    member b.instance_id (λ n. begin (record b { instance_id = n }))
number_member id_method_source (methodinfo m) =
    member m.method_source (λ n. methodinfo (record m { method_source = n }))
number_member id_status (http_in h) = member h.status (λ n. http_in (record h { status = n }))
number_member id_status (http_out h) = member h.status (λ n. http_out (record h { status = n }))
number_member id_duration (sql q) = member q.duration (λ n. sql (record q { duration = n }))
number_member id_duration (http_in h) = member h.duration (λ n. http_in (record h { duration = n }))
number_member id_duration (http_out h) =
    member h.duration (λ n. http_out (record h { duration = n }))
number_member id_duration _ = refused
number_member _ _ = elsewhere

-- The conversion that the setter uses, with its cast.
unfoldable pub number_in : Ruby → Attribute → Value → Option ℕ
number_in r id_parent_tid v = elim (r.num2ull v) [ none ↦ none | some n ↦ some (u32 n) ]
number_in r id_frequency v = r.num2ll v
number_in r id_duration v = r.num2ll v
number_in r id_function_id v = r.num2uint v
number_in r id_method_source v = elim (r.num2uint v) [ none ↦ none | some n ↦ some (u8 n) ]
number_in r id_status v = r.num2ushort v
number_in r _ v = r.num2ull v

-- The integer that the getter returns: LL2NUM reads a pattern of 64 bits, the others are unsigned.
abbrev pub ll2num : ℕ → ℤ
ll2num n = if ltb n 9223372036854775808 then pos n else negsuc (2 * 9223372036854775808 - 1 - n)

unfoldable pub number_out : Attribute → ℕ → ℤ
number_out id_frequency n = ll2num n
number_out id_duration n = ll2num n
number_out _ n = pos n
