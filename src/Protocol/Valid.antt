-- ===== src/Protocol/Valid.antt =====
-- Which field values the structs of raygun_protocol.h hold: a string's length lies within its
-- array, and the array has the declared size at most.
use raygun_apm_ruby.Base.{◌≤◌}
use raygun_apm_ruby.Base.{length}
use raygun_apm_ruby.Protocol.{
  EncodedShortString, EncodedString, LargeString, max_string_size, max_variable_name, VariableValue,
  vt_string, vt_largestring, VariableInfo, EventData, end, methodinfo, exception_thrown,
  process_type, sql, http_in, http_out, begin_transaction,
}

pub record IsString (s : EncodedString) : Type 0 where
  pub in_array : s.length ≤ length s.string
  pub array : length s.string ≤ max_string_size

pub record IsShortString (s : EncodedShortString) : Type 0 where
  pub in_array : s.length ≤ length s.string
  pub array : length s.string ≤ 255

pub record IsLargeString (s : LargeString) : Type 0 where
  pub in_array : s.length ≤ length s.string
  pub array : length s.string ≤ max_string_size

abbrev pub IsValue : VariableValue → Type 0
IsValue (vt_string s) = IsString s
IsValue (vt_largestring s) = IsLargeString s
IsValue _ = Unit

pub record IsVariable (v : VariableInfo) : Type 0 where
  pub name_in_array : v.name_length ≤ length v.name
  pub name_array : length v.name ≤ max_variable_name
  pub value : IsValue v.value

abbrev pub IsValidData : EventData → Type 0
IsValidData (end e) = IsVariable e.returnvalue
IsValidData (methodinfo m) = IsString m.class_name × IsString m.method_name
IsValidData (exception_thrown x) = IsString x.class_name × IsString x.correlation_id
IsValidData (process_type p) = IsString p.technology_type × IsString p.process_type
IsValidData (sql q) = IsString q.provider × IsString q.host × IsString q.database × IsString q.query
IsValidData (http_in h) = IsString h.url × IsShortString h.verb
IsValidData (http_out h) = IsString h.url × IsShortString h.verb
IsValidData (begin_transaction t) =
    IsString t.api_key × IsString t.technology_type × IsString t.process_type
IsValidData _ = Unit
