-- ===== src/Encoder/Wire.antt =====
-- The wire protocol, independently of the encoder: which bytes a command is, as the Agent reads it.
-- A command is a 19-byte header followed by the body of its type.
use raygun_apm_ruby.Base.{ℕ, List, [], ◌++◌, take, le_bytes}
use raygun_apm_ruby.Protocol.{
  EncodedShortString, EncodedString, LargeString, VariableValue, vt_boolean, vt_short,
  vt_unsigned_short, vt_int32, vt_unsigned_int32, vt_long, vt_unsigned_long, vt_float, vt_string,
  vt_largestring, variable_type, VariableInfo, EventData, begin, end, methodinfo, exception_thrown,
  process_frequency, process_type, sql, http_in, http_out, begin_transaction, thread_started,
  event_type, Event,
}

-- The text of a string slot: its first `length` bytes.
abbrev pub text : EncodedString → List ℕ
text s = take s.length s.string

abbrev pub short_text : EncodedShortString → List ℕ
short_text s = take s.length s.string

abbrev pub large_text : LargeString → List ℕ
large_text s = take s.length s.string

unfoldable pub value_bytes : VariableValue → List ℕ
value_bytes (vt_boolean b) = le_bytes 1 b
value_bytes (vt_string s) = le_bytes 2 s.length ++ text s
value_bytes (vt_largestring s) = le_bytes 4 s.length ++ large_text s
value_bytes (vt_float f) = le_bytes 4 f
value_bytes (vt_short n) = le_bytes 2 n
value_bytes (vt_unsigned_short n) = le_bytes 2 n
value_bytes (vt_int32 n) = le_bytes 4 n
value_bytes (vt_unsigned_int32 n) = le_bytes 4 n
value_bytes (vt_long n) = le_bytes 8 n
value_bytes (vt_unsigned_long n) = le_bytes 8 n
value_bytes _ = []

unfoldable pub variable_bytes : VariableInfo → List ℕ
variable_bytes v =
    le_bytes 2 v.length
    ++ (le_bytes 1 (variable_type v.value)
        ++ (le_bytes 1 v.name_length ++ (take v.name_length v.name ++ value_bytes v.value)))

-- A string with its length in front, and with its encoding in front of that.
abbrev pub string_bytes : EncodedString → List ℕ → List ℕ
string_bytes s rest = le_bytes 2 s.length ++ (text s ++ rest)

abbrev pub tagged_string_bytes : EncodedString → List ℕ → List ℕ
tagged_string_bytes s rest = le_bytes 1 s.encoding ++ string_bytes s rest

unfoldable pub body_bytes : EventData → List ℕ
body_bytes (begin b) = le_bytes 4 b.function_id ++ (le_bytes 8 b.instance_id ++ le_bytes 1 b.argc)
body_bytes (end e) =
    le_bytes 4 e.function_id ++ (le_bytes 1 e.tail_call ++ variable_bytes e.returnvalue)
body_bytes (methodinfo m) =
    le_bytes 4 m.function_id
    ++ string_bytes m.class_name (string_bytes m.method_name (le_bytes 1 m.method_source))
body_bytes (exception_thrown x) =
    le_bytes 8 x.exception_id
    ++ string_bytes x.class_name (le_bytes 2 x.correlation_id.length ++ text x.correlation_id)
body_bytes (process_frequency p) = le_bytes 8 p.frequency
body_bytes (process_type p) =
    string_bytes p.technology_type (le_bytes 2 p.process_type.length ++ text p.process_type)
body_bytes (sql q) = tagged_string_bytes q.provider (
    tagged_string_bytes q.host
      (tagged_string_bytes q.database (tagged_string_bytes q.query (le_bytes 8 q.duration))))
body_bytes (http_in h) = string_bytes h.url (
    le_bytes 1 h.verb.length
    ++ (short_text h.verb ++ (le_bytes 2 h.status ++ le_bytes 8 h.duration)))
body_bytes (http_out h) = string_bytes h.url (
    le_bytes 1 h.verb.length
    ++ (short_text h.verb ++ (le_bytes 2 h.status ++ le_bytes 8 h.duration)))
body_bytes (begin_transaction t) =
    string_bytes t.api_key
      (string_bytes t.technology_type (le_bytes 2 t.process_type.length ++ text t.process_type))
body_bytes (thread_started t) = le_bytes 4 t.parent_tid
body_bytes _ = []

unfoldable pub header_bytes : Event → List ℕ
header_bytes e =
    le_bytes 2 e.length
    ++ (le_bytes 1 (event_type e.payload)
        ++ (le_bytes 4 e.pid ++ (le_bytes 4 e.tid ++ le_bytes 8 e.timestamp)))

unfoldable pub command_bytes : Event → List ℕ
unfolding header_bytes body_bytes
command_bytes e = header_bytes e ++ body_bytes e.payload
