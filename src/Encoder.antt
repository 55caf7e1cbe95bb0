-- ===== src/Encoder.antt =====
-- The encoder (ext/raygun/raygun_encoder.c). An encoder of a struct is the `memcpy`s of its body
-- from `ptr` on, a `Writer`; with the returned size it is `encode_at`. Sizes are `rg_short_t`.
pub mod Size
pub mod Wire
pub mod Layout
pub mod Bounds
pub mod Emit
mod Tests
use raygun_apm_ruby.Base.{ℕ, ◌+◌, ◌-◌, some, le_bytes, i16, borrow}
use raygun_apm_ruby.Memory.{Cursor, Writer, put, copy, nothing, ◌>>◌, ◌>>=◌, encode_at}
use raygun_apm_ruby.Protocol.{
  EncodedShortString, EncodedString, LargeString, VariableValue, vt_void, vt_boolean, vt_byte,
  vt_short, vt_unsigned_short, vt_int32, vt_unsigned_int32, vt_long, vt_unsigned_long, vt_float,
  vt_double, vt_string, vt_struct, vt_object, vt_array, vt_emptystring, vt_nullstring,
  vt_nullobject, vt_largestring, variable_type, VariableInfo, ExceptionThrown, Methodinfo,
  ProcessFrequency, ProcessType, Begin, End, Sql, HttpIn, HttpOut, BeginTransaction, ThreadStarted,
  Event, event_type,
}

-- `rg_encode_header_impl`.
unfoldable pub rg_encode_header_impl : Event → Writer
rg_encode_header_impl e = do
  put (le_bytes 2 e.length)
  put (le_bytes 1 (event_type e.payload))
  put (le_bytes 4 e.pid)
  put (le_bytes 4 e.tid)
  put (le_bytes 8 e.timestamp)

unfoldable pub rg_encode_methodinfo : Methodinfo → Writer
rg_encode_methodinfo m = do
  put (le_bytes 4 m.function_id)
  put (le_bytes 2 m.class_name.length)
  copy m.class_name.string m.class_name.length
  put (le_bytes 2 m.method_name.length)
  copy m.method_name.string m.method_name.length
  put (le_bytes 1 m.method_source)

unfoldable pub rg_encode_sql : Sql → Writer
rg_encode_sql q = do
  put (le_bytes 1 q.provider.encoding)
  put (le_bytes 2 q.provider.length)
  copy q.provider.string q.provider.length
  put (le_bytes 1 q.host.encoding)
  put (le_bytes 2 q.host.length)
  copy q.host.string q.host.length
  put (le_bytes 1 q.database.encoding)
  put (le_bytes 2 q.database.length)
  copy q.database.string q.database.length
  put (le_bytes 1 q.query.encoding)
  put (le_bytes 2 q.query.length)
  copy q.query.string q.query.length
  put (le_bytes 8 q.duration)

unfoldable pub rg_encode_http_in : HttpIn → Writer
rg_encode_http_in h = do
  put (le_bytes 2 h.url.length)
  copy h.url.string h.url.length
  put (le_bytes 1 h.verb.length)
  copy h.verb.string h.verb.length
  put (le_bytes 2 h.status)
  put (le_bytes 8 h.duration)

unfoldable pub rg_encode_process_type : ProcessType → Writer
rg_encode_process_type p = do
  put (le_bytes 2 p.technology_type.length)
  copy p.technology_type.string p.technology_type.length
  put (le_bytes 2 p.process_type.length)
  copy p.process_type.string p.process_type.length

unfoldable pub rg_encode_begin_transaction : BeginTransaction → Writer
rg_encode_begin_transaction t = do
  put (le_bytes 2 t.api_key.length)
  copy t.api_key.string t.api_key.length
  put (le_bytes 2 t.technology_type.length)
  copy t.technology_type.string t.technology_type.length
  put (le_bytes 2 t.process_type.length)
  copy t.process_type.string t.process_type.length

unfoldable pub rg_encode_http_out : HttpOut → Writer
rg_encode_http_out h = do
  put (le_bytes 2 h.url.length)
  copy h.url.string h.url.length
  put (le_bytes 1 h.verb.length)
  copy h.verb.string h.verb.length
  put (le_bytes 2 h.status)
  put (le_bytes 8 h.duration)

-- The `switch` of `rg_encode_variableinfo`; a type that it has no case for writes nothing.
unfoldable pub encode_value : VariableValue → Writer
encode_value (vt_boolean b) = put (le_bytes 1 b)
encode_value (vt_string s) = do put (le_bytes 2 s.length); copy s.string s.length
encode_value (vt_largestring s) = do put (le_bytes 4 s.length); copy s.string s.length
encode_value (vt_float f) = put (le_bytes 4 f)
encode_value (vt_short n) = put (le_bytes 2 n)
encode_value (vt_unsigned_short n) = put (le_bytes 2 n)
encode_value (vt_int32 n) = put (le_bytes 4 n)
encode_value (vt_unsigned_int32 n) = put (le_bytes 4 n)
encode_value (vt_long n) = put (le_bytes 8 n)
encode_value (vt_unsigned_long n) = put (le_bytes 8 n)
encode_value _ = nothing

unfoldable pub rg_encode_variableinfo : VariableInfo → Writer
rg_encode_variableinfo v = do
  put (le_bytes 2 v.length)
  put (le_bytes 1 (variable_type v.value))
  put (le_bytes 1 v.name_length)
  copy v.name v.name_length
  encode_value v.value

unfoldable pub rg_encode_begin : Begin → Writer
rg_encode_begin b = do
  put (le_bytes 4 b.function_id)
  put (le_bytes 8 b.instance_id)
  put (le_bytes 1 b.argc)

-- `ptr += encoder(ptr, …)`: the pointer moves by the returned `rg_short_t`.
unfoldable pub by_returned_size : Writer → Writer
by_returned_size w c = do
  (size, buf) ← encode_at w c.buf c.pos
  some (record { buf = buf; pos = c.pos + size - borrow size })

unfoldable pub rg_encode_end : End → Writer
rg_encode_end e = do
  put (le_bytes 4 e.function_id)
  put (le_bytes 1 e.tail_call)
  by_returned_size (rg_encode_variableinfo e.returnvalue)

unfoldable pub rg_encode_process_frequency : ProcessFrequency → Writer
rg_encode_process_frequency p = put (le_bytes 8 p.frequency)

unfoldable pub rg_encode_thread_started : ThreadStarted → Writer
rg_encode_thread_started t = put (le_bytes 4 t.parent_tid)

unfoldable pub rg_encode_exception_thrown : ExceptionThrown → Writer
rg_encode_exception_thrown x = do
  put (le_bytes 8 x.exception_id)
  put (le_bytes 2 x.class_name.length)
  copy x.class_name.string x.class_name.length
  put (le_bytes 2 x.correlation_id.length)
  copy x.correlation_id.string x.correlation_id.length
