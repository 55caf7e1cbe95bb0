-- ===== src/Encoder/Size.antt =====
-- The `*_size` functions of ext/raygun/raygun_encoder.c, which size a command before it is encoded.
use raygun_apm_ruby.Base.{ℕ, ◌+◌, i16}
use raygun_apm_ruby.Protocol.{
  min_payload, VariableValue, vt_boolean, vt_short, vt_unsigned_short, vt_int32, vt_unsigned_int32,
  vt_long, vt_unsigned_long, vt_float, vt_string, vt_largestring, VariableInfo, ExceptionThrown,
  Methodinfo, ProcessFrequency, ProcessType, Begin, End, Sql, HttpIn, HttpOut, BeginTransaction,
  ThreadStarted, EventData, begin, end, methodinfo, exception_thrown, thread_ended, process_ended,
  process_frequency, process_type, batch, sql, http_in, http_out, begin_transaction,
  end_transaction, thread_started,
}

unfoldable pub rg_encode_methodinfo_size : Methodinfo → ℕ
rg_encode_methodinfo_size m =
    i16 (min_payload + 4 + 2 + m.class_name.length + 2 + m.method_name.length + 1)

unfoldable pub rg_encode_sql_size : Sql → ℕ
rg_encode_sql_size q = i16 (
    min_payload + 1 + 2 + q.provider.length + 1 + 2 + q.host.length + 1 + 2 + q.database.length + 1
    + 2 + q.query.length + 8)

unfoldable pub rg_encode_http_in_size : HttpIn → ℕ
rg_encode_http_in_size h = i16 (min_payload + 2 + h.url.length + 1 + h.verb.length + 2 + 8)

unfoldable pub rg_encode_process_type_size : ProcessType → ℕ
rg_encode_process_type_size p =
    i16 (min_payload + 2 + p.technology_type.length + 2 + p.process_type.length)

unfoldable pub rg_encode_begin_transaction_size : BeginTransaction → ℕ
rg_encode_begin_transaction_size t =
    i16 (
      min_payload + 2 + t.api_key.length + 2 + t.technology_type.length + 2 + t.process_type.length)

unfoldable pub rg_encode_http_out_size : HttpOut → ℕ
rg_encode_http_out_size h = i16 (min_payload + 2 + h.url.length + 1 + h.verb.length + 2 + 8)

-- The `switch` of `rg_encode_variableinfo_size`: what a type adds.
unfoldable pub value_size : VariableValue → ℕ
value_size (vt_boolean _) = 1
value_size (vt_string s) = 2 + s.length
value_size (vt_largestring s) = 4 + s.length
value_size (vt_float _) = 4
value_size (vt_short _) = 2
value_size (vt_unsigned_short _) = 2
value_size (vt_int32 _) = 4
value_size (vt_unsigned_int32 _) = 4
value_size (vt_long _) = 8
value_size (vt_unsigned_long _) = 8
value_size _ = 0

unfoldable pub rg_encode_variableinfo_size : VariableInfo → ℕ
unfolding value_size
rg_encode_variableinfo_size v = i16 (i16 (2 + 1 + 1 + v.name_length) + value_size v.value)

unfoldable pub rg_encode_begin_size : Begin → ℕ
rg_encode_begin_size b = i16 (min_payload + 4 + 8 + 1)

-- The returned size of the variable is converted from `rg_short_t`; the wrap absorbs its sign.
unfoldable pub rg_encode_end_size : End → ℕ
unfolding rg_encode_variableinfo_size
rg_encode_end_size e = i16 (min_payload + 4 + 1 + rg_encode_variableinfo_size e.returnvalue)

unfoldable pub rg_encode_process_frequency_size : ProcessFrequency → ℕ
rg_encode_process_frequency_size p = i16 (min_payload + 8)

unfoldable pub rg_encode_thread_started_size : ThreadStarted → ℕ
rg_encode_thread_started_size t = i16 (min_payload + 4)

unfoldable pub rg_encode_exception_thrown_size : ExceptionThrown → ℕ
rg_encode_exception_thrown_size x =
    i16 (min_payload + 8 + 2 + x.class_name.length + 2 + x.correlation_id.length)

-- `rg_encode_size`, the dispatch on the type of the event.
unfoldable pub rg_encode_size : EventData → ℕ
unfolding rg_encode_methodinfo_size rg_encode_sql_size rg_encode_http_in_size
    rg_encode_process_type_size rg_encode_begin_transaction_size rg_encode_http_out_size
    rg_encode_begin_size rg_encode_end_size rg_encode_process_frequency_size
    rg_encode_thread_started_size rg_encode_exception_thrown_size
rg_encode_size (begin b) = rg_encode_begin_size b
rg_encode_size (end e) = rg_encode_end_size e
rg_encode_size (methodinfo m) = rg_encode_methodinfo_size m
rg_encode_size (sql q) = rg_encode_sql_size q
rg_encode_size (http_in h) = rg_encode_http_in_size h
rg_encode_size (http_out h) = rg_encode_http_out_size h
rg_encode_size batch = 0
rg_encode_size (process_frequency p) = rg_encode_process_frequency_size p
rg_encode_size (exception_thrown x) = rg_encode_exception_thrown_size x
rg_encode_size (process_type p) = rg_encode_process_type_size p
rg_encode_size (begin_transaction t) = rg_encode_begin_transaction_size t
rg_encode_size (thread_started t) = rg_encode_thread_started_size t
rg_encode_size thread_ended = min_payload
rg_encode_size process_ended = min_payload
rg_encode_size end_transaction = min_payload
