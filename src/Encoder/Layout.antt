-- ===== src/Encoder/Layout.antt =====
-- The encoders write the wire protocol's bytes.
use raygun_apm_ruby.Base.{ℕ, ◌<◌, arith, List}
use raygun_apm_ruby.Base.{length}
use raygun_apm_ruby.Memory.{Writer, put, memcpy, encode_at}
use raygun_apm_ruby.Memory.Laws.{Writes, writing, put-Writes}
use raygun_apm_ruby.Protocol.{
  VariableValue, vt_boolean, VariableInfo, ExceptionThrown, Methodinfo, ProcessFrequency,
  ProcessType, Begin, End, Sql, HttpIn, HttpOut, BeginTransaction, ThreadStarted, Event, begin, end,
  methodinfo, exception_thrown, process_frequency, process_type, sql, http_in, http_out,
  begin_transaction, thread_started,
}
use raygun_apm_ruby.Protocol.Valid.{IsValue, IsVariable, IsValidData}
use raygun_apm_ruby.Encoder.{
  rg_encode_header_impl, rg_encode_methodinfo, rg_encode_sql, rg_encode_http_in,
  rg_encode_process_type, rg_encode_begin_transaction, rg_encode_http_out, encode_value,
  rg_encode_variableinfo, rg_encode_begin, by_returned_size, rg_encode_end,
  rg_encode_process_frequency, rg_encode_thread_started, rg_encode_exception_thrown,
}
use raygun_apm_ruby.Encoder.Wire.{value_bytes, variable_bytes, body_bytes, header_bytes}

pub header-Writes : (e : Event) → Writes (rg_encode_header_impl e) (header_bytes e)
unfolding rg_encode_header_impl header_bytes
header-Writes e = search writing depth 20

pub methodinfo-Writes :
    (m : Methodinfo)
    → IsValidData (methodinfo m)
    → Writes (rg_encode_methodinfo m) (body_bytes (methodinfo m))
unfolding rg_encode_methodinfo body_bytes
methodinfo-Writes m v = search writing depth 20

pub sql-Writes : (q : Sql) → IsValidData (sql q) → Writes (rg_encode_sql q) (body_bytes (sql q))
unfolding rg_encode_sql body_bytes
sql-Writes q v = search writing depth 30

value-Writes : (v : VariableValue) → IsValue v → Writes (encode_value v) (value_bytes v)
unfolding encode_value value_bytes
value-Writes (vt_boolean b) h = put-Writes _
value-Writes _ h = search writing

pub variable-Writes :
    (v : VariableInfo) → IsVariable v → Writes (rg_encode_variableinfo v) (variable_bytes v)
unfolding rg_encode_variableinfo variable_bytes
variable-Writes v h = search (writing, value-Writes) depth 20

-- A pointer moved by the returned size is moved past what was written, if that fits `rg_short_t`.
pub by_returned_size-Writes :
    {w : Writer} {xs : List ℕ} → Writes w xs → length xs < 32768 → Writes (by_returned_size w) xs
unfolding by_returned_size put memcpy encode_at
by_returned_size-Writes {xs} p h = record { writes = λ c r. ground (arith, p.writes c r) }

pub end-Writes :
    (e : End)
    → IsValidData (end e)
    → length (variable_bytes e.returnvalue) < 32768
    → Writes (rg_encode_end e) (body_bytes (end e))
unfolding rg_encode_end body_bytes
end-Writes e v h = search (writing, by_returned_size-Writes, variable-Writes) depth 20

pub begin-Writes : (b : Begin) → Writes (rg_encode_begin b) (body_bytes (begin b))
unfolding rg_encode_begin body_bytes
begin-Writes b = search writing depth 20

pub exception_thrown-Writes :
    (x : ExceptionThrown)
    → IsValidData (exception_thrown x)
    → Writes (rg_encode_exception_thrown x) (body_bytes (exception_thrown x))
unfolding rg_encode_exception_thrown body_bytes
exception_thrown-Writes x v = search writing depth 20

pub process_frequency-Writes :
    (p : ProcessFrequency)
    → Writes (rg_encode_process_frequency p) (body_bytes (process_frequency p))
unfolding rg_encode_process_frequency body_bytes
process_frequency-Writes p = search writing

pub process_type-Writes :
    (p : ProcessType)
    → IsValidData (process_type p)
    → Writes (rg_encode_process_type p) (body_bytes (process_type p))
unfolding rg_encode_process_type body_bytes
process_type-Writes p v = search writing depth 20

pub http_in-Writes :
    (h : HttpIn) → IsValidData (http_in h) → Writes (rg_encode_http_in h) (body_bytes (http_in h))
unfolding rg_encode_http_in body_bytes
http_in-Writes h v = search writing depth 20

pub http_out-Writes :
    (h : HttpOut)
    → IsValidData (http_out h)
    → Writes (rg_encode_http_out h) (body_bytes (http_out h))
unfolding rg_encode_http_out body_bytes
http_out-Writes h v = search writing depth 20

pub begin_transaction-Writes :
    (t : BeginTransaction)
    → IsValidData (begin_transaction t)
    → Writes (rg_encode_begin_transaction t) (body_bytes (begin_transaction t))
unfolding rg_encode_begin_transaction body_bytes
begin_transaction-Writes t v = search writing depth 20

pub thread_started-Writes :
    (t : ThreadStarted) → Writes (rg_encode_thread_started t) (body_bytes (thread_started t))
unfolding rg_encode_thread_started body_bytes
thread_started-Writes t = search writing
