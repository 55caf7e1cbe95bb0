-- ===== src/Encoder/Emit.antt =====
-- The functions of ext/raygun/raygun_encoder.c that encode a command into the scratch buffer of the
-- context and hand it to the sink. The sink is a parameter, as `context->sink` is; so is what
-- `context->timestamper` returns. A sink may change its own data, and only reads the context.
pub mod Delivery
use raygun_apm_ruby.Base.{ℕ, ◌+◌, ◌-◌, ◌*◌, ◌/◌, ◌%◌, ◌^◌, List, Option, none, some, i16}
use raygun_apm_ruby.Memory.{Writer, read, ◌>>=◌, encode_at}
use raygun_apm_ruby.Protocol.{
  EncodedString, VariableInfo, ExceptionThrown, Methodinfo, ProcessType, Begin, End,
  BeginTransaction, EventData, Event, Method, Thread, min_payload, begin, end, methodinfo,
  exception_thrown, thread_ended, process_ended, process_frequency, process_type, begin_transaction,
  end_transaction, thread_started,
}
use raygun_apm_ruby.Encoder.{
  rg_encode_header_impl, rg_encode_methodinfo, rg_encode_process_type, rg_encode_begin_transaction,
  rg_encode_begin, rg_encode_end, rg_encode_process_frequency, rg_encode_thread_started,
  rg_encode_exception_thrown,
}

-- `rg_context_t` without its two function pointers.
pub record Context : Type 0 where
  pub pid : ℕ  -- uint32_t
  pub buf : List ℕ  -- RG_ENCODER_SCRATCH_BUFFER_SIZE bytes

-- A sink returns its `int`, none of which is negative here, and its data. The event is none for a
-- forced flush.
abbrev pub Sink : Type 0 → Type 0
Sink U = Context → U → Option Event → ℕ → Option (ℕ × U)

-- `rg_fill_header`.
unfoldable pub rg_fill_header : Context → ℕ → Event → ℕ → Event
rg_fill_header ctx now e size = record e { length = size; pid = ctx.pid; timestamp = now }

-- `rg_encode_header` at the start of the scratch buffer.
unfoldable pub rg_encode_header : Context → ℕ → Event → ℕ → Option (Event × Context)
unfolding rg_fill_header
rg_encode_header ctx now e size = do
  let filled = rg_fill_header ctx now e size
  (_, buf) ← encode_at (rg_encode_header_impl filled) ctx.buf 0
  some (filled, record ctx { buf = buf })

-- The event on the stack of the caller, its header still to be filled.
abbrev pub fresh_event : ℕ → EventData → Event
fresh_event tid d = record { length = 0; pid = 0; tid = tid; timestamp = 0; payload = d }

-- The body shared by the functions below: encode behind the header's place, then the header.
unfoldable pub encode_command : Context → ℕ → ℕ → EventData → Writer → Option (ℕ × Event × Context)
unfolding rg_encode_header
encode_command ctx now tid d w = do
  (size, buf) ← encode_at w ctx.buf min_payload
  (e, ctx') ←
      rg_encode_header (record ctx { buf = buf }) now (fresh_event tid d) (i16 (min_payload + size))
  some (size, e, ctx')

-- The end of the functions below: `return context->sink(…)`. The context is returned too.
unfoldable pub hand_over :
    {U : Type 0} → Sink U → U → Context → Event → ℕ → Option (ℕ × U × Context)
hand_over sink userdata ctx e size = do
  (ret, userdata') ← sink ctx userdata (some e) size
  some (ret, userdata', ctx)

-- `RG_MIN_PAYLOAD + size` as the `size_t` that `malloc` and `memcpy` take: `size` is signed.
abbrev pub encoded_size_of : ℕ → ℕ
encoded_size_of size = (min_payload + size + (2 ^ 64 - 65536) * (size / 32768)) % 2 ^ 64

module _ {U : Type 0} (sink : Sink U) (ctx : Context) (userdata : U) (now : ℕ) where
  unfoldable pub emit_with_body : ℕ → EventData → Writer → Option (ℕ × U × Context)
  unfolding encode_command hand_over
  emit_with_body tid d w = do
    (size, e, ctx') ← encode_command ctx now tid d w
    hand_over sink userdata ctx' e (i16 (min_payload + size))

  unfoldable pub emit_header_only : ℕ → EventData → Option (ℕ × U × Context)
  unfolding rg_encode_header hand_over
  emit_header_only tid d = do
    (e, ctx') ← rg_encode_header ctx now (fresh_event tid d) min_payload
    hand_over sink userdata ctx' e min_payload

  unfoldable pub rg_process_frequency : ℕ → ℕ → Option (ℕ × U × Context)
  unfolding emit_with_body
  rg_process_frequency tid frequency =
      emit_with_body tid (process_frequency (record { frequency = frequency }))
        (rg_encode_process_frequency (record { frequency = frequency }))

  unfoldable pub rg_begin_transaction :
      ℕ → EncodedString → EncodedString → EncodedString → Option (ℕ × U × Context)
  unfolding emit_with_body
  rg_begin_transaction tid api_key technology_type type =
      let t : BeginTransaction = record {
        api_key = api_key;
        technology_type = technology_type;
        process_type = type;
      } in
      emit_with_body tid (begin_transaction t) (rg_encode_begin_transaction t)

  unfoldable pub rg_end_transaction : ℕ → Option (ℕ × U × Context)
  unfolding emit_header_only
  rg_end_transaction tid = emit_header_only tid end_transaction

  unfoldable pub rg_process_type : ℕ → EncodedString → EncodedString → Option (ℕ × U × Context)
  unfolding emit_with_body
  rg_process_type tid technology_type type =
      let p : ProcessType = record { technology_type = technology_type; process_type = type } in
      emit_with_body tid (process_type p) (rg_encode_process_type p)

  unfoldable pub rg_process_ended : ℕ → Option (ℕ × U × Context)
  unfolding emit_header_only
  rg_process_ended tid = emit_header_only tid process_ended

  unfoldable pub rg_thread_started : Thread → Option (ℕ × U × Context)
  unfolding emit_with_body
  rg_thread_started th =
      emit_with_body th.tid (thread_started (record { parent_tid = th.parent_tid }))
        (rg_encode_thread_started (record { parent_tid = th.parent_tid }))

  unfoldable pub rg_thread_ended : ℕ → Option (ℕ × U × Context)
  unfolding emit_header_only
  rg_thread_ended tid = emit_header_only tid thread_ended

  unfoldable pub rg_exception_thrown :
      ℕ → ℕ → EncodedString → EncodedString → Option (ℕ × U × Context)
  unfolding emit_with_body
  rg_exception_thrown tid exception class_name correlation_id =
      let x : ExceptionThrown = record {
        exception_id = exception;
        class_name = class_name;
        correlation_id = correlation_id;
      } in
      emit_with_body tid (exception_thrown x) (rg_encode_exception_thrown x)

  -- The method keeps a copy of its encoded command, which the timer thread sends again.
  unfoldable pub rg_methodinfo :
      ℕ → Method → EncodedString → EncodedString → Option (ℕ × U × Context × Method)
  unfolding hand_over
  rg_methodinfo tid method class_name method_name = do
    let m : Methodinfo = record {
      function_id = method.function_id;
      class_name = class_name;
      method_name = method_name;
      method_source = method.source;
    }
    (size, e, ctx') ← encode_command ctx now tid (methodinfo m) (rg_encode_methodinfo m)
    let encoded_size = encoded_size_of size
    encoded ← read ctx'.buf encoded_size
    (ret, userdata', ctx'') ← hand_over sink userdata ctx' e (i16 encoded_size)
    some (ret, userdata', ctx'', record method { encoded_size = encoded_size; encoded = encoded })

  unfoldable pub rg_begin : ℕ → ℕ → ℕ → Option (ℕ × U × Context)
  unfolding emit_with_body
  rg_begin tid func instance_id =
      let b : Begin = record { function_id = func; instance_id = instance_id; argc = 0 } in
      emit_with_body tid (begin b) (rg_encode_begin b)

  unfoldable pub rg_end : ℕ → ℕ → VariableInfo → Option (ℕ × U × Context)
  unfolding emit_with_body
  rg_end tid func returnvalue =
      let x : End = record { function_id = func; tail_call = 0; returnvalue = returnvalue } in
      emit_with_body tid (end x) (rg_encode_end x)
