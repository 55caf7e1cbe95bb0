-- ===== src/Encoder/Emit/Delivery.antt =====
-- What the sink is handed: an event whose header is filled in, and a scratch buffer that begins with
-- exactly the bytes of its command.
use raygun_apm_ruby.Base.{ℕ, ◌+◌, ◌≤◌, ◌≡◌, refl, sym, arith, []}
use raygun_apm_ruby.Base.{Option, some, length}
use raygun_apm_ruby.Memory.{Writer, overwrite, read, ◌>>=◌}
use raygun_apm_ruby.Memory.Laws.{
  Writes, encode_at-some, overwrite-front, length-overwrite, slice-overwrite,
}
use raygun_apm_ruby.Protocol.{
  EncodedString, VariableInfo, EventData, Event, Method, Thread, begin, end, min_payload,
  methodinfo, exception_thrown, thread_ended, process_ended, process_frequency, process_type,
  begin_transaction, end_transaction, thread_started, scratch_buffer_size,
}
use raygun_apm_ruby.Protocol.Valid.{IsString, IsVariable, IsValidData}
use raygun_apm_ruby.Encoder.Wire.{body_bytes, header_bytes, command_bytes}
use raygun_apm_ruby.Encoder.Layout.{
  header-Writes, methodinfo-Writes, end-Writes, begin-Writes, exception_thrown-Writes,
  process_frequency-Writes, process_type-Writes, begin_transaction-Writes, thread_started-Writes,
}
use raygun_apm_ruby.Encoder.Bounds.{
  length-header, length-command, length-body-le, length-variable-le,
}
use raygun_apm_ruby.Encoder.Emit.{
  Context, Sink, rg_encode_header, fresh_event, encode_command, hand_over, emit_with_body,
  emit_header_only, rg_process_frequency, rg_begin_transaction, rg_end_transaction, rg_process_type,
  rg_process_ended, rg_thread_started, rg_thread_ended, rg_exception_thrown, rg_methodinfo,
  rg_begin, rg_end,
}

module _ (ctx : Context) (now tid : ℕ) (d : EventData) where
  -- The event as the sink sees it, its length that of its command.
  abbrev pub delivered : Event
  delivered = record {
    length = 19 + length (body_bytes d);
    pid = ctx.pid;
    tid = tid;
    timestamp = now;
    payload = d;
  }

  -- The context as the sink sees it.
  abbrev pub encoded : Context
  encoded = record ctx { buf = overwrite ctx.buf 0 (command_bytes delivered) }

  encode_command-some :
      (w : Writer)
      → Writes w (body_bytes d)
      → length (body_bytes d) ≤ 16404
      → length ctx.buf ≡ scratch_buffer_size
      → encode_command ctx now tid d w ≡ some (length (body_bytes d), delivered, encoded)
  unfolding encode_command rg_encode_header command_bytes
  encode_command-some w v small room = ground (
    arith,
    encode_at-some ctx.buf 19 v (omega arith),
    encode_at-some (overwrite ctx.buf 19 (body_bytes d)) 0 (header-Writes delivered)
        (omega (arith, length-overwrite ctx.buf 19 (body_bytes d), length-header delivered)),
    overwrite-front ctx.buf 0 19 (header_bytes delivered) (body_bytes d)
        (sym (length-header delivered)),
  )

  header_only-some :
      body_bytes d ≡ []
      → length ctx.buf ≡ scratch_buffer_size
      → rg_encode_header ctx now (fresh_event tid d) min_payload ≡ some (delivered, encoded)
  unfolding rg_encode_header command_bytes
  header_only-some e room = rw e (
      ground (
        arith,
        encode_at-some ctx.buf 0 (header-Writes (record delivered { length = 19 }))
            (omega (arith, length-header (record delivered { length = 19 }))),
      ))

  -- The sink is called once, with the delivered event and its size, and its answer is returned.
  abbrev pub Delivers : {U : Type 0} → Sink U → U → Option (ℕ × U × Context) → Type 0
  Delivers sink u result = result ≡ hand_over sink u encoded delivered (19 + length (body_bytes d))

abbrev pub methodinfo_of : Method → EncodedString → EncodedString → EventData
methodinfo_of m class_name method_name = methodinfo (record {
  function_id = m.function_id;
  class_name = class_name;
  method_name = method_name;
  method_source = m.source;
})

module _ {U : Type 0} (sink : Sink U) (ctx : Context) (u : U) (now tid : ℕ) where
  emit_with_body-Delivers :
      (d : EventData) (w : Writer)
      → Writes w (body_bytes d)
      → IsValidData d
      → length ctx.buf ≡ scratch_buffer_size
      → Delivers ctx now tid d sink u (emit_with_body sink ctx u now tid d w)
  unfolding emit_with_body
  emit_with_body-Delivers d w p v room =
      ground
        (arith, encode_command-some ctx now tid d w p (length-body-le d v) room, length-body-le d v)

  emit_header_only-Delivers :
      (d : EventData)
      → body_bytes d ≡ []
      → length ctx.buf ≡ scratch_buffer_size
      → Delivers ctx now tid d sink u (emit_header_only sink ctx u now tid d)
  unfolding emit_header_only
  emit_header_only-Delivers d e room = rw (header_only-some ctx now tid d e room, e)

  -- With a scratch buffer of the declared size, the two functions of the tracing hook never write
  -- past it: each calls the sink once, with the command for its arguments at the start of the buffer,
  -- no arguments on a BEGIN, no tail call on an END.
  pub begin_end-Delivers :
      (func instance_id : ℕ) (returnvalue : VariableInfo)
      → IsVariable returnvalue
      → length ctx.buf ≡ scratch_buffer_size
      → Delivers ctx now tid
          (begin (record { function_id = func; instance_id = instance_id; argc = 0 }))
          sink
          u
          (rg_begin sink ctx u now tid func instance_id)
        × Delivers ctx now tid
            (end (record { function_id = func; tail_call = 0; returnvalue = returnvalue }))
            sink
            u
            (rg_end sink ctx u now tid func returnvalue)
  unfolding rg_begin rg_end
  begin_end-Delivers func instance_id returnvalue v room = (
    emit_with_body-Delivers _ _ (begin-Writes _) tt room,
    emit_with_body-Delivers _ _ (end-Writes _ v (omega (arith, length-variable-le returnvalue v))) v
        room,
  )

  -- The same of the trace boundaries: transactions, exceptions, the process type and frequency, and
  -- the end of the process.
  pub boundaries-Deliver :
      (api_key technology type : EncodedString) (frequency exception : ℕ)
      → IsString api_key
      → IsString technology
      → IsString type
      → length ctx.buf ≡ scratch_buffer_size
      → Delivers ctx now tid
          (begin_transaction
            (record { api_key = api_key; technology_type = technology; process_type = type }))
          sink
          u
          (rg_begin_transaction sink ctx u now tid api_key technology type)
        × Delivers ctx now tid
            (process_type (record { technology_type = technology; process_type = type }))
            sink
            u
            (rg_process_type sink ctx u now tid technology type)
        × Delivers ctx now tid
            (exception_thrown
              (record { exception_id = exception; class_name = technology; correlation_id = type }))
            sink
            u
            (rg_exception_thrown sink ctx u now tid exception technology type)
        × Delivers ctx now tid
            (process_frequency (record { frequency = frequency }))
            sink
            u
            (rg_process_frequency sink ctx u now tid frequency)
        × Delivers ctx now tid end_transaction sink u (rg_end_transaction sink ctx u now tid)
        × Delivers ctx now tid process_ended sink u (rg_process_ended sink ctx u now tid)
  unfolding rg_begin_transaction rg_process_type rg_exception_thrown rg_process_frequency
      rg_end_transaction rg_process_ended body_bytes
  boundaries-Deliver api_key technology type frequency exception v w x room = (
    emit_with_body-Delivers _ _ (begin_transaction-Writes _ (v, w, x)) (v, w, x) room,
    emit_with_body-Delivers _ _ (process_type-Writes _ (w, x)) (w, x) room,
    emit_with_body-Delivers _ _ (exception_thrown-Writes _ (w, x)) (w, x) room,
    emit_with_body-Delivers _ _ (process_frequency-Writes _) tt room,
    emit_header_only-Delivers end_transaction refl room,
    emit_header_only-Delivers process_ended refl room,
  )

  -- A discovered method is delivered once, and the method keeps a copy of exactly the delivered
  -- command, for the timer thread to send again.
  pub rg_methodinfo-Delivers :
      (m : Method) (class_name method_name : EncodedString)
      → IsString class_name
      → IsString method_name
      → length ctx.buf ≡ scratch_buffer_size
      → let d = methodinfo_of m class_name method_name in
        rg_methodinfo sink ctx u now tid m class_name method_name ≡ (
          sink
            (encoded ctx now tid d)
            u
            (some (delivered ctx now tid d))
            (19 + length (body_bytes d))
          >>= λ r. some (
            r.0,
            r.1,
            encoded ctx now tid d,
            record m {
              encoded_size = 19 + length (body_bytes d);
              encoded = command_bytes (delivered ctx now tid d);
            },
          ))
  unfolding rg_methodinfo read
  rg_methodinfo-Delivers m class_name method_name v w room =
      let d = methodinfo_of m class_name method_name in
      let small = length-body-le d (v, w) in
      rw (encode_command-some ctx now tid d _ (methodinfo-Writes _ (v, w)) small room) (
        ground (
          arith,
          small,
          length-overwrite ctx.buf 0 (command_bytes (delivered ctx now tid d)),
          length-command (delivered ctx now tid d),
          slice-overwrite ctx.buf 0 (19 + length (body_bytes d))
              (command_bytes (delivered ctx now tid d)),
        ))

module _ {U : Type 0} (sink : Sink U) (ctx : Context) (u : U) (now : ℕ) (th : Thread) where
  -- A started thread is announced under its own id with its parent's, an ended one by the header
  -- alone; with a scratch buffer of the declared size each is one call of the sink.
  pub threads-Deliver :
      length ctx.buf ≡ scratch_buffer_size
      → Delivers ctx now th.tid
          (thread_started (record { parent_tid = th.parent_tid }))
          sink
          u
          (rg_thread_started sink ctx u now th)
        × Delivers ctx now th.tid thread_ended sink u (rg_thread_ended sink ctx u now th.tid)
  unfolding rg_thread_started rg_thread_ended body_bytes
  threads-Deliver room = (
    emit_with_body-Delivers sink ctx u now th.tid _ _ (thread_started-Writes _) tt room,
    emit_header_only-Delivers sink ctx u now th.tid thread_ended refl room,
  )
