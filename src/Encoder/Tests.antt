-- ===== src/Encoder/Tests.antt =====
-- The encoder of ext/raygun/raygun_encoder.c on concrete commands.
use raygun_apm_ruby.Base.{ℕ, ◌+◌, ◌≡◌, arith, List, [], ◌∷◌, some, pos, negsuc}
use raygun_apm_ruby.Base.{length, replicate, length-replicate}
use raygun_apm_ruby.Memory.{◌>>=◌}
use raygun_apm_ruby.Protocol.{
  EncodedString, VariableInfo, vt_string, Method, Thread, begin, end, sql, Sql, scratch_buffer_size,
  exception_thrown, end_transaction, process_ended, process_frequency, process_type,
  begin_transaction, thread_started, thread_ended,
}
use raygun_apm_ruby.Protocol.Valid.{IsString, IsVariable}
use raygun_apm_ruby.Encoder.Size.{rg_encode_size}
use raygun_apm_ruby.Encoder.Wire.{body_bytes, command_bytes}
use raygun_apm_ruby.Encoder.Bounds.{encode_size-body}
use raygun_apm_ruby.Encoder.Emit.{
  Context, Sink, rg_begin, rg_end, rg_process_frequency, rg_begin_transaction, rg_end_transaction,
  rg_process_type, rg_process_ended, rg_thread_started, rg_thread_ended, rg_exception_thrown,
  rg_methodinfo,
}
use raygun_apm_ruby.Encoder.Emit.Delivery.{
  Delivers, delivered, encoded, methodinfo_of, begin_end-Delivers, boundaries-Deliver,
  rg_methodinfo-Delivers, threads-Deliver,
}

-- A sink that keeps the sizes it was called with.
abbrev counting : Sink (List ℕ)
counting ctx sizes event n = some (1, n ∷ sizes)

abbrev scratch : Context
scratch = record { pid = 7; buf = replicate 32768 0 }

scratch_size : length scratch.buf ≡ scratch_buffer_size
scratch_size = length-replicate {A = ℕ} 32768 0

abbrev word : EncodedString
word = record { encoding = 1; length = 2; string = 104 ∷ 105 ∷ 0 ∷ [] }

word-IsString : IsString word
word-IsString = record { in_array = omega arith; array = omega arith }

abbrev answer : VariableInfo
answer = record { length = 2; name_length = 1; name = 114 ∷ []; value = vt_string word }

answer-IsVariable : IsVariable answer
answer-IsVariable = record {
  name_in_array = omega arith;
  name_array = omega arith;
  value = word-IsString;
}

abbrev query : Sql
query = record { provider = word; host = word; database = word; query = word; duration = 1000 }

encode_size-body_example : rg_encode_size (sql query) ≡ 19 + length (body_bytes (sql query))
encode_size-body_example =
    encode_size-body (sql query) (word-IsString, word-IsString, word-IsString, word-IsString)
      (λ e. cc)

begin_end-Delivers_example :
    Delivers scratch 5 3
      (begin (record { function_id = 9; instance_id = 77; argc = 0 }))
      counting
      []
      (rg_begin counting scratch [] 5 3 9 77)
    × Delivers scratch 5 3
        (end (record { function_id = 9; tail_call = 0; returnvalue = answer }))
        counting
        []
        (rg_end counting scratch [] 5 3 9 answer)
begin_end-Delivers_example =
    begin_end-Delivers counting scratch [] 5 3 9 77 answer answer-IsVariable scratch_size

boundaries-Deliver_example :
    Delivers scratch 5 3
      (begin_transaction (record { api_key = word; technology_type = word; process_type = word }))
      counting
      []
      (rg_begin_transaction counting scratch [] 5 3 word word word)
    × Delivers scratch 5 3
        (process_type (record { technology_type = word; process_type = word }))
        counting
        []
        (rg_process_type counting scratch [] 5 3 word word)
    × Delivers scratch 5 3
        (exception_thrown (record { exception_id = 8; class_name = word; correlation_id = word }))
        counting
        []
        (rg_exception_thrown counting scratch [] 5 3 8 word word)
    × Delivers scratch 5 3
        (process_frequency (record { frequency = 1000000 }))
        counting
        []
        (rg_process_frequency counting scratch [] 5 3 1000000)
    × Delivers scratch 5 3 end_transaction counting [] (rg_end_transaction counting scratch [] 5 3)
    × Delivers scratch 5 3 process_ended counting [] (rg_process_ended counting scratch [] 5 3)
boundaries-Deliver_example =
    boundaries-Deliver counting scratch [] 5 3 word word word 1000000 8 word-IsString word-IsString
      word-IsString scratch_size

abbrev a_method : Method
a_method = record { function_id = 9; encoded_size = 0; encoded = []; source = 0; name = [] }

rg_methodinfo-Delivers_example :
    let d = methodinfo_of a_method word word in
    rg_methodinfo counting scratch [] 5 3 a_method word word ≡ (
      counting
        (encoded scratch 5 3 d)
        []
        (some (delivered scratch 5 3 d))
        (19 + length (body_bytes d))
      >>= λ r. some (
        r.0,
        r.1,
        encoded scratch 5 3 d,
        record a_method {
          encoded_size = 19 + length (body_bytes d);
          encoded = command_bytes (delivered scratch 5 3 d);
        },
      ))
rg_methodinfo-Delivers_example =
    rg_methodinfo-Delivers counting scratch [] 5 3 a_method word word word-IsString word-IsString
      scratch_size

abbrev a_thread : Thread
a_thread = record {
  tid = 2;
  parent_tid = 1;
  shadow_top = negsuc 0;
  vm_top = negsuc 0;
  level_deep_into_third_party_lib = pos 0;
  shadow_stack = replicate 256 0;
}

threads-Deliver_example :
    Delivers scratch 5 2
      (thread_started (record { parent_tid = 1 }))
      counting
      []
      (rg_thread_started counting scratch [] 5 a_thread)
    × Delivers scratch 5 2 thread_ended counting [] (rg_thread_ended counting scratch [] 5 2)
threads-Deliver_example = threads-Deliver counting scratch [] 5 a_thread scratch_size
