-- ===== src/Tracer/Resync/Tests.antt =====
-- The methods that are announced again (ext/raygun/raygun_tracer.c), with a concrete table.
use raygun_apm_ruby.Base.{
  ℕ, ◌≡◌, refl, arith, List, [], ◌∷◌, Option, none, some, length, replicate, length-replicate,
}
use raygun_apm_ruby.Protocol.{Event, Methodinfo, Method, process_ended}
use raygun_apm_ruby.Encoder.Emit.{Context}
use raygun_apm_ruby.Tracer.Methods.{unset_ascii}
use raygun_apm_ruby.Tracer.Resync.{emit_all}
use raygun_apm_ruby.Tracer.Resync.Announce.{
  AllKeep, followed, reading, consume_all, emit_all-announces,
}

abbrev left_over : Event
left_over = record { length = 0; pid = 0; tid = 0; timestamp = 0; payload = process_ended }

abbrev unset_methodinfo : Methodinfo
unset_methodinfo = record {
  function_id = 0;
  class_name = unset_ascii;
  method_name = unset_ascii;
  method_source = 0;
}

abbrev known : Method
known = record { function_id = 1; encoded_size = 2; encoded = 8 ∷ 9 ∷ []; source = 0; name = [] }

abbrev entries : List (Option Method)
entries = none ∷ some known ∷ none ∷ []

abbrev context : Context
context = record { pid = 7; buf = replicate 32768 0 }

emit_all-announces_example :
    (ctx' : Context) × (emit_all
        (reading (λ c cs. c ∷ cs))
        left_over
        unset_methodinfo
        []
        context
        entries
      ≡ some ((8 ∷ 9 ∷ []) ∷ [], ctx'))
    × (ctx'.pid ≡ 7)
    × (length ctx'.buf ≡ 32768)
unfolding AllKeep followed consume_all
emit_all-announces_example =
    emit_all-announces (λ c cs. c ∷ cs) left_over unset_methodinfo entries [] context
      (record { size = refl; fits = omega arith }, tt) (length-replicate {A = ℕ} 32768 0)
