-- ===== src/Tracer/Threads/Tests.antt =====
-- A started and an ended thread (ext/raygun/raygun_tracer.c) in a concrete table.
use raygun_apm_ruby.Base.{
  ℕ, ◌+◌, ◌≡◌, refl, arith, List, [], ◌∷◌, none, some, length, replicate, length-replicate,
}
use raygun_apm_ruby.Memory.{◌>>=◌}
use raygun_apm_ruby.Protocol.{Thread, thread_ended}
use raygun_apm_ruby.Encoder.Wire.{body_bytes}
use raygun_apm_ruby.Encoder.Emit.{Context, Sink, hand_over}
use raygun_apm_ruby.Encoder.Emit.Delivery.{delivered, encoded}
use raygun_apm_ruby.Tracer.Table.{st_lookup}
use raygun_apm_ruby.Tracer.Threads.{ThreadTable, new_thread, rb_rg_thread_ended}
use raygun_apm_ruby.Tracer.Threads.Numbered.{IsNumbered}
use raygun_apm_ruby.Tracer.Threads.Lifecycle.{thread_ended-forgets}

abbrev counting : Sink (List ℕ)
counting ctx sizes event n = some (1, n ∷ sizes)

abbrev scratch : Context
scratch = record { pid = 7; buf = replicate 32768 0 }

abbrev main_thread : Thread
main_thread = new_thread 1 0

abbrev one_thread : ThreadTable
one_thread = record { threads = 1; threadsinfo = (100, main_thread) ∷ [] }

one_thread-IsNumbered : IsNumbered one_thread
unfolding new_thread
one_thread-IsNumbered = record {
  counted = λ k th h. ground (arith, h);
  distinct = λ j k a b h h' e. ground (arith, h, h');
}

thread_ended-forgets_example :
    (t' : ThreadTable) × (rb_rg_thread_ended counting scratch [] 5 one_thread 100 ≡ (
      hand_over counting []
        (encoded scratch 5 main_thread.tid thread_ended)
        (delivered scratch 5 main_thread.tid thread_ended)
        (19 + length (body_bytes thread_ended))
      >>= λ r. some (t', r.1, r.2)))
    × IsNumbered t'
    × (st_lookup 100 t'.threadsinfo ≡ none)
    × (t'.threads ≡ 1)
thread_ended-forgets_example =
    thread_ended-forgets counting scratch [] 5 one_thread 100 main_thread one_thread-IsNumbered refl
      (length-replicate {A = ℕ} 32768 0)
