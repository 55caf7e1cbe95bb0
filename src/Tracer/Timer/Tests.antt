-- ===== src/Tracer/Timer/Tests.antt =====
-- The timer thread (ext/raygun/raygun_tracer.c) over 31 ticks, with one method in the table.
use raygun_apm_ruby.Base.{
  ℕ, ◌+◌, ◌≡◌, refl, arith, List, [], ◌∷◌, ◌++◌, none, some, true, false, length, replicate,
  length-replicate, zero, suc,
}
use raygun_apm_ruby.Protocol.{
  EncodedString, Event, Methodinfo, Method, process_ended, scratch_buffer_size,
}
use raygun_apm_ruby.Encoder.Emit.{Context}
use raygun_apm_ruby.Coercion.Strings.{rb_rg_encode_string}
use raygun_apm_ruby.Tracer.Methods.{unset_ascii}
use raygun_apm_ruby.Tracer.Resync.Announce.{AllKeep, followed, reading}
use raygun_apm_ruby.Tracer.Hook.{Ruby}
use raygun_apm_ruby.Tracer.Timer.{Tick, Timer, sink_udp, rb_rg_timer_thread}
use raygun_apm_ruby.Tracer.Timer.Spec.{logged, schedule, AllTicksKeep}
use raygun_apm_ruby.Tracer.Timer.Schedule.{timer_thread-schedules}

abbrev mri : Ruby
mri = record {
  hashes = record {
    rb_hash_start = λ n. n;
    rb_hash_uint = λ h n. h + n;
    rb_hash_end = λ h. h;
    rb_str_hash = λ s. length s;
  };
  rb_str_encode = λ e s. s;
  correlation_of = λ pid tracer e. pid ∷ tracer ∷ e ∷ [];
  nil = 8;
  default_thread_group = 1;
  tracer_class = 2;
  fatal_class = 3;
}

abbrev scratch : Context
scratch = record { pid = 7; buf = replicate scratch_buffer_size 0 }

abbrev left_over : Event
left_over = record { length = 0; pid = 0; tid = 0; timestamp = 0; payload = process_ended }

abbrev unset_methodinfo : Methodinfo
unset_methodinfo = record {
  function_id = 0;
  class_name = unset_ascii;
  method_name = unset_ascii;
  method_source = 0;
}

abbrev known : Method
known = record { function_id = 1; encoded_size = 2; encoded = 8 ∷ 9 ∷ []; source = 0; name = [] }

abbrev tick : Tick
tick = record {
  frequency_time = 5;
  type_time = 6;
  methodinfo = none ∷ some known ∷ [];
  connection = none;
}

abbrev waiting : Timer (List (List ℕ))
waiting = record {
  profiler = record {
    thread_table = record { threads = 0; threadsinfo = [] };
    tracecontexts = [];
    api_key = none;
    technology_type = 82 ∷ [];
    process_type = 87 ∷ [];
    noop = false;
    sink_thread = true;
    running = true;
    context = scratch;
    sink_data = [];
    enabled = λ k. false;
  };
  methodinfo_sync_ticks = 0;
  sock = none;
}

ticks_keep : (n : ℕ) → AllTicksKeep (replicate n tick)
unfolding AllKeep followed
ticks_keep zero = tt
ticks_keep (suc n) = ((record { size = refl; fits = omega arith }, tt), ticks_keep n)

timer_thread-schedules_example :
    (technology type : EncodedString) × (t' : Timer (List (List ℕ))) × (rb_rg_encode_string
        mri.rb_str_encode unset_ascii
        (some (82 ∷ []))
      ≡ some technology)
    × (rb_rg_encode_string mri.rb_str_encode unset_ascii (some (87 ∷ [])) ≡ some type)
    × (rb_rg_timer_thread mri
          (reading logged)
          sink_udp
          left_over
          unset_methodinfo
          waiting
          (replicate 31 tick)
        ≡ some t')
    × (t'.profiler.sink_data ≡ [] ++ schedule 7 technology type sink_udp 0 (replicate 31 tick))
timer_thread-schedules_example =
    timer_thread-schedules mri sink_udp left_over unset_methodinfo waiting (replicate 31 tick)
      (length-replicate {A = ℕ} scratch_buffer_size 0) refl (ticks_keep 31)
