-- ===== src/Tracer/Hook/Tests.antt =====
-- The hook (ext/raygun/raygun_tracer.c) with a concrete tracer.
use raygun_apm_ruby.Base.{
  ℕ, ℤ, ◌+◌, ◌≡◌, refl, arith, List, [], ◌∷◌, ◌++◌, none, some, pos, length, replicate,
  length-replicate, inl,
}
use mathlib.Core.Path.{subst}
use raygun_apm_ruby.Memory.{◌>>=◌}
use raygun_apm_ruby.Protocol.{Thread, Method, source_user_code}
use raygun_apm_ruby.Tracer.Table.{st_lookup}
use raygun_apm_ruby.Tracer.Threads.{ThreadTable, new_thread, parent_tid_of}
use raygun_apm_ruby.Tracer.Threads.Numbered.{IsNumbered}
use raygun_apm_ruby.Tracer.Threads.Lifecycle.{new_thread-Consistent}
use raygun_apm_ruby.Tracer.Frames.Laws.{IsThread}
use raygun_apm_ruby.Tracer.Frames.Return.{Agrees}
use raygun_apm_ruby.Tracer.Frames.Pair.{SameDepth}
use raygun_apm_ruby.Tracer.Frames.Balance.{Signal, Fits, close}
use raygun_apm_ruby.Tracer.Filters.{Rax}
use raygun_apm_ruby.Tracer.Names.{
  named, TraceArg, rb_rg_method_id, rb_rg_fill_class_and_method, rb_rg_class_to_str, st_lookup_text,
}
use raygun_apm_ruby.Tracer.Hook.{
  Ruby, call, thread_begin, State, load_thread, rb_rg_thread_group, rb_rg_tracing_hook_i,
}
use raygun_apm_ruby.Sink.Batched.{SinkData, rb_rg_batched_sink}
use raygun_apm_ruby.Sink.Tests.{fifo, fresh, fresh-Holds, nothing_pending}
use raygun_apm_ruby.Tracer.Hook.Batched.{IsBatching, batched_sink-Answers}
use raygun_apm_ruby.Tracer.Hook.Sound.{methodinfo_size, Sound}
use raygun_apm_ruby.Tracer.Hook.Handled.{Handles}
use raygun_apm_ruby.Tracer.Hook.Total.{tracing_hook-Handles}
use raygun_apm_ruby.Tracer.Hook.Begins.{announced, outside_event-adopts}
use raygun_apm_ruby.Tracer.Hook.Steps.{
  Program, stop, invoke, calls_of, AreKnown, run_program, recording,
}
use raygun_apm_ruby.Tracer.Hook.Runs.{run_program-balanced}

-- A tree without rules.
abbrev empty_tree : Rax
empty_tree = record {
  Tree = Unit {0};
  insert = λ t k d. t;
  find = λ t k. none;
  walk = λ t k. (0, []);
  iterate = λ t k. [];
}

abbrev mri : Ruby
mri = record {
  hashes = record {
    rb_hash_start = λ n. n;
    rb_hash_uint = λ h n. h + n;
    rb_hash_end = λ h. h;
    rb_str_hash = λ s. length s;
  };
  rb_str_encode = λ e s. s;
  correlation_of = λ pid tracer e. pid ∷ tracer ∷ e ∷ [];
  nil = 8;
  default_thread_group = 1;
  tracer_class = 2;
  fatal_class = 3;
}

abbrev a_method : Method
a_method = record {
  function_id = 5;
  encoded_size = 0;
  encoded = [];
  source = source_user_code;
  name = [];
}

abbrev an_arg : TraceArg
an_arg = record {
  namespace = 100;
  klass = named (65 ∷ []);
  method_id = 200;
  method_name = 98 ∷ [];
  path = [];
  self = 900;
}

-- The trace of thread 40, in thread group 50, with one method that is known.
abbrev traced : State empty_tree (List Signal)
traced = record {
  tracer = record {
    address = 7;
    method_table = record {
      filters = record {
        blacklist = tt;
        blacklist_fq = tt;
        blacklist_paths = tt;
        blacklist_methods = tt;
        methodinfo = (300, some a_method) ∷ [];
      };
      methods = 5;
      blacklisted = 0;
      libraries = tt;
      synchronization_methods = [];
    };
    thread_table = record { threads = 1; threadsinfo = (40, new_thread 1 0) ∷ [] };
    environment = 2;
    builtin_translator = [];
    sink_thread = 60;
    timer_thread = 61;
  };
  trace_context = record { thread = 40; parent_thread = some 40; thgroup = 50 };
  context = record { pid = 7; buf = replicate 32768 0 };
  sink_data = [];
  correlations = [];
}

-- The same with the batched sink and nothing pending.
abbrev batching : State empty_tree (SinkData (List ℕ))
batching = record {
  tracer = traced.tracer;
  trace_context = traced.trace_context;
  context = traced.context;
  sink_data = fresh;
  correlations = [];
}

one_thread :
    (k : ℕ) (th : Thread) → load_thread traced k ≡ some th → (k ≡ 40) × (new_thread 1 0 ≡ th)
one_thread k th h = ground (arith, h)

one_method :
    (k : ℕ) (m : Method)
    → st_lookup k traced.tracer.method_table.filters.methodinfo ≡ some (some m)
    → (k ≡ 300) × (a_method ≡ m)
one_method k m h = ground (arith, h)

batching-Sound : Sound (IsBatching fifo) batching
unfolding new_thread
batching-Sound = record {
  fit = (nothing_pending, fresh-Holds);
  room = length-replicate {A = ℕ} 32768 0;
  numbered = record {
    counted = λ k th h. ground (arith, one_thread k th h);
    distinct = λ j k a b h h' e. omega (arith, (one_thread j a h).0, (one_thread k b h').0);
  };
  stacks = λ k th h. subst IsThread (one_thread k th h).1 (new_thread-Consistent 1 0).thread;
  counted = record {
    counted = λ k m h. ground (arith, one_method k m h);
    distinct = λ j k a b h h' e. omega (arith, (one_method j a h).0, (one_method k b h').0);
  };
}

-- A method that is not in the table.
abbrev unknown_arg : TraceArg
unknown_arg = record an_arg { method_id = 201 }

unknown_arg_size : methodinfo_size mri (rb_rg_fill_class_and_method [] unknown_arg) ≡ 30
unfolding rb_rg_fill_class_and_method rb_rg_class_to_str st_lookup_text
unknown_arg_size = refl

tracing_hook-Handles_example : Handles (IsBatching fifo) (
    rb_rg_tracing_hook_i mri
      (rb_rg_batched_sink fifo)
      3
      batching
      none
      2
      (record { thread = 40; thgroup = 50 })
      (call unknown_arg))
tracing_hook-Handles_example =
    tracing_hook-Handles mri (rb_rg_batched_sink fifo) 3 (batched_sink-Answers fifo) batching none 2
      (record { thread = 40; thgroup = 50 }) (call unknown_arg) batching-Sound
      (record { threads = omega arith; methods = omega arith; traced = (new_thread 1 0, refl) })
      (inl (omega (arith, unknown_arg_size)))

-- The thread 70 is in the table as well.
abbrev two_threads : ThreadTable
two_threads = record { threads = 2; threadsinfo = (40, new_thread 1 0) ∷ (70, new_thread 2 0) ∷ [] }

two_threads-IsNumbered : IsNumbered two_threads
unfolding new_thread
two_threads-IsNumbered = record {
  counted = λ k th h. (ground (arith, h), ground (arith, h));
  distinct = λ j k a b h h' e. ground (arith, h, h', e);
}

abbrev traced_two : State empty_tree (List Signal)
traced_two = record traced { tracer = record traced.tracer { thread_table = two_threads } }

outside_event-adopts_example :
    (s₁ : State empty_tree (List Signal)) × (th : Thread) × (t' : ThreadTable)
    × (rb_rg_tracing_hook_i mri recording 3 traced_two none 2
          (record { thread = 70; thgroup = 51 })
          (call an_arg)
        ≡ some s₁)
    × (s₁.tracer ≡ traced_two.tracer)
    × (s₁.context ≡ traced_two.context)
    × (s₁.sink_data ≡ [])
    × (rb_rg_tracing_hook_i mri recording 3 s₁ none 2
          (record { thread = 41; thgroup = 50 })
          (thread_begin 41)
        ≡ (announced recording traced_two.context [] 3 th >>= λ r. some (record s₁ {
          tracer = record traced_two.tracer { thread_table = t' };
          sink_data = r.1;
          context = r.2;
        })))
    × (st_lookup 41 t'.threadsinfo ≡ some th)
    × (th.parent_tid ≡ 2)
unfolding rb_rg_thread_group parent_tid_of new_thread
outside_event-adopts_example =
    outside_event-adopts mri recording 3 traced_two none 2 (record { thread = 70; thgroup = 51 })
      (record { thread = 41; thgroup = 50 }) (call an_arg) refl (omega arith) refl refl refl refl
      (length-replicate {A = ℕ} 32768 0) refl (omega arith) two_threads-IsNumbered (omega arith)

user_code-Agrees : (l : ℤ) → Agrees a_method l
user_code-Agrees l waits other = cc

abbrev nested : Program
nested = invoke an_arg a_method (invoke an_arg a_method stop stop) stop

run_program-balanced_example :
    (s' : State empty_tree (List Signal)) × (sent : List Signal) × (th' : Thread) × (run_program mri
        3
        (record { thread = 40; thgroup = 50 })
        nested
        traced
      ≡ some s')
    × (s'.sink_data ≡ [] ++ sent)
    × (close [] sent ≡ some [])
    × (load_thread s' 40 ≡ some th')
    × SameDepth (new_thread 1 0) th'
unfolding AreKnown Fits calls_of new_thread rb_rg_method_id
run_program-balanced_example =
    run_program-balanced mri 3 (record { thread = 40; thgroup = 50 }) nested traced (new_thread 1 0)
      []
      (record {
        room = length-replicate {A = ℕ} 32768 0;
        loaded = refl;
        traced = refl;
        watched = refl;
      })
      (refl, omega arith, (refl, omega arith, tt, tt), tt) (new_thread-Consistent 1 0)
      (omega arith, user_code-Agrees (pos 0), (omega arith, user_code-Agrees (pos 0), tt, tt), tt)
