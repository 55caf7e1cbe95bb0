-- ===== src/Tracer/Threads.antt =====
-- The shadow threads of the tracer (ext/raygun/raygun_tracer.c): `rb_rg_thread`, `rb_rg_thread_started`
-- and `rb_rg_thread_ended`. A Ruby thread is a number, its VALUE.
pub mod Numbered
pub mod Lifecycle
mod Tests
use raygun_apm_ruby.Base.{ℕ, ◌+◌, List, Option, none, some, pos, u32, replicate}
use raygun_apm_ruby.Memory.{◌>>=◌}
use raygun_apm_ruby.Protocol.{Thread, thread_frameless, thread_orphaned, shadow_stack_limit}
use raygun_apm_ruby.Encoder.Emit.{Context, Sink, rg_thread_started, rg_thread_ended}
use raygun_apm_ruby.Tracer.Table.{st_lookup, st_insert, st_delete}

-- The members of `rb_rg_tracer_t` that are about threads: the counter and the table.
pub record ThreadTable : Type 0 where
  pub threads : ℕ  -- uint32_t
  pub threadsinfo : List (ℕ × Thread)

-- `ZALLOC`, then the ids and the empty stacks.
unfoldable pub new_thread : ℕ → ℕ → Thread
new_thread tid parent_tid = record {
  tid = tid;
  parent_tid = parent_tid;
  shadow_top = thread_frameless;
  vm_top = thread_frameless;
  level_deep_into_third_party_lib = pos 0;
  shadow_stack = replicate shadow_stack_limit 0;
}

-- Counts a thread and puts it into the table.
unfoldable pub register_thread : ThreadTable → ℕ → ℕ → Thread × ThreadTable
unfolding new_thread
register_thread t thread parent_tid =
    let threads = u32 (t.threads + 1) in
    let th = new_thread threads parent_tid in
    (th, record { threads = threads; threadsinfo = st_insert thread th t.threadsinfo })

unfoldable pub rb_rg_thread : ThreadTable → ℕ → Thread × ThreadTable
unfolding register_thread
rb_rg_thread t thread = elim (st_lookup thread t.threadsinfo) [
  | some th ↦ (th, t)
  | none ↦ register_thread t thread thread_orphaned
]

-- The tid of the parent, if it is known.
unfoldable pub parent_tid_of : ThreadTable → ℕ → ℕ
parent_tid_of t parent = elim (st_lookup parent t.threadsinfo) [
  | some parent_th ↦ parent_th.tid
  | none ↦ thread_orphaned
]

-- `NIL_P(parent_thread)`: the current thread stands in.
abbrev pub parent_or_current : Option ℕ → ℕ → ℕ
parent_or_current none current = current
parent_or_current (some parent) current = parent

module _ {U : Type 0} (sink : Sink U) (ctx : Context) (userdata : U) (now : ℕ) where
  unfoldable pub rb_rg_thread_started :
      ThreadTable → Option ℕ → ℕ → ℕ → Option (ThreadTable × U × Context)
  unfolding register_thread parent_tid_of
  rb_rg_thread_started t parent_thread current thread =
      let parent = parent_or_current parent_thread current in
      let (th, t') = register_thread t thread (parent_tid_of t parent) in
      rg_thread_started sink ctx userdata now th >>= λ r. some (t', r.1, r.2)

  unfoldable pub rb_rg_thread_ended : ThreadTable → ℕ → Option (ThreadTable × U × Context)
  unfolding rb_rg_thread
  rb_rg_thread_ended t thread =
      let (th, t') = rb_rg_thread t thread in
      rg_thread_ended sink ctx userdata now th.tid >>= λ r.
      some (record t' { threadsinfo = st_delete thread t'.threadsinfo }, r.1, r.2)
