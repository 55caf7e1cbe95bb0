-- ===== src/Tracer/Hook/Others.antt =====
-- The exceptions and threads that `rb_rg_tracing_hook_i` (ext/raygun/raygun_tracer.c) is called for.
use raygun_apm_ruby.Base.{
  ℕ, List, ap, sym, take, length-append, length-take, ◌+◌, ◌≤◌, ◌<◌, ◌≡◌, ◌≢◌, ◌∙◌, arith, some,
  ◌||◌, ◌==◌, ltb_ℤ, pos, length, length-replicate, u32, Bool-cases, Option-cases, inl, inr,
}
use mathlib.Core.Path.{subst}
use raygun_apm_ruby.Protocol.{
  EncodedString, exception_thrown, thread_started, thread_ended, Thread, thread_frameless,
  thread_orphaned, trace_entrypoint_frame_id,
}
use raygun_apm_ruby.Encoder.Wire.{text, body_bytes}
use raygun_apm_ruby.Event.Slots.{ascii}
use raygun_apm_ruby.Encoder.Emit.{Context, Sink}
use raygun_apm_ruby.Encoder.Emit.Delivery.{threads-Deliver, boundaries-Deliver}
use raygun_apm_ruby.Coercion.Truncation.{encode_string-Stored}
use raygun_apm_ruby.Tracer.Table.{st_lookup, st_insert, st_delete, lookup-insert, lookup-delete}
use raygun_apm_ruby.Tracer.Frames.{level}
use raygun_apm_ruby.Tracer.Frames.Laws.{IsThread, peek-some}
use raygun_apm_ruby.Tracer.Threads.{
  ThreadTable, new_thread, register_thread, rb_rg_thread, parent_tid_of, parent_or_current,
  rb_rg_thread_started, rb_rg_thread_ended,
}
use raygun_apm_ruby.Tracer.Threads.Numbered.{
  IsNumbered, register_thread-IsNumbered, delete-IsNumbered,
}
use raygun_apm_ruby.Tracer.Threads.Lifecycle.{new_thread-Consistent}
use raygun_apm_ruby.Tracer.Filters.{Rax}
use raygun_apm_ruby.Tracer.Methods.{unset_ascii}
use raygun_apm_ruby.Tracer.Hook.{
  Ruby, Raised, State, load_thread, emitted, rb_rg_exception_thrown, hook_raise, hook_thread_begin,
  hook_thread_end,
}
use raygun_apm_ruby.Tracer.Hook.Sound.{
  Passes, exception_size, Answers, Sound, Delivers-some, emitted-Sound,
}
use raygun_apm_ruby.Tracer.Hook.Handled.{Handles}

-- What `Sound` says of the table of threads.
pub record SoundTable (t : ThreadTable) : Type 0 where
  pub numbered : IsNumbered t
  pub stacks : (k : ℕ) (th : Thread) → st_lookup k t.threadsinfo ≡ some th → IsThread th

register_thread-SoundTable :
    (t : ThreadTable) (thread parent : ℕ)
    → SoundTable t
    → t.threads + 1 < 4294967296
    → let (th, t') = register_thread t thread parent in
      SoundTable t' × (st_lookup thread t'.threadsinfo ≡ some th) × (t'.threads ≡ t.threads + 1)
unfolding register_thread
register_thread-SoundTable t thread parent v small =
    let th = new_thread (u32 (t.threads + 1)) parent in
    let (numbered, found, _, counted) =
      register_thread-IsNumbered t thread parent v.numbered small in
    (
      record {
        numbered = numbered;
        stacks = λ k b h. elim (lookup-insert k thread th b t.threadsinfo h) [
          | inl (e, same) ↦ subst IsThread same (new_thread-Consistent _ parent).thread
          | inr (ne, old) ↦ v.stacks k b old
        ];
      },
      found,
      counted,
    )

pub rb_rg_thread-SoundTable :
    (t : ThreadTable) (thread : ℕ)
    → SoundTable t
    → t.threads + 1 < 4294967296
    → let (th, t') = rb_rg_thread t thread in
      SoundTable t' × (st_lookup thread t'.threadsinfo ≡ some th) × (t'.threads ≤ t.threads + 1)
unfolding rb_rg_thread
rb_rg_thread-SoundTable t thread v small = elim (Option-cases (st_lookup thread t.threadsinfo)) [
  | inr (th, known) ↦ rw (rb_rg_thread, known) (v, known, omega arith)
  | inl unknown ↦
      (let (w, found, counted) = register_thread-SoundTable t thread thread_orphaned v small in
        rw (rb_rg_thread, unknown) (w, found, omega (arith, counted)))
]

delete-SoundTable :
    (t : ThreadTable) (thread : ℕ)
    → SoundTable t
    → SoundTable (record t { threadsinfo = st_delete thread t.threadsinfo })
delete-SoundTable t thread v = record {
  numbered = delete-IsNumbered t thread v.numbered;
  stacks = λ k b h. v.stacks k b (lookup-delete k thread b t.threadsinfo h).1;
}

module _ {rax : Rax} {U : Type 0} {Fit : U → Type 0} (s : State rax U) where
  -- The tracer with another table of threads, and what an emission leaves.
  pub threads-Sound :
      (t : ThreadTable) (u : U) (ctx : Context)
      → Sound Fit s
      → SoundTable t
      → length ctx.buf ≡ length s.context.buf
      → Fit u
      → Sound Fit
          (record s { tracer = record s.tracer { thread_table = t }; sink_data = u; context = ctx })
  threads-Sound t u ctx v w same fit = record {
    fit = fit;
    room = same ∙ v.room;
    numbered = w.numbered;
    stacks = w.stacks;
    counted = v.counted;
  }

  pub table-Sound : Sound Fit s → SoundTable s.tracer.thread_table
  table-Sound v = record { numbered = v.numbered; stacks = v.stacks }

thread_small :
    (parent : ℕ) → length (body_bytes (thread_started (record { parent_tid = parent }))) ≤ 4
unfolding body_bytes
thread_small parent = omega arith

ended_small : length (body_bytes thread_ended) ≤ 4
unfolding body_bytes
ended_small = omega arith

-- The command of an exception has the size that its class and its id say.
exception-size :
    (ruby : Ruby) (exception : ℕ) (cn ci : EncodedString) (class_name id : List ℕ)
    → text cn ≡ take 4096 (ruby.rb_str_encode ascii class_name)
    → text ci ≡ take 4096 (ruby.rb_str_encode ascii id)
    → (19
          + length (
              body_bytes (
                exception_thrown
                  (record { exception_id = exception; class_name = cn; correlation_id = ci })))
        ≡ exception_size ruby class_name id)
      × (exception_size ruby class_name id ≤ 16404)
unfolding body_bytes
exception-size ruby exception cn ci class_name id c d = (
  omega (arith, ap length c, ap length d, length-append {0}),
  omega (
    arith,
    length-take 4096 (ruby.rb_str_encode ascii class_name),
    length-take 4096 (ruby.rb_str_encode ascii id),
  ),
)

module _ {rax : Rax} (ruby : Ruby) {U : Type 0} (sink : Sink U) (now : ℕ) {Fit : U → Type 0}
    (answers : Answers sink Fit) where
  rb_rg_exception_thrown-Handles :
      (s : State rax U) (tid : ℕ) (e : Raised)
      → Sound Fit s
      → Passes (
          exception_size ruby e.class_name
            (ruby.correlation_of s.context.pid s.tracer.address e.exception))
      → Handles Fit (rb_rg_exception_thrown ruby sink now s tid e)
  unfolding rb_rg_exception_thrown
  rb_rg_exception_thrown-Handles s tid e v passes =
      let id = ruby.correlation_of s.context.pid s.tracer.address e.exception in
      let unset = length-replicate {A = ℕ} 4096 0 in
      let (cn, stores_class, c) =
        encode_string-Stored ruby.rb_str_encode e.class_name unset_ascii unset in
      let (ci, stores_id, i) = encode_string-Stored ruby.rb_str_encode id unset_ascii unset in
      let size = exception-size ruby e.exception cn ci e.class_name id c.content i.content in
      let (r, sent, kept, fit) =
        Delivers-some sink s.context s.sink_data now tid _ _ answers v.fit v.room
          (omega (arith, size.0, size.1)) (subst Passes (sym size.0) passes)
          (boundaries-Deliver sink s.context s.sink_data now tid cn cn ci 0 e.exception c.valid
            c.valid i.valid v.room).2 in
      let s' : State rax U = record s { correlations = st_insert e.exception id s.correlations } in
      (
        emitted s' r,
        rw stores_class (rw stores_id (rw sent)),
        emitted-Sound s' r
            (record {
              fit = v.fit;
              room = v.room;
              numbered = v.numbered;
              stacks = v.stacks;
              counted = v.counted;
            })
            kept fit,
      )

  pub hook_raise-Handles :
      (s : State rax U) (thread : ℕ) (th : Thread) (e : Raised)
      → Sound Fit s
      → load_thread s thread ≡ some th
      → th.shadow_top ≢ thread_frameless
      → Passes (
          exception_size ruby e.class_name
            (ruby.correlation_of s.context.pid s.tracer.address e.exception))
      → Handles Fit (hook_raise ruby sink now s thread e)
  unfolding hook_raise
  hook_raise-Handles s thread th e v known framed passes =
      let stack = v.stacks thread th known in
      let (f, top) = peek-some th stack (ground (arith, framed, stack.above)) in
      elim (Bool-cases (e.class == ruby.fatal_class)) [
        | inl fatal ↦ (s, rw (hook_raise, fatal), v)
        | inr other ↦
            elim (Bool-cases ((f == trace_entrypoint_frame_id) || ltb_ℤ (pos 0) (level th))) [
              | inl ignored ↦ (s, rw (hook_raise, other) (rw known (rw top (rw ignored))), v)
              | inr thrown ↦
                  (let (s', done, w) = rb_rg_exception_thrown-Handles s th.tid e v passes in
                    (s', rw (hook_raise, other) (rw known (rw top (rw thrown done))), w))
            ]
      ]

  pub hook_thread_begin-Handles :
      (s : State rax U) (current started : ℕ)
      → Sound Fit s
      → s.tracer.thread_table.threads + 1 < 4294967296
      → Handles Fit (hook_thread_begin ruby sink now s current started)
  unfolding hook_thread_begin rb_rg_thread_started
  hook_thread_begin-Handles s current started v small =
      let t = s.tracer.thread_table in
      let parent = parent_tid_of t (parent_or_current s.trace_context.parent_thread current) in
      let (th, t') = register_thread t started parent in
      let (w, _, _) = register_thread-SoundTable t started parent (table-Sound s v) small in
      let (r, sent, kept, fit) =
        Delivers-some sink s.context s.sink_data now th.tid _ _ answers v.fit v.room
          (omega (arith, thread_small th.parent_tid))
          (inl (omega (arith, thread_small th.parent_tid)))
          (threads-Deliver sink s.context s.sink_data now th v.room).0 in
      (
        record s { tracer = record s.tracer { thread_table = t' }; sink_data = r.1; context = r.2 },
        rw sent,
        threads-Sound s t' r.1 r.2 v w kept fit,
      )

  pub hook_thread_end-Handles :
      (s : State rax U) (ended : ℕ)
      → Sound Fit s
      → s.tracer.thread_table.threads + 1 < 4294967296
      → Handles Fit (hook_thread_end ruby sink now s ended)
  unfolding hook_thread_end rb_rg_thread_ended
  hook_thread_end-Handles s ended v small =
      let t = s.tracer.thread_table in
      let (th, t') = rb_rg_thread t ended in
      let (w, _, _) = rb_rg_thread-SoundTable t ended (table-Sound s v) small in
      let (r, sent, kept, fit) =
        Delivers-some sink s.context s.sink_data now th.tid _ _ answers v.fit v.room
          (omega (arith, ended_small)) (inl (omega (arith, ended_small)))
          (threads-Deliver sink s.context s.sink_data now th v.room).1 in
      let t'' = record t' { threadsinfo = st_delete ended t'.threadsinfo } in
      (
        record s {
          tracer = record s.tracer { thread_table = t'' };
          sink_data = r.1;
          context = r.2;
        },
        rw sent,
        threads-Sound s t'' r.1 r.2 v (delete-SoundTable t' ended w) kept fit,
      )
