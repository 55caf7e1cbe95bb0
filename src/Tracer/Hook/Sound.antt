-- ===== src/Tracer/Hook/Sound.antt =====
-- Every event that the hook is called for is handled without an access outside of an array
-- (ext/raygun/raygun_tracer.c, `rb_rg_tracing_hook_i`).
use raygun_apm_ruby.Base.{
  ℕ, ◌+◌, ◌≤◌, ◌<◌, ◌≡◌, sym, ◌∙◌, arith, Option, some, List, length, take, ◌⊎◌, inl, inr,
}
use mathlib.Core.Path.{subst}
use raygun_apm_ruby.Memory.Laws.{length-overwrite}
use raygun_apm_ruby.Protocol.{Thread, Event, EventData, scratch_buffer_size}
use raygun_apm_ruby.Encoder.Wire.{command_bytes, body_bytes}
use raygun_apm_ruby.Encoder.Emit.{Context, Sink, hand_over}
use raygun_apm_ruby.Encoder.Emit.Delivery.{delivered, encoded, Delivers}
use raygun_apm_ruby.Tracer.Table.{st_lookup, st_insert, lookup-insert}
use raygun_apm_ruby.Tracer.Threads.{ThreadTable}
use raygun_apm_ruby.Tracer.Threads.Numbered.{IsNumbered}
use raygun_apm_ruby.Tracer.Frames.Laws.{IsThread}
use raygun_apm_ruby.Tracer.Filters.{Rax}
use raygun_apm_ruby.Tracer.Methods.Discovery.{IsCounted}
use raygun_apm_ruby.Tracer.Methods.{MethodName}
use raygun_apm_ruby.Event.Slots.{ascii}
use raygun_apm_ruby.Tracer.Hook.{Ruby, State, store_thread, load_thread, emitted}

-- The sizes of commands that the batched sink takes: all but 4084 to 4093 bytes.
abbrev pub Passes : ℕ → Type 0
Passes n = (n < 4084) ⊎ (4094 ≤ n)

-- In every state that is `Fit`, the sink answers for a command of such a size, and is in such a state again.
abbrev pub Answers : {U : Type 0} → Sink U → (U → Type 0) → Type 0
Answers {U} sink Fit =
    (ctx : Context) (u : U) (e : Event) (n : ℕ)
    → Fit u
    → length ctx.buf ≡ scratch_buffer_size
    → 0 < n
    → n < 32768
    → Passes n
    → (r : ℕ × U) × (sink ctx u (some e) n ≡ some r) × Fit r.1

-- How many bytes the announcements of a discovered method and of an exception have.
abbrev pub methodinfo_size : Ruby → MethodName → ℕ
methodinfo_size ruby n =
    28
    + length (take 4096 (ruby.rb_str_encode ascii n.class_name))
    + length (take 4096 (ruby.rb_str_encode ascii n.method_name))

abbrev pub exception_size : Ruby → List ℕ → List ℕ → ℕ
exception_size ruby class_name correlation_id =
    31
    + length (take 4096 (ruby.rb_str_encode ascii class_name))
    + length (take 4096 (ruby.rb_str_encode ascii correlation_id))

-- A shadow thread in the table has its stack within its bounds and its own id; a method has its own id;
-- the scratch buffer has its declared size, and the sink is in a state that is fit.
pub record Sound {rax : Rax} {U : Type 0} (Fit : U → Type 0) (s : State rax U) : Type 0 where
  pub fit : Fit s.sink_data
  pub room : length s.context.buf ≡ scratch_buffer_size
  pub numbered : IsNumbered s.tracer.thread_table
  pub stacks : (k : ℕ) (th : Thread) → load_thread s k ≡ some th → IsThread th
  pub counted : IsCounted rax s.tracer.method_table

-- An emission hands a command over and leaves a scratch buffer of the same size.
pub Delivers-some :
    {U : Type 0} (sink : Sink U) {Fit : U → Type 0} (ctx : Context) (u : U) (now tid : ℕ)
    (d : EventData) (o : Option (ℕ × U × Context))
    → Answers sink Fit
    → Fit u
    → length ctx.buf ≡ scratch_buffer_size
    → length (body_bytes d) ≤ 16404
    → Passes (19 + length (body_bytes d))
    → Delivers ctx now tid d sink u o
    → (r : ℕ × U × Context) × (o ≡ some r) × (length r.2.buf ≡ length ctx.buf) × Fit r.1
unfolding hand_over
Delivers-some sink ctx u now tid d o answers fit room bounded passes delivers =
    let e = delivered ctx now tid d in
    let kept = length-overwrite ctx.buf 0 (command_bytes e) in
    let (r, answer, fit') =
      answers (encoded ctx now tid d) u e (19 + length (body_bytes d)) fit (kept ∙ room)
        (omega arith) (omega (arith, bounded)) passes in
    ((r.0, r.1, encoded ctx now tid d), delivers ∙ rw (hand_over, answer), kept, fit')

-- A shadow thread that is written back under its id.
pub store-IsNumbered :
    (t : ThreadTable) (thread : ℕ) (th₀ th : Thread)
    → IsNumbered t
    → st_lookup thread t.threadsinfo ≡ some th₀
    → th.tid ≡ th₀.tid
    → IsNumbered (record t { threadsinfo = st_insert thread th t.threadsinfo })
store-IsNumbered t thread th₀ th v known same = record {
  counted = λ k b h. elim (lookup-insert k thread th b t.threadsinfo h) [
    | inl (e, eq) ↦ ground (arith, eq, same, v.counted thread th₀ known)
    | inr (ne, old) ↦ v.counted k b old
  ];
  distinct = λ j k a b h h' e. elim (lookup-insert j thread th a t.threadsinfo h) [
    | inl (p, q) ↦ elim (lookup-insert k thread th b t.threadsinfo h') [
      | inl (p', q') ↦ omega (arith, p, p')
      | inr (ne, old) ↦ p ∙ v.distinct thread k th₀ b known old (ground (arith, e, q, same))
    ]
    | inr (ne, old) ↦ elim (lookup-insert k thread th b t.threadsinfo h') [
      | inl (p', q') ↦ v.distinct j thread a th₀ old known (ground (arith, e, q', same)) ∙ sym p'
      | inr (ne', old') ↦ v.distinct j k a b old old' e
    ]
  ];
}

module _ {rax : Rax} {U : Type 0} {Fit : U → Type 0} (s : State rax U) where
  pub store_thread-Sound :
      (thread : ℕ) (th₀ th : Thread)
      → Sound Fit s
      → load_thread s thread ≡ some th₀
      → IsThread th
      → th.tid ≡ th₀.tid
      → Sound Fit (store_thread s thread th)
  store_thread-Sound thread th₀ th v known stack same = record {
    fit = v.fit;
    room = v.room;
    numbered = store-IsNumbered s.tracer.thread_table thread th₀ th v.numbered known same;
    stacks = λ k b h. elim (lookup-insert k thread th b s.tracer.thread_table.threadsinfo h) [
      | inl (e, eq) ↦ subst IsThread eq stack
      | inr (ne, old) ↦ v.stacks k b old
    ];
    counted = v.counted;
  }

  pub emitted-Sound :
      (r : ℕ × U × Context)
      → Sound Fit s
      → length r.2.buf ≡ length s.context.buf
      → Fit r.1
      → Sound Fit (emitted s r)
  emitted-Sound r v same fit = record {
    fit = fit;
    room = same ∙ v.room;
    numbered = v.numbered;
    stacks = v.stacks;
    counted = v.counted;
  }
