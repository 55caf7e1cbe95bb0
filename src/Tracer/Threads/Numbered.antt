-- ===== src/Tracer/Threads/Numbered.antt =====
-- No two threads have the same id, and ids are never used again (ext/raygun/raygun_tracer.c).
use raygun_apm_ruby.Base.{ℕ, ◌+◌, ◌≤◌, ◌<◌, ◌≡◌, arith, some, u32, inl, inr}
use raygun_apm_ruby.Protocol.{Thread}
use raygun_apm_ruby.Tracer.Table.{
  st_lookup, st_delete, lookup-insert_self, lookup-insert, lookup-delete,
}
use raygun_apm_ruby.Tracer.Threads.{ThreadTable, new_thread, register_thread}

-- Every id was counted, and each thread has its own.
pub record IsNumbered (t : ThreadTable) : Type 0 where
  pub counted :
      (k : ℕ) (th : Thread)
      → st_lookup k t.threadsinfo ≡ some th
      → (1 ≤ th.tid) × (th.tid ≤ t.threads)
  pub distinct :
      (j k : ℕ) (a b : Thread)
      → st_lookup j t.threadsinfo ≡ some a
      → st_lookup k t.threadsinfo ≡ some b
      → a.tid ≡ b.tid
      → j ≡ k

-- What registering a thread makes: a thread under the next id, found from then on, and no other.
pub register_thread-IsNumbered :
    (t : ThreadTable) (thread parent : ℕ)
    → IsNumbered t
    → t.threads + 1 < 4294967296
    → let (th, t') = register_thread t thread parent in
      IsNumbered t'
      × (st_lookup thread t'.threadsinfo ≡ some th)
      × (th.tid ≡ t.threads + 1)
      × (t'.threads ≡ t.threads + 1)
unfolding register_thread new_thread
register_thread-IsNumbered t thread parent v small =
    let th = new_thread (u32 (t.threads + 1)) parent in
    let found = lookup-insert_self thread th t.threadsinfo in
    (
      record {
        counted = λ k b h. elim (lookup-insert k thread th b t.threadsinfo h) [
          | inl (e, same) ↦ ground (arith, same, small)
          | inr (ne, old) ↦ ground (arith, v.counted k b old, small)
        ];
        distinct = λ j k a b h h' e. elim (lookup-insert j thread th a t.threadsinfo h) [
          | inl (p, q) ↦ elim (lookup-insert k thread th b t.threadsinfo h') [
            | inl (p', q') ↦ omega (arith, p, p')
            | inr (ne, old) ↦ absurd (ground (arith, e, q, v.counted k b old, small))
          ]
          | inr (ne, old) ↦ elim (lookup-insert k thread th b t.threadsinfo h') [
            | inl (p', q') ↦ absurd (ground (arith, e, q', v.counted j a old, small))
            | inr (ne', old') ↦ v.distinct j k a b old old' e
          ]
        ];
      },
      found,
      omega (arith, small),
      omega (arith, small),
    )

pub delete-IsNumbered :
    (t : ThreadTable) (thread : ℕ)
    → IsNumbered t
    → IsNumbered (record t { threadsinfo = st_delete thread t.threadsinfo })
delete-IsNumbered t thread v = record {
  counted = λ k b h. v.counted k b (lookup-delete k thread b t.threadsinfo h).1;
  distinct = λ j k a b h h' e.
      v.distinct j k a b (lookup-delete j thread a t.threadsinfo h).1
        (lookup-delete k thread b t.threadsinfo h').1 e;
}
