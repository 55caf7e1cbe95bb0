-- ===== src/Tracer/Threads/Lifecycle.antt =====
-- A thread from its start to its end (ext/raygun/raygun_tracer.c).
use raygun_apm_ruby.Base.{ℕ, ◌+◌, ◌≡◌, refl, ap, ◌∙◌, arith, none, some, length, length-replicate}
use raygun_apm_ruby.Memory.{◌>>=◌}
use raygun_apm_ruby.Protocol.{Thread, thread_ended, scratch_buffer_size}
use raygun_apm_ruby.Encoder.Wire.{body_bytes}
use raygun_apm_ruby.Encoder.Emit.{Context, Sink, hand_over, rg_thread_ended}
use raygun_apm_ruby.Encoder.Emit.Delivery.{delivered, encoded, threads-Deliver}
use raygun_apm_ruby.Tracer.Table.{st_lookup, st_delete, lookup-delete_self}
use raygun_apm_ruby.Tracer.Frames.Pair.{Consistent}
use raygun_apm_ruby.Tracer.Threads.{ThreadTable, new_thread, rb_rg_thread, rb_rg_thread_ended}
use raygun_apm_ruby.Tracer.Threads.Numbered.{IsNumbered, delete-IsNumbered}

pub new_thread-Consistent : (tid parent : ℕ) → Consistent (new_thread tid parent)
unfolding new_thread
new_thread-Consistent tid parent = record {
  thread = record {
    stack = length-replicate {A = ℕ} 256 0;
    above = omega arith;
    below = omega arith;
  };
  shadow_le_vm = omega arith;
  level_nonneg = omega arith;
  level_framed = λ h. absurd (omega (arith, h));
}

known_thread :
    (t : ThreadTable) (thread : ℕ) (th : Thread)
    → st_lookup thread t.threadsinfo ≡ some th
    → rb_rg_thread t thread ≡ (th, t)
unfolding rb_rg_thread
known_thread t thread th h = rw (rb_rg_thread, h)

module _ {U : Type 0} (sink : Sink U) (ctx : Context) (u : U) (now : ℕ) (t : ThreadTable) where
  -- A thread that is known and ends is not found any more, the other threads keep ids of their own,
  -- the counter of ids stays, and the sink is handed the announcement under the thread's id.
  pub thread_ended-forgets :
      (thread : ℕ) (th : Thread)
      → IsNumbered t
      → st_lookup thread t.threadsinfo ≡ some th
      → length ctx.buf ≡ scratch_buffer_size
      → (t' : ThreadTable) × (rb_rg_thread_ended sink ctx u now t thread ≡ (
          hand_over sink u
            (encoded ctx now th.tid thread_ended)
            (delivered ctx now th.tid thread_ended)
            (19 + length (body_bytes thread_ended))
          >>= λ r. some (t', r.1, r.2)))
        × IsNumbered t'
        × (st_lookup thread t'.threadsinfo ≡ none)
        × (t'.threads ≡ t.threads)
  unfolding rb_rg_thread_ended rb_rg_thread
  thread_ended-forgets thread th v known room = (
    record t { threadsinfo = st_delete thread t.threadsinfo },
    ap
          (λ p. rg_thread_ended sink ctx u now p.0.tid >>= λ r.
            some (record p.1 { threadsinfo = st_delete thread p.1.threadsinfo }, r.1, r.2))
          (known_thread t thread th known)
        ∙ ap
            (λ o.
              o >>= λ r. some (record t { threadsinfo = st_delete thread t.threadsinfo }, r.1, r.2))
            (threads-Deliver sink ctx u now th room).1,
    delete-IsNumbered t thread v,
    lookup-delete_self thread t.threadsinfo,
    refl,
  )
