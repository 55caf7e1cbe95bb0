-- ===== src/Dispatch/Packets.antt =====
-- The packets of the batched sink (ext/raygun/raygun_tracer.c) as messages of the dispatchers: each begins
-- with its own length.
use raygun_apm_ruby.Base.{
  ℕ, ◌+◌, ◌≤◌, ◌<◌, ◌≡◌, refl, arith, List, [], ◌∷◌, ◌++◌, Option, none, some, length,
  length-append, leb, leb→le, Bool-cases, inl, inr, sym, ap,
}
use mathlib.Core.Path.{subst}
use mathlib.Core.List.{append-nil}
use raygun_apm_ruby.Sink.Represents.{flat-snoc}
use raygun_apm_ruby.Sink.Spec.{
  accept_within, accept_next, accept_oversized, Command, Packet, batched, Batching, packet_bytes,
  flat, accept, flush, flush_pending, step, run,
}
use raygun_apm_ruby.Dispatch.Drain.{OwnLength, AllOwnLength}

abbrev pub all_bytes : ℕ → List Packet → List (List ℕ)
all_bytes pid [] = []
all_bytes pid (p ∷ ps) = packet_bytes pid p ∷ all_bytes pid ps

batched-OwnLength :
    (pid k : ℕ) (cs : List Command)
    → length (flat cs) ≤ 4083
    → OwnLength (packet_bytes pid (batched k cs))
unfolding packet_bytes
batched-OwnLength pid k cs small = record {
  not_short = omega arith;
  signed = omega (arith, small);
  announced = omega (arith, small);
}

-- Every command fits a batch buffer.
abbrev pub AllShort : List (Option Command) → Type 0
AllShort [] = Unit
AllShort (some c ∷ os) = (length c < 4084) × AllShort os
AllShort (none ∷ os) = AllShort os

-- The packets of a step, and what is pending after it.
record Sized (pid : ℕ) (out : Batching × List Packet) : Type 0 where
  own : AllOwnLength (all_bytes pid out.1)
  within : length (flat out.0.pending) ≤ 1387

accept-Sized :
    (pid : ℕ) (s : Batching) (c : Command)
    → length (flat s.pending) ≤ 1387
    → length c < 4084
    → Sized pid (accept s c)
unfolding accept flat
accept-Sized pid s c within short =
    elim (Bool-cases (leb (13 + length (flat s.pending) + length c) 1400)) [
      | inl fits ↦ subst (Sized pid) (sym (accept_within s c (leb→le _ 1400 fits))) (record {
        own = tt;
        within = omega (
          arith,
          ap length (flat-snoc s.pending c),
          length-append (flat s.pending) c,
          leb→le _ 1400 fits,
        );
      })
      | inr full ↦ elim (Bool-cases (leb (13 + length c) 1400)) [
        | inl next ↦
            subst (Sized pid) (sym (accept_next s c (ground (arith, full)) (leb→le _ 1400 next)))
              (record {
                own = (batched-OwnLength pid s.sequence s.pending (omega (arith, within)), tt);
                within = omega (arith, ap length (append-nil c), leb→le _ 1400 next);
              })
        | inr large ↦
            subst (Sized pid)
              (sym (accept_oversized s c (ground (arith, large)) (omega (arith, short))))
              (record {
                own = (
                  batched-OwnLength pid s.sequence s.pending (omega (arith, within)),
                  (
                    batched-OwnLength pid _ (c ∷ [])
                        (omega (arith, ap length (append-nil c), short)),
                    tt,
                  ),
                );
                within = omega arith;
              })
      ]
    ]

flush_pending-Sized :
    (pid : ℕ) (s : Batching) (cs : List Command)
    → s.pending ≡ cs
    → length (flat s.pending) ≤ 1387
    → Sized pid (flush_pending s cs)
unfolding flush_pending flat
flush_pending-Sized pid s [] e within = record { own = tt; within = within }
flush_pending-Sized pid s (c ∷ cs) e within = record {
  own = (batched-OwnLength pid s.sequence s.pending (omega (arith, within)), tt);
  within = omega arith;
}

step-Sized :
    (pid : ℕ) (s : Batching) (o : Option Command)
    → length (flat s.pending) ≤ 1387
    → AllShort (o ∷ [])
    → Sized pid (step s o)
unfolding step flush
step-Sized pid s (some c) within short = accept-Sized pid s c within short.0
step-Sized pid s none within short = flush_pending-Sized pid s s.pending refl within

all_bytes-append :
    (pid : ℕ) (ps qs : List Packet)
    → AllOwnLength (all_bytes pid ps)
    → AllOwnLength (all_bytes pid qs)
    → AllOwnLength (all_bytes pid (ps ++ qs))
all_bytes-append pid [] qs h k = k
all_bytes-append pid (p ∷ ps) qs (h, hs) k = (h, all_bytes-append pid ps qs hs k)

AllShort-head :
    (o : Option Command) (os : List (Option Command))
    → AllShort (o ∷ os)
    → AllShort (o ∷ []) × AllShort os
AllShort-head none os h = (tt, h)
AllShort-head (some c) os h = ((h.0, tt), h.1)

-- The packets of a run whose commands fit a batch buffer begin with their own lengths.
pub run-own :
    (pid : ℕ) (s : Batching) (os : List (Option Command))
    → length (flat s.pending) ≤ 1387
    → AllShort os
    → AllOwnLength (all_bytes pid (run s os).1)
unfolding run
run-own pid s [] within short = tt
run-own pid s (o ∷ os) within short =
    let (head, rest) = AllShort-head o os short in
    let here = step-Sized pid s o within head in
    all_bytes-append pid (step s o).1 _ here.own (run-own pid (step s o).0 os here.within rest)
