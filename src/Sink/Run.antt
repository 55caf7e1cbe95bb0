-- ===== src/Sink/Run.antt =====
-- A whole run of the batched sink (ext/raygun/raygun_tracer.c) against its specification.
use raygun_apm_ruby.Base.{
  ℕ, ◌+◌, ◌≤◌, ◌<◌, ◌≡◌, refl, sym, ap, ◌∙◌, arith, List, [], ◌∷◌, ◌++◌, Option, none, some, inl,
}
use raygun_apm_ruby.Base.{◌==◌, if◌then◌else◌, length, take, length-take, u32}
use raygun_apm_ruby.Memory.{◌>>=◌}
use raygun_apm_ruby.Protocol.{Event}
use raygun_apm_ruby.Encoder.Emit.{Context}
use raygun_apm_ruby.Sink.Bipbuf.{Bipbuf}
use raygun_apm_ruby.Sink.Batched.{SinkData, rb_rg_batched_sink}
use raygun_apm_ruby.Sink.Spec.{
  Command, Packet, batched, raw, Batching, accept, flush, flush_pending, step, run, commands_of,
  given,
}
use raygun_apm_ruby.Sink.Sends.{offer_all, Holds, Sends}
use raygun_apm_ruby.Sink.Refine.{batched_sink-Sends, batched_sink_flush-Sends}
use raygun_apm_ruby.Sink.Conserve.{FitBatch, run-conserves}

-- The sequence number that follows the batches, if theirs are consecutive from the given one.
unfoldable pub next_number : ℕ → List Packet → Option ℕ
next_number n [] = some n
next_number n (batched k cs ∷ ps) =
    let after = next_number (u32 (n + 1)) ps in if k == n then after else none
next_number n (raw c ∷ ps) = next_number n ps

-- What the packets and the state after a call keep.
pub record Keeps (s : Batching) (out : Batching × List Packet) : Type 0 where
  pub numbers : next_number s.sequence out.1 ≡ some out.0.sequence
  pub pid : out.0.pid ≡ s.pid

accept-Keeps : (s : Batching) (c : Command) → Keeps s (accept s c)
unfolding accept next_number
accept-Keeps s c = record { numbers = ground arith; pid = ground arith }

flush_pending-Keeps : (s : Batching) (cs : List Command) → Keeps s (flush_pending s cs)
unfolding flush_pending next_number
flush_pending-Keeps s [] = record { numbers = refl; pid = refl }
flush_pending-Keeps s (c ∷ cs) = record { numbers = ground arith; pid = refl }

step-Keeps : (s : Batching) (o : Option Command) → Keeps s (step s o)
unfolding step flush
step-Keeps s (some c) = accept-Keeps s c
step-Keeps s none = flush_pending-Keeps s s.pending

pub next_number-append :
    (ps qs : List Packet) (n k : ℕ)
    → next_number n ps ≡ some k
    → next_number n (ps ++ qs) ≡ next_number k qs
unfolding next_number
next_number-append [] qs n k h = ground (arith, h)
next_number-append (batched j cs ∷ ps) qs n k h =
    ground (arith, h, next_number-append ps qs (u32 (n + 1)) k)
next_number-append (raw c ∷ ps) qs n k h = next_number-append ps qs n k h

pub run-Keeps : (s : Batching) (os : List (Option Command)) → Keeps s (run s os)
unfolding run next_number
run-Keeps s [] = record { numbers = refl; pid = refl }
run-Keeps s (o ∷ os) =
    let here = step-Keeps s o in
    let (s', ps) = step s o in
    let rest = run-Keeps s' os in
    record {
      numbers = next_number-append ps _ s.sequence s'.sequence here.numbers ∙ rest.numbers;
      pid = rest.pid ∙ here.pid;
    }

-- One call of the sink: an encoder's with its event, or the timer thread's, which has none.
pub data SinkCall : Type 0 where
  emitted : Context → Event → ℕ → SinkCall
  timed : Context → ℕ → SinkCall

abbrev pub commands : List SinkCall → List (Option Command)
commands [] = []
commands (emitted ctx e n ∷ cs) = some (take n ctx.buf) ∷ commands cs
commands (timed ctx n ∷ cs) = none ∷ commands cs

-- Every command is not empty, lies in the scratch buffer, and fits a batch buffer behind the header.
abbrev pub AllFit : List SinkCall → Type 0
AllFit [] = Unit
AllFit (emitted ctx e n ∷ cs) = (0 < n) × (n ≤ length ctx.buf) × (n < 4084) × AllFit cs
AllFit (timed ctx n ∷ cs) = AllFit cs

pub FitBatch-commands : (cs : List SinkCall) → AllFit cs → FitBatch (commands cs)
FitBatch-commands [] h = tt
FitBatch-commands (emitted ctx e n ∷ cs) (pos, fits, small, rest) =
    (omega (arith, length-take n ctx.buf), FitBatch-commands cs rest)
FitBatch-commands (timed ctx n ∷ cs) h = FitBatch-commands cs h

module _ (bip : Bipbuf) where
  open bip use {Buf}

  unfoldable pub call_sink : SinkData Buf → SinkCall → Option (ℕ × SinkData Buf)
  call_sink d (emitted ctx e n) = rb_rg_batched_sink bip ctx d (some e) n
  call_sink d (timed ctx n) = rb_rg_batched_sink bip ctx d none n

  unfoldable pub run_sink : SinkData Buf → List SinkCall → Option (SinkData Buf)
  run_sink d [] = some d
  run_sink d (c ∷ cs) = call_sink d c >>= λ r. run_sink r.1 cs

  offer_all-append :
      (pid : ℕ) (ps qs : List Packet) (q : Buf)
      → offer_all bip pid (ps ++ qs) q ≡ offer_all bip pid qs (offer_all bip pid ps q)
  offer_all-append pid [] qs q = refl
  offer_all-append pid (p ∷ ps) qs q = offer_all-append pid ps qs _

  -- What is left after the run: the packets of the specification in the ring buffer.
  pub record Runs (s : Batching) (d : SinkData Buf) (cs : List SinkCall) : Type 0 where
    pub after : SinkData Buf
    pub returns : run_sink d cs ≡ some after
    pub holds : Holds bip (run s (commands cs)).0 after
    pub offered : after.ringbuf ≡ offer_all bip s.pid (run s (commands cs)).1 d.ringbuf

  run-cons :
      (s : Batching) (d : SinkData Buf) (c : SinkCall) (cs : List SinkCall) (o : Option Command)
      (call : Sends bip d.ringbuf (step s o).1 (step s o).0 (call_sink d c))
      → commands (c ∷ cs) ≡ o ∷ commands cs
      → Runs (step s o).0 call.after cs
      → Runs s d (c ∷ cs)
  unfolding run_sink run
  run-cons s d c cs o call e r =
      let (s', ps) = step s o in
      let pid = (step-Keeps s o).pid in
      record {
        after = r.after;
        returns = rw call.returns r.returns;
        holds = rw e r.holds;
        offered = rw e (
            r.offered
            ∙ ap (offer_all bip s'.pid (run s' (commands cs)).1) call.offered
            ∙ sym (offer_all-append s'.pid ps (run s' (commands cs)).1 d.ringbuf)
            ∙ ap (λ p. offer_all bip p (ps ++ (run s' (commands cs)).1) d.ringbuf) pid);
      }

  pub run_sink-Runs :
      (cs : List SinkCall) (s : Batching) (d : SinkData Buf)
      → Holds bip s d
      → AllFit cs
      → Runs s d cs
  unfolding run_sink run call_sink
  run_sink-Runs [] s d h fits = record { after = d; returns = refl; holds = h; offered = refl }
  run_sink-Runs (emitted ctx e n ∷ cs) s d h (pos, fits, small, rest) =
      let call = batched_sink-Sends bip ctx s d e n h pos fits (omega arith) (inl small) in
      run-cons s d (emitted ctx e n) cs (some (take n ctx.buf)) call refl
        (run_sink-Runs cs _ call.after call.holds rest)
  run_sink-Runs (timed ctx n ∷ cs) s d h rest =
      let call = batched_sink_flush-Sends bip ctx s d n h in
      run-cons s d (timed ctx n) cs none call refl (run_sink-Runs cs _ call.after call.holds rest)

  -- Over any calls of the sink, flushes in between, whose commands are shorter than 4084 bytes: all
  -- return; what has been offered to the ring buffer are packets under consecutive sequence
  -- numbers; and their commands, with those that are then pending, are exactly those that were
  -- pending and those given, in order.
  pub run_sink-conserves :
      (s : Batching) (d : SinkData Buf) (cs : List SinkCall)
      → Holds bip s d
      → AllFit cs
      → (s' : Batching) × (ps : List Packet) × (after : SinkData Buf) × (run_sink d cs ≡ some after)
        × Holds bip s' after
        × (after.ringbuf ≡ offer_all bip s.pid ps d.ringbuf)
        × (next_number s.sequence ps ≡ some s'.sequence)
        × (commands_of ps ++ s'.pending ≡ s.pending ++ given (commands cs))
  run_sink-conserves s d cs h fits =
      let r = run_sink-Runs cs s d h fits in
      let (s', ps) = run s (commands cs) in
      (
        s',
        ps,
        r.after,
        r.returns,
        r.holds,
        r.offered,
        (run-Keeps s (commands cs)).numbers,
        run-conserves s (commands cs) (FitBatch-commands cs fits),
      )
