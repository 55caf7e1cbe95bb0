-- ===== src/Tracer/Frames/Balance.antt =====
-- A whole run of calls and returns on one thread (ext/raygun/raygun_tracer.c, `rb_rg_tracing_hook_i`):
-- what the shadow stack is afterwards, and which BEGIN and END commands were emitted.
use raygun_apm_ruby.Base.{
  ℕ, ◌≡◌, refl, sym, ◌∙◌, arith, Bool, Option, none, some, ℤ, pos, ◌<ℤ◌, suc_ℤ, if◌then◌else◌,
  Bool-cases, inl, inr, List, [], ◌∷◌, ◌++◌, ◌==◌,
}
use mathlib.Core.List.{append-nil, append_assoc}
use raygun_apm_ruby.Memory.{◌>>=◌}
use raygun_apm_ruby.Protocol.{Thread, Method}
use raygun_apm_ruby.Tracer.Frames.{call_method, return_method, level}
use raygun_apm_ruby.Tracer.Frames.Pair.{
  Consistent, SameDepth, inner_level, is_traced, call_method-Entered,
}
use raygun_apm_ruby.Tracer.Frames.Return.{Agrees, return_method-Left}

-- What a stretch of the program does: nothing more, or a call, what the method does and what follows.
pub data Calls : Type 0 where
  finished : Calls
  called : Method → Calls → Calls → Calls

pub data Signal : Type 0 where
  begun : ℕ → Signal
  ended : ℕ → Signal

abbrev pub report : Bool → Signal → List Signal
report b s = if b then s ∷ [] else []

-- The hook is called for each call and each return.
unfoldable pub run_calls : Calls → Thread → Option (Thread × List Signal)
run_calls finished th = some (th, [])
run_calls (called m body rest) th = do
  (entered, begins) ← call_method m th
  (inside, within) ← run_calls body entered
  (left, ends) ← return_method m inside
  (after, later) ← run_calls rest left
  some (
    after,
    report begins (begun m.function_id) ++ within ++ report ends (ended m.function_id) ++ later,
  )

-- The calls that are traced, by the depth into library code alone.
unfoldable pub signals : ℤ → Calls → List Signal
signals l finished = []
signals l (called m body rest) =
    report (is_traced m l) (begun m.function_id)
    ++ signals (inner_level m l) body
    ++ report (is_traced m l) (ended m.function_id)
    ++ signals l rest

-- The conditions: no call with more than 255 frames of the VM counted, none of a synchronization method
-- from the first level of library code.
unfoldable pub Fits : ℤ → ℤ → Calls → Type 0
Fits vm l finished = Unit
Fits vm l (called m body rest) =
    (vm <ℤ pos 255) × Agrees m l × Fits (suc_ℤ vm) (inner_level m l) body × Fits vm l rest

-- Reads the commands with a stack of the functions that are open.
unfoldable pub close : List ℕ → List Signal → Option (List ℕ)
close frames [] = some frames
close frames (begun f ∷ rest) = close (f ∷ frames) rest
close [] (ended f ∷ rest) = none
close (g ∷ frames) (ended f ∷ rest) =
    let closed = close frames rest in if f == g then closed else none

SameDepth-trans : (a b c : Thread) → SameDepth a b → SameDepth b c → SameDepth a c
SameDepth-trans a b c d e = record {
  shadow_top = d.shadow_top ∙ e.shadow_top;
  vm_top = d.vm_top ∙ e.vm_top;
  same_level = d.same_level ∙ e.same_level;
}

run_called :
    (m : Method) (body rest : Calls) (th : Thread) (entered left : Thread × Bool)
    (inside after : Thread × List Signal)
    → call_method m th ≡ some entered
    → run_calls body entered.0 ≡ some inside
    → return_method m inside.0 ≡ some left
    → run_calls rest left.0 ≡ some after
    → run_calls (called m body rest) th
      ≡ some (
        after.0,
        report entered.1 (begun m.function_id)
            ++ inside.1
            ++ report left.1 (ended m.function_id)
            ++ after.1,
      )
unfolding run_calls
run_called m body rest th entered left inside after c r l a = rw c (rw r (rw l (rw a)))

pub run_calls-signals :
    (calls : Calls) (th : Thread)
    → Consistent th
    → Fits th.vm_top (level th) calls
    → (out : Thread × List Signal) × (run_calls calls th ≡ some out)
      × (out.1 ≡ signals (level th) calls)
      × SameDepth th out.0
      × Consistent out.0
unfolding run_calls signals Fits
run_calls-signals finished th c fits =
    ((th, []), refl, refl, record { shadow_top = refl; vm_top = refl; same_level = refl }, c)
run_calls-signals (called m body rest) th c (deep, agrees, fits_body, fits_rest) =
    let (entered, call, e) = call_method-Entered m th c deep in
    let (inside, ran, sigs, d, ci) =
      run_calls-signals body entered.0 e.consistent (rw e.vm (rw e.inner fits_body)) in
    let (left, return, l) = return_method-Left m th inside.0 entered c deep agrees e ci d in
    let (after, ran_rest, sigs_rest, d_rest, ca) =
      run_calls-signals rest left.0 l.consistent
        (rw (sym l.depth.vm_top) (rw (sym l.depth.same_level) fits_rest)) in
    (
      (
        after.0,
        report entered.1 (begun m.function_id)
            ++ inside.1
            ++ report left.1 (ended m.function_id)
            ++ after.1,
      ),
      run_called m body rest th entered left inside after call ran return ran_rest,
      rw l.same
          (rw e.reported (rw sigs (rw e.inner (rw sigs_rest (rw (sym l.depth.same_level) refl))))),
      SameDepth-trans th left.0 after.0 l.depth d_rest,
      ca,
    )

close-signals :
    (calls : Calls) (l : ℤ) (frames : List ℕ) (later : List Signal)
    → close frames (signals l calls ++ later) ≡ close frames later
unfolding signals close
close-signals finished l frames later = refl
close-signals (called m body rest) l frames later =
    let inside = close-signals body (inner_level m l) in
    let after = close-signals rest l in
    elim (Bool-cases (is_traced m l)) [
      | inl traced ↦ rw traced (
          simp append_assoc
            (inside (m.function_id ∷ frames) _ ∙ ground (arith, after frames later)))
      | inr untraced ↦ rw untraced (simp append_assoc (inside frames _ ∙ after frames later))
    ]

-- Every run of calls whose frames are all counted, and that calls no synchronization method from
-- the first level of library code, emits BEGIN and END commands that are well nested: the END of a
-- function closes the last BEGIN that is open, and none is left open. The shadow stack, the count of
-- the VM's frames and the depth into library code are what they were.
pub run_calls-balanced :
    (calls : Calls) (th : Thread) (frames : List ℕ)
    → Consistent th
    → Fits th.vm_top (level th) calls
    → (out : Thread × List Signal) × (run_calls calls th ≡ some out)
      × (close frames out.1 ≡ some frames)
      × SameDepth th out.0
unfolding close
run_calls-balanced calls th frames c fits =
    let (out, ran, sigs, d, _) = run_calls-signals calls th c fits in
    (
      out,
      ran,
      rw sigs (
          rw (sym (append-nil (signals (level th) calls)))
            (close-signals calls (level th) frames [])),
      d,
    )
