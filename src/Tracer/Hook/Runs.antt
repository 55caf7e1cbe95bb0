-- ===== src/Tracer/Hook/Runs.antt =====
-- A whole run of calls and returns through `rb_rg_tracing_hook_i` (ext/raygun/raygun_tracer.c): the sink
-- is handed well-nested BEGIN and END commands.
use raygun_apm_ruby.Base.{ℕ, ◌≡◌, refl, sym, ap, ◌∙◌, Option, none, some, ◌++◌, List}
use mathlib.Core.Path.{subst}
use mathlib.Core.List.{append_assoc, append-nil}
use raygun_apm_ruby.Memory.{◌>>=◌}
use raygun_apm_ruby.Protocol.{Thread}
use raygun_apm_ruby.Tracer.Frames.{call_method, return_method, level}
use raygun_apm_ruby.Tracer.Frames.Pair.{Consistent, SameDepth}
use raygun_apm_ruby.Tracer.Frames.Balance.{
  Signal, begun, ended, report, run_calls, Fits, close, run_calls-balanced,
}
use raygun_apm_ruby.Tracer.Filters.{Rax}
use raygun_apm_ruby.Tracer.Hook.{Ruby, Running, State, load_thread}
use raygun_apm_ruby.Tracer.Hook.Steps.{
  Program, stop, invoke, calls_of, AreKnown, run_program, Same-trans, Same-AreKnown, Traces, Steps,
  some-injective, call-Steps, return-Steps,
}

bind_inversion :
    {A B : Type 0} (o : Option A) (f : A → Option B) (b : B)
    → (o >>= f) ≡ some b
    → (a : A) × (o ≡ some a) × (f a ≡ some b)
bind_inversion none f b h = cc
bind_inversion (some a) f b h = (a, refl, h)

module _ {rax : Rax} (ruby : Ruby) (now : ℕ) (running : Running) where
  Steps-trans :
      (a b c : State rax (List Signal)) (th th' : Thread) (xs ys : List Signal)
      → Steps ruby running th xs a b
      → Steps ruby running th' ys b c
      → Steps ruby running th' (xs ++ ys) a c
  Steps-trans a b c th th' xs ys p q = record {
    traces = q.traces;
    same = Same-trans ruby a b c p.same q.same;
    reported = q.reported ∙ ap (λ u. u ++ ys) p.reported ∙ append_assoc a.sink_data xs ys;
  }

  run_program-Steps :
      (p : Program) (s : State rax (List Signal)) (th : Thread) (out : Thread × List Signal)
      → Traces ruby running th s
      → AreKnown ruby s p
      → run_calls (calls_of p) th ≡ some out
      → (s' : State rax (List Signal)) × (run_program ruby now running p s ≡ some s')
        × Steps ruby running out.0 out.1 s s'
  unfolding run_program calls_of run_calls AreKnown
  run_program-Steps stop s th out t k ran =
      subst
        (λ (o : Thread × List Signal).
          (s' : State rax (List Signal)) × (run_program ruby now running stop s ≡ some s')
          × Steps ruby running o.0 o.1 s s')
        (some-injective ran)
        (
          s,
          refl,
          record {
            traces = t;
            same = record {
              entries = λ a. refl;
              sink_thread = refl;
              timer_thread = refl;
              traced = refl;
            };
            reported = sym (append-nil s.sink_data);
          },
        )
  run_program-Steps (invoke tparg m body rest) s th out t (found, other, inside, after) ran =
      let (entered, call, ran₁) = bind_inversion (call_method m th) _ out ran in
      let (within, ran_body, ran₂) =
        bind_inversion (run_calls (calls_of body) entered.0) _ out ran₁ in
      let (left, return, ran₃) = bind_inversion (return_method m within.0) _ out ran₂ in
      let (later, ran_rest, ran₄) = bind_inversion (run_calls (calls_of rest) left.0) _ out ran₃ in
      let (s₁, called, st₁) = call-Steps ruby now running s tparg m th entered t found other call in
      let (s₂, body_done, st₂) =
        run_program-Steps body s₁ entered.0 within st₁.traces
          (Same-AreKnown ruby s s₁ body st₁.same inside) ran_body in
      let to₂ = Same-trans ruby s s₁ s₂ st₁.same st₂.same in
      let (s₃, returned, st₃) =
        return-Steps ruby now running s₂ tparg m within.0 left st₂.traces
          (to₂.entries tparg ∙ found) other return in
      let to₃ = Same-trans ruby s s₂ s₃ to₂ st₃.same in
      let (s₄, rest_done, st₄) =
        run_program-Steps rest s₃ left.0 later st₃.traces (Same-AreKnown ruby s s₃ rest to₃ after)
          ran_rest in
      (
        s₄,
        rw called (rw body_done (rw returned rest_done)),
        subst (λ (o : Thread × List Signal). Steps ruby running o.0 o.1 s s₄) (some-injective ran₄)
            (Steps-trans s s₃ s₄ left.0 later.0 _ later.1
              (Steps-trans s s₂ s₃ within.0 left.0 _ (report left.1 (ended m.function_id))
                (Steps-trans s s₁ s₂ entered.0 within.0 (report entered.1 (begun m.function_id))
                  within.1 st₁ st₂)
                st₃)
              st₄),
      )

  -- On the thread of the trace, every run of calls and returns of methods that are in the table and
  -- not the profiler's own, whose frames are all counted, and that calls no synchronization method from
  -- the first level of library code, goes through the hook to its end; the sink is handed BEGIN and
  -- END commands that are well nested, with nothing left open, and the shadow thread has the depths that
  -- it had.
  pub run_program-balanced :
      (p : Program) (s : State rax (List Signal)) (th : Thread) (frames : List ℕ)
      → Traces ruby running th s
      → AreKnown ruby s p
      → Consistent th
      → Fits th.vm_top (level th) (calls_of p)
      → (s' : State rax (List Signal)) × (sent : List Signal) × (th' : Thread) × (run_program ruby
            now running p s
          ≡ some s')
        × (s'.sink_data ≡ s.sink_data ++ sent)
        × (close frames sent ≡ some frames)
        × (load_thread s' running.thread ≡ some th')
        × SameDepth th th'
  run_program-balanced p s th frames t known c fits =
      let (out, ran, closed, depth) = run_calls-balanced (calls_of p) th frames c fits in
      let (s', done, steps) = run_program-Steps p s th out t known ran in
      (s', out.1, out.0, done, steps.reported, closed, steps.traces.loaded, depth)
