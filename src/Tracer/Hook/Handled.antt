-- ===== src/Tracer/Hook/Handled.antt =====
-- Each event of `rb_rg_tracing_hook_i` (ext/raygun/raygun_tracer.c) is handled to its end, with the
-- scratch buffer, the tables and the shadow stacks sound afterwards.
use raygun_apm_ruby.Base.{
  ℕ, ◌+◌, ◌<◌, ◌≡◌, refl, ap, ◌∙◌, arith, Option, none, some, Bool, true, false, if◌then◌else◌, ◌≤◌,
  sym, take, length-append, length-take, ◌||◌, ◌==◌, length, Bool-cases, Option-cases, inl, inr,
}
use mathlib.Core.Path.{subst}
use raygun_apm_ruby.Event.Slots.{ascii}
use raygun_apm_ruby.Memory.{◌>>=◌}
use raygun_apm_ruby.Protocol.{Thread, Method, EncodedString, begin, end}
use raygun_apm_ruby.Protocol.Valid.{IsVariable}
use raygun_apm_ruby.Encoder.Emit.{Context, Sink}
use raygun_apm_ruby.Encoder.Emit.Delivery.{begin_end-Delivers}
use raygun_apm_ruby.Memory.Laws.{length-overwrite}
use raygun_apm_ruby.Encoder.Wire.{text, variable_bytes, value_bytes, command_bytes, body_bytes}
use raygun_apm_ruby.Encoder.Emit.Delivery.{delivered, encoded, methodinfo_of}
use raygun_apm_ruby.Tracer.Table.{st_lookup, lookup-insert_self}
use raygun_apm_ruby.Tracer.Frames.{enter_vm, leave_vm, shadow_full, vm_too_deep, frameless}
use raygun_apm_ruby.Tracer.Frames.Laws.{IsThread}
use raygun_apm_ruby.Tracer.Frames.Safe.{enter_method-Works, leave_method-Works}
use raygun_apm_ruby.Tracer.Filters.{Rax}
use raygun_apm_ruby.Tracer.Methods.{MethodName, is_excluded}
use raygun_apm_ruby.Tracer.Methods.Discovery.{methodinfo-discovers, methodinfo-excludes}
use raygun_apm_ruby.Tracer.Names.{TraceArg, rb_rg_fill_class_and_method, rb_rg_method_id}
use raygun_apm_ruby.Tracer.Hook.{
  Ruby, State, store_thread, load_thread, emitted, return_value, method_of_call, begin_method,
  hook_call, end_method, hook_return,
}
use raygun_apm_ruby.Tracer.Hook.Sound.{
  Passes, methodinfo_size, Answers, Sound, Delivers-some, store_thread-Sound, emitted-Sound,
}

-- The handler comes to its end, and the state is sound.
abbrev pub Handles : {rax : Rax} {U : Type 0} → (U → Type 0) → Option (State rax U) → Type 0
Handles {rax} {U} Fit o = (s' : State rax U) × (o ≡ some s') × Sound Fit s'

pub return_value-IsVariable : IsVariable return_value
return_value-IsVariable = record {
  name_in_array = omega arith;
  name_array = omega arith;
  value = tt;
}

begin_small :
    (func instance_id : ℕ)
    → length
        (body_bytes (begin (record { function_id = func; instance_id = instance_id; argc = 0 })))
      ≤ 1000
unfolding body_bytes
begin_small func instance_id = omega arith

end_small :
    (func : ℕ)
    → length (
        body_bytes (end (record { function_id = func; tail_call = 0; returnvalue = return_value })))
      ≤ 1000
unfolding body_bytes variable_bytes value_bytes
end_small func = omega arith

-- The command of a discovered method has the size that its names say, at most that of the scratch buffer.
methodinfo-size :
    (ruby : Ruby) (m : Method) (cn mn : EncodedString) (n : MethodName)
    → text cn ≡ take 4096 (ruby.rb_str_encode ascii n.class_name)
    → text mn ≡ take 4096 (ruby.rb_str_encode ascii n.method_name)
    → (19 + length (body_bytes (methodinfo_of m cn mn)) ≡ methodinfo_size ruby n)
      × (methodinfo_size ruby n < 32768)
unfolding body_bytes
methodinfo-size ruby m cn mn n c d = (
  omega (arith, ap length c, ap length d, length-append {0}),
  omega (
    arith,
    length-take 4096 (ruby.rb_str_encode ascii n.class_name),
    length-take 4096 (ruby.rb_str_encode ascii n.method_name),
  ),
)

module _ {rax : Rax} (ruby : Ruby) {U : Type 0} (sink : Sink U) (now : ℕ) {Fit : U → Type 0}
    (answers : Answers sink Fit) where
  method_of_call-some :
      (s : State rax U) (before tid : ℕ) (tparg : TraceArg)
      → Sound Fit s
      → s.tracer.method_table.methods + 1 < 4294967296
      → Passes
          (methodinfo_size ruby (rb_rg_fill_class_and_method s.tracer.builtin_translator tparg))
      → (r : Option Method × State rax U) × (method_of_call ruby sink now s before tid tparg
          ≡ some r)
        × Sound Fit r.1
        × (r.1.tracer.thread_table ≡ s.tracer.thread_table)
  unfolding method_of_call
  method_of_call-some s before tid tparg v small passes =
      let t = s.tracer in
      let method = rb_rg_method_id ruby.hashes t.environment t.builtin_translator tparg in
      let n = rb_rg_fill_class_and_method t.builtin_translator tparg in
      elim (Option-cases (st_lookup method t.method_table.filters.methodinfo)) [
        | inr (entry, found) ↦ ((entry, s), rw (method_of_call, found), v, refl)
        | inl unknown ↦ elim (Bool-cases (is_excluded rax t.method_table n)) [
          | inl excluded ↦
              (let (t', done, counted, _, _, _) =
                  methodinfo-excludes rax ruby.rb_str_encode sink s.context s.sink_data before
                    t.method_table tid method n excluded v.counted in
                (
                  (none, record s { tracer = record t { method_table = t' } }),
                  rw (method_of_call, unknown) (rw done),
                  record {
                    fit = v.fit;
                    room = v.room;
                    numbered = v.numbered;
                    stacks = v.stacks;
                    counted = counted;
                  },
                  refl,
                ))
          | inr followed ↦
              (let (m, t', cn, mn, done, counted, _, _, _, _, class_kept, method_kept) =
                  methodinfo-discovers rax ruby.rb_str_encode sink s.context s.sink_data before
                    t.method_table tid method n followed unknown v.counted small v.room in
                let d = methodinfo_of m cn mn in
                let ctx = encoded s.context before tid d in
                let e = delivered s.context before tid d in
                let kept = length-overwrite s.context.buf 0 (command_bytes e) in
                let size = methodinfo-size ruby m cn mn n class_kept method_kept in
                let (answer, answered, fit) =
                  answers ctx s.sink_data e (19 + length (body_bytes d)) v.fit (kept ∙ v.room)
                    (omega arith) (omega (arith, size.0, size.1))
                    (subst Passes (sym size.0) passes) in
                (
                  (
                    some m,
                    record s {
                      tracer = record t { method_table = t' };
                      sink_data = answer.1;
                      context = ctx;
                    },
                  ),
                  rw (method_of_call, unknown) (rw done (rw answered)),
                  record {
                    fit = fit;
                    room = kept ∙ v.room;
                    numbered = v.numbered;
                    stacks = v.stacks;
                    counted = counted;
                  },
                  refl,
                ))
        ]
      ]

  -- The end of a call and of a return: the shadow thread is written back, and a command sent or not.
  stored-Handles :
      (s : State rax U) (thread : ℕ) (th₀ th : Thread) (reports : Bool)
      (emit : Option (ℕ × U × Context))
      → Sound Fit s
      → load_thread s thread ≡ some th₀
      → IsThread th
      → th.tid ≡ th₀.tid
      → ((r : ℕ × U × Context) × (emit ≡ some r)
          × (length r.2.buf ≡ length s.context.buf)
          × Fit r.1)
      → Handles Fit (
          if reports
          then (emit >>= λ r. some (emitted (store_thread s thread th) r))
          else some (store_thread s thread th))
  stored-Handles s thread th₀ th true emit v known stack same (r, sent, kept, fit) = (
    emitted (store_thread s thread th) r,
    rw sent,
    emitted-Sound (store_thread s thread th) r
        (store_thread-Sound s thread th₀ th v known stack same) kept fit,
  )
  stored-Handles s thread th₀ th false emit v known stack same sends =
      (store_thread s thread th, refl, store_thread-Sound s thread th₀ th v known stack same)

  begin_method-Handles :
      (s : State rax U) (thread : ℕ) (th : Thread) (tparg : TraceArg) (entry : Option Method)
      → Sound Fit s
      → load_thread s thread ≡ some th
      → IsThread th
      → shadow_full th ≡ false
      → Handles Fit (begin_method ruby sink now s thread th tparg entry)
  unfolding begin_method
  begin_method-Handles s thread th tparg none v known stack counted = (s, refl, v)
  begin_method-Handles s thread th tparg (some m) v known stack counted =
      let (out, entered, kept) = enter_method-Works m th stack counted in
      let delivers =
        (begin_end-Delivers sink s.context s.sink_data now out.0.tid m.function_id tparg.self
          return_value return_value-IsVariable v.room).0 in
      rw entered (
        stored-Handles s thread th out.0 out.1 _ v known kept.thread kept.tid (
          Delivers-some sink s.context s.sink_data now out.0.tid _ _ answers v.fit v.room
            (omega (arith, begin_small m.function_id tparg.self))
            (inl (omega (arith, begin_small m.function_id tparg.self))) delivers))

  pub hook_call-Handles :
      (s : State rax U) (before thread : ℕ) (th : Thread) (tparg : TraceArg)
      → Sound Fit s
      → load_thread s thread ≡ some th
      → s.tracer.method_table.methods + 1 < 4294967296
      → Passes
          (methodinfo_size ruby (rb_rg_fill_class_and_method s.tracer.builtin_translator tparg))
      → Handles Fit (hook_call ruby sink now s before thread tparg)
  unfolding hook_call enter_vm
  hook_call-Handles s before thread th₀ tparg v known small passes =
      let th = enter_vm th₀ in
      let stack₀ = v.stacks thread th₀ known in
      let stack : IsThread th = record {
        stack = stack₀.stack;
        above = stack₀.above;
        below = stack₀.below;
      } in
      let s' = store_thread s thread th in
      let v' : Sound Fit s' = store_thread-Sound s thread th₀ th v known stack refl in
      let found : load_thread s' thread ≡ some th =
        lookup-insert_self thread th s.tracer.thread_table.threadsinfo in
      elim (Bool-cases (shadow_full th || (tparg.namespace == ruby.tracer_class))) [
        | inl ignored ↦ (s', rw (hook_call, known) (rw ignored), v')
        | inr counted ↦
            (let (r, looked_up, w, same) =
                method_of_call-some s' before th.tid tparg v' small passes in
              let (s'', done, x) =
                begin_method-Handles r.1 thread th tparg r.0 w
                  (ap (λ t. st_lookup thread t.threadsinfo) same ∙ found) stack
                  (ground (arith, counted)) in
              (s'', rw (hook_call, known) (rw counted (rw looked_up done)), x))
      ]

  end_method-Handles :
      (s : State rax U) (thread : ℕ) (th : Thread) (entry : Option Method)
      → Sound Fit s
      → load_thread s thread ≡ some th
      → IsThread th
      → frameless th ≡ false
      → Handles Fit (end_method ruby sink now s thread th entry)
  unfolding end_method
  end_method-Handles s thread th none v known stack framed = (s, refl, v)
  end_method-Handles s thread th (some m) v known stack framed =
      let (out, left, kept) = leave_method-Works m th stack framed in
      let delivers =
        (begin_end-Delivers sink s.context s.sink_data now out.0.tid m.function_id 0 return_value
          return_value-IsVariable v.room).1 in
      rw left (
        stored-Handles s thread th out.0 out.1 _ v known kept.thread kept.tid (
          Delivers-some sink s.context s.sink_data now out.0.tid _ _ answers v.fit v.room
            (omega (arith, end_small m.function_id)) (inl (omega (arith, end_small m.function_id)))
            delivers))

  pub hook_return-Handles :
      (s : State rax U) (stale : Option (Option Method)) (thread : ℕ) (th : Thread)
      (tparg : TraceArg) (entry : Option Method)
      → Sound Fit s
      → load_thread s thread ≡ some th
      → st_lookup
          (rb_rg_method_id ruby.hashes s.tracer.environment s.tracer.builtin_translator tparg)
          s.tracer.method_table.filters.methodinfo
        ≡ some entry
      → Handles Fit (hook_return ruby sink now s stale thread tparg)
  unfolding hook_return leave_vm
  hook_return-Handles s stale thread th₀ tparg entry v known found =
      let th = leave_vm th₀ in
      let stack₀ = v.stacks thread th₀ known in
      let stack : IsThread th = record {
        stack = stack₀.stack;
        above = stack₀.above;
        below = stack₀.below;
      } in
      let s' = store_thread s thread th in
      let v' : Sound Fit s' = store_thread-Sound s thread th₀ th v known stack refl in
      let loaded : load_thread s' thread ≡ some th =
        lookup-insert_self thread th s.tracer.thread_table.threadsinfo in
      elim (Bool-cases (vm_too_deep th || frameless th || (tparg.namespace == ruby.tracer_class))) [
        | inl ignored ↦ (s', rw (hook_return, known) (rw ignored), v')
        | inr counted ↦
            (let (s'', done, x) =
                end_method-Handles s' thread th entry v' loaded stack (ground (arith, counted)) in
              (s'', rw (hook_return, known) (rw counted (rw found done)), x))
      ]
