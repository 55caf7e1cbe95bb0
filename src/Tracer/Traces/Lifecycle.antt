-- ===== src/Tracer/Traces/Lifecycle.antt =====
-- A trace from its start to its end (ext/raygun/raygun_tracer.c).
use raygun_apm_ruby.Base.{
  if_false, if_same, ℕ, ◌≡◌, ◌≢◌, refl, ap, ◌∙◌, arith, Option, none, some, true, false, List, [],
  ◌∷◌, ◌++◌, length, length-replicate,
}
use raygun_apm_ruby.Memory.Laws.{length-overwrite}
use raygun_apm_ruby.Protocol.{
  EncodedString, BeginTransaction, EventData, Thread, process_frequency, begin_transaction,
  end_transaction, scratch_buffer_size,
}
use raygun_apm_ruby.Protocol.Valid.{IsString}
use raygun_apm_ruby.Encoder.Emit.{Context, Sink, hand_over}
use raygun_apm_ruby.Encoder.Emit.Delivery.{encoded, Delivers, boundaries-Deliver}
use raygun_apm_ruby.Coercion.Strings.{rb_rg_encode_string}
use raygun_apm_ruby.Coercion.Truncation.{encode_string-Stored}
use raygun_apm_ruby.Tracer.Table.{
  st_lookup, st_insert, st_delete, lookup-insert_self, lookup-delete_self,
}
use raygun_apm_ruby.Tracer.Threads.{rb_rg_thread}
use raygun_apm_ruby.Tracer.Methods.{unset_ascii}
use raygun_apm_ruby.Tracer.Hook.{Ruby, Running, rb_rg_thread_group}
use raygun_apm_ruby.Tracer.Traces.{
  Trace, Profiler, timestamp_units_per_second, rb_rg_trace_context_alloc, rb_rg_process_frequency,
  rb_rg_begin_transaction, rb_rg_tracer_start_trace, rb_rg_tracer_end_trace, current_trace,
  rb_rg_trace_context_free, switch_to,
}

-- A sink that keeps what it is handed.
abbrev pub keeping : Sink (List EventData)
keeping ctx u none n = some (0, u)
keeping ctx u (some e) n = some (0, u ++ e.payload ∷ [])

-- The scratch buffer of an emission to that sink, and what it leaves.
kept :
    (ctx : Context) (u : List EventData) (now tid : ℕ) (d : EventData)
    (o : Option (ℕ × List EventData × Context))
    → Delivers ctx now tid d keeping u o
    → o ≡ some (0, u ++ d ∷ [], encoded ctx now tid d)
unfolding hand_over
kept ctx u now tid d o delivers = delivers

module _ (ruby : Ruby) where
  -- A name, or nil, as an ASCII string on the stack.
  pub encode_name :
      (name : Option (List ℕ))
      → (s : EncodedString) × (rb_rg_encode_string ruby.rb_str_encode unset_ascii name ≡ some s)
        × IsString s
  unfolding rb_rg_encode_string
  encode_name none = (
    record unset_ascii { length = 0 },
    refl,
    record { in_array = omega arith; array = omega (arith, length-replicate {A = ℕ} 4096 0) },
  )
  encode_name (some name) =
      let (s, done, stored) =
        encode_string-Stored ruby.rb_str_encode name unset_ascii
          (length-replicate {A = ℕ} 4096 0) in
      (s, done, stored.valid)

  process_frequency-sends :
      (now frequency : ℕ) (p : Profiler (List EventData))
      → length p.context.buf ≡ scratch_buffer_size
      → rb_rg_process_frequency ruby keeping now p frequency
        ≡ some (record p {
          sink_data = p.sink_data ++ process_frequency (record { frequency = frequency }) ∷ [];
          context = encoded p.context now 0 (process_frequency (record { frequency = frequency }));
        })
  unfolding rb_rg_process_frequency
  process_frequency-sends now frequency p room =
      let (s, _, v) = encode_name none in
      rw (
        kept p.context p.sink_data now 0 _ _
          (boundaries-Deliver keeping p.context p.sink_data now 0 s s s frequency 0 v v v room).3)

  begin_transaction-sends :
      (now tid : ℕ) (p : Profiler (List EventData))
      → length p.context.buf ≡ scratch_buffer_size
      → (b : BeginTransaction) × (rb_rg_begin_transaction ruby keeping now p tid
          ≡ some (record p {
            sink_data = p.sink_data ++ begin_transaction b ∷ [];
            context = encoded p.context now tid (begin_transaction b);
          }))
  unfolding rb_rg_begin_transaction
  begin_transaction-sends now tid p room =
      let (key, keyed, k) = encode_name p.api_key in
      let (technology, named, n) = encode_name (some p.technology_type) in
      let (type, typed, y) = encode_name (some p.process_type) in
      (
        record { api_key = key; technology_type = technology; process_type = type },
        rw keyed (
            rw named (
              rw typed (
                rw (
                  kept p.context p.sink_data now tid _ _
                    (boundaries-Deliver keeping p.context p.sink_data now tid key technology type 0
                      0 k n y room).0)))),
      )

  module _ (p : Profiler (List EventData)) (now later : ℕ) (running : Running)
      (group tracepoint : ℕ) where
    -- What is open after the start: the trace in its group, and two commands sent.
    record Opened (th : Thread) (b : BeginTransaction) (p₁ : Profiler (List EventData))
        : Type 0 where
      trace : Trace
      found : st_lookup group p₁.tracecontexts ≡ some trace
      thread : trace.trace_context.thread ≡ running.thread
      traced : trace.tracepoint ≡ some tracepoint
      shadow : st_lookup running.thread p₁.thread_table.threadsinfo ≡ some th
      enabled : p₁.enabled tracepoint ≡ true
      reported :
          p₁.sink_data
          ≡ p.sink_data
            ++ process_frequency (record { frequency = timestamp_units_per_second }) ∷ []
            ++ begin_transaction b ∷ []
      room : length p₁.context.buf ≡ scratch_buffer_size

    start_trace-Opened :
        p.noop ≡ false
        → current_trace ruby p running ≡ none
        → length p.context.buf ≡ scratch_buffer_size
        → (th : Thread) × (p₁ : Profiler (List EventData)) × (b : BeginTransaction)
          × (rb_rg_tracer_start_trace ruby keeping now p later running group tracepoint
              ≡ some (true, record running { thgroup = group }, p₁))
          × Opened th b p₁
    unfolding rb_rg_tracer_start_trace rb_rg_trace_context_alloc
    start_trace-Opened live fresh room =
        let (c, th, threads) = rb_rg_trace_context_alloc ruby p.thread_table running.thread in
        let c' = record c { thgroup = group } in
        let trace : Trace = record { trace_context = c'; tracepoint = some tracepoint } in
        let p₁ : Profiler (List EventData) = record p {
          thread_table = threads;
          tracecontexts =
              st_insert group (record { trace_context = c'; tracepoint = none }) p.tracecontexts;
        } in
        let d = process_frequency (record { frequency = timestamp_units_per_second }) in
        let p₂ : Profiler (List EventData) = record p₁ {
          sink_data = p.sink_data ++ d ∷ [];
          context = encoded p.context now 0 d;
        } in
        let room₂ : length p₂.context.buf ≡ scratch_buffer_size =
          length-overwrite p.context.buf 0 _ ∙ room in
        let (b, sends) = begin_transaction-sends later th.tid p₂ room₂ in
        (
          th,
          record p₂ {
            sink_data = p₂.sink_data ++ begin_transaction b ∷ [];
            context = encoded p₂.context later th.tid (begin_transaction b);
            tracecontexts = st_insert group trace p₁.tracecontexts;
            enabled = switch_to true tracepoint p.enabled;
          },
          b,
          if_false p.noop (some (false, running, p)) _ live
              ∙ rw fresh
                  (rw (process_frequency-sends now timestamp_units_per_second p₁ room) (rw sends)),
          record {
            trace = trace;
            found = lookup-insert_self group trace p₁.tracecontexts;
            thread = refl;
            traced = refl;
            shadow =
                lookup-insert_self running.thread th
                  (rb_rg_thread p.thread_table running.thread).1.threadsinfo;
            enabled = ground arith;
            reported = refl;
            room = length-overwrite p₂.context.buf 0 _ ∙ room₂;
          },
        )

    -- A profiler that is not silenced starts a trace on a thread whose group has none: the thread joins
    -- the new group, and its tracepoint is enabled. A second start within the trace answers false and
    -- changes nothing. The end answers true, disables the tracepoint and removes the trace, so that
    -- a second end answers false and changes nothing. The sink is handed the frequency of the clock,
    -- the beginning of the transaction and its end, once each.
    pub trace-ends :
        (later' : ℕ)
        → p.noop ≡ false
        → current_trace ruby p running ≡ none
        → group ≢ 0
        → length p.context.buf ≡ scratch_buffer_size
        → let running' = record running { thgroup = group } in
          (p₁ p₂ : Profiler (List EventData)) × (b : BeginTransaction) × (rb_rg_tracer_start_trace
              ruby keeping now p later running group tracepoint
            ≡ some (true, running', p₁))
          × (p₁.enabled tracepoint ≡ true)
          × ((group' tracepoint' : ℕ)
              → rb_rg_tracer_start_trace ruby keeping now p₁ later running' group' tracepoint'
                ≡ some (false, running', p₁))
          × (rb_rg_tracer_end_trace ruby keeping later' p₁ running' ≡ some (true, p₂))
          × (p₂.enabled tracepoint ≡ false)
          × (rb_rg_tracer_end_trace ruby keeping later' p₂ running' ≡ some (false, p₂))
          × (p₂.sink_data
              ≡ p.sink_data
                ++ process_frequency (record { frequency = timestamp_units_per_second }) ∷ []
                ++ begin_transaction b ∷ []
                ++ end_transaction ∷ [])
    unfolding rb_rg_tracer_end_trace rb_rg_tracer_start_trace current_trace rb_rg_trace_context_free
        rb_rg_thread_group
    trace-ends later' live fresh object room =
        let (th, p₁, b, started, o) = start_trace-Opened live fresh room in
        let running' = record running { thgroup = group } in
        let grouped : rb_rg_thread_group ruby group ≡ group = ground (arith, object) in
        let found : current_trace ruby p₁ running' ≡ some o.trace =
          ap (λ k. st_lookup k p₁.tracecontexts) grouped ∙ o.found in
        let shadow : st_lookup o.trace.trace_context.thread p₁.thread_table.threadsinfo ≡ some th =
          ap (λ k. st_lookup k p₁.thread_table.threadsinfo) o.thread ∙ o.shadow in
        let ended =
          kept p₁.context p₁.sink_data later' th.tid end_transaction _
            (boundaries-Deliver keeping p₁.context p₁.sink_data later' th.tid _ _ _ 0 0
              (encode_name none).2 (encode_name none).2 (encode_name none).2 o.room).4 in
        let p₂ : Profiler (List EventData) = record p₁ {
          sink_data = p₁.sink_data ++ end_transaction ∷ [];
          context = encoded p₁.context later' th.tid end_transaction;
          tracecontexts = st_delete (rb_rg_thread_group ruby group) p₁.tracecontexts;
          enabled = rb_rg_trace_context_free o.trace p₁.enabled;
        } in
        (
          p₁,
          p₂,
          b,
          started,
          o.enabled,
          λ group' tracepoint'.
              rw (rb_rg_tracer_start_trace, found) (if_same p₁.noop (some (false, running', p₁))),
          rw (rb_rg_tracer_end_trace, found) (rw shadow (rw ended)),
          rw (rb_rg_trace_context_free, o.traced) (ground (arith, o.enabled)),
          rw (
            rb_rg_tracer_end_trace,
            lookup-delete_self (rb_rg_thread_group ruby group) p₁.tracecontexts,
          ),
          ap (λ u. u ++ end_transaction ∷ []) o.reported,
        )
