-- ===== src/Tracer/Timer/Schedule.antt =====
-- What the timer thread of ext/raygun/raygun_tracer.c sends, tick by tick.
use raygun_apm_ruby.Base.{
  ℕ, Bool-cases, suc, ◌+◌, ◌≤◌, ◌≡◌, inl, inr, refl, sym, ap, ◌∙◌, arith, List, [], ◌∷◌, ◌++◌,
  Option, some, Bool, ◌==◌, ◌&&◌, if◌then◌else◌, length, take,
}
use mathlib.Core.List.{append-nil, append_assoc}
use raygun_apm_ruby.Memory.{◌>>=◌}
use raygun_apm_ruby.Memory.Laws.{length-overwrite, slice-overwrite}
use raygun_apm_ruby.Protocol.{
  EncodedString, Event, EventData, Methodinfo, Method, process_frequency, process_type,
  scratch_buffer_size,
}
use raygun_apm_ruby.Protocol.Valid.{IsString}
use raygun_apm_ruby.Encoder.Wire.{body_bytes}
use raygun_apm_ruby.Encoder.Bounds.{length-body-le, length-command}
use raygun_apm_ruby.Encoder.Emit.{Context, hand_over}
use raygun_apm_ruby.Encoder.Emit.Delivery.{delivered, encoded, Delivers, boundaries-Deliver}
use raygun_apm_ruby.Coercion.Strings.{rb_rg_encode_string}
use raygun_apm_ruby.Tracer.Methods.{unset_ascii}
use raygun_apm_ruby.Tracer.Resync.{emit_all}
use raygun_apm_ruby.Tracer.Resync.Announce.{
  AllKeep, followed, reading, consume_all, emit_all-announces,
}
use raygun_apm_ruby.Tracer.Hook.{Ruby}
use raygun_apm_ruby.Tracer.Traces.{
  Profiler, timestamp_units_per_second, rb_rg_process_frequency, rb_rg_process_type,
  rb_rg_flush_batched_sink,
}
use raygun_apm_ruby.Tracer.Traces.Lifecycle.{encode_name}
use raygun_apm_ruby.Tracer.Timer.{
  SinkType, is_transport, is_tcp, is_nil, Tick, Timer, rb_rg_async_emit_methodinfos, timer_tick,
  rb_rg_timer_thread,
}
use raygun_apm_ruby.Tracer.Timer.Spec.{
  logged, report, consume_all-logged, is_due, counter_at, counter-due, counter-next,
  resync_commands, resync, schedule, AllTicksKeep,
}

module _ (ruby : Ruby) (sink : SinkType) (stale : Event) (unset : Methodinfo) where
  -- The timer before the tick at position `k`.
  record Ready (pid : ℕ) (technology type : EncodedString) (k : ℕ) (t : Timer (List (List ℕ)))
      : Type 0 where
    room : length t.profiler.context.buf ≡ scratch_buffer_size
    same_pid : t.profiler.context.pid ≡ pid
    technology_text :
        rb_rg_encode_string ruby.rb_str_encode unset_ascii (some t.profiler.technology_type)
        ≡ some technology
    type_text :
        rb_rg_encode_string ruby.rb_str_encode unset_ascii (some t.profiler.process_type)
        ≡ some type
    counter : t.methodinfo_sync_ticks ≡ counter_at k

  -- The command that is delivered is the one that the sink keeps.
  logs :
      (ctx : Context) (u : List (List ℕ)) (now : ℕ) (d : EventData)
      (o : Option (ℕ × List (List ℕ) × Context))
      → length (body_bytes d) ≤ 16404
      → length ctx.buf ≡ scratch_buffer_size
      → Delivers ctx now 0 d (reading logged) u o
      → o ≡ some (0, logged (report ctx.pid now d) u, encoded ctx now 0 d)
  unfolding hand_over reading
  logs ctx u now d o small room delivers =
      let sized = length-command (delivered ctx now 0 d) in
      let whole : take (19 + length (body_bytes d)) (encoded ctx now 0 d).buf
          ≡ report ctx.pid now d =
        slice-overwrite ctx.buf 0 (19 + length (body_bytes d)) (report ctx.pid now d)
          (omega (arith, sized, small, room)) (sym sized) in
      delivers ∙ rw whole refl

  module _ (technology type : EncodedString) (v : IsString technology) (y : IsString type) where
    -- The three parts of an announcement, without its guards.
    announced-logs :
        (pid k : ℕ) (t : Timer (List (List ℕ))) (tick : Tick)
        → Ready pid technology type k t
        → AllKeep (followed tick.methodinfo)
        → (p' : Profiler (List (List ℕ))) × ((rb_rg_process_frequency ruby
                (reading logged)
                tick.frequency_time
                t.profiler
                timestamp_units_per_second
              >>= λ p₁. rb_rg_process_type ruby (reading logged) tick.type_time p₁ >>= λ p₂.
                  emit_all (reading logged) stale unset p₂.sink_data p₂.context tick.methodinfo
                  >>= λ r. some (record p₂ { sink_data = r.0; context = r.1 }))
            ≡ some p')
          × (p'.sink_data ≡ t.profiler.sink_data ++ resync_commands pid technology type sink tick)
          × Ready pid technology type k (record t { profiler = p' })
    unfolding rb_rg_process_frequency rb_rg_process_type body_bytes
    announced-logs pid k t tick r keep =
        let p = t.profiler in
        let d = process_frequency (record { frequency = timestamp_units_per_second }) in
        let e = process_type (record { technology_type = technology; process_type = type }) in
        let first =
          logs p.context p.sink_data tick.frequency_time d _ (omega arith) r.room
            (boundaries-Deliver (reading logged) p.context p.sink_data tick.frequency_time 0 type
              type type timestamp_units_per_second 0 y y y r.room).3 in
        let ctx₁ = encoded p.context tick.frequency_time 0 d in
        let u₁ = logged (report p.context.pid tick.frequency_time d) p.sink_data in
        let room₁ : length ctx₁.buf ≡ scratch_buffer_size =
          length-overwrite p.context.buf 0 _ ∙ r.room in
        let second =
          logs ctx₁ u₁ tick.type_time e _ (length-body-le e (v, y)) room₁
            (boundaries-Deliver (reading logged) ctx₁ u₁ tick.type_time 0 type technology type 0 0 y
              v y room₁).1 in
        let ctx₂ = encoded ctx₁ tick.type_time 0 e in
        let u₂ = logged (report p.context.pid tick.type_time e) u₁ in
        let (ctx₃, third, same, room₃) =
          emit_all-announces logged stale unset tick.methodinfo u₂ ctx₂ keep
            (length-overwrite ctx₁.buf 0 _ ∙ room₁) in
        (
          record p { sink_data = consume_all logged u₂ (followed tick.methodinfo); context = ctx₃ },
          rw first (rw r.technology_text (rw r.type_text (rw second (rw third refl)))),
          consume_all-logged (followed tick.methodinfo) u₂
              ∙ append_assoc u₁ (report p.context.pid tick.type_time e ∷ []) _
              ∙ append_assoc p.sink_data (report p.context.pid tick.frequency_time d ∷ []) _
              ∙ ap (λ q. p.sink_data ++ resync_commands q technology type sink tick) r.same_pid,
          record {
            room = room₃;
            same_pid = same ∙ r.same_pid;
            technology_text = r.technology_text;
            type_text = r.type_text;
            counter = r.counter;
          },
        )

    async_emit_methodinfos-logs :
        (pid k : ℕ) (t : Timer (List (List ℕ))) (any : Tick) (entries : List (Option Method))
        → Ready pid technology type k t
        → AllKeep (followed entries)
        → let tick : Tick = record any { methodinfo = entries } in
          (p' : Profiler (List (List ℕ))) × (rb_rg_async_emit_methodinfos ruby
              (reading logged)
              sink
              stale
              unset
              t.profiler
              tick
            ≡ some p')
          × (p'.sink_data ≡ t.profiler.sink_data ++ resync pid technology type sink tick)
          × Ready pid technology type k (record t { profiler = p' })
    unfolding rb_rg_async_emit_methodinfos
    async_emit_methodinfos-logs pid k t any [] r keep =
        (t.profiler, refl, sym (append-nil t.profiler.sink_data), r)
    async_emit_methodinfos-logs pid k t any (entry ∷ entries) r keep =
        elim (Bool-cases (is_transport sink)) [
          | inl over ↦
              (let (p', done, reports, r') =
                  announced-logs pid k t (record any { methodinfo = entry ∷ entries }) r keep in
                (p', rw (rb_rg_async_emit_methodinfos, over) done, rw over reports, r'))
          | inr local ↦ (
            t.profiler,
            rw (rb_rg_async_emit_methodinfos, local) refl,
            rw local (sym (append-nil t.profiler.sink_data)),
            r,
          )
        ]

    -- One tick, at its position.
    timer_tick-logs :
        (pid k : ℕ) (t : Timer (List (List ℕ))) (tick : Tick)
        → Ready pid technology type k t
        → AllKeep (followed tick.methodinfo)
        → (t' : Timer (List (List ℕ))) × (timer_tick ruby (reading logged) sink stale unset t tick
            ≡ some t')
          × (t'.profiler.sink_data
              ≡ t.profiler.sink_data
                ++ ([] ∷ (if is_due k then resync pid technology type sink tick else [])))
          × Ready pid technology type (suc k) t'
    unfolding timer_tick rb_rg_flush_batched_sink reading
    timer_tick-logs pid k t tick r keep =
        let p₁ : Profiler (List (List ℕ)) = record t.profiler {
          sink_data = logged [] t.profiler.sink_data;
        } in
        let t₁ : Timer (List (List ℕ)) = record t { profiler = p₁ } in
        let r₁ : Ready pid technology type k t₁ = record {
          room = r.room;
          same_pid = r.same_pid;
          technology_text = r.technology_text;
          type_text = r.type_text;
          counter = r.counter;
        } in
        let due = ap (λ c. c == 30) r.counter ∙ counter-due k in
        let sock = if is_tcp sink && is_nil t.sock then tick.connection else t.sock in
        let next : 1 + (if is_due k then 0 else t.methodinfo_sync_ticks) ≡ counter_at (suc k) =
          ap (λ c. 1 + (if is_due k then 0 else c)) r.counter ∙ counter-next k in
        elim (Bool-cases (is_due k)) [
          | inl now_due ↦
              (let (p', done, reports, r') =
                  async_emit_methodinfos-logs pid k t₁ tick tick.methodinfo r₁ keep in
                (
                  record { profiler = p'; methodinfo_sync_ticks = 1; sock = sock },
                  rw (due, now_due) (rw done refl),
                  rw now_due (
                      reports
                      ∙ append_assoc t.profiler.sink_data ([] ∷ [])
                          (resync pid technology type sink tick)),
                  record {
                    room = r'.room;
                    same_pid = r'.same_pid;
                    technology_text = r'.technology_text;
                    type_text = r'.type_text;
                    counter =
                        ap (λ (b : Bool). 1 + (if b then 0 else t.methodinfo_sync_ticks))
                          (sym now_due)
                        ∙ next;
                  },
                ))
          | inr not_due ↦ (
            record {
              profiler = p₁;
              methodinfo_sync_ticks = 1 + t.methodinfo_sync_ticks;
              sock = sock;
            },
            rw (due, not_due) refl,
            rw not_due refl,
            record {
              room = r.room;
              same_pid = r.same_pid;
              technology_text = r.technology_text;
              type_text = r.type_text;
              counter =
                  ap (λ (b : Bool). 1 + (if b then 0 else t.methodinfo_sync_ticks)) (sym not_due)
                  ∙ next;
            },
          )
        ]

    timer_thread-logs :
        (pid k : ℕ) (t : Timer (List (List ℕ))) (ticks : List Tick)
        → Ready pid technology type k t
        → AllTicksKeep ticks
        → (t' : Timer (List (List ℕ))) × (rb_rg_timer_thread ruby
              (reading logged)
              sink
              stale
              unset
              t
              ticks
            ≡ some t')
          × (t'.profiler.sink_data
              ≡ t.profiler.sink_data ++ schedule pid technology type sink k ticks)
    unfolding rb_rg_timer_thread
    timer_thread-logs pid k t [] r keep = (t, refl, sym (append-nil t.profiler.sink_data))
    timer_thread-logs pid k t (tick ∷ ticks) r keep =
        let (t₁, done, reports, r₁) = timer_tick-logs pid k t tick r keep.0 in
        let (t', rest, sends) = timer_thread-logs pid (suc k) t₁ ticks r₁ keep.1 in
        (
          t',
          rw done rest,
          sends
              ∙ ap (λ cs. cs ++ schedule pid technology type sink (suc k) ticks) reports
              ∙ append_assoc t.profiler.sink_data
                  ([] ∷ (if is_due k then resync pid technology type sink tick else []))
                  (schedule pid technology type sink (suc k) ticks),
        )

  -- With a scratch buffer of its declared size and methods that keep whole commands, the timer thread
  -- returns from any number of ticks. It flushes the sink at every tick. At the 31st tick and every
  -- 30 ticks from there, if the sink is UDP or TCP and the table has an entry, it sends the clock's
  -- frequency, the process type and then the kept command of every method that is followed, each once
  -- and in the order of the table; it sends nothing else.
  pub timer_thread-schedules :
      (t : Timer (List (List ℕ))) (ticks : List Tick)
      → length t.profiler.context.buf ≡ scratch_buffer_size
      → t.methodinfo_sync_ticks ≡ 0
      → AllTicksKeep ticks
      → (technology type : EncodedString) × (t' : Timer (List (List ℕ))) × (rb_rg_encode_string
            ruby.rb_str_encode unset_ascii
            (some t.profiler.technology_type)
          ≡ some technology)
        × (rb_rg_encode_string ruby.rb_str_encode unset_ascii (some t.profiler.process_type)
            ≡ some type)
        × (rb_rg_timer_thread ruby (reading logged) sink stale unset t ticks ≡ some t')
        × (t'.profiler.sink_data
            ≡ t.profiler.sink_data ++ schedule t.profiler.context.pid technology type sink 0 ticks)
  timer_thread-schedules t ticks room fresh keep =
      let (technology, named, v) = encode_name ruby (some t.profiler.technology_type) in
      let (type, typed, y) = encode_name ruby (some t.profiler.process_type) in
      let r : Ready t.profiler.context.pid technology type 0 t = record {
        room = room;
        same_pid = refl;
        technology_text = named;
        type_text = typed;
        counter = fresh;
      } in
      let (t', done, sends) =
        timer_thread-logs technology type v y t.profiler.context.pid 0 t ticks r keep in
      (technology, type, t', named, typed, done, sends)
