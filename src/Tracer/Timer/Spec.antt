-- ===== src/Tracer/Timer/Spec.antt =====
-- What the timer thread of ext/raygun/raygun_tracer.c promises to send, tick by tick.
use raygun_apm_ruby.Base.{
  ℕ, zero, suc, ◌+◌, ◌%◌, ◌≡◌, refl, sym, ◌∙◌, arith, List, [], ◌∷◌, ◌++◌, Bool, ◌==◌, ◌&&◌, not,
  if◌then◌else◌, length,
}
use mathlib.Core.List.{append-nil, append_assoc}
use raygun_apm_ruby.Protocol.{EncodedString, EventData, Method, process_frequency, process_type}
use raygun_apm_ruby.Encoder.Wire.{command_bytes, body_bytes}
use raygun_apm_ruby.Tracer.Resync.Announce.{AllKeep, followed, consume_all}
use raygun_apm_ruby.Tracer.Traces.{timestamp_units_per_second}
use raygun_apm_ruby.Tracer.Timer.{SinkType, is_transport, Tick}

-- A sink that keeps the bytes of every command, and no bytes for a flush.
abbrev pub logged : List ℕ → List (List ℕ) → List (List ℕ)
logged c cs = cs ++ c ∷ []

-- The bytes of a command that the process itself reports.
abbrev pub report : ℕ → ℕ → EventData → List ℕ
report pid now d = command_bytes (record {
  length = 19 + length (body_bytes d);
  pid = pid;
  tid = 0;
  timestamp = now;
  payload = d;
})

abbrev pub kept_commands : List Method → List (List ℕ)
kept_commands [] = []
kept_commands (m ∷ ms) = m.encoded ∷ kept_commands ms

pub consume_all-logged :
    (ms : List Method) (cs : List (List ℕ)) → consume_all logged cs ms ≡ cs ++ kept_commands ms
unfolding consume_all
consume_all-logged [] cs = sym (append-nil cs)
consume_all-logged (m ∷ ms) cs =
    consume_all-logged ms (cs ++ m.encoded ∷ [])
    ∙ append_assoc cs (m.encoded ∷ []) (kept_commands ms)

-- The positions, counted from 0, of the ticks at which the methods are due.
abbrev pub is_due : ℕ → Bool
is_due k = not (k == 0) && k % 30 == 0

abbrev pub counter_at : ℕ → ℕ
counter_at zero = 0
counter_at (suc k) = 1 + k % 30

pub counter-due : (k : ℕ) → (counter_at k == 30) ≡ is_due k
counter-due zero = refl
counter-due (suc k) = ground arith

pub counter-next : (k : ℕ) → 1 + (if is_due k then 0 else counter_at k) ≡ counter_at (suc k)
counter-next zero = refl
counter-next (suc k) = ground arith

module _ (pid : ℕ) (technology type : EncodedString) (sink : SinkType) where
  abbrev pub resync_commands : Tick → List (List ℕ)
  resync_commands tick =
      report pid tick.frequency_time
        (process_frequency (record { frequency = timestamp_units_per_second }))
      ∷ report pid tick.type_time
          (process_type (record { technology_type = technology; process_type = type }))
      ∷ kept_commands (followed tick.methodinfo)

  -- Only a sink over the network is told, and only if there is an entry.
  abbrev pub resync : Tick → List (List ℕ)
  resync tick = elim tick.methodinfo [
    | [] ↦ []
    | entry ∷ entries ↦ if is_transport sink then resync_commands tick else []
  ]

  -- What the sink is handed from the tick at position `k` on: a flush at every tick, and the commands
  -- of the methods when they are due.
  abbrev pub schedule : ℕ → List Tick → List (List ℕ)
  schedule k [] = []
  schedule k (tick ∷ ticks) =
      ([] ∷ (if is_due k then resync tick else [])) ++ schedule (suc k) ticks

-- The methods that are followed keep whole commands, whenever they are announced.
abbrev pub AllTicksKeep : List Tick → Type 0
AllTicksKeep [] = Unit
AllTicksKeep (tick ∷ ticks) = AllKeep (followed tick.methodinfo) × AllTicksKeep ticks
