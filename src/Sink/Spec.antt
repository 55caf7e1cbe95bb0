-- ===== src/Sink/Spec.antt =====
-- What the batched sink promises: commands leave in order, packed into numbered batches. A batch is
-- what the Agent reads: a 13-byte header and the commands one after the other.
use raygun_apm_ruby.Base.{
  ℕ, ◌+◌, ◌-◌, ◌≤◌, ◌<◌, ◌≡◌, arith, List, [], ◌∷◌, ◌++◌, Option, none, some,
}
use raygun_apm_ruby.Base.{leb, if◌then◌else◌, length, le_bytes, u32}
use raygun_apm_ruby.Protocol.{batch_packet_size, max_batch_packet_size, batch_headlen}

-- The bytes of one command.
abbrev pub Command : Type 0
Command = List ℕ

unfoldable pub flat : List Command → List ℕ
flat [] = []
flat (c ∷ cs) = c ++ flat cs

-- What is offered to the ring buffer: a batch under its sequence number, or a bare command.
pub data Packet : Type 0 where
  batched : ℕ → List Command → Packet
  raw : Command → Packet

pub record Batching : Type 0 where
  pub pid : ℕ
  pub sequence : ℕ
  pub pending : List Command

abbrev pub header_of : ℕ → ℕ → List Command → List ℕ
header_of pid sequence cs =
    le_bytes 2 (13 + length (flat cs))
    ++ (le_bytes 1 0xfa ++ (le_bytes 2 (length cs) ++ (le_bytes 4 sequence ++ le_bytes 4 pid)))

unfoldable pub packet_bytes : ℕ → Packet → List ℕ
packet_bytes pid (batched sequence cs) = header_of pid sequence cs ++ flat cs
packet_bytes pid (raw c) = c

-- The pending batch leaves, and `cs` are pending.
abbrev pub flush_to : Batching → List Command → Batching
flush_to s cs = record s { sequence = u32 (s.sequence + 1); pending = cs }

unfoldable pub accept : Batching → Command → Batching × List Packet
accept s c =
    if leb (batch_headlen + length (flat s.pending) + length c) batch_packet_size
    then (record s { pending = s.pending ++ (c ∷ []) }, [])
    else if leb (batch_headlen + length c) batch_packet_size
    then (flush_to s (c ∷ []), batched s.sequence s.pending ∷ [])
    else if leb (max_batch_packet_size - 2) (length c)
    then (record s { pending = [] }, raw c ∷ [])
    else (
      flush_to (flush_to s []) [],
      batched s.sequence s.pending ∷ batched (u32 (s.sequence + 1)) (c ∷ []) ∷ [],
    )

-- A flush sends what is pending, unless nothing is.
unfoldable pub flush_pending : Batching → List Command → Batching × List Packet
flush_pending s [] = (s, [])
flush_pending s (c ∷ cs) = (flush_to s [], batched s.sequence s.pending ∷ [])

unfoldable pub flush : Batching → Batching × List Packet
unfolding flush_pending
flush s = flush_pending s s.pending

-- One call of the sink: a command, or none for a flush.
unfoldable pub step : Batching → Option Command → Batching × List Packet
unfolding accept flush
step s (some c) = accept s c
step s none = flush s

abbrev pub commands_of : List Packet → List Command
commands_of [] = []
commands_of (batched _ cs ∷ ps) = cs ++ commands_of ps
commands_of (raw c ∷ ps) = c ∷ commands_of ps

-- The calls in order, with all packets that left.
unfoldable pub run : Batching → List (Option Command) → Batching × List Packet
unfolding step
run s [] = (s, [])
run s (o ∷ os) = let (s', ps) = step s o in let (s'', qs) = run s' os in (s'', ps ++ qs)

abbrev pub given : List (Option Command) → List Command
given [] = []
given (some c ∷ os) = c ∷ given os
given (none ∷ os) = given os

-- The four answers of `accept`, by the size of the command.
module _ (s : Batching) (c : Command) where
  pub accept_within :
      13 + length (flat s.pending) + length c ≤ 1400
      → accept s c ≡ (record s { pending = s.pending ++ (c ∷ []) }, [])
  unfolding accept
  accept_within h = ground arith

  pub accept_next :
      1400 < 13 + length (flat s.pending) + length c
      → 13 + length c ≤ 1400
      → accept s c ≡ (flush_to s (c ∷ []), batched s.sequence s.pending ∷ [])
  unfolding accept
  accept_next h k = ground arith

  pub accept_oversized :
      1387 < length c
      → length c < 4094
      → accept s c ≡ (
        flush_to (flush_to s []) [],
        batched s.sequence s.pending ∷ batched (u32 (s.sequence + 1)) (c ∷ []) ∷ [],
      )
  unfolding accept
  accept_oversized h k = ground arith

  pub accept_raw : 4094 ≤ length c → accept s c ≡ (record s { pending = [] }, raw c ∷ [])
  unfolding accept
  accept_raw h = ground arith
