-- ===== src/Sink/Represents.antt =====
-- How the batch buffer holds the pending commands, and that its three operations keep this.
use raygun_apm_ruby.Base.{
  ℕ, ◌+◌, ◌≤◌, ◌<◌, ◌≡◌, refl, sym, ap, ◌∙◌, arith, List, [], ◌∷◌, ◌++◌, none, some,
}
use raygun_apm_ruby.Base.{length, take, length-append, length-take, le_bytes, u32, i16}
use mathlib.Core.Path.{subst}
use mathlib.Core.List.{append-nil, append_assoc}
use raygun_apm_ruby.Memory.{overwrite, memcpy, read, slice}
use raygun_apm_ruby.Memory.Laws.{Writes, writing, encode_at-some, length-overwrite}
use raygun_apm_ruby.Memory.Seams.{slice-overwrite_behind, take-overwrite_front}
use raygun_apm_ruby.Protocol.{EventBatch}
use raygun_apm_ruby.Sink.Batch.{rg_encode_into_batch, batch_header, rg_encode_batch_header}
use raygun_apm_ruby.Sink.Spec.{Command, flat, batched, Batching, packet_bytes, header_of}

-- At most 4083 bytes of commands, none of them empty, stand behind the place of the header.
pub record Represents (s : Batching) (b : EventBatch) : Type 0 where
  pub room : length b.buf ≡ 4096
  pub size : b.length ≡ 13 + length (flat s.pending)
  pub small : length (flat s.pending) ≤ 4083
  pub number : b.count ≡ length s.pending
  pub few : length s.pending ≤ length (flat s.pending)
  pub content : slice b.buf 13 (length (flat s.pending)) ≡ flat s.pending
  pub kind : b.type ≡ 0xfa
  pub sequence : b.sequence ≡ s.sequence
  pub pid : b.pid ≡ s.pid

flat-append : (cs ds : List Command) → flat (cs ++ ds) ≡ flat cs ++ flat ds
unfolding flat
flat-append [] ds = refl
flat-append (c ∷ cs) ds = simp (flat-append cs ds, append_assoc)

pub flat-snoc : (cs : List Command) (c : Command) → flat (cs ++ (c ∷ [])) ≡ flat cs ++ c
unfolding flat
flat-snoc cs c = rw (flat-append cs (c ∷ []), append-nil)

-- Appending a command that the buffer still holds.
pub into_batch-Represents :
    (buf : List ℕ) (n : ℕ) {s : Batching} {b : EventBatch}
    → Represents s b
    → 0 < n
    → n ≤ length buf
    → length (flat s.pending) + n ≤ 4083
    → (b' : EventBatch) × (rg_encode_into_batch buf n b ≡ some b')
      × Represents (record s { pending = s.pending ++ (take n buf ∷ []) }) b'
unfolding rg_encode_into_batch read memcpy
into_batch-Represents buf n {s} {b} r pos fits small =
    let c = take n buf in
    let len : length c ≡ n = omega (arith, length-take n buf) in
    let more = flat-snoc s.pending c in
    let number = length-append s.pending (c ∷ []) in
    let size = length-append (flat s.pending) c in
    let length_more = ap length more in
    let seam =
      slice-overwrite_behind b.buf 13 b.length (length (flat s.pending))
        (length (flat (s.pending ++ (c ∷ [])))) c r.size (omega (arith, size, length_more, r.small))
        (omega (arith, size, length_more, r.small, r.room)) in
    (
      record b {
        buf = overwrite b.buf b.length c;
        length = i16 (b.length + n);
        count = i16 (b.count + 1);
      },
      ground (arith, r.size, r.room, len),
      record {
        room = length-overwrite b.buf b.length c ∙ r.room;
        size = omega (arith, r.size, size, length_more, len);
        small = omega (arith, size, length_more, len);
        number = omega (arith, r.number, number, r.few);
        few = omega (arith, r.few, number, size, length_more, len);
        content = seam ∙ ap (λ l. l ++ c) r.content ∙ sym more;
        kind = r.kind;
        sequence = r.sequence;
        pid = r.pid;
      },
    )

-- A command that would end past the buffer is written past it.
pub into_batch-overflows :
    (buf : List ℕ) (n : ℕ) {s : Batching} {b : EventBatch}
    → Represents s b
    → n ≤ length buf
    → 4083 < length (flat s.pending) + n
    → rg_encode_into_batch buf n b ≡ none
unfolding rg_encode_into_batch read memcpy
into_batch-overflows buf n {s} {b} r fits big =
    let len : length (take n buf) ≡ n = omega (arith, length-take n buf) in
    ground (arith, r.size, r.room, len)

-- The header as the batch's own fields make it.
own_header : EventBatch → List ℕ
own_header b =
    le_bytes 2 b.length
    ++ (le_bytes 1 b.type ++ (le_bytes 2 b.count ++ (le_bytes 4 b.sequence ++ le_bytes 4 b.pid)))

own_header-Writes : (b : EventBatch) → Writes (batch_header b) (own_header b)
unfolding batch_header own_header
own_header-Writes b = search writing depth 20

module _ {s : Batching} {b : EventBatch} (r : Represents s b) where
  own_header-eq : own_header b ≡ header_of s.pid s.sequence s.pending
  unfolding own_header
  own_header-eq = rw (r.pid, r.sequence, r.number, r.size, r.kind)

  header-Writes : Writes (batch_header b) (header_of s.pid s.sequence s.pending)
  header-Writes = subst (Writes (batch_header b)) own_header-eq (own_header-Writes b)

  -- The finished batch reads as the packet of the specification; emptied, it represents a batch with
  -- nothing pending under the next sequence number.
  pub batch_header-packet :
      (b' : EventBatch) × (rg_encode_batch_header b ≡ some b')
      × (read b'.buf b'.length ≡ some (packet_bytes s.pid (batched s.sequence s.pending)))
      × Represents
          (record s { sequence = u32 (s.sequence + 1); pending = [] })
          (record b' { length = 13; count = 0 })
  unfolding rg_encode_batch_header packet_bytes read flat
  batch_header-packet =
      let hdr = header_of s.pid s.sequence s.pending in
      let n = length (flat s.pending) in
      let front =
        take-overwrite_front b.buf 13 n b.length hdr refl (omega (arith, r.size))
          (omega (arith, r.room)) in
      let room = length-overwrite b.buf 0 hdr in
      (
        record b { buf = overwrite b.buf 0 hdr; sequence = u32 (b.sequence + 1) },
        rw (encode_at-some b.buf 0 header-Writes (omega (arith, r.room))),
        ground (arith, room, r.room, r.size, r.small, front, r.content),
        record {
          room = room ∙ r.room;
          size = refl;
          small = omega arith;
          number = refl;
          few = omega arith;
          content = refl;
          kind = r.kind;
          sequence = ap (λ k. u32 (k + 1)) r.sequence;
          pid = r.pid;
        },
      )
