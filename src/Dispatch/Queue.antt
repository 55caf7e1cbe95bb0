-- ===== src/Dispatch/Queue.antt =====
-- What the dispatcher relies on of the third-party ring buffer (ext/raygun/bipbuffer.h): messages
-- leave in the order in which they were offered, each in one piece.
use raygun_apm_ruby.Base.{ℕ, ◌+◌, ◌++◌, ◌≤◌, ◌≡◌, List, [], ◌∷◌, some, true, false, length, take}
use raygun_apm_ruby.Sink.Bipbuf.{Bipbuf}

pub record Queue (bip : Bipbuf) : Type 0 where
  -- The messages that were offered and not polled, the first one first.
  pub messages : bip.Buf → List (List ℕ)
  pub empty : (q : bip.Buf) → messages q ≡ [] → bip.is_empty q ≡ true
  pub filled :
      (q : bip.Buf) (m : List ℕ) (ms : List (List ℕ)) → messages q ≡ m ∷ ms → bip.is_empty q ≡ false
  pub peeked :
      (q : bip.Buf) (m : List ℕ) (ms : List (List ℕ)) (n : ℕ)
      → messages q ≡ m ∷ ms
      → n ≤ length m
      → bip.peek q n ≡ some (take n m)
  pub polled :
      (q : bip.Buf) (m : List ℕ) (ms : List (List ℕ))
      → messages q ≡ m ∷ ms
      → ((bip.poll q (length m)).0 ≡ some m) × (messages (bip.poll q (length m)).1 ≡ ms)

-- The number of bytes of the messages.
abbrev pub total : List (List ℕ) → ℕ
total [] = 0
total (m ∷ ms) = length m + total ms

-- Up to some number of bytes, every message that is offered is taken, behind the others.
pub record Fifo (bip : Bipbuf) (queue : Queue bip) : Type 0 where
  pub capacity : ℕ
  pub offered :
      (q : bip.Buf) (m : List ℕ)
      → total (queue.messages q) + length m ≤ capacity
      → queue.messages (bip.offer q m).1 ≡ queue.messages q ++ (m ∷ [])
