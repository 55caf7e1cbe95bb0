-- ===== src/Sink/Bipbuf.antt =====
-- The third-party ring buffer (ext/raygun/bipbuffer.h), which is a parameter of the sinks. A pointer
-- that it returns is read at once, so it stands for the bytes behind it.
use raygun_apm_ruby.Base.{ℕ, Bool, List, Option}

pub record Bipbuf : Type 1 where
  pub Buf : Type 0
  -- `bipbuf_used`.
  pub used : Buf → ℕ
  -- `bipbuf_is_empty`.
  pub is_empty : Buf → Bool
  -- `bipbuf_offer`: the number of bytes taken, and the buffer after it.
  pub offer : Buf → List ℕ → ℕ × Buf
  -- `bipbuf_peek` and `bipbuf_poll` for a number of bytes; none is NULL.
  pub peek : Buf → ℕ → Option (List ℕ)
  pub poll : Buf → ℕ → Option (List ℕ) × Buf
