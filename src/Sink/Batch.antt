-- ===== src/Sink/Batch.antt =====
-- The batch under construction: `rg_encode_into_batch` and `rg_encode_batch_header` of
-- ext/raygun/raygun_encoder.c. `none` is a `memcpy` out of an array or past one.
use raygun_apm_ruby.Base.{ℕ, ◌+◌, List, Option, some, le_bytes, i16, u32}
use raygun_apm_ruby.Memory.{Writer, put, memcpy, read, ◌>>◌, ◌>>=◌, encode_at}
use raygun_apm_ruby.Protocol.{EventBatch}

unfoldable pub rg_encode_into_batch : List ℕ → ℕ → EventBatch → Option EventBatch
rg_encode_into_batch buf buflen b = do
  xs ← read buf buflen
  buf' ← memcpy b.buf b.length xs
  some (record b { buf = buf'; length = i16 (b.length + buflen); count = i16 (b.count + 1) })

-- The `memcpy`s of `rg_encode_batch_header`.
unfoldable pub batch_header : EventBatch → Writer
batch_header b = do
  put (le_bytes 2 b.length)
  put (le_bytes 1 b.type)
  put (le_bytes 2 b.count)
  put (le_bytes 4 b.sequence)
  put (le_bytes 4 b.pid)

unfoldable pub rg_encode_batch_header : EventBatch → Option EventBatch
rg_encode_batch_header b = do
  (_, buf) ← encode_at (batch_header b) b.buf 0
  some (record b { buf = buf; sequence = u32 (b.sequence + 1) })
