-- ===== src/Event/Encoded.antt =====
-- `rb_rg_event_encoded` (ext/raygun/raygun_event.c).
use raygun_apm_ruby.Base.{
  ℕ, ◌+◌, ◌≤◌, ◌≡◌, ◌≢◌, ◌++◌, ◌∷◌, length-append, refl, sym, ap, ◌∙◌, arith, List, [], Option,
  some, Bool, true, false, length, take, length-take,
}
use raygun_apm_ruby.Memory.{Writer, overwrite, read, memcpy, encode_at, ◌>>=◌}
use raygun_apm_ruby.Memory.Laws.{Writes, encode_at-some, overwrite-append, length-overwrite}
use raygun_apm_ruby.Protocol.{
  Event, EventData, begin, end, methodinfo, exception_thrown, thread_ended, process_ended,
  process_frequency, process_type, batch, sql, http_in, http_out, begin_transaction,
  end_transaction, thread_started, ThreadStarted, min_payload,
}
use raygun_apm_ruby.Protocol.Valid.{IsValidData}
use raygun_apm_ruby.Encoder.Size.{rg_encode_size}
use raygun_apm_ruby.Encoder.Wire.{body_bytes, header_bytes, command_bytes}
use raygun_apm_ruby.Encoder.Bounds.{
  encode_size-body, length-body-le, length-header, length-command, length-variable-le,
}
use raygun_apm_ruby.Encoder.Layout.{
  header-Writes, methodinfo-Writes, sql-Writes, end-Writes, begin-Writes, exception_thrown-Writes,
  process_type-Writes, http_in-Writes, http_out-Writes, begin_transaction-Writes,
  thread_started-Writes,
}
use raygun_apm_ruby.Encoder.{
  rg_encode_header_impl, rg_encode_methodinfo, rg_encode_sql, rg_encode_http_in,
  rg_encode_process_type, rg_encode_begin_transaction, rg_encode_http_out, rg_encode_begin,
  rg_encode_end, rg_encode_thread_started, rg_encode_exception_thrown,
}

-- The header at the start of the string, the body behind it.
unfoldable pub encode_into : Event → Writer → List ℕ → Option (List ℕ)
encode_into e body buf = do
  (_, buf') ← encode_at (rg_encode_header_impl e) buf 0
  (_, buf'') ← encode_at body buf' min_payload
  some buf''

-- `memcpy(buf, event, event->length)`: `image` is what the struct is in memory.
unfoldable pub copy_struct : List ℕ → Event → List ℕ → Option (List ℕ)
copy_struct image e buf = do xs ← read image e.length; memcpy buf 0 xs

-- The `switch` on the type of the event. The case of a started thread has no `break`.
unfoldable pub encode_switch : List ℕ → Event → List ℕ → EventData → Option (List ℕ)
unfolding encode_into copy_struct
encode_switch image e buf (begin b) = encode_into e (rg_encode_begin b) buf
encode_switch image e buf (end x) = encode_into e (rg_encode_end x) buf
encode_switch image e buf (methodinfo m) = encode_into e (rg_encode_methodinfo m) buf
encode_switch image e buf (sql q) = encode_into e (rg_encode_sql q) buf
encode_switch image e buf (http_in h) = encode_into e (rg_encode_http_in h) buf
encode_switch image e buf (http_out h) = encode_into e (rg_encode_http_out h) buf
encode_switch image e buf (process_type p) = encode_into e (rg_encode_process_type p) buf
encode_switch image e buf (begin_transaction t) = encode_into e (rg_encode_begin_transaction t) buf
encode_switch image e buf (exception_thrown x) = encode_into e (rg_encode_exception_thrown x) buf
encode_switch image e buf batch = some buf
encode_switch image e buf (thread_started t) =
    encode_into e (rg_encode_thread_started t) buf >>= λ buf'. copy_struct image e buf'
encode_switch image e buf thread_ended = copy_struct image e buf
encode_switch image e buf process_ended = copy_struct image e buf
encode_switch image e buf (process_frequency _) = copy_struct image e buf
encode_switch image e buf end_transaction = copy_struct image e buf

-- `buf` is the new string buffer, of `event->length` bytes.
unfoldable pub rb_rg_event_encoded : (Event → List ℕ) → Event → List ℕ → Option (List ℕ)
unfolding encode_switch
rb_rg_event_encoded image e buf = encode_switch (image e) e buf e.payload

overwrite_whole : (buf xs : List ℕ) → length buf ≡ length xs → overwrite buf 0 xs ≡ xs
unfolding overwrite
overwrite_whole [] [] h = refl
overwrite_whole [] (x ∷ xs) h = absurd (omega (arith, h))
overwrite_whole (b ∷ bs) [] h = absurd (omega (arith, h))
overwrite_whole (b ∷ bs) (x ∷ xs) h = ap (λ l. x ∷ l) (overwrite_whole bs xs (omega (arith, h)))

-- The events whose encoding is a raw copy of the struct.
unfoldable pub copied_raw : EventData → Bool
copied_raw (thread_started _) = true
copied_raw thread_ended = true
copied_raw process_ended = true
copied_raw (process_frequency _) = true
copied_raw end_transaction = true
copied_raw _ = false

encode_into-command :
    (e : Event) (w : Writer) (buf : List ℕ) (d : EventData)
    → e.payload ≡ d
    → Writes w (body_bytes d)
    → length (body_bytes d) ≤ 16404
    → length buf ≡ 19 + length (body_bytes d)
    → encode_into e w buf ≡ some (command_bytes e)
unfolding encode_into command_bytes
encode_into-command e w buf d q p small room = ground (
  arith,
  q,
  encode_at-some buf 0 (header-Writes e) (omega (arith, room, length-header e)),
  encode_at-some (overwrite buf 0 (header_bytes e)) 19 p
      (omega (arith, room, length-overwrite buf 0 (header_bytes e))),
  overwrite-append buf 0 19 (header_bytes e) (body_bytes d) (sym (length-header e)),
  overwrite_whole buf (header_bytes e ++ body_bytes d)
      (omega (arith, room, length-header e, length-append (header_bytes e) (body_bytes d))),
)

switch-command :
    (image : List ℕ) (e : Event) (buf : List ℕ) (d : EventData)
    → e.payload ≡ d
    → IsValidData d
    → d ≢ batch
    → copied_raw d ≡ false
    → length buf ≡ 19 + length (body_bytes d)
    → encode_switch image e buf d ≡ some (command_bytes e)
unfolding encode_switch copied_raw
switch-command image e buf (begin b) q v n raw room =
    encode_into-command e _ buf (begin b) q (begin-Writes b) (length-body-le (begin b) v) room
switch-command image e buf (end x) q v n raw room =
    encode_into-command e _ buf (end x) q
      (end-Writes x v (omega (arith, length-variable-le x.returnvalue v)))
      (length-body-le (end x) v) room
switch-command image e buf (methodinfo m) q v n raw room =
    encode_into-command e _ buf (methodinfo m) q (methodinfo-Writes m v)
      (length-body-le (methodinfo m) v) room
switch-command image e buf (sql s) q v n raw room =
    encode_into-command e _ buf (sql s) q (sql-Writes s v) (length-body-le (sql s) v) room
switch-command image e buf (http_in h) q v n raw room =
    encode_into-command e _ buf (http_in h) q (http_in-Writes h v) (length-body-le (http_in h) v)
      room
switch-command image e buf (http_out h) q v n raw room =
    encode_into-command e _ buf (http_out h) q (http_out-Writes h v) (length-body-le (http_out h) v)
      room
switch-command image e buf (process_type p) q v n raw room =
    encode_into-command e _ buf (process_type p) q (process_type-Writes p v)
      (length-body-le (process_type p) v) room
switch-command image e buf (begin_transaction t) q v n raw room =
    encode_into-command e _ buf (begin_transaction t) q (begin_transaction-Writes t v)
      (length-body-le (begin_transaction t) v) room
switch-command image e buf (exception_thrown x) q v n raw room =
    encode_into-command e _ buf (exception_thrown x) q (exception_thrown-Writes x v)
      (length-body-le (exception_thrown x) v) room
switch-command image e buf batch q v n raw room = absurd (n refl)
switch-command image e buf _ q v n raw room = ground (arith, raw)

-- The encoding of an event that the library sets up, whose struct is not copied raw, is exactly the
-- command that the sink would be handed: the header and the body, on a string of their length.
pub event_encoded-command :
    (image : Event → List ℕ) (e : Event) (buf : List ℕ)
    → IsValidData e.payload
    → e.payload ≢ batch
    → copied_raw e.payload ≡ false
    → e.length ≡ rg_encode_size e.payload
    → length buf ≡ e.length
    → rb_rg_event_encoded image e buf ≡ some (command_bytes e)
unfolding rb_rg_event_encoded
event_encoded-command image e buf v n raw size room =
    switch-command (image e) e buf e.payload refl v n raw
      (room ∙ size ∙ encode_size-body e.payload v n)

-- A started thread's event is encoded as a raw copy of the struct, whatever the encoder wrote
-- before: the case has no `break`.
pub thread_started_encoded-image :
    (image : Event → List ℕ) (e : Event) (t : ThreadStarted) (buf : List ℕ)
    → e.payload ≡ thread_started t
    → e.length ≡ 23
    → length buf ≡ 23
    → 23 ≤ length (image e)
    → rb_rg_event_encoded image e buf ≡ some (take 23 (image e))
unfolding rb_rg_event_encoded encode_switch copy_struct read memcpy body_bytes
thread_started_encoded-image image e t buf is size room large =
    let encoded =
      encode_into-command e (rg_encode_thread_started t) buf (thread_started t) is
        (thread_started-Writes t) (length-body-le (thread_started t) tt) room in
    let taken : length (take 23 (image e)) ≡ 23 = omega (arith, large, length-take 23 (image e)) in
    let written : length (command_bytes e) ≡ 23 =
      length-command e ∙ ap (λ d. 19 + length (body_bytes d)) is in
    ground (
      arith,
      is,
      encoded,
      taken,
      overwrite_whole (command_bytes e) (take 23 (image e)) (omega (arith, taken, written)),
    )
