-- ===== src/Dispatch/Drain.antt =====
-- A wakeup of a dispatcher thread (ext/raygun/raygun_tracer.c) sends what is in the ring buffer.
use raygun_apm_ruby.Base.{
  ℕ, zero, suc, ◌≤◌, ◌<◌, ◌≡◌, refl, ap, ◌∙◌, arith, List, [], ◌∷◌, some, Bool, true, le_value,
  length, take, take_all, if◌then◌else◌,
}
use raygun_apm_ruby.Sink.Bipbuf.{Bipbuf}
use raygun_apm_ruby.Dispatch.{
  Socket, Dispatcher, udp_iteration, udp_wakeup, rg_ringbuf_next_message_size, inner_loop, udp_send,
  jitter, tcp_send, tcp_iteration, tcp_wakeup,
}
use raygun_apm_ruby.Dispatch.Queue.{Queue}

-- A message begins with its own length, as every batch and every command does.
pub record OwnLength (m : List ℕ) : Type 0 where
  pub not_short : 2 ≤ length m
  pub signed : length m < 32768
  pub announced : le_value (take 2 m) ≡ length m

abbrev pub AllOwnLength : List (List ℕ) → Type 0
AllOwnLength [] = Unit
AllOwnLength (m ∷ ms) = OwnLength m × AllOwnLength ms

module _ (bip : Bipbuf) (queue : Queue bip) {W : Type 0} (socket : Socket W) where
  open queue use {messages, peeked, polled, empty, filled}

  abbrev Dispatching : Type 0
  Dispatching = Dispatcher bip socket

  -- What a send makes of the socket, for each transport.
  abbrev pub udp_sent : List ℕ → W → W
  udp_sent m w = (socket.send m w).1

  abbrev pub tcp_sent : List ℕ → W → W
  tcp_sent m w = let (status, w') = socket.send m w in if status then socket.disconnect w' else w'

  abbrev pub all_sent : (List ℕ → W → W) → List (List ℕ) → W → W
  all_sent sent [] w = w
  all_sent sent (m ∷ ms) w = all_sent sent ms (sent m w)

  -- What is left to send, the socket, and that the thread goes on as it did and leaves the batch.
  pub record Leaves (s s' : Dispatching) (ms : List (List ℕ)) (w : W) : Type 0 where
    pub left : messages s'.sink_data.ringbuf ≡ ms
    pub world : s'.world ≡ w
    pub running : s'.sink_data.running ≡ s.sink_data.running
    pub batch : s'.sink_data.batch ≡ s.sink_data.batch

  next_size-own :
      (s : Dispatching) (m : List ℕ) (ms : List (List ℕ))
      → messages s.sink_data.ringbuf ≡ m ∷ ms
      → OwnLength m
      → rg_ringbuf_next_message_size bip socket s.sink_data.ringbuf ≡ length m
  unfolding rg_ringbuf_next_message_size
  next_size-own s m ms h own =
      rw (rg_ringbuf_next_message_size, peeked s.sink_data.ringbuf m ms 2 h own.not_short)
        own.announced

  udp_iteration-Leaves :
      (s : Dispatching) (m : List ℕ) (ms : List (List ℕ))
      → messages s.sink_data.ringbuf ≡ m ∷ ms
      → OwnLength m
      → let (s', goes_on) = udp_iteration bip socket s in
        Leaves s s' ms (udp_sent m s.world) × (goes_on ≡ true)
  unfolding udp_iteration udp_send jitter
  udp_iteration-Leaves s m ms h own =
      let (payload, rest) = polled s.sink_data.ringbuf m ms h in
      ground (
        arith,
        next_size-own s m ms h own,
        own.not_short,
        own.signed,
        payload,
        rest,
        take_all (length m) m,
      )

  tcp_iteration-Leaves :
      (s : Dispatching) (m : List ℕ) (ms : List (List ℕ))
      → messages s.sink_data.ringbuf ≡ m ∷ ms
      → OwnLength m
      → let (s', goes_on) = tcp_iteration bip socket s in
        Leaves s s' ms (tcp_sent m s.world) × (goes_on ≡ true)
  unfolding tcp_iteration tcp_send
  tcp_iteration-Leaves s m ms h own =
      let (payload, rest) = polled s.sink_data.ringbuf m ms h in
      ground (
        arith,
        next_size-own s m ms h own,
        own.not_short,
        own.signed,
        payload,
        rest,
        take_all (length m) m,
      )

  -- A body that sends the first message makes a loop that sends all of them.
  module _ (body : Dispatching → Dispatching × Bool) (sent : List ℕ → W → W)
      (sends : (s : Dispatching) (m : List ℕ) (ms : List (List ℕ))
        → messages s.sink_data.ringbuf ≡ m ∷ ms
        → OwnLength m
        → let (s', goes_on) = body s in Leaves s s' ms (sent m s.world) × (goes_on ≡ true)) where
    inner_loop-Leaves :
        (ms : List (List ℕ)) (s : Dispatching) (fuel : ℕ)
        → messages s.sink_data.ringbuf ≡ ms
        → AllOwnLength ms
        → length ms ≤ fuel
        → (s' : Dispatching) × (inner_loop bip socket body fuel s ≡ some s')
          × Leaves s s' [] (all_sent sent ms s.world)
    unfolding inner_loop
    inner_loop-Leaves [] s zero h own enough = (
      s,
      ground (arith, empty s.sink_data.ringbuf h),
      record { left = h; world = refl; running = refl; batch = refl },
    )
    inner_loop-Leaves [] s (suc fuel) h own enough = (
      s,
      ground (arith, empty s.sink_data.ringbuf h),
      record { left = h; world = refl; running = refl; batch = refl },
    )
    inner_loop-Leaves (m ∷ ms) s zero h own enough = absurd (omega (arith, enough))
    inner_loop-Leaves (m ∷ ms) s (suc fuel) h (own, owns) enough =
        let (leaves, goes_on) = sends s m ms h own in
        let (s', loops, drained) =
          inner_loop-Leaves ms (body s).0 fuel leaves.left owns (omega (arith, enough)) in
        (
          s',
          ground (arith, filled s.sink_data.ringbuf m ms h, goes_on, loops),
          record {
            left = drained.left;
            world = drained.world ∙ ap (all_sent sent ms) leaves.world;
            running = drained.running ∙ leaves.running;
            batch = drained.batch ∙ leaves.batch;
          },
        )

  -- A wakeup of a dispatcher thread, UDP or TCP, ends once it ran as often as there are messages in
  -- the ring buffer, if each begins with its own length: it hands each of them to the socket, whole
  -- and in order, whether or not sends fail, leaves the ring buffer empty and the batch as it
  -- is, and does not stop the thread.
  pub wakeups-drain :
      (s : Dispatching) (fuel : ℕ)
      → AllOwnLength (messages s.sink_data.ringbuf)
      → length (messages s.sink_data.ringbuf) ≤ fuel
      → ((s' : Dispatching) × (udp_wakeup bip socket fuel s ≡ some s')
          × Leaves s s' [] (all_sent udp_sent (messages s.sink_data.ringbuf) s.world))
        × ((s' : Dispatching) × (tcp_wakeup bip socket fuel s ≡ some s')
            × Leaves s s' [] (all_sent tcp_sent (messages s.sink_data.ringbuf) s.world))
  unfolding udp_wakeup tcp_wakeup
  wakeups-drain s fuel own enough =
      let woken : Dispatching = record s { bytes = 0 } in
      let (u, udp, u_leaves) =
        inner_loop-Leaves (udp_iteration bip socket) udp_sent udp_iteration-Leaves _ woken fuel refl
          own enough in
      let (t, tcp, t_leaves) =
        inner_loop-Leaves (tcp_iteration bip socket) tcp_sent tcp_iteration-Leaves _ woken fuel refl
          own enough in
      (
        (
          u,
          udp,
          record {
            left = u_leaves.left;
            world = u_leaves.world;
            running = u_leaves.running;
            batch = u_leaves.batch;
          },
        ),
        (
          t,
          tcp,
          record {
            left = t_leaves.left;
            world = t_leaves.world;
            running = t_leaves.running;
            batch = t_leaves.batch;
          },
        ),
      )
