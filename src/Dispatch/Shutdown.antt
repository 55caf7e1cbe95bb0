-- ===== src/Dispatch/Shutdown.antt =====
-- The end of the dispatcher threads (ext/raygun/raygun_tracer.c): the outer loops of
-- `rb_rg_udp_sink_thread` and `rb_rg_tcp_sink_thread` once they are told to stop, and on a message that has no
-- size.
use raygun_apm_ruby.Base.{
  ℕ, suc, ◌≤◌, ◌≡◌, refl, sym, ap, ◌∙◌, arith, List, [], ◌∷◌, Option, some, Bool, true, false, not,
  ◌||◌, length, if_false, if◌then◌else◌,
}
use raygun_apm_ruby.Sink.Bipbuf.{Bipbuf}
use raygun_apm_ruby.Sink.Batched.{SinkData}
use raygun_apm_ruby.Dispatch.{
  Socket, Dispatcher, not_positive, rg_ringbuf_next_message_size, udp_iteration, tcp_iteration,
  udp_wakeup, tcp_wakeup, inner_loop, outer_loop, goes_on, rb_rg_udp_sink_thread,
  rb_rg_tcp_sink_thread,
}
use raygun_apm_ruby.Dispatch.Queue.{Queue}
use raygun_apm_ruby.Dispatch.Drain.{
  AllOwnLength, Leaves, all_sent, udp_sent, tcp_sent, wakeups-drain,
}

if_true {ℓ} : {A : Type ℓ} (b : Bool) (x y : A) → b ≡ true → (if b then x else y) ≡ x
if_true b x y h = rw h

or_true : (b : Bool) → (b || true) ≡ true
or_true true = refl
or_true false = refl

module _ (bip : Bipbuf) {W : Type 0} (socket : Socket W) where
  open bip use {Buf, is_empty}

  -- The loop is not over, and nothing has left.
  pub record Spins (s : Dispatcher bip socket) (result : Option (Dispatcher bip socket × Bool))
      : Type 0 where
    pub after : Dispatcher bip socket
    pub returns : result ≡ some (after, false)
    pub world : after.world ≡ s.world
    pub ringbuf : after.sink_data.ringbuf ≡ s.sink_data.ringbuf

  goes_on-filled :
      (s : Dispatcher bip socket)
      → is_empty s.sink_data.ringbuf ≡ false
      → goes_on bip socket s ≡ true
  goes_on-filled s filled =
      ap (λ e. s.sink_data.running || not e) filled ∙ or_true s.sink_data.running

  -- What a wakeup makes of a message that has no size.
  record Stops (s : Dispatcher bip socket) (result : Option (Dispatcher bip socket)) : Type 0 where
    after : Dispatcher bip socket
    returns : result ≡ some after
    stopped : after.sink_data.running ≡ false
    world : after.world ≡ s.world
    ringbuf : after.sink_data.ringbuf ≡ s.sink_data.ringbuf

  udp_wakeup-Stops :
      (fuel : ℕ) (s : Dispatcher bip socket)
      → is_empty s.sink_data.ringbuf ≡ false
      → not_positive bip socket (rg_ringbuf_next_message_size bip socket s.sink_data.ringbuf) ≡ true
      → Stops s (udp_wakeup bip socket (suc fuel) s)
  unfolding udp_wakeup inner_loop udp_iteration
  udp_wakeup-Stops fuel s filled bad = record {
    after = record s { sink_data = record s.sink_data { running = false }; bytes = 0 };
    returns = ground (arith, filled, bad);
    stopped = refl;
    world = refl;
    ringbuf = refl;
  }

  tcp_wakeup-Stops :
      (fuel : ℕ) (s : Dispatcher bip socket)
      → is_empty s.sink_data.ringbuf ≡ false
      → not_positive bip socket (rg_ringbuf_next_message_size bip socket s.sink_data.ringbuf) ≡ true
      → Stops s (tcp_wakeup bip socket (suc fuel) s)
  unfolding tcp_wakeup inner_loop tcp_iteration
  tcp_wakeup-Stops fuel s filled bad = record {
    after = record s { sink_data = record s.sink_data { running = false }; bytes = 0 };
    returns = ground (arith, filled, bad);
    stopped = refl;
    world = refl;
    ringbuf = refl;
  }

  outer_loop-Spins :
      (wakeup : Dispatcher bip socket → Option (Dispatcher bip socket))
      → ((s : Dispatcher bip socket)
          → is_empty s.sink_data.ringbuf ≡ false
          → not_positive bip socket (rg_ringbuf_next_message_size bip socket s.sink_data.ringbuf)
            ≡ true
          → Stops s (wakeup s))
      → (naps : List (SinkData Buf → SinkData Buf)) (s : Dispatcher bip socket)
      → is_empty s.sink_data.ringbuf ≡ false
      → not_positive bip socket (rg_ringbuf_next_message_size bip socket s.sink_data.ringbuf) ≡ true
      → Spins s (outer_loop bip socket wakeup naps s)
  unfolding outer_loop
  outer_loop-Spins wakeup stops [] s filled bad = record {
    after = s;
    returns = ap (λ b. some (s, not b)) (goes_on-filled s filled);
    world = refl;
    ringbuf = refl;
  }
  outer_loop-Spins wakeup stops (nap ∷ naps) s filled bad =
      let stop = stops s filled bad in
      let s' = stop.after in
      let rest = outer_loop-Spins wakeup stops naps s' (ap is_empty stop.ringbuf ∙ filled) (
        ap (λ q. not_positive bip socket (rg_ringbuf_next_message_size bip socket q)) stop.ringbuf
        ∙ bad) in
      record {
        after = rest.after;
        returns =
            if_true (goes_on bip socket s) _ _ (goes_on-filled s filled)
            ∙ rw stop.returns (
                ap (outer_loop bip socket wakeup naps) (
                  if_false s'.sink_data.running (record s' { sink_data = nap s'.sink_data }) s'
                    stop.stopped)
                ∙ rest.returns);
        world = rest.world ∙ stop.world;
        ringbuf = rest.ringbuf ∙ stop.ringbuf;
      }

  -- On a message that announces no size, or 32768 bytes and more, the loops of both dispatcher threads do
  -- not end: after any number of iterations the loop goes on, whatever other threads would do in its
  -- naps, the ring buffer is as it was and the socket was handed nothing.
  pub sink_threads-spin :
      (fuel : ℕ) (naps : List (SinkData Buf → SinkData Buf)) (s : Dispatcher bip socket)
      → is_empty s.sink_data.ringbuf ≡ false
      → not_positive bip socket (rg_ringbuf_next_message_size bip socket s.sink_data.ringbuf) ≡ true
      → Spins s (rb_rg_udp_sink_thread bip socket (suc fuel) naps s)
        × Spins s (rb_rg_tcp_sink_thread bip socket (suc fuel) naps s)
  unfolding rb_rg_udp_sink_thread rb_rg_tcp_sink_thread
  sink_threads-spin fuel naps s filled bad = (
    outer_loop-Spins (udp_wakeup bip socket (suc fuel)) (udp_wakeup-Stops fuel) naps s filled bad,
    outer_loop-Spins (tcp_wakeup bip socket (suc fuel)) (tcp_wakeup-Stops fuel) naps s filled bad,
  )

  outer_loop-over :
      (wakeup : Dispatcher bip socket → Option (Dispatcher bip socket))
      (naps : List (SinkData Buf → SinkData Buf)) (s : Dispatcher bip socket)
      → goes_on bip socket s ≡ false
      → outer_loop bip socket wakeup naps s ≡ some (s, true)
  unfolding outer_loop
  outer_loop-over wakeup [] s over = ap (λ b. some (s, not b)) over
  outer_loop-over wakeup (nap ∷ naps) s over = if_false (goes_on bip socket s) _ _ over

  goes_on-drained :
      (s : Dispatcher bip socket)
      → s.sink_data.running ≡ false
      → is_empty s.sink_data.ringbuf ≡ true
      → goes_on bip socket s ≡ false
  goes_on-drained s stopped empty =
      ap (λ r. r || not (is_empty s.sink_data.ringbuf)) stopped ∙ ap not empty

  module _ (queue : Queue bip) where
    open queue use {messages, empty, filled}

    -- The loop is over, and what was in the ring buffer was sent.
    pub record Ends (sent : List ℕ → W → W) (s : Dispatcher bip socket)
        (result : Option (Dispatcher bip socket × Bool)) : Type 0 where
      pub after : Dispatcher bip socket
      pub returns : result ≡ some (after, true)
      pub drained : messages after.sink_data.ringbuf ≡ []
      pub world :
          after.world ≡ all_sent bip queue socket sent (messages s.sink_data.ringbuf) s.world

    module _ (fuel : ℕ) (wakeup : Dispatcher bip socket → Option (Dispatcher bip socket))
        (sent : List ℕ → W → W)
        (drains : (s : Dispatcher bip socket)
          → AllOwnLength (messages s.sink_data.ringbuf)
          → length (messages s.sink_data.ringbuf) ≤ fuel
          → (s' : Dispatcher bip socket) × (wakeup s ≡ some s')
            × Leaves bip queue socket s s' []
                (all_sent bip queue socket sent (messages s.sink_data.ringbuf) s.world)) where
      outer_loop-Ends :
          (nap : SinkData Buf → SinkData Buf) (naps : List (SinkData Buf → SinkData Buf))
          (s : Dispatcher bip socket) (ms : List (List ℕ))
          → messages s.sink_data.ringbuf ≡ ms
          → s.sink_data.running ≡ false
          → AllOwnLength (messages s.sink_data.ringbuf)
          → length (messages s.sink_data.ringbuf) ≤ fuel
          → Ends sent s (outer_loop bip socket wakeup (nap ∷ naps) s)
      unfolding outer_loop
      outer_loop-Ends nap naps s [] e stopped own enough = record {
        after = s;
        returns =
            outer_loop-over wakeup (nap ∷ naps) s
              (goes_on-drained s stopped (empty s.sink_data.ringbuf e));
        drained = e;
        world = ap (λ l. all_sent bip queue socket sent l s.world) (sym e);
      }
      outer_loop-Ends nap naps s (m ∷ ms) e stopped own enough =
          let (s', woken, leaves) = drains s own enough in
          let stopped' : s'.sink_data.running ≡ false = leaves.running ∙ stopped in
          record {
            after = s';
            returns =
                if_true (goes_on bip socket s) _ _
                  (goes_on-filled s (filled s.sink_data.ringbuf m ms e))
                ∙ rw woken (
                    ap (outer_loop bip socket wakeup naps) (
                      if_false s'.sink_data.running (record s' { sink_data = nap s'.sink_data }) s'
                        stopped')
                    ∙ outer_loop-over wakeup naps s'
                        (goes_on-drained s' stopped' (empty s'.sink_data.ringbuf leaves.left)));
            drained = leaves.left;
            world = leaves.world;
          }

    -- A dispatcher thread, UDP or TCP, that is told to stop ends its loop after one more wakeup, if
    -- the messages in the ring buffer begin with their own lengths and the wakeup runs as often as there
    -- are messages: each of them was handed to the socket, whole and in order, whether or not sends
    -- fail, and the ring buffer is empty.
    pub sink_threads-Ends :
        (fuel : ℕ) (nap : SinkData Buf → SinkData Buf) (naps : List (SinkData Buf → SinkData Buf))
        (s : Dispatcher bip socket)
        → s.sink_data.running ≡ false
        → AllOwnLength (messages s.sink_data.ringbuf)
        → length (messages s.sink_data.ringbuf) ≤ fuel
        → Ends (udp_sent bip queue socket) s (rb_rg_udp_sink_thread bip socket fuel (nap ∷ naps) s)
          × Ends
              (tcp_sent bip queue socket)
              s
              (rb_rg_tcp_sink_thread bip socket fuel (nap ∷ naps) s)
    unfolding rb_rg_udp_sink_thread rb_rg_tcp_sink_thread
    sink_threads-Ends fuel nap naps s stopped own enough = (
      outer_loop-Ends fuel (udp_wakeup bip socket fuel) (udp_sent bip queue socket)
          (λ t o n. (wakeups-drain bip queue socket t fuel o n).0) nap naps s _ refl stopped own
          enough,
      outer_loop-Ends fuel (tcp_wakeup bip socket fuel) (tcp_sent bip queue socket)
          (λ t o n. (wakeups-drain bip queue socket t fuel o n).1) nap naps s _ refl stopped own
          enough,
    )
