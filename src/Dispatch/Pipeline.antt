-- ===== src/Dispatch/Pipeline.antt =====
-- From the encoder to the network (ext/raygun/raygun_tracer.c): bursts of calls of the batched sink,
-- between which a dispatcher thread wakes up.
use raygun_apm_ruby.Base.{
  ℕ, ◌+◌, ◌≤◌, ◌≡◌, refl, sym, ap, ◌∙◌, arith, List, [], ◌∷◌, ◌++◌, Option, some, length,
  length-take,
}
use mathlib.Core.Path.{subst}
use mathlib.Core.List.{append-nil, append_assoc}
use raygun_apm_ruby.Memory.{◌>>=◌}
use raygun_apm_ruby.Sink.Bipbuf.{Bipbuf}
use raygun_apm_ruby.Sink.Spec.{Command, Packet, Batching, packet_bytes, run, commands_of, given}
use raygun_apm_ruby.Sink.Represents.{Represents}
use raygun_apm_ruby.Sink.Sends.{offer_all, Holds}
use raygun_apm_ruby.Sink.Conserve.{commands_of-append, run-conserves}
use raygun_apm_ruby.Sink.Run.{
  SinkCall, emitted, timed, commands, AllFit, run_sink, run_sink-Runs, next_number,
  next_number-append, run-Keeps, FitBatch-commands,
}
use raygun_apm_ruby.Dispatch.{Socket, Dispatcher, udp_wakeup, tcp_wakeup}
use raygun_apm_ruby.Dispatch.Queue.{Queue, Fifo, total}
use raygun_apm_ruby.Dispatch.Drain.{
  AllOwnLength, Leaves, all_sent, udp_sent, tcp_sent, wakeups-drain,
}
use raygun_apm_ruby.Dispatch.Packets.{all_bytes, AllShort, run-own}

AllShort-commands : (cs : List SinkCall) → AllFit cs → AllShort (commands cs)
AllShort-commands [] h = tt
AllShort-commands (emitted ctx e n ∷ cs) (pos, fits, small, rest) =
    (omega (arith, length-take n ctx.buf, small), AllShort-commands cs rest)
AllShort-commands (timed ctx n ∷ cs) h = AllShort-commands cs h

total-append : (ms ns : List (List ℕ)) → total (ms ++ ns) ≡ total ms + total ns
total-append [] ns = omega arith
total-append (m ∷ ms) ns = omega (arith, total-append ms ns)

all_bytes-append :
    (pid : ℕ) (ps qs : List Packet)
    → all_bytes pid (ps ++ qs) ≡ all_bytes pid ps ++ all_bytes pid qs
all_bytes-append pid [] qs = refl
all_bytes-append pid (p ∷ ps) qs = ap (λ l. packet_bytes pid p ∷ l) (all_bytes-append pid ps qs)

length-all_bytes : (pid : ℕ) (ps : List Packet) → length (all_bytes pid ps) ≡ length ps
length-all_bytes pid [] = refl
length-all_bytes pid (p ∷ ps) = omega (arith, length-all_bytes pid ps)

-- Nothing is lost between two runs.
commands-joined :
    (before middle after first second : List Command) (ps qs : List Packet)
    → commands_of ps ++ middle ≡ before ++ first
    → commands_of qs ++ after ≡ middle ++ second
    → commands_of (ps ++ qs) ++ after ≡ before ++ (first ++ second)
commands-joined before middle after first second ps qs here there =
    ap (λ l. l ++ after) (commands_of-append ps qs)
    ∙ append_assoc (commands_of ps) (commands_of qs) after
    ∙ ap (λ l. commands_of ps ++ l) there
    ∙ sym (append_assoc (commands_of ps) middle second)
    ∙ ap (λ l. l ++ second) here
    ∙ append_assoc before first second

-- The commands of all bursts, in order.
abbrev pub all_commands : List (List SinkCall) → List Command
all_commands [] = []
all_commands (cs ∷ rounds) = given (commands cs) ++ all_commands rounds

module _ (bip : Bipbuf) (queue : Queue bip) (fifo : Fifo bip queue) where
  open bip use {Buf}
  open queue use {messages}

  -- The packets of a burst are taken, behind what is there.
  offer_all-messages :
      (pid : ℕ) (ps : List Packet) (q : Buf)
      → total (messages q) + total (all_bytes pid ps) ≤ fifo.capacity
      → messages (offer_all bip pid ps q) ≡ messages q ++ all_bytes pid ps
  offer_all-messages pid [] q room = sym (append-nil (messages q))
  offer_all-messages pid (p ∷ ps) q room =
      let m = packet_bytes pid p in
      let taken = fifo.offered q m (omega (arith, room)) in
      let more : total (messages (bip.offer q m).1) ≡ total (messages q) + length m =
        ap total taken ∙ total-append (messages q) (m ∷ []) ∙ omega arith in
      offer_all-messages pid ps (bip.offer q m).1 (omega (arith, room, more))
      ∙ ap (λ l. l ++ all_bytes pid ps) taken
      ∙ append_assoc (messages q) (m ∷ []) (all_bytes pid ps)

  -- Every burst fits the ring buffer, and a wakeup runs as often as it has packets.
  abbrev pub RoundsFit : ℕ → Batching → List (List SinkCall) → Type 0
  RoundsFit fuel s [] = Unit
  RoundsFit fuel s (cs ∷ rounds) =
      AllFit cs
      × (length (run s (commands cs)).1 ≤ fuel)
      × (total (all_bytes s.pid (run s (commands cs)).1) ≤ fifo.capacity)
      × RoundsFit fuel (run s (commands cs)).0 rounds

  module _ {W : Type 0} (socket : Socket W) where
    abbrev pub Dispatching : Type 0
    Dispatching = Dispatcher bip socket

    -- A burst of calls of the sink while the thread sleeps, then a wakeup, and so on.
    unfoldable pub run_rounds :
        (Dispatching → Option Dispatching) → Dispatching → List (List SinkCall) → Option Dispatching
    run_rounds wakeup t [] = some t
    run_rounds wakeup t (cs ∷ rounds) = run_sink bip t.sink_data cs >>= λ d.
        wakeup (record t { sink_data = d }) >>= λ t'. run_rounds wakeup t' rounds

    -- What has arrived when the rounds are over: the packets `ps` on the socket and nothing in the
    -- ring buffer, the rest pending.
    pub record Delivered (sent : List ℕ → W → W) (s : Batching) (t : Dispatching)
        (given : List Command) (result : Option Dispatching) : Type 0 where
      pub packets : List Packet
      pub pending : Batching
      pub after : Dispatching
      pub returns : result ≡ some after
      pub holds : Holds bip pending after.sink_data
      pub empty : messages after.sink_data.ringbuf ≡ []
      pub arrived : after.world ≡ all_sent bip queue socket sent (all_bytes s.pid packets) t.world
      pub numbers : next_number s.sequence packets ≡ some pending.sequence
      pub commands : commands_of packets ++ pending.pending ≡ s.pending ++ given

    all_sent-append :
        (sent : List ℕ → W → W) (ms ns : List (List ℕ)) (w : W)
        → all_sent bip queue socket sent (ms ++ ns) w
          ≡ all_sent bip queue socket sent ns (all_sent bip queue socket sent ms w)
    all_sent-append sent [] ns w = refl
    all_sent-append sent (m ∷ ms) ns w = all_sent-append sent ms ns (sent m w)

    -- Two runs of messages on the socket are one.
    sent-joined :
        {pid pid' : ℕ} {ms : List (List ℕ)} {w₁ w₂ : W}
        → (sent : List ℕ → W → W) (ps qs : List Packet) (w : W) → pid' ≡ pid
        → ms ≡ all_bytes pid ps
        → w₁ ≡ all_sent bip queue socket sent ms w
        → w₂ ≡ all_sent bip queue socket sent (all_bytes pid' qs) w₁
        → w₂ ≡ all_sent bip queue socket sent (all_bytes pid (ps ++ qs)) w
    sent-joined {pid} {w₁} sent ps qs w same queued first second =
        let through = all_sent bip queue socket sent in
        second
        ∙ ap (λ k. through (all_bytes k qs) w₁) same
        ∙ ap (through (all_bytes pid qs)) (first ∙ ap (λ l. through l w) queued)
        ∙ sym (all_sent-append sent (all_bytes pid ps) (all_bytes pid qs) w)
        ∙ ap (λ l. through l w) (sym (all_bytes-append pid ps qs))

    module _ (fuel : ℕ) (wakeup : Dispatching → Option Dispatching) (sent : List ℕ → W → W)
        (drains : (t : Dispatching)
          → AllOwnLength (messages t.sink_data.ringbuf)
          → length (messages t.sink_data.ringbuf) ≤ fuel
          → (t' : Dispatching) × (wakeup t ≡ some t')
            × Leaves bip queue socket t t' []
                (all_sent bip queue socket sent (messages t.sink_data.ringbuf) t.world)) where
      rounds-deliver :
          (rounds : List (List SinkCall)) (s : Batching) (t : Dispatching)
          → Holds bip s t.sink_data
          → messages t.sink_data.ringbuf ≡ []
          → RoundsFit fuel s rounds
          → Delivered sent s t (all_commands rounds) (run_rounds wakeup t rounds)
      unfolding run_rounds next_number
      rounds-deliver [] s t holds drained fit = record {
        packets = [];
        pending = s;
        after = t;
        returns = refl;
        holds = holds;
        empty = drained;
        arrived = refl;
        numbers = refl;
        commands = sym (append-nil s.pending);
      }
      rounds-deliver (cs ∷ rounds) s t holds drained (fits, enough, room, fit) =
          let (s₁, ps) = run s (commands cs) in
          let burst = run_sink-Runs bip cs s t.sink_data holds fits in
          let kept = run-Keeps s (commands cs) in
          let queued : messages burst.after.ringbuf ≡ all_bytes s.pid ps =
            ap messages burst.offered
            ∙ offer_all-messages s.pid ps t.sink_data.ringbuf
                (omega (arith, ap total drained, room))
            ∙ ap (λ l. l ++ all_bytes s.pid ps) drained in
          let t₁ : Dispatching = record t { sink_data = burst.after } in
          let own = run-own s.pid s (commands cs) holds.within (AllShort-commands cs fits) in
          let (t₂, woken, leaves) =
            drains t₁ (subst AllOwnLength (sym queued) own)
              (omega (arith, ap length queued, length-all_bytes s.pid ps, enough)) in
          let holds₂ : Holds bip s₁ t₂.sink_data = record {
            represents = subst (Represents s₁) (sym leaves.batch) burst.holds.represents;
            within = burst.holds.within;
          } in
          let rest = rounds-deliver rounds s₁ t₂ holds₂ leaves.left fit in
          record {
            packets = ps ++ rest.packets;
            pending = rest.pending;
            after = rest.after;
            returns = rw (burst.returns, woken) rest.returns;
            holds = rest.holds;
            empty = rest.empty;
            arrived =
                sent-joined sent ps rest.packets t.world kept.pid queued leaves.world rest.arrived;
            numbers =
                next_number-append ps rest.packets s.sequence s₁.sequence kept.numbers
                ∙ rest.numbers;
            commands =
                commands-joined s.pending s₁.pending rest.pending.pending (given (commands cs))
                  (all_commands rounds) ps rest.packets
                  (run-conserves s (commands cs) (FitBatch-commands cs fits)) rest.commands;
          }

    -- For any bursts of calls of the batched sink, flushes in between, whose commands are shorter than
    -- 4084 bytes and whose packets fit the ring buffer, with a wakeup of the thread after each that
    -- runs as often as there are packets: over UDP and over TCP every call and every wakeup returns
    -- and the ring buffer is empty in the end. The socket was handed packets under consecutive
    -- sequence numbers, each whole and in order, whether or not sends fail, and their commands with
    -- those that are then pending are exactly those that were pending and those of the bursts, in
    -- order.
    pub rounds-Delivered :
        (fuel : ℕ) (rounds : List (List SinkCall)) (s : Batching) (t : Dispatching)
        → Holds bip s t.sink_data
        → messages t.sink_data.ringbuf ≡ []
        → RoundsFit fuel s rounds
        → Delivered
            (udp_sent bip queue socket)
            s
            t
            (all_commands rounds)
            (run_rounds (udp_wakeup bip socket fuel) t rounds)
          × Delivered
              (tcp_sent bip queue socket)
              s
              t
              (all_commands rounds)
              (run_rounds (tcp_wakeup bip socket fuel) t rounds)
    rounds-Delivered fuel rounds s t holds empty fit = (
      rounds-deliver fuel (udp_wakeup bip socket fuel) (udp_sent bip queue socket)
          (λ t' own enough. (wakeups-drain bip queue socket t' fuel own enough).0) rounds s t holds
          empty fit,
      rounds-deliver fuel (tcp_wakeup bip socket fuel) (tcp_sent bip queue socket)
          (λ t' own enough. (wakeups-drain bip queue socket t' fuel own enough).1) rounds s t holds
          empty fit,
    )
