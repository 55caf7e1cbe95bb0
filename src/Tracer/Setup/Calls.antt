-- ===== src/Tracer/Setup/Calls.antt =====
-- The calls that set something on a tracer (ext/raygun/raygun_tracer.c), and what emission needs of the
-- sink that they set.
use raygun_apm_ruby.Base.{ℕ, ◌≡◌, ◌≢◌, List, [], ◌∷◌, Option, none}
use raygun_apm_ruby.Tracer.Timer.{SinkType, sink_none, sink_callback, sink_udp, sink_tcp}
use raygun_apm_ruby.Tracer.Setup.{
  Value, fixnum, num2int, SinkFunction, blackhole, callback_sink, batched_sink, Config, World,
  SinkArgs, Outcome, rb_rg_tracer_callback_sink_set, rb_rg_tracer_udp_sink_set,
  rb_rg_tracer_tcp_sink_set, rb_rg_tracer_log_level_equals, rb_rg_tracer_environment_equals,
  rb_rg_tracer_debug_blacklist_equals, rb_rg_tracer_api_key_equals, rb_rg_tracer_noop_bang,
}

-- A call of the Ruby API that sets something.
pub data SetupCall : Type 0 where
  set_callback_sink : Value → SetupCall
  set_udp_sink : SinkArgs → SetupCall
  set_tcp_sink : SinkArgs → SetupCall
  set_log_level : Value → SetupCall
  set_environment : Value → SetupCall
  set_debug_blacklist : Value → SetupCall
  set_api_key : Value → SetupCall
  set_noop : SetupCall

unfoldable pub setup : World → Config → SetupCall → Outcome
setup w c (set_callback_sink callback) = rb_rg_tracer_callback_sink_set w c callback
setup w c (set_udp_sink k) = rb_rg_tracer_udp_sink_set w c k
setup w c (set_tcp_sink k) = rb_rg_tracer_tcp_sink_set w c k
setup w c (set_log_level v) = rb_rg_tracer_log_level_equals c v
setup w c (set_environment v) = rb_rg_tracer_environment_equals c v
setup w c (set_debug_blacklist v) = rb_rg_tracer_debug_blacklist_equals c v
setup w c (set_api_key v) = rb_rg_tracer_api_key_equals c v
setup w c set_noop = rb_rg_tracer_noop_bang c

-- Whether a call raises or  the program goes on from what it leaves.
unfoldable pub run_setup : Config → List (World × SetupCall) → Config
unfolding setup
run_setup c [] = c
run_setup c ((w, call) ∷ calls) = run_setup (setup w c call).0 calls

-- The part of the settings that is the sink.
abbrev pub SinkPart : Type 0
SinkPart = SinkType × SinkFunction × Option ℕ × Option ℕ × Value

abbrev pub sink_part : Config → SinkPart
sink_part c = (c.type, c.sink, c.ringbuf, c.sink_thread, c.callback)

-- What emission needs of each type of sink: its function, and for a sink over the network the ring
-- buffer and the thread that reads it.
abbrev pub Works : SinkPart → Type 0
Works (sink_none, f, q, th, v) = f ≡ blackhole
Works (sink_callback, f, q, th, v) = f ≡ callback_sink
Works (sink_udp, f, q, th, v) = (f ≡ batched_sink) × (q ≢ none) × (th ≢ none)
Works (sink_tcp, f, q, th, v) = (f ≡ batched_sink) × (q ≢ none) × (th ≢ none)

-- The system provides a ring buffer and a thread, and a size that is given fits an `int`.
abbrev pub Fits : Value → Type 0
Fits (fixnum n) = num2int n ≢ none
Fits _ = Unit

abbrev pub Provides : World → SetupCall → Type 0
Provides w (set_udp_sink k) =
    (w.ring_buffer ≢ none) × (w.thread ≢ none) × Fits k.receive_buffer_size
Provides w (set_tcp_sink k) = (w.ring_buffer ≢ none) × (w.thread ≢ none)
Provides w _ = Unit

abbrev pub AllProvide : List (World × SetupCall) → Type 0
AllProvide [] = Unit
AllProvide ((w, call) ∷ calls) = Provides w call × AllProvide calls
