-- ===== src/Tracer/Setup/Tests.antt =====
-- The settings of a tracer (ext/raygun/raygun_tracer.c) in a concrete world.
use raygun_apm_ruby.Base.{pos, ◌≤◌, ◌≡◌, ◌≢◌, refl, arith, List, [], ◌∷◌, none, some, true, inr}
use raygun_apm_ruby.Tracer.Timer.{sink_none}
use raygun_apm_ruby.Tracer.Setup.{
  nil, qtrue, string, fixnum, object, World, SinkArgs, rb_rg_tracer_alloc,
  rb_rg_tracer_log_level_equals, rb_rg_tracer_environment_equals,
}
use raygun_apm_ruby.Tracer.Setup.Calls.{
  SetupCall, set_udp_sink, set_tcp_sink, set_callback_sink, set_log_level, run_setup, sink_part,
  Works,
}
use raygun_apm_ruby.Tracer.Setup.Once.{run_setup-one_sink}
use raygun_apm_ruby.Tracer.Setup.Refused.{levels-truncated}

abbrev world : World
world = record {
  responds_to_send = λ v. true;
  responds_to_connect = λ v. true;
  proc_arity = λ v. some (pos 1);
  ring_buffer = some 64;
  packet_string = 65;
  thread = some 66;
  connection = none;
}

abbrev udp_args : SinkArgs
udp_args = record {
  socket = object 70;
  host = string (49 ∷ []);
  port = fixnum (pos 2788);
  receive_buffer_size = fixnum (pos 212992);
}

-- A UDP sink, then two that are refused, and a log level.
abbrev some_calls : List (World × SetupCall)
some_calls =
    (world, set_udp_sink udp_args)
    ∷ (world, set_tcp_sink udp_args)
    ∷ (world, set_callback_sink (object 71))
    ∷ (world, set_log_level nil)
    ∷ []

run_setup-one_sink_example :
    Works (sink_part (run_setup rb_rg_tracer_alloc some_calls))
    × (sink_none ≢ sink_none
        → sink_part (run_setup rb_rg_tracer_alloc some_calls) ≡ sink_part rb_rg_tracer_alloc)
run_setup-one_sink_example = run_setup-one_sink rb_rg_tracer_alloc some_calls refl (
  (λ e. ground (arith, e), λ e. ground (arith, e), λ e. ground (arith, e)),
  ((λ e. ground (arith, e), λ e. ground (arith, e)), (tt, (tt, tt))),
)

levels-truncated_example :
    (2 ≤ 8
      → rb_rg_tracer_log_level_equals rb_rg_tracer_alloc (fixnum (pos 258))
        ≡ (record rb_rg_tracer_alloc { loglevel = 2 }, inr qtrue))
    × (2 ≤ 2
        → rb_rg_tracer_environment_equals rb_rg_tracer_alloc (fixnum (pos 258))
          ≡ (record rb_rg_tracer_alloc { environment = 2 }, inr qtrue))
levels-truncated_example = levels-truncated rb_rg_tracer_alloc 1 2 (omega arith) (omega arith)
