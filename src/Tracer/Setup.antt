-- ===== src/Tracer/Setup.antt =====
-- The settings of a tracer (ext/raygun/raygun_tracer.c): `rb_rg_tracer_alloc`, the three functions
-- that set its sink, and those that set a level, a key or a mode. A function that raises leaves
-- what it has assigned so far.
pub mod Calls
pub mod Once
pub mod Refused
mod Tests
use raygun_apm_ruby.Base.{
  ℕ, ℤ, pos, negsuc, ◌+◌, ◌-◌, ◌%◌, ◌^◌, List, [], ◌∷◌, Option, none, some, Bool, true, false, ◌⊎◌,
  inl, inr, ltb, ◌==◌, ◌&&◌, ◌||◌, not, if◌then◌else◌,
}
use raygun_apm_ruby.Tracer.Names.{env_development, env_production}
use raygun_apm_ruby.Tracer.Timer.{SinkType, sink_none, sink_callback, sink_udp, sink_tcp, is_nil}

-- A Ruby object, as far as it is looked at.
pub data Value : Type 0 where
  nil : Value
  qfalse : Value
  qtrue : Value
  string : List ℕ → Value
  fixnum : ℤ → Value
  object : ℕ → Value

abbrev pub is_string : Value → Bool
is_string (string s) = true
is_string _ = false

abbrev pub is_fixnum : Value → Bool
is_fixnum (fixnum n) = true
is_fixnum _ = false

-- `RTEST`.
abbrev pub is_true : Value → Bool
is_true nil = false
is_true qfalse = false
is_true _ = true

-- `NUM2INT` of a Fixnum raises a RangeError outside of an `int`.
abbrev pub num2int : ℤ → Option ℤ
num2int (pos n) = if ltb n (2 ^ 31) then some (pos n) else none
num2int (negsuc n) = if ltb n (2 ^ 31) then some (negsuc n) else none

-- The conversion of an `int` to `rg_byte_t`.
abbrev pub byte_of : ℤ → ℕ
byte_of (pos n) = n % 256
byte_of (negsuc n) = 255 - n % 256

pub data SetupError : Type 0 where
  not_a_proc : SetupError
  wrong_arity : SetupError
  wrong_socket : SetupError
  wrong_host : SetupError
  wrong_port : SetupError
  wrong_receive_buffer_size : SetupError
  only_one_sink : SetupError
  out_of_range : SetupError
  no_ring_buffer : SetupError
  no_sink_thread : SetupError
  wrong_type : SetupError
  invalid_log_level : SetupError
  invalid_environment : SetupError

-- The function that the context's `sink` points to.
pub data SinkFunction : Type 0 where
  blackhole : SinkFunction
  callback_sink : SinkFunction
  batched_sink : SinkFunction

-- The members of the tracer and of its sink's data that are set here. No ring buffer is NULL.
pub record Config : Type 0 where
  pub sink : SinkFunction
  pub type : SinkType
  pub callback : Value
  pub sock : Value
  pub host : Value
  pub port : Value
  pub receive_buffer_size : ℤ
  pub ringbuf : Option ℕ
  pub payload : Value
  pub running : Bool
  pub sink_thread : Option ℕ
  pub loglevel : ℕ
  pub environment : ℕ
  pub debug_blacklist : Bool
  pub api_key : Value
  pub noop : Bool

-- What Ruby and the system answer during a call: the methods of objects, the arity of a Proc, none
-- for another object, a new ring buffer, a new string, a new thread and a connected socket, none
-- where that fails.
pub record World : Type 0 where
  pub responds_to_send : Value → Bool
  pub responds_to_connect : Value → Bool
  pub proc_arity : Value → Option ℤ
  pub ring_buffer : Option ℕ
  pub packet_string : ℕ
  pub thread : Option ℕ
  pub connection : Option ℕ

-- The keyword arguments, nil where there is none.
pub record SinkArgs : Type 0 where
  pub socket : Value
  pub host : Value
  pub port : Value
  pub receive_buffer_size : Value

abbrev pub log_none : ℕ
log_none = 1

abbrev pub log_blacklist : ℕ
log_blacklist = 8

abbrev pub Outcome : Type 0
Outcome = Config × (SetupError ⊎ Value)

-- The settings of a new tracer.
abbrev pub rb_rg_tracer_alloc : Config
rb_rg_tracer_alloc = record {
  sink = blackhole;
  type = sink_none;
  callback = nil;
  sock = nil;
  host = nil;
  port = nil;
  receive_buffer_size = pos 0;
  ringbuf = none;
  payload = qfalse;
  running = true;
  sink_thread = none;
  loglevel = log_none;
  environment = env_production;
  debug_blacklist = false;
  api_key = nil;
  noop = false;
}

abbrev pub is_sink_none : SinkType → Bool
is_sink_none sink_none = true
is_sink_none sink_callback = false
is_sink_none sink_udp = false
is_sink_none sink_tcp = false

-- `rb_proc_arity(callback) != 1`.
abbrev pub is_one : ℤ → Bool
is_one (pos n) = n == 1
is_one (negsuc n) = false

unfoldable pub rb_rg_tracer_callback_sink_set : World → Config → Value → Outcome
rb_rg_tracer_callback_sink_set w c callback = elim (w.proc_arity callback) [
  | none ↦ (c, inl not_a_proc)
  | some arity ↦
      if not (is_one arity)
      then (c, inl wrong_arity)
      else if not (is_sink_none c.type)
      then (c, inl only_one_sink)
      else (
        record c { sink = callback_sink; callback = callback; type = sink_callback },
        inr callback,
      )
]

-- From the allocation of the ring buffer to the type of the sink, in which the two sinks over the
-- network agree.
unfoldable pub start_dispatcher : World → Config → SinkType → Value → Outcome
start_dispatcher w c type result =
    let c₁ : Config = record c { ringbuf = w.ring_buffer } in
    let c₂ : Config = record c₁ {
      payload = object w.packet_string;
      running = true;
      sink_thread = w.thread;
    } in
    if is_nil w.ring_buffer
    then (c₁, inl no_ring_buffer)
    else if is_nil w.thread
    then (c₂, inl no_sink_thread)
    else (record c₂ { type = type }, inr result)

-- The end of the UDP sink, once its arguments are checked.
unfoldable pub start_udp_sink : World → Config → SinkArgs → Outcome
unfolding start_dispatcher
start_udp_sink w c k =
    let c₁ : Config = record c {
      sink = batched_sink;
      sock = k.socket;
      host = k.host;
      port = k.port;
    } in
    elim k.receive_buffer_size [
      | fixnum n ↦ elim (num2int n) [
        | none ↦ (c₁, inl out_of_range)
        | some size ↦
            start_dispatcher w (record c₁ { receive_buffer_size = size }) sink_udp k.socket
      ]
      | _ ↦ (c, inl wrong_receive_buffer_size)
    ]

unfoldable pub rb_rg_tracer_udp_sink_set : World → Config → SinkArgs → Outcome
unfolding start_udp_sink
rb_rg_tracer_udp_sink_set w c k =
    if not (w.responds_to_send k.socket && w.responds_to_connect k.socket)
    then (c, inl wrong_socket)
    else if not (is_string k.host)
    then (c, inl wrong_host)
    else if not (is_fixnum k.port)
    then (c, inl wrong_port)
    else if not (is_fixnum k.receive_buffer_size)
    then (c, inl wrong_receive_buffer_size)
    else if not (is_sink_none c.type)
    then (c, inl only_one_sink)
    else start_udp_sink w c k

abbrev pub socket_or_nil : Option ℕ → Value
socket_or_nil none = nil
socket_or_nil (some s) = object s

-- The first connection of a TCP sink: a failure is silenced.
abbrev pub connect : World → Outcome → Outcome
connect w (c, inl raised) = (c, inl raised)
connect w (c, inr result) = (record c { sock = socket_or_nil w.connection }, inr result)

unfoldable pub rb_rg_tracer_tcp_sink_set : World → Config → SinkArgs → Outcome
unfolding start_dispatcher
rb_rg_tracer_tcp_sink_set w c k =
    if not (is_string k.host)
    then (c, inl wrong_host)
    else if not (is_fixnum k.port)
    then (c, inl wrong_port)
    else if not (is_sink_none c.type)
    then (c, inl only_one_sink)
    else connect w (
        start_dispatcher w
          (record c {
            sink = batched_sink;
            sock = nil;
            host = k.host;
            port = k.port;
            receive_buffer_size = pos 0;
          })
          sink_tcp qtrue)

unfoldable pub rb_rg_tracer_log_level_equals : Config → Value → Outcome
rb_rg_tracer_log_level_equals c level = elim level [
  | fixnum n ↦ elim (num2int n) [
    | none ↦ (c, inl out_of_range)
    | some i ↦
        if ltb (byte_of i) log_none || ltb log_blacklist (byte_of i)
        then (c, inl invalid_log_level)
        else (record c { loglevel = byte_of i }, inr qtrue)
  ]
  | _ ↦ (c, inl wrong_type)
]

unfoldable pub rb_rg_tracer_environment_equals : Config → Value → Outcome
rb_rg_tracer_environment_equals c environment = elim environment [
  | fixnum n ↦ elim (num2int n) [
    | none ↦ (c, inl out_of_range)
    | some i ↦
        if ltb (byte_of i) env_development || ltb env_production (byte_of i)
        then (c, inl invalid_environment)
        else (record c { environment = byte_of i }, inr qtrue)
  ]
  | _ ↦ (c, inl wrong_type)
]

unfoldable pub rb_rg_tracer_debug_blacklist_equals : Config → Value → Outcome
rb_rg_tracer_debug_blacklist_equals c debug =
    (record c { debug_blacklist = is_true debug }, inr qtrue)

unfoldable pub rb_rg_tracer_api_key_equals : Config → Value → Outcome
rb_rg_tracer_api_key_equals c api_key =
    if is_string api_key then (record c { api_key = api_key }, inr qtrue) else (c, inl wrong_type)

unfoldable pub rb_rg_tracer_noop_bang : Config → Outcome
rb_rg_tracer_noop_bang c = (record c { noop = true }, inr qtrue)

unfoldable pub rb_rg_tracer_noop_p : Config → Outcome
rb_rg_tracer_noop_p c = (c, inr (if c.noop then qtrue else qfalse))
