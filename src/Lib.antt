-- ===== src/Lib.antt =====
-- The profiler's native extension (ext/raygun): a tracer that follows the method calls of a Ruby
-- process and streams them as commands of a binary wire protocol to an Agent.
--
-- A call passes through these parts. The hook of the tracer keeps a shadow thread for each Ruby
-- thread and decides whether a call is reported. The encoder writes the command for it into the
-- scratch buffer of its context and hands it to a sink. The batched sink packs commands into
-- numbered batches of the size of a UDP packet, and offers each batch to a ring buffer, from which
-- a dispatcher thread sends it.
--
-- Files:
--   Base       shared names: list functions, little-endian bytes, integers, Boolean tests
--   Memory     byte arrays and the encoders' idiom `memcpy(ptr, src, n); ptr += n`
--   Protocol   the structs and limits of ext/raygun/raygun_protocol.h
--   Encoder    ext/raygun/raygun_encoder.c: Encoder the `rg_encode_*` functions, Size the
--              `*_size` functions, Emit the functions that hand a command to the sink; Wire is
--              the format as bytes, Layout and Bounds relate the code to it
--   Sink       `rb_rg_batched_sink` of ext/raygun/raygun_tracer.c: Batch and Batched are the code,
--              Spec says what it promises, the others prove it
--   Dispatch   the threads `rb_rg_udp_sink_thread` and `rb_rg_tcp_sink_thread`; Queue says what they
--              rely on of the ring buffer, Drain what a wakeup does, Packets what the sink offers
--              them, Pipeline what the sink and a thread do together, Shutdown how the loops end
--   Tracer     ext/raygun/raygun_tracer.c: Hook is `rb_rg_tracing_hook_i`, and the modules below
--              it that every event is handled, what a run of calls sends, and whose child a new
--              thread is; Stack and Frames are what a call and a return do to a shadow thread,
--              the modules below Frames their laws; Threads is the table of shadow threads, Table
--              the symbol tables, Names the ids of methods; Filters the rules that exclude
--              methods, Methods the discovery of a method (`rb_rg_methodinfo`), Resync the methods
--              that the timer thread announces again, Timer that thread; Traces the start and the
--              end of a trace and of the profiler, with ext/raygun/raygun_trace_context.c; Setup the
--              sinks and levels that are set from Ruby; Emit the events that Ruby code sends
--   Coercion   ext/raygun/raygun_coercion.c: Strings and Variables are the code, Truncation and
--              Lossless what it keeps of a string and of an integer
--   Event      ext/raygun/raygun_event.c: Slots and Attributes the attributes by name, Encoded the
--              encoding, RoundTrip and Numbers that what is set is what is read
--
-- State and operations. A pointer into a buffer is a `Cursor`, an encoder of a struct a `Writer`
-- that moves it, and `none` an access outside of an array. State that a function changes in place
-- is an argument and a result. Fields are natural numbers below the bound of their type and wrap
-- where the code converts; an `int16_t` is its two's-complement pattern. The `int32_t` counters of
-- a shadow thread are integers, since their depth is bounded by the VM's stack.
--
-- Parameters. The sink and the clock are function pointers of the context, and so arguments here.
-- The ring buffer is the third-party bipbuffer and the radix tree of the filters the third-party
-- rax, each a record of its operations. Ruby's conversions of
-- numbers and strings are parameters of Event and Coercion.
--
-- Fuel. The inner loop of a dispatcher runs on fuel; as many iterations as there are messages in
-- the ring buffer are enough. The outer loop of a dispatcher, and the loop of the timer thread, run on
-- a list of what they find after each sleep, one entry for an iteration.
--
-- The build is the default one, without RB_RG_DEBUG, RB_RG_EMIT_ARGUMENTS and RB_RG_TRACE_BLOCKS,
-- on a little-endian machine. Memory allocation succeeds, but
-- for the ring buffer and the thread of a sink, which Setup takes as arguments.
--
-- Not modelled: the bip buffer and the radix tree (third-party), garbage-collection callbacks and
-- the definition of Ruby classes, the socket calls, the sleep of the threads, the sink that calls a
-- Proc, and the Ruby code under lib.
pub mod Base
pub mod Memory
pub mod Protocol
pub mod Encoder
pub mod Sink
pub mod Tracer
pub mod Coercion
pub mod Event
pub mod Dispatch
