-- ===== src/Sink.antt =====
-- The sinks (ext/raygun/raygun_tracer.c): commands are packed into batches of the size of a UDP
-- packet, and batches go through a ring buffer to the dispatcher thread.
pub mod Bipbuf
pub mod Batch
pub mod Batched
pub mod Spec
pub mod Conserve
pub mod Represents
pub mod Sends
pub mod Refine
pub mod Run
pub mod Tests
