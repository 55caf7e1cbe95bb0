-- ===== src/Tracer.antt =====
-- The tracer (ext/raygun/raygun_tracer.c): what it keeps of threads, methods and traces, and the
-- hook that the Ruby VM calls.
pub mod Stack
pub mod Table
pub mod Threads
pub mod Filters
pub mod Methods
pub mod Resync
pub mod Names
pub mod Frames
pub mod Hook
pub mod Traces
pub mod Timer
pub mod Setup
pub mod Emit
mod Tests
