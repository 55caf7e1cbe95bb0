-- ===== src/Event.antt =====
-- Events as the Ruby library sees them (ext/raygun/raygun_event.c): attributes set and read by name,
-- and the encoding of an event.
pub mod Slots
pub mod Attributes
pub mod Encoded
pub mod RoundTrip
pub mod Numbers
mod Tests
