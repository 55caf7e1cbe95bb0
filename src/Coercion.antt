-- ===== src/Coercion.antt =====
-- From Ruby values to the protocol's strings and variables (ext/raygun/raygun_coercion.c). What Ruby
-- makes of a string in another encoding, `rb_str_encode`, is a parameter.
pub mod Strings
pub mod Variables
pub mod Truncation
pub mod Lossless
