-- ===== src/Tracer/Setup/Refused.antt =====
-- Settings that are not refused (ext/raygun/raygun_tracer.c).
use raygun_apm_ruby.Base.{ℕ, pos, ◌+◌, ◌*◌, ◌%◌, ◌^◌, ◌≤◌, ◌<◌, ◌≡◌, arith, true, inr, ltb}
use raygun_apm_ruby.Tracer.Setup.{
  fixnum, qtrue, Config, rb_rg_tracer_log_level_equals, rb_rg_tracer_environment_equals,
}

-- A log level is converted to a byte before it is compared: for every `int` that is 256 k more than a
-- level from 1 to 8, the assignment succeeds and sets that level; likewise for the environments, 1
-- and 2.
pub levels-truncated :
    (c : Config) (k level : ℕ)
    → 1 ≤ level
    → 256 * k + level < 2 ^ 31
    → (level ≤ 8
        → rb_rg_tracer_log_level_equals c (fixnum (pos (256 * k + level)))
          ≡ (record c { loglevel = level }, inr qtrue))
      × (level ≤ 2
          → rb_rg_tracer_environment_equals c (fixnum (pos (256 * k + level)))
            ≡ (record c { environment = level }, inr qtrue))
unfolding rb_rg_tracer_log_level_equals rb_rg_tracer_environment_equals
levels-truncated c k level one fits =
    let inside : ltb (256 * k + level) (2 ^ 31) ≡ true = ground (arith, fits) in
    let byte : level < 256 → (256 * k + level) % 256 ≡ level = λ h. omega (arith, h) in
    (
      λ le.
          rw (rb_rg_tracer_log_level_equals, inside)
            (rw (byte (omega (arith, le))) (ground (arith, le, one))),
      λ le.
          rw (rb_rg_tracer_environment_equals, inside)
            (rw (byte (omega (arith, le))) (ground (arith, le, one))),
    )
