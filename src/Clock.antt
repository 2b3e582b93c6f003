-- ===== src/Clock.antt =====
-- Time as the program reads it: `time.time()` and `time.monotonic()` return floats in seconds.
-- A time is a whole number of microseconds here, the resolution of the clocks; durations that the
-- program keeps in seconds are converted by `seconds`.
use raguardian.Prelude.{ℕ, ◌*◌, ◌/◌, nat_eq, string_eq, option_eq, pair_eq}

abbrev pub ticks_per_second : ℕ
ticks_per_second = 1000000

-- A duration of whole seconds.
abbrev pub seconds : ℕ → ℕ
seconds n = n * ticks_per_second

-- `int(wait)` of a float of seconds that is not negative.
abbrev pub whole_seconds : ℕ → ℕ
whole_seconds t = t / ticks_per_second
