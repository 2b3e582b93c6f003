-- ===== src/RateLimit/Tests.antt =====
-- Runs of the limiter, and its theorems at two requests in a window of a minute.
use raguardian.Prelude.{
  ℕ, ◌≤◌, String, ◌≡◌, refl, List, [], ◌∷◌, arith, text_eq, length, filter, nat_eq, string_eq,
  option_eq, pair_eq,
}
use raguardian.RateLimit.{
  Limiter, init, allowed, denied, index_error, stored, is_fresh, is_allowed_memory,
}
use raguardian.RateLimit.Window.{granted, ideal, granted-ideal, granted_in_window}
use raguardian.RateLimit.Window
use raguardian.RateLimit.Retry

program : Unit {0}
unfolding text_eq init is_allowed_memory
program = tt

abbrev calls : List (ℕ × String)
calls = (0, "a") ∷ (1000000, "a") ∷ (2000000, "b") ∷ (3000000, "a") ∷ (60000000, "a") ∷ []

abbrev once : Limiter
once = (is_allowed_memory 5000000 "a" (init 1 60)).1

-- The third request of "a" comes too early, the fourth does not.
granted_run : Window.granted "a" calls (init 2 60) ≡ 0 ∷ 1000000 ∷ 60000000 ∷ []
unfolding program Window.granted
granted_run = refl

refused_run : (is_allowed_memory 6500000 "a" once).0 ≡ denied 59
unfolding program
refused_run = refl

-- A limit of zero raises on the first request.
zero_limit : (is_allowed_memory 7 "a" (init 0 60)).0 ≡ index_error
unfolding program
zero_limit = refl

granted-ideal_example : Window.granted "a" calls (init 2 60) ≡ Window.ideal 2 60 "a" [] calls
granted-ideal_example = Window.granted-ideal 2 60 "a" calls (omega arith)

granted_in_window_example :
    length (filter (is_fresh 60 60000000) (Window.granted "a" calls (init 2 60))) ≤ 2
granted_in_window_example =
    Window.granted_in_window 2 60 "a" calls 60000000 (omega arith) (omega arith)

once_bounded : length (stored once "a") ≤ once.max_requests
unfolding program stored
once_bounded = omega arith

retry_after_example :
    (is_allowed_memory 66000000 "a" (is_allowed_memory 6500000 "a" once).1).0 ≡ allowed
retry_after_example =
    Retry.retry_after once "a" 6500000 59 66000000 once_bounded refused_run (omega arith)
