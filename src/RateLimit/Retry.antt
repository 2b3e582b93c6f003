-- ===== src/RateLimit/Retry.antt =====
-- What a refusal promises: after the wait that it reports the next request is granted.
use raguardian.Prelude.{
  ℕ, ◌+◌, ◌-◌, ◌≤◌, ◌<◌, String, ◌≡◌, false, List, [], ◌∷◌, arith, ==_refl, length, filter,
  length-filter-le, nat_eq, string_eq, option_eq, pair_eq,
}
use raguardian.Clock.{seconds}
use raguardian.Dict.{insert}
use raguardian.RateLimit.Window.{stored-insert}
use raguardian.RateLimit.{
  Limiter, allowed, denied, stored, is_fresh, wait_time, decide, is_allowed_memory,
}

-- The wait reaches past the moment at which the oldest request leaves the window.
wait_reaches :
    (window now oldest now' : ℕ)
    → now + seconds (wait_time window now oldest) ≤ now'
    → is_fresh window now' oldest ≡ false
unfolding wait_time is_fresh
wait_reaches window now oldest now' h =
    let d : ℕ = oldest + seconds window - now in
    let e : oldest + seconds window ≤ now' = omega arith in ground arith

-- A list that is full, cleared of its oldest request, has room.
room_after :
    (m window now' oldest : ℕ) (rest : List ℕ)
    → length (oldest ∷ rest) ≤ m
    → is_fresh window now' oldest ≡ false
    → length (filter (is_fresh window now') (oldest ∷ rest)) < m
unfolding filter
room_after m window now' oldest rest h stale =
    rw stale (omega (arith, length-filter-le (is_fresh window now') rest))

decide-denied :
    (m window now : ℕ) (ts : List ℕ) (wait now' : ℕ)
    → length ts ≤ m
    → (decide m window now ts).0 ≡ denied wait
    → now + seconds wait ≤ now'
    → ((decide m window now ts).1 ≡ ts) × (length (filter (is_fresh window now') ts) < m)
unfolding decide
decide-denied m window now [] wait now' h d later = absurd (ground arith)
decide-denied m window now (oldest ∷ rest) wait now' h d later = (
  ground arith,
  room_after m window now' oldest rest h (wait_reaches window now oldest now' (ground arith)),
)

decide-allowed :
    (m window now : ℕ) (ts : List ℕ) → length ts < m → (decide m window now ts).0 ≡ allowed
unfolding decide
decide-allowed m window now ts h = ground arith

-- If a client's request is refused with a wait of `wait` seconds and the client makes its next
-- request no earlier than that, the request is granted, for any list of request times of the
-- client that does not exceed the limit.
pub retry_after :
    (l : Limiter) (client : String) (now wait now' : ℕ)
    → length (stored l client) ≤ l.max_requests
    → (is_allowed_memory now client l).0 ≡ denied wait
    → now + seconds wait ≤ now'
    → (is_allowed_memory now' client (is_allowed_memory now client l).1).0 ≡ allowed
unfolding is_allowed_memory
retry_after l client now wait now' bounded refused later =
    let w = l.window_seconds in
    let ts : List ℕ = filter (is_fresh w now) (stored l client) in
    let (kept, room) =
      decide-denied l.max_requests w now ts wait now'
        (omega (arith, length-filter-le (is_fresh w now) (stored l client))) refused later in
    let k = (decide l.max_requests w now ts).1 in
    decide-allowed l.max_requests w now'
      (filter (is_fresh w now')
        (stored (record l { requests = insert client k l.requests }) client))
      (rw (stored-insert l client client k, ==_refl client, kept) room)
