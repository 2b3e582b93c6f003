-- ===== src/RateLimit.antt =====
-- `RateLimiter` of app/utils/rate_limiter.py, its in-memory backend: a sliding window of request
-- times for each client. The clock is an argument.
pub mod Window
pub mod Retry
mod Tests
use raguardian.Prelude.{
  ℕ, ◌+◌, ◌-◌, max, String, Bool, none, some, List, [], ◌∷◌, ◌++◌, ltb, leb, if◌then◌else◌, length,
  filter, nat_eq, string_eq, option_eq, pair_eq,
}
use raguardian.Clock.{seconds, whole_seconds}
use raguardian.Dict.{Dict, lookup, insert}

pub record Limiter : Type 0 where
  pub max_requests : ℕ
  pub window_seconds : ℕ
  pub requests : Dict String (List ℕ)

unfoldable pub init : ℕ → ℕ → Limiter
init max_requests window_seconds = record {
  max_requests = max_requests;
  window_seconds = window_seconds;
  requests = [];
}

-- What `is_allowed` returns: `(True, 0)`, `(False, wait)`, or the exception of `timestamps[0]` on an
-- empty list.
pub data Verdict : Type 0 where
  allowed : Verdict
  denied : ℕ → Verdict
  index_error : Verdict

-- `self.requests.get(client_ip, [])`
unfoldable pub stored : Limiter → String → List ℕ
unfolding lookup
stored l client = elim (lookup client l.requests) [ none ↦ [] | some ts ↦ ts ]

-- `current_time - ts < self.window_seconds`, over times that may lie ahead of the clock
unfoldable pub is_fresh : ℕ → ℕ → ℕ → Bool
is_fresh window now t = ltb now (t + seconds window)

-- `max(1, int(oldest + window - now) + 1)`
unfoldable pub wait_time : ℕ → ℕ → ℕ → ℕ
wait_time window now oldest = max 1 (whole_seconds (oldest + seconds window - now) + 1)

-- The branch on `len(timestamps) >= self.max_requests`, with the list that is stored.
unfoldable pub decide : ℕ → ℕ → ℕ → List ℕ → Verdict × List ℕ
unfolding wait_time
decide max_requests window now timestamps =
    if leb max_requests (length timestamps)
    then (
      elim timestamps [ [] ↦ index_error | oldest ∷ _ ↦ denied (wait_time window now oldest) ],
      timestamps,
    )
    else (allowed, timestamps ++ now ∷ [])

unfoldable pub is_allowed_memory : ℕ → String → Limiter → Verdict × Limiter
unfolding stored is_fresh decide insert filter
is_allowed_memory now client l =
    let timestamps = filter (is_fresh l.window_seconds now) (stored l client) in
    let (verdict, kept) = decide l.max_requests l.window_seconds now timestamps in
    (verdict, record l { requests = insert client kept l.requests })
