-- ===== src/RwLock/Steps.antt =====
-- The interleavings of threads on one lock.
use raguardian.Prelude.{
  ℕ, ◌-◌, ◌≡◌, Bool, true, List, [], ◌∷◌, if◌then◌else◌, ◌==◌, any, nat_eq, string_eq, option_eq,
  pair_eq,
}
use raguardian.RwLock.{
  Lock, init, returned, waits, acquire_read, release_read, acquire_write, take_write, release_write,
}

-- The lock; the threads that have begun `acquire_write` and wait; and, whatever the lock records, the
-- threads whose acquisitions have returned and are not yet released, each once for each of them.
pub record State : Type 0 where
  pub lock : Lock
  pub queue : List ℕ
  pub reading : List ℕ
  pub writing : List ℕ

abbrev pub start : State
start = record { lock = init; queue = []; reading = []; writing = [] }

-- The list without one occurrence of the thread.
unfoldable pub leave : ℕ → List ℕ → List ℕ
leave t [] = []
leave t (u ∷ us) = let rest = leave t us in if u == t then us else u ∷ rest

-- A waiting thread may also be interrupted, and then only the `finally` clause is run.
pub data Step (s : State) : State → Type 0 where
  reads :
      (t : ℕ) (first : Bool) (l : Lock)
      → acquire_read t s.lock ≡ returned first l
      → Step s (record s { lock = l; reading = t ∷ s.reading })
  ends_read :
      (t : ℕ) (b : Bool) (l : Lock)
      → release_read t s.lock ≡ returned b l
      → Step s (record s { lock = l; reading = leave t s.reading })
  writes_again :
      (t : ℕ) (b : Bool) (l : Lock)
      → acquire_write t s.lock ≡ returned b l
      → Step s (record s { lock = l; writing = t ∷ s.writing })
  queues :
      (t : ℕ) (l : Lock)
      → acquire_write t s.lock ≡ waits l
      → Step s (record s { lock = l; queue = t ∷ s.queue })
  writes :
      (t : ℕ) (b : Bool) (l : Lock)
      → any (λ u. u == t) s.queue ≡ true
      → take_write t s.lock ≡ returned b l
      → Step s (record s { lock = l; queue = leave t s.queue; writing = t ∷ s.writing })
  interrupted :
      (t : ℕ)
      → any (λ u. u == t) s.queue ≡ true
      → Step s (record s {
        lock = record s.lock { waiting_writers = s.lock.waiting_writers - 1 };
        queue = leave t s.queue;
      })
  ends_write :
      (t : ℕ) (b : Bool) (l : Lock)
      → release_write t s.lock ≡ returned b l
      → Step s (record s { lock = l; writing = leave t s.writing })

pub data Reach : State → Type 0 where
  begin : Reach start
  next : {s s' : State} → Reach s → Step s s' → Reach s'
