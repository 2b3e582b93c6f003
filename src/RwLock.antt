-- ===== src/RwLock.antt =====
-- `_ThreadReadWriteLock` of app/utils/index_lock.py: a re-entrant read/write lock that prefers
-- writers. Each function is the code between two waits on the condition, during which the condition's
-- own lock is held; a thread id is an argument.
pub mod Steps
pub mod Exclusion
pub mod Holders
mod Tests
use raguardian.Prelude.{
  ℕ, ◌+◌, ◌-◌, Bool, true, false, not, ◌&&◌, ◌||◌, Option, none, some, List, [], ◌∷◌, ltb,
  if◌then◌else◌, ◌==◌, nat_eq, string_eq, option_eq, pair_eq,
}
use raguardian.Dict.{Dict, lookup, insert, erase}

pub record Lock : Type 0 where
  pub readers : Dict ℕ ℕ
  pub writer : Option ℕ
  pub writer_depth : ℕ
  pub waiting_writers : ℕ

unfoldable pub init : Lock
init = record { readers = []; writer = none; writer_depth = 0; waiting_writers = 0 }

-- `waits` is a wait on the condition, after which the same test is made again.
pub data Outcome : Type 0 where
  returned : Bool → Lock → Outcome
  waits : Lock → Outcome
  runtime_error : Outcome

-- `self._readers.get(thread_id, 0)`
unfoldable pub depth_of : ℕ → Lock → ℕ
depth_of t l = elim (lookup t l.readers) [ none ↦ 0 | some n ↦ n ]

-- `already_held`
unfoldable pub already_held : ℕ → Lock → Bool
already_held t l = l.writer == some t || ltb 0 (depth_of t l)

unfoldable pub acquire_read : ℕ → Lock → Outcome
acquire_read t l =
    let held = already_held t l in
    if not held && (not (l.writer == none) || ltb 0 l.waiting_writers)
    then waits l
    else returned (not held) (record l { readers = insert t (depth_of t l + 1) l.readers })

unfoldable pub release_read : ℕ → Lock → Outcome
release_read t l =
    let depth = depth_of t l in
    if depth == 0
    then runtime_error
    else if depth == 1
    then returned true (record l { readers = erase t l.readers })
    else returned true (record l { readers = insert t (depth - 1) l.readers })

-- `bool(self._readers)` is `not (is_empty readers)`
unfoldable pub is_empty {ℓ} : {A : Type ℓ} → List A → Bool
is_empty [] = true
is_empty (x ∷ xs) = false

-- `acquire_write` up to the increment of the number of waiting writers.
unfoldable pub acquire_write : ℕ → Lock → Outcome
acquire_write t l =
    if l.writer == some t
    then returned false (record l { writer_depth = l.writer_depth + 1 })
    else if not (depth_of t l == 0)
    then runtime_error
    else waits (record l { waiting_writers = l.waiting_writers + 1 })

-- The test of its loop, by a thread that is counted as waiting, and the lines after the loop.
unfoldable pub take_write : ℕ → Lock → Outcome
take_write t l =
    if not (l.writer == none) || not (is_empty l.readers)
    then waits l
    else returned true
        (record l { writer = some t; writer_depth = 1; waiting_writers = l.waiting_writers - 1 })

unfoldable pub release_write : ℕ → Lock → Outcome
release_write t l =
    if not (l.writer == some t)
    then runtime_error
    else if l.writer_depth - 1 == 0
    then returned true (record l { writer = none; writer_depth = 0 })
    else returned true (record l { writer_depth = l.writer_depth - 1 })
