-- ===== src/RwLock/Tests.antt =====
-- Runs of the lock, and its theorem at a reader, a writer that waits for it, and its turn.
use raguardian.Prelude.{
  ◌≡◌, refl, true, false, none, some, [], ◌∷◌, any, nat_eq, string_eq, option_eq, pair_eq,
}
use raguardian.Dict.{lookup, insert, erase}
use raguardian.RwLock.{
  Lock, init, returned, waits, runtime_error, depth_of, already_held, acquire_read, release_read,
  is_empty, acquire_write, take_write, release_write,
}
use raguardian.RwLock.Steps.{State, leave, reads, ends_read, queues, writes, Reach, begin, next}
use raguardian.RwLock.Holders

program : Unit {0}
unfolding lookup insert erase init depth_of already_held acquire_read release_read is_empty
    acquire_write take_write release_write leave any
program = tt

abbrev reading : Lock
reading = record { readers = (1, 1) ∷ []; writer = none; writer_depth = 0; waiting_writers = 0 }

abbrev waiting : Lock
waiting = record { readers = (1, 1) ∷ []; writer = none; writer_depth = 0; waiting_writers = 1 }

abbrev left : Lock
left = record { readers = []; writer = none; writer_depth = 0; waiting_writers = 1 }

abbrev writing : Lock
writing = record { readers = []; writer = some 2; writer_depth = 1; waiting_writers = 0 }

-- A waiting writer keeps a new reader out, and lets a thread that reads read again.
new_reader : acquire_read 3 waiting ≡ waits waiting
unfolding program
new_reader = refl

old_reader : acquire_read 1 waiting ≡ returned false (record waiting { readers = (1, 2) ∷ [] })
unfolding program
old_reader = refl

-- A reader cannot become a writer.
upgrade : acquire_write 1 reading ≡ runtime_error
unfolding program
upgrade = refl

abbrev last : State
last = record { lock = writing; queue = []; reading = []; writing = 2 ∷ [] }

Reach-last : Reach last
unfolding program
Reach-last =
    next
      (next (next (next begin (reads 1 true reading refl)) (queues 2 waiting refl))
        (ends_read 1 true left refl))
      (writes 2 true writing refl refl)

Reach-Excludes_example : Holders.Excludes last
Reach-Excludes_example = Holders.Reach-Excludes last Reach-last
