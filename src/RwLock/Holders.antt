-- ===== src/RwLock/Holders.antt =====
-- Which threads really hold the lock: mutual exclusion, and that the lock counts them.
use raguardian.Prelude.{
  ℕ, ◌+◌, ◌-◌, ◌<◌, ◌≡◌, refl, sym, ◌∙◌, inl, inr, some, List, [], ◌∷◌, arith, if◌then◌else◌,
  Option-cases, nat_eq, option_eq, ◌==◌, length, string_eq, pair_eq,
}
use raguardian.Dict.{lookup, insert, erase}
use raguardian.Dict.Laws.{lookup-insert, lookup-erase}
use raguardian.RwLock.{Lock, init, depth_of}
use raguardian.RwLock.Steps.{
  State, leave, Step, reads, ends_read, writes_again, queues, writes, interrupted, ends_write,
  Reach, begin, next,
}
use raguardian.RwLock.Exclusion.{
  IsSafe, acquire_read-returned, release_read-returned, acquire_write-returned, acquire_write-waits,
  take_write-returned, release_write-returned, Reach-IsSafe,
}

-- How often a thread stands in a list.
abbrev pub count : ℕ → List ℕ → ℕ
count t [] = 0
count t (u ∷ us) = (if u == t then 1 else 0) + count t us

-- The depths that the lock records are those at which threads hold it.
pub record IsTrue (l : Lock) (reading writing : List ℕ) : Type 0 where
  pub read_depth : (t : ℕ) → count t reading ≡ depth_of t l
  pub write_depth : (t : ℕ) → count t writing ≡ (if l.writer == some t then l.writer_depth else 0)

-- Two threads that hold the lock, one of them for writing, are the same thread.
pub record Excludes (s : State) : Type 0 where
  pub one_writer : (w t : ℕ) → 0 < count w s.writing → 0 < count t s.writing → t ≡ w
  pub no_reader : (w t : ℕ) → 0 < count w s.writing → 0 < count t s.reading → t ≡ w
  pub depths : IsTrue s.lock s.reading s.writing
  pub counted : s.lock.waiting_writers ≡ length s.queue

count-leave :
    (t u : ℕ) (us : List ℕ) → count u (leave t us) ≡ (if t == u then count u us - 1 else count u us)
unfolding leave
count-leave t u [] = ground arith
count-leave t u (v ∷ us) =
    ground (arith, count-leave t u us, nat_eq.same_iff v t, nat_eq.same_iff v u)

depth_of-insert :
    (t u n : ℕ) (l : Lock)
    → depth_of u (record l { readers = insert t n l.readers })
      ≡ (if t == u then n else depth_of u l)
unfolding depth_of
depth_of-insert t u n l = ground (arith, lookup-insert t u n l.readers)

depth_of-erase :
    (t u : ℕ) (l : Lock)
    → depth_of u (record l { readers = erase t l.readers }) ≡ (if t == u then 0 else depth_of u l)
unfolding depth_of
depth_of-erase t u l = ground (arith, lookup-erase t u l.readers)

-- The record of the readers is all that the depth of a reader depends on.
depth_of-readers : (t : ℕ) (l l' : Lock) → l'.readers ≡ l.readers → depth_of t l' ≡ depth_of t l
unfolding depth_of
depth_of-readers t l l' e = rw e refl

IsTrue-Step :
    (s s' : State)
    → Step s s'
    → IsSafe s.lock s.queue
    → IsTrue s.lock s.reading s.writing
    → IsTrue s'.lock s'.reading s'.writing
IsTrue-Step s _ (reads t first l e) safe was =
    let (is, _) = acquire_read-returned t s.lock first l e in
    rw is (record {
      read_depth = λ u. ground (
        arith,
        depth_of-insert t u (depth_of t s.lock + 1) s.lock,
        was.read_depth u,
        was.read_depth t,
        nat_eq.same_iff t u,
      );
      write_depth = was.write_depth;
    })
IsTrue-Step s _ (ends_read t b l e) safe was = elim (release_read-returned t s.lock b l e) [
  | inl (one, is) ↦ rw is (record {
    read_depth = λ u. ground (
      arith,
      count-leave t u s.reading,
      depth_of-erase t u s.lock,
      was.read_depth u,
      one,
      nat_eq.same_iff t u,
    );
    write_depth = was.write_depth;
  })
  | inr (deep, is) ↦ rw is (record {
    read_depth = λ u. ground (
      arith,
      count-leave t u s.reading,
      depth_of-insert t u (depth_of t s.lock - 1) s.lock,
      was.read_depth u,
      nat_eq.same_iff t u,
    );
    write_depth = was.write_depth;
  })
]
IsTrue-Step s _ (writes_again t b l e) safe was =
    let (owner, is) = acquire_write-returned t s.lock b l e in
    rw is (record {
      read_depth = λ u. was.read_depth u ∙ sym (depth_of-readers u s.lock _ refl);
      write_depth = λ u. ground (
        arith,
        was.write_depth u,
        owner,
        option_eq.same_iff s.lock.writer (some u),
        nat_eq.same_iff t u,
      );
    })
IsTrue-Step s _ (queues t l e) safe was = rw (acquire_write-waits t s.lock l e) (record {
  read_depth = λ u. was.read_depth u ∙ sym (depth_of-readers u s.lock _ refl);
  write_depth = was.write_depth;
})
IsTrue-Step s _ (writes t b l queued e) safe was =
    let (free, _, is) = take_write-returned t s.lock b l e in
    rw is (record {
      read_depth = λ u. was.read_depth u ∙ sym (depth_of-readers u s.lock _ refl);
      write_depth = λ u. ground (arith, was.write_depth u, free, nat_eq.same_iff t u);
    })
IsTrue-Step s _ (interrupted t queued) safe was = record {
  read_depth = λ u. was.read_depth u ∙ sym (depth_of-readers u s.lock _ refl);
  write_depth = was.write_depth;
}
IsTrue-Step s _ (ends_write t b l e) safe was = elim (release_write-returned t s.lock b l e) [
  | inl (owner, one, is) ↦ rw is (record {
    read_depth = λ u. was.read_depth u ∙ sym (depth_of-readers u s.lock _ refl);
    write_depth = λ u. ground (
      arith,
      count-leave t u s.writing,
      was.write_depth u,
      owner,
      one,
      option_eq.same_iff s.lock.writer (some u),
      nat_eq.same_iff t u,
    );
  })
  | inr (owner, deep, is) ↦ rw is (record {
    read_depth = λ u. was.read_depth u ∙ sym (depth_of-readers u s.lock _ refl);
    write_depth = λ u. ground (
      arith,
      count-leave t u s.writing,
      was.write_depth u,
      owner,
      option_eq.same_iff s.lock.writer (some u),
      nat_eq.same_iff t u,
    );
  })
]

Reach-IsTrue : (s : State) → Reach s → IsTrue s.lock s.reading s.writing
unfolding init lookup depth_of
Reach-IsTrue _ begin = record { read_depth = λ t. refl; write_depth = λ t. refl }
Reach-IsTrue _ (next {s} {s'} reach step) =
    IsTrue-Step s s' step (Reach-IsSafe s reach) (Reach-IsTrue s reach)

-- Whoever holds the lock for writing is its writer.
holder-writer :
    (s : State) (w : ℕ)
    → IsTrue s.lock s.reading s.writing
    → 0 < count w s.writing
    → s.lock.writer ≡ some w
holder-writer s w was h =
    ground (arith, was.write_depth w, option_eq.same_iff s.lock.writer (some w))

holder-reader :
    (s : State) (t : ℕ)
    → IsTrue s.lock s.reading s.writing
    → 0 < count t s.reading
    → (n : ℕ) × (lookup t s.lock.readers ≡ some n)
unfolding depth_of
holder-reader s t was h = elim (Option-cases (lookup t s.lock.readers)) [
  | inl miss ↦ absurd (ground (arith, was.read_depth t, miss))
  | inr (n, hit) ↦ (n, hit)
]

-- In every state that threads can reach on one lock, whatever their order: two threads whose
-- acquisitions have returned and are not yet released, one of them for writing, are the same thread;
-- the depths that the lock records for a thread are the numbers of its acquisitions; and
-- `waiting_writers` is the number of threads that wait to write.
pub Reach-Excludes : (s : State) → Reach s → Excludes s
Reach-Excludes s reach =
    let safe = Reach-IsSafe s reach in
    let was = Reach-IsTrue s reach in
    record {
      one_writer = λ w t h h'. ground (arith, holder-writer s w was h, holder-writer s t was h');
      no_reader = λ w t h h'.
          let (n, hit) = holder-reader s t was h' in
          safe.exclusive w t n (holder-writer s w was h) hit;
      depths = was;
      counted = safe.counted;
    }
