-- ===== src/RwLock/Exclusion.antt =====
-- Mutual exclusion of writers with all other threads.
use raguardian.Prelude.{
  ℕ, ◌+◌, ◌-◌, ◌≤◌, ◌<◌, ◌≡◌, refl, ◌⊎◌, inl, inr, Bool, true, none, some, List, [], ◌∷◌, arith,
  Bool-cases, Option-cases, nat_eq, option_eq, ◌==◌, length, any, string_eq, pair_eq,
}
use raguardian.Dict.{Dict, lookup, insert, erase}
use raguardian.Dict.Laws.{lookup-insert, lookup-erase}
use raguardian.RwLock.{
  Lock, init, returned, waits, depth_of, already_held, acquire_read, release_read, is_empty,
  acquire_write, take_write, release_write,
}
use raguardian.RwLock.Steps.{
  State, leave, Step, reads, ends_read, writes_again, queues, writes, interrupted, ends_write,
  Reach, begin, next,
}

-- While a thread writes, no other thread reads; every reader is counted; the depth is positive while
-- there is a writer and only then; and the waiting writers are counted.
pub record IsSafe (l : Lock) (queue : List ℕ) : Type 0 where
  pub exclusive : (w t n : ℕ) → l.writer ≡ some w → lookup t l.readers ≡ some n → t ≡ w
  pub positive : (t n : ℕ) → lookup t l.readers ≡ some n → 0 < n
  pub free : l.writer ≡ none → l.writer_depth ≡ 0
  pub held : (w : ℕ) → l.writer ≡ some w → 0 < l.writer_depth
  pub counted : l.waiting_writers ≡ length queue

pub any-pos : (t : ℕ) (us : List ℕ) → any (λ u. u == t) us ≡ true → 0 < length us
unfolding any
any-pos t [] h = absurd (ground arith)
any-pos t (u ∷ us) h = omega arith

pub length-leave :
    (t : ℕ) (us : List ℕ) → any (λ u. u == t) us ≡ true → length (leave t us) ≡ length us - 1
unfolding leave any
length-leave t [] h = absurd (ground arith)
length-leave t (u ∷ us) h = ground (arith, length-leave t us, any-pos t us)

pub acquire_read-returned :
    (t : ℕ) (l : Lock) (b : Bool) (l' : Lock)
    → acquire_read t l ≡ returned b l'
    → (l' ≡ record l { readers = insert t (depth_of t l + 1) l.readers })
      × ((l.writer ≡ none) ⊎ (already_held t l ≡ true))
unfolding acquire_read
acquire_read-returned t l b l' h = ground arith

pub already_held-owner :
    (t w : ℕ) (s : State)
    → IsSafe s.lock s.queue
    → s.lock.writer ≡ some w
    → already_held t s.lock ≡ true
    → t ≡ w
unfolding already_held depth_of
already_held-owner t w s safe owner h = elim (Option-cases (lookup t s.lock.readers)) [
  | inl miss ↦ ground (arith, option_eq.same_iff s.lock.writer (some t))
  | inr (n, hit) ↦ safe.exclusive w t n owner hit
]

pub release_read-returned :
    (t : ℕ) (l : Lock) (b : Bool) (l' : Lock)
    → release_read t l ≡ returned b l'
    → ((depth_of t l ≡ 1) × (l' ≡ record l { readers = erase t l.readers }))
      ⊎ ((2 ≤ depth_of t l) × (l' ≡ record l { readers = insert t (depth_of t l - 1) l.readers }))
unfolding release_read
release_read-returned t l b l' h = ground arith

pub acquire_write-returned :
    (t : ℕ) (l : Lock) (b : Bool) (l' : Lock)
    → acquire_write t l ≡ returned b l'
    → (l.writer ≡ some t) × (l' ≡ record l { writer_depth = l.writer_depth + 1 })
unfolding acquire_write
acquire_write-returned t l b l' h = ground arith

pub acquire_write-waits :
    (t : ℕ) (l l' : Lock)
    → acquire_write t l ≡ waits l'
    → l' ≡ record l { waiting_writers = l.waiting_writers + 1 }
unfolding acquire_write
acquire_write-waits t l l' h = ground arith

pub take_write-returned :
    (t : ℕ) (l : Lock) (b : Bool) (l' : Lock)
    → take_write t l ≡ returned b l'
    → (l.writer ≡ none)
      × (is_empty l.readers ≡ true)
      × (l'
          ≡ record l { writer = some t; writer_depth = 1; waiting_writers = l.waiting_writers - 1 })
unfolding take_write
take_write-returned t l b l' h = ground arith

pub release_write-returned :
    (t : ℕ) (l : Lock) (b : Bool) (l' : Lock)
    → release_write t l ≡ returned b l'
    → ((l.writer ≡ some t)
        × (l.writer_depth ≤ 1)
        × (l' ≡ record l { writer = none; writer_depth = 0 }))
      ⊎ ((l.writer ≡ some t)
          × (2 ≤ l.writer_depth)
          × (l' ≡ record l { writer_depth = l.writer_depth - 1 }))
unfolding release_write
release_write-returned t l b l' h = ground arith

IsSafe-reads :
    (s : State) (t : ℕ)
    → IsSafe s.lock s.queue
    → (s.lock.writer ≡ none) ⊎ (already_held t s.lock ≡ true)
    → IsSafe (record s.lock { readers = insert t (depth_of t s.lock + 1) s.lock.readers }) s.queue
IsSafe-reads s t safe may = record {
  exclusive = λ w u n owner hit.
      let at = lookup-insert t u (depth_of t s.lock + 1) s.lock.readers in
      elim (Bool-cases (t == u)) [
        | inl here ↦ elim may [
          | inl nobody ↦ ground (arith, nobody)
          | inr held ↦ ground (arith, already_held-owner t w s safe owner held, nat_eq.same_iff t u)
        ]
        | inr there ↦ safe.exclusive w u n owner (ground (arith, at))
      ];
  positive = λ u n hit.
      ground (arith, lookup-insert t u (depth_of t s.lock + 1) s.lock.readers, safe.positive u n);
  free = safe.free;
  held = safe.held;
  counted = safe.counted;
}

IsSafe-ends_read :
    (s : State) (t : ℕ)
    → IsSafe s.lock s.queue
    → IsSafe (record s.lock { readers = erase t s.lock.readers }) s.queue
IsSafe-ends_read s t safe = record {
  exclusive = λ w u n owner hit.
      safe.exclusive w u n owner (ground (arith, lookup-erase t u s.lock.readers));
  positive = λ u n hit. safe.positive u n (ground (arith, lookup-erase t u s.lock.readers));
  free = safe.free;
  held = safe.held;
  counted = safe.counted;
}

stored_depth : (t : ℕ) (l : Lock) → 2 ≤ depth_of t l → (n : ℕ) × (lookup t l.readers ≡ some n)
unfolding depth_of
stored_depth t l h = elim (Option-cases (lookup t l.readers)) [
  | inl miss ↦ absurd (ground arith)
  | inr (n, hit) ↦ (n, hit)
]

IsSafe-lowers_read :
    (s : State) (t : ℕ)
    → IsSafe s.lock s.queue
    → 2 ≤ depth_of t s.lock
    → IsSafe (record s.lock { readers = insert t (depth_of t s.lock - 1) s.lock.readers }) s.queue
IsSafe-lowers_read s t safe deep =
    let (m, stored) = stored_depth t s.lock deep in
    record {
      exclusive = λ w u n owner hit.
          let at = lookup-insert t u (depth_of t s.lock - 1) s.lock.readers in
          elim (Bool-cases (t == u)) [
            | inl here ↦ ground (arith, safe.exclusive w t m owner stored, nat_eq.same_iff t u)
            | inr there ↦ safe.exclusive w u n owner (ground (arith, at))
          ];
      positive = λ u n hit.
          ground
            (arith, lookup-insert t u (depth_of t s.lock - 1) s.lock.readers, safe.positive u n);
      free = safe.free;
      held = safe.held;
      counted = safe.counted;
    }

pub lookup-is_empty : (t n : ℕ) (d : Dict ℕ ℕ) → is_empty d ≡ true → lookup t d ≡ some n → ⊥
unfolding lookup is_empty
lookup-is_empty t n [] h e = ground arith
lookup-is_empty t n (x ∷ d) h e = ground arith

pub IsSafe-Step : (s s' : State) → Step s s' → IsSafe s.lock s.queue → IsSafe s'.lock s'.queue
IsSafe-Step s _ (reads t first l e) safe =
    let (is, may) = acquire_read-returned t s.lock first l e in rw is (IsSafe-reads s t safe may)
IsSafe-Step s _ (ends_read t b l e) safe = elim (release_read-returned t s.lock b l e) [
  | inl (_, is) ↦ rw is (IsSafe-ends_read s t safe)
  | inr (deep, is) ↦ rw is (IsSafe-lowers_read s t safe deep)
]
IsSafe-Step s _ (writes_again t b l e) safe =
    let (owner, is) = acquire_write-returned t s.lock b l e in
    rw is (record {
      exclusive = safe.exclusive;
      positive = safe.positive;
      free = λ nobody. ground (arith, owner, nobody);
      held = λ w h. omega arith;
      counted = safe.counted;
    })
IsSafe-Step s _ (queues t l e) safe = rw (acquire_write-waits t s.lock l e) (record {
  exclusive = safe.exclusive;
  positive = safe.positive;
  free = safe.free;
  held = safe.held;
  counted = omega (arith, safe.counted);
})
IsSafe-Step s _ (writes t b l queued e) safe =
    let (_, empty, is) = take_write-returned t s.lock b l e in
    rw is (record {
      exclusive = λ w u n owner hit. absurd (lookup-is_empty u n s.lock.readers empty hit);
      positive = safe.positive;
      free = λ nobody. ground arith;
      held = λ w h. omega arith;
      counted = omega (arith, safe.counted, length-leave t s.queue queued);
    })
IsSafe-Step s _ (interrupted t queued) safe = record {
  exclusive = safe.exclusive;
  positive = safe.positive;
  free = safe.free;
  held = safe.held;
  counted = omega (arith, safe.counted, length-leave t s.queue queued);
}
IsSafe-Step s _ (ends_write t b l e) safe = elim (release_write-returned t s.lock b l e) [
  | inl (_, _, is) ↦ rw is (record {
    exclusive = λ w u n owner hit. ground arith;
    positive = safe.positive;
    free = λ nobody. refl;
    held = λ w h. ground arith;
    counted = safe.counted;
  })
  | inr (_, deep, is) ↦ rw is (record {
    exclusive = safe.exclusive;
    positive = safe.positive;
    free = λ nobody. ground (arith, safe.free nobody);
    held = λ w h. omega arith;
    counted = safe.counted;
  })
]

-- What the lock records of itself is sound in every state that can be reached.
pub Reach-IsSafe : (s : State) → Reach s → IsSafe s.lock s.queue
unfolding init lookup
Reach-IsSafe _ begin = record {
  exclusive = λ w t n owner hit. ground arith;
  positive = λ t n hit. ground arith;
  free = λ nobody. refl;
  held = λ w h. ground arith;
  counted = refl;
}
Reach-IsSafe _ (next {s} {s'} reach step) = IsSafe-Step s s' step (Reach-IsSafe s reach)
