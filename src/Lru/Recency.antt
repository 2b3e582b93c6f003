-- ===== src/Lru/Recency.antt =====
-- Which entry is evicted: never one that was used more recently than another.
use native.Mathlib.Decide.{dec_lt}
use raguardian.Prelude.{
  ℕ, suc, ◌+◌, ◌≤◌, ◌<◌, String, ◌≡◌, refl, ap, ◌⊎◌, inl, inr, false, none, some, List, [], ◌∷◌,
  ◌++◌, arith, if◌then◌else◌, text_eq_iff, ◌==◌, ==_refl, length, All, length-append, nat_eq,
  string_eq, option_eq, pair_eq,
}
use raguardian.Clock.{seconds}
use raguardian.Dict.{Dict, lookup, insert, erase}
use raguardian.Dict.Laws.{
  lookup-insert, lookup-erase, lookup-append, insert_absent, lookup-erase_self, length-erase-le,
}
use raguardian.Lru.{CacheEntry, is_expired, SimpleLruCache, move_to_end, get, evict, set}

module _ {V : Type 0} where
  -- The number of entries that were used after the key.
  unfoldable pub younger : String → Dict String (CacheEntry V) → ℕ
  younger key [] = 0
  younger key ((k, entry) ∷ d) = if k == key then length d else younger key d

  younger-lt-length :
      (key : String) (entry : CacheEntry V) (d : Dict String (CacheEntry V))
      → lookup key d ≡ some entry
      → younger key d < length d
  unfolding younger lookup
  younger-lt-length key entry [] h = cc
  younger-lt-length key entry ((k, e) ∷ d) h = ground (arith, younger-lt-length key entry d)

  younger-erase :
      (key other : String) (d : Dict String (CacheEntry V))
      → (other == key) ≡ false
      → younger key (erase other d) ≤ younger key d
  unfolding younger erase
  younger-erase key other [] ne = omega arith
  younger-erase key other ((k, e) ∷ d) ne = ground (
    arith,
    younger-erase key other d,
    length-erase-le other d,
    text_eq_iff k key,
    text_eq_iff k other,
    text_eq_iff other key,
  )

  younger-append :
      (key other : String) (entry : CacheEntry V) (d : Dict String (CacheEntry V))
      → (other == key) ≡ false
      → younger key (d ++ (other, entry) ∷ []) ≤ suc (younger key d)
  unfolding younger
  younger-append key other entry [] ne = ground arith
  younger-append key other entry ((k, e) ∷ d) ne =
      ground (arith, younger-append key other entry d, length-append d ((other, entry) ∷ []))

  evict-cons :
      (n : ℕ) (k : String) (e : CacheEntry V) (d : Dict String (CacheEntry V))
      → ((evict n ((k, e) ∷ d) ≡ erase k ((k, e) ∷ d)) × (n ≤ length d))
        ⊎ (evict n ((k, e) ∷ d) ≡ (k, e) ∷ d)
  unfolding evict
  evict-cons n k e d = elim (dec_lt n (length ((k, e) ∷ d))) [
    | yes full ↦ inl (ground arith, omega arith)
    | no room ↦ inr (ground arith)
  ]

  younger-head :
      (n : ℕ) (key k : String) (e : CacheEntry V) (d : Dict String (CacheEntry V))
      → younger key ((k, e) ∷ d) < n
      → n ≤ length d
      → (k == key) ≡ false
  unfolding younger
  younger-head n key k e d h le = ground arith

  -- An entry with fewer than `n` younger ones survives an eviction.
  evict_keeps :
      (n : ℕ) (key : String) (entry : CacheEntry V) (d : Dict String (CacheEntry V))
      → lookup key d ≡ some entry
      → younger key d < n
      → (lookup key (evict n d) ≡ some entry) × (younger key (evict n d) ≤ younger key d)
  evict_keeps n key entry [] h lt = unfold evict in (h, omega arith)
  evict_keeps n key entry ((k, e) ∷ d) h lt = elim (evict-cons n k e d) [
    | inl (gone, full) ↦
        let other = younger-head n key k e d lt full in
        (rw (gone, lookup-erase, other) h, rw gone (younger-erase key k ((k, e) ∷ d) other))
    | inr same ↦ (rw same h, rw same (omega arith))
  ]

  -- An assignment to another key makes an entry at most one place older.
  set_keeps :
      (now : ℕ) (other key : String) (value : V) (ttl : ℕ) (c : SimpleLruCache V)
      (entry : CacheEntry V)
      → (other == key) ≡ false
      → lookup key c.cache ≡ some entry
      → suc (younger key c.cache) < c.max_size
      → (lookup key (set now other value ttl c).cache ≡ some entry)
        × (younger key (set now other value ttl c).cache ≤ suc (younger key c.cache))
  unfolding set
  set_keeps now other key value ttl c entry ne h lt =
      let fresh : CacheEntry V = record { value = value; created_at = now; ttl = ttl } in
      let rest = erase other c.cache in
      let absent = lookup-erase_self other c.cache in
      let appended = insert_absent other fresh rest absent in
      let near = younger-append key other fresh rest ne in
      let shorter = younger-erase key other c.cache ne in
      let (kept, order) =
        evict_keeps c.max_size key entry (insert other fresh rest)
          (rw (lookup-insert, ne, lookup-erase, ne) h) (rw appended (omega arith)) in
      (kept, omega (arith, order, ap (younger key) appended))

  -- Assignments one after the other, each with its time, its key, its value and its lifetime.
  unfoldable pub set_all : List (ℕ × String × V × ℕ) → SimpleLruCache V → SimpleLruCache V
  unfolding set
  set_all [] c = c
  set_all ((now, key, value, ttl) ∷ writes) c = set_all writes (set now key value ttl c)

  max_size-set :
      (now : ℕ) (key : String) (value : V) (ttl : ℕ) (c : SimpleLruCache V)
      → (set now key value ttl c).max_size ≡ c.max_size
  unfolding set
  max_size-set now key value ttl c = refl

  set_all_keeps :
      (writes : List (ℕ × String × V × ℕ)) (key : String) (c : SimpleLruCache V)
      (entry : CacheEntry V)
      → All (λ w. (w.1 == key) ≡ false) writes
      → lookup key c.cache ≡ some entry
      → length writes + younger key c.cache < c.max_size
      → lookup key (set_all writes c).cache ≡ some entry
  unfolding set_all
  set_all_keeps [] key c entry ne h lt = h
  set_all_keeps ((now, other, value, ttl) ∷ writes) key c entry (ne, others) h lt =
      let (kept, order) = set_keeps now other key value ttl c entry ne h (omega arith) in
      set_all_keeps writes key (set now other value ttl c) entry others kept
        (omega (arith, max_size-set now other value ttl c))

  younger-append_self :
      (key : String) (entry : CacheEntry V) (d : Dict String (CacheEntry V))
      → lookup key d ≡ none
      → younger key (d ++ (key, entry) ∷ []) ≡ 0
  unfolding younger lookup
  younger-append_self key entry [] h = ground arith
  younger-append_self key entry ((k, e) ∷ d) h = ground (arith, younger-append_self key entry d)

  get_live :
      (now : ℕ) (key : String) (c : SimpleLruCache V) (entry : CacheEntry V)
      → lookup key c.cache ≡ some entry
      → now ≤ entry.created_at + seconds entry.ttl
      → get now key c ≡ (some entry.value, record c { cache = move_to_end key entry c.cache })
  unfolding get is_expired
  get_live now key c entry h live = ground arith

  -- A value that was just stored is still found, within its lifetime, after fewer than `max_size`
  -- assignments to other keys.
  pub recent_set-kept :
      (now : ℕ) (key : String) (value : V) (ttl : ℕ) (c : SimpleLruCache V)
      (writes : List (ℕ × String × V × ℕ)) (later : ℕ)
      → All (λ w. (w.1 == key) ≡ false) writes
      → length writes < c.max_size
      → later ≤ now + seconds ttl
      → (get later key (set_all writes (set now key value ttl c))).0 ≡ some value
  recent_set-kept now key value ttl c writes later others lt alive =
      let fresh : CacheEntry V = record { value = value; created_at = now; ttl = ttl } in
      let rest = erase key c.cache in
      let absent = lookup-erase_self key c.cache in
      let first : younger key (insert key fresh rest) ≡ 0 =
        rw (insert_absent key fresh rest absent) (younger-append_self key fresh rest absent) in
      let (kept, order) =
        evict_keeps c.max_size key fresh (insert key fresh rest)
          (rw (lookup-insert, ==_refl key) refl) (omega arith) in
      let stored : lookup key (set now key value ttl c).cache ≡ some fresh = unfold set in kept in
      let near : younger key (set now key value ttl c).cache ≡ 0 =
        unfold set in omega (arith, order) in
      ap (λ r. r.0)
        (get_live later key (set_all writes (set now key value ttl c)) fresh
          (set_all_keeps writes key (set now key value ttl c) fresh others stored
            (omega (arith, near, max_size-set now key value ttl c)))
          alive)

  -- A value that was just read is still found, within its lifetime, after fewer than `max_size`
  -- assignments to other keys: reading counts as use.
  pub recent_get-kept :
      (now : ℕ) (key : String) (c : SimpleLruCache V) (entry : CacheEntry V)
      (writes : List (ℕ × String × V × ℕ)) (later : ℕ)
      → lookup key c.cache ≡ some entry
      → now ≤ later
      → later ≤ entry.created_at + seconds entry.ttl
      → All (λ w. (w.1 == key) ≡ false) writes
      → length writes < c.max_size
      → (get later key (set_all writes (get now key c).1)).0 ≡ some entry.value
  unfolding move_to_end
  recent_get-kept now key c entry writes later hit order alive others lt =
      let rest = erase key c.cache in
      let absent = lookup-erase_self key c.cache in
      let c' : SimpleLruCache V = record c { cache = rest ++ (key, entry) ∷ [] } in
      let moved : (get now key c).1 ≡ c' =
        ap (λ r. r.1) (get_live now key c entry hit (omega arith)) in
      rw moved (
        ap (λ r. r.0)
          (get_live later key (set_all writes c') entry
            (set_all_keeps writes key c' entry others
              (rw (lookup-append key key entry rest absent, ==_refl key) refl)
              (omega (arith, younger-append_self key entry rest absent)))
            alive))
