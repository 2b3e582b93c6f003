-- ===== src/Lru/Bounds.antt =====
-- The cache never holds more than `max_size` entries, and no key twice.
use text.Mathlib.Text.{starts_with}
use raguardian.Prelude.{
  ℕ, suc, ◌≤◌, String, ◌≡◌, inl, inr, Bool, some, List, [], ◌∷◌, arith, Bool-cases, Option-cases,
  ==_refl, length, length-append, nat_eq, string_eq, option_eq, pair_eq,
}
use raguardian.Dict.{Dict, keys_where, lookup, erase, Distinct}
use raguardian.Dict.Laws.{
  insert-Distinct, erase-Distinct, erase_all-Distinct, lookup-erase_self, length-erase-le,
  length-erase, append-Distinct, length-insert-le, length-erase_all-le,
}
use raguardian.Lru.{
  CacheEntry, is_expired, SimpleLruCache, init, move_to_end, get, evict, set, clear, clear_matching,
  clear_prefix,
}

pub record IsValid {V : Type 0} (c : SimpleLruCache V) : Type 0 where
  pub bounded : length c.cache ≤ c.max_size
  pub distinct : Distinct c.cache

module _ {V : Type 0} where
  length-evict-le :
      (n : ℕ) (d : Dict String (CacheEntry V)) → length d ≤ suc n → length (evict n d) ≤ n
  unfolding evict lookup
  length-evict-le n [] h = omega arith
  length-evict-le n ((k, v) ∷ d) h = ground (arith, length-erase k v ((k, v) ∷ d), ==_refl k)

  evict-Distinct : (n : ℕ) (d : Dict String (CacheEntry V)) → Distinct d → Distinct (evict n d)
  unfolding evict
  evict-Distinct n [] h = tt
  evict-Distinct n ((k, v) ∷ d) h = ground (arith, erase-Distinct k ((k, v) ∷ d) h)

  length-move_to_end :
      (key : String) (entry : CacheEntry V) (d : Dict String (CacheEntry V))
      → lookup key d ≡ some entry
      → length (move_to_end key entry d) ≤ length d
  unfolding move_to_end
  length-move_to_end key entry d h =
      omega (arith, length-append (erase key d) ((key, entry) ∷ []), length-erase key entry d h)

  get-IsValid :
      (now : ℕ) (key : String) (c : SimpleLruCache V) → IsValid c → IsValid (get now key c).1
  unfolding get move_to_end
  get-IsValid now key c v = elim (Option-cases (lookup key c.cache)) [
    | inl miss ↦ rw (miss, get) v
    | inr (entry, hit) ↦ elim (Bool-cases (is_expired now entry)) [
      | inl old ↦
          rw (hit, get)
            (rw old (record {
              bounded = omega (arith, length-erase-le key c.cache, v.bounded);
              distinct = erase-Distinct key c.cache v.distinct;
            }))
      | inr live ↦
          rw (hit, get)
            (rw live (record {
              bounded = omega (arith, length-move_to_end key entry c.cache hit, v.bounded);
              distinct =
                  append-Distinct key entry (erase key c.cache) (lookup-erase_self key c.cache)
                    (erase-Distinct key c.cache v.distinct);
            }))
    ]
  ]

  set-IsValid :
      (now : ℕ) (key : String) (value : V) (ttl : ℕ) (c : SimpleLruCache V)
      → IsValid c
      → IsValid (set now key value ttl c)
  unfolding set
  set-IsValid now key value ttl c v = record {
    bounded = length-evict-le c.max_size _ (
        omega (
          arith,
          length-insert-le key (record { value = value; created_at = now; ttl = ttl })
              (erase key c.cache),
          length-erase-le key c.cache,
          v.bounded,
        ));
    distinct =
        evict-Distinct c.max_size _
          (insert-Distinct key _ _ (erase-Distinct key c.cache v.distinct));
  }

  clear_matching-IsValid :
      (predicate : String → Bool) (c : SimpleLruCache V)
      → IsValid c
      → IsValid (clear_matching predicate c).1
  unfolding clear_matching
  clear_matching-IsValid predicate c v = record {
    bounded = omega (arith, length-erase_all-le (keys_where (λ k _. predicate k) c.cache) c.cache);
    distinct = erase_all-Distinct (keys_where (λ k _. predicate k) c.cache) c.cache v.distinct;
  }

  clear_prefix-IsValid :
      (prefix : String) (c : SimpleLruCache V) → IsValid c → IsValid (clear_prefix prefix c).1
  unfolding clear_prefix
  clear_prefix-IsValid prefix c v = record {
    bounded = omega (
      arith,
      length-erase_all-le (keys_where (λ k _. starts_with k prefix) c.cache) c.cache,
      v.bounded,
    );
    distinct =
        erase_all-Distinct (keys_where (λ k _. starts_with k prefix) c.cache) c.cache v.distinct;
  }

-- The calls that a client of the cache makes, each at its time.
pub data Call (V : Type 0) : Type 0 where
  get_at : ℕ → String → Call V
  set_at : ℕ → String → V → ℕ → Call V
  clear_all : Call V
  clear_by : (String → Bool) → Call V
  clear_by_prefix : String → Call V

module _ {V : Type 0} where
  unfoldable pub perform : Call V → SimpleLruCache V → SimpleLruCache V
  unfolding get set clear clear_matching clear_prefix
  perform (get_at now key) c = (get now key c).1
  perform (set_at now key value ttl) c = set now key value ttl c
  perform clear_all c = clear c
  perform (clear_by predicate) c = (clear_matching predicate c).1
  perform (clear_by_prefix prefix) c = (clear_prefix prefix c).1

  unfoldable pub run : List (Call V) → SimpleLruCache V → SimpleLruCache V
  unfolding perform
  run [] c = c
  run (call ∷ calls) c = run calls (perform call c)

  clear-IsValid : (c : SimpleLruCache V) → IsValid (clear c)
  unfolding clear
  clear-IsValid c = record { bounded = omega arith; distinct = tt }

  perform-IsValid : (call : Call V) (c : SimpleLruCache V) → IsValid c → IsValid (perform call c)
  perform-IsValid (get_at now key) c v = unfold perform in get-IsValid now key c v
  perform-IsValid (set_at now key value ttl) c v =
      unfold perform in set-IsValid now key value ttl c v
  perform-IsValid clear_all c v = unfold perform in clear-IsValid c
  perform-IsValid (clear_by predicate) c v = unfold perform in clear_matching-IsValid predicate c v
  perform-IsValid (clear_by_prefix prefix) c v = unfold perform in clear_prefix-IsValid prefix c v

  run-IsValid : (calls : List (Call V)) (c : SimpleLruCache V) → IsValid c → IsValid (run calls c)
  unfolding run
  run-IsValid [] c v = v
  run-IsValid (call ∷ calls) c v = run-IsValid calls (perform call c) (perform-IsValid call c v)

  -- After any calls on a new cache it holds at most `max_size` entries, and no key twice.
  pub run-bounded : (max_size : ℕ) (calls : List (Call V)) → IsValid (run calls (init max_size))
  run-bounded max_size calls =
      run-IsValid calls (init max_size)
        (unfold init in (record { bounded = omega arith; distinct = tt }))
