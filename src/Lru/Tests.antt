-- ===== src/Lru/Tests.antt =====
-- Runs of the cache, and its theorems at a cache of two entries.
use raguardian.Prelude.{
  ℕ, String, ◌≡◌, refl, false, none, some, List, [], ◌∷◌, map, arith, text_eq, ◌==◌, All, nat_eq,
  string_eq, option_eq, pair_eq,
}
use raguardian.Dict.{lookup}
use raguardian.Lru.{SimpleLruCache, init, get, set, clear, clear_matching, clear_prefix}
use raguardian.Lru.Bounds.{IsValid, Call, get_at, set_at, run, run-bounded}
use raguardian.Lru.Bounds
use raguardian.Lru.Recency

program : Unit {0}
unfolding text_eq init get set clear clear_matching clear_prefix Bounds.run Recency.set_all
program = tt

abbrev calls : List (Call ℕ)
calls = set_at 0 "a" 1 60 ∷ set_at 1 "b" 2 60 ∷ get_at 2 "a" ∷ set_at 3 "c" 3 60 ∷ []

-- "b" is the least recently used key when "c" comes.
evicted : map (λ e. e.0) (Bounds.run calls (init 2)).cache ≡ "a" ∷ "c" ∷ []
unfolding program
evicted = refl

expired : (get 61000000 "a" (set 0 "a" 1 60 (init {V = ℕ} 2))).0 ≡ none
unfolding program
expired = refl

run-bounded_example : IsValid (Bounds.run calls (init 2))
run-bounded_example = Bounds.run-bounded 2 calls

abbrev writes : List (ℕ × String × ℕ × ℕ)
writes = (1000000, "b", 2, 60) ∷ []

others : All (λ w. (w.1 == "a") ≡ false) writes
unfolding program
others = (refl, tt)

recent_set-kept_example :
    (get 60000000 "a" (Recency.set_all writes (set 0 "a" 1 60 (init 2)))).0 ≡ some 1
unfolding init
recent_set-kept_example =
    Recency.recent_set-kept 0 "a" 1 60 (init 2) writes 60000000 others (omega arith) (omega arith)

abbrev full : SimpleLruCache ℕ
full = record {
  max_size = 2;
  cache =
      ("a", record { value = 1; created_at = 0; ttl = 60 })
      ∷ ("z", record { value = 9; created_at = 0; ttl = 60 })
      ∷ [];
}

full-hit : lookup "a" full.cache ≡ some (record { value = 1; created_at = 0; ttl = 60 })
unfolding program lookup
full-hit = refl

recent_get-kept_example :
    (get 60000000 "a" (Recency.set_all writes (get 500000 "a" full).1)).0 ≡ some 1
recent_get-kept_example =
    Recency.recent_get-kept 500000 "a" full (record { value = 1; created_at = 0; ttl = 60 }) writes
      60000000 full-hit (omega arith) (omega arith) others (omega arith)
