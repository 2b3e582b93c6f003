-- ===== src/Lru.antt =====
-- `CacheEntry` and `SimpleLRUCache` of app/utils/cache.py: an `OrderedDict` from the least to the
-- most recently used key, whose entries expire. The clock is an argument.
pub mod Bounds
pub mod Recency
mod Tests
use text.Mathlib.Text.{starts_with}
use raguardian.Prelude.{
  ℕ, ◌+◌, String, Bool, Option, none, some, List, [], ◌∷◌, ◌++◌, ltb, if◌then◌else◌, length, nat_eq,
  string_eq, option_eq, pair_eq,
}
use raguardian.Clock.{seconds}
use raguardian.Dict.{Dict, keys_where, lookup, insert, erase, erase_all}

pub record CacheEntry {ℓ} (V : Type ℓ) : Type ℓ where
  pub value : V
  pub created_at : ℕ
  pub ttl : ℕ

-- `time.time() - self.created_at > self.ttl`
unfoldable pub is_expired {ℓ} : {V : Type ℓ} → ℕ → CacheEntry V → Bool
is_expired now entry = ltb (entry.created_at + seconds entry.ttl) now

pub record SimpleLruCache {ℓ} (V : Type ℓ) : Type ℓ where
  pub max_size : ℕ
  pub cache : List (String × CacheEntry V)

module _ {V : Type 0} where
  unfoldable pub init : ℕ → SimpleLruCache V
  init max_size = record { max_size = max_size; cache = [] }

  -- `cache.move_to_end(key)`
  unfoldable pub move_to_end :
      String → CacheEntry V → Dict String (CacheEntry V) → Dict String (CacheEntry V)
  unfolding erase
  move_to_end key entry d = erase key d ++ (key, entry) ∷ []

  unfoldable pub get : ℕ → String → SimpleLruCache V → Option V × SimpleLruCache V
  unfolding lookup erase is_expired move_to_end
  get now key c = elim (lookup key c.cache) [
    | none ↦ (none, c)
    | some entry ↦
        if is_expired now entry
        then (none, record c { cache = erase key c.cache })
        else (some entry.value, record c { cache = move_to_end key entry c.cache })
  ]

  -- `if len(self.cache) > self.max_size: del self.cache[next(iter(self.cache))]`
  unfoldable pub evict : ℕ → Dict String (CacheEntry V) → Dict String (CacheEntry V)
  unfolding erase
  evict max_size [] = []
  evict max_size ((oldest_key, entry) ∷ d) =
      if ltb max_size (length ((oldest_key, entry) ∷ d))
      then erase oldest_key ((oldest_key, entry) ∷ d)
      else (oldest_key, entry) ∷ d

  unfoldable pub set : ℕ → String → V → ℕ → SimpleLruCache V → SimpleLruCache V
  unfolding erase insert evict
  set now key value ttl c =
      let entry : CacheEntry V = record { value = value; created_at = now; ttl = ttl } in
      record c { cache = evict c.max_size (insert key entry (erase key c.cache)) }

  unfoldable pub clear : SimpleLruCache V → SimpleLruCache V
  clear c = record c { cache = [] }

  -- `clear_matching`, and `clear_prefix` with the test `key.startswith(prefix)`
  unfoldable pub clear_matching : (String → Bool) → SimpleLruCache V → ℕ × SimpleLruCache V
  unfolding keys_where erase_all erase
  clear_matching predicate c =
      let keys = keys_where (λ key _. predicate key) c.cache in
      (length keys, record c { cache = erase_all keys c.cache })

  unfoldable pub clear_prefix : String → SimpleLruCache V → ℕ × SimpleLruCache V
  unfolding keys_where erase_all erase
  clear_prefix prefix c =
      let keys = keys_where (λ key _. starts_with key prefix) c.cache in
      (length keys, record c { cache = erase_all keys c.cache })
