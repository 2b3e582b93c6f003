-- ===== src/Dict.antt =====
-- Python's `dict` and `OrderedDict`: the entries in insertion order, one for each key.
-- Assignment to a present key keeps its place; a new key goes to the end.
pub mod Laws
pub mod Sums
pub mod Tables
use raguardian.Prelude.{
  ℕ, ◌+◌, ◌≡◌, Bool, Option, none, some, List, [], ◌∷◌, if◌then◌else◌, Eq, ◌==◌, nat_eq, string_eq,
  option_eq, pair_eq,
}

abbrev pub Dict {ℓ} : Type ℓ → Type ℓ → Type ℓ
Dict K V = List (K × V)

-- The sum of a weight over the values.
unfoldable pub total {ℓ κ} : {K : Type ℓ} {V : Type κ} → (V → ℕ) → List (K × V) → ℕ
total f [] = 0
total f ((k, v) ∷ d) = f v + total f d

-- The keys of the entries that pass a test, as the comprehensions of the program collect them.
unfoldable pub keys_where {ℓ κ} : {K : Type ℓ} {V : Type κ} → (K → V → Bool) → List (K × V) → List K
keys_where p [] = []
keys_where p ((k, v) ∷ d) = let rest = keys_where p d in if p k v then k ∷ rest else rest

-- The entries that fail a test.
unfoldable pub without {ℓ κ} :
    {K : Type ℓ} {V : Type κ} → (K → V → Bool) → List (K × V) → List (K × V)
without p [] = []
without p ((k, v) ∷ d) = let rest = without p d in if p k v then rest else (k, v) ∷ rest

-- The same keys with changed values.
unfoldable pub map_values {ℓ κ} :
    {K : Type ℓ} {V : Type κ} → (K → V → V) → List (K × V) → List (K × V)
map_values f [] = []
map_values f ((k, v) ∷ d) = (k, f k v) ∷ map_values f d

module _ {ℓ} {K V : Type ℓ} ⦃e : Eq K⦄ where
  -- `d.get(k)`
  unfoldable pub lookup : K → Dict K V → Option V
  lookup k [] = none
  lookup k ((j, v) ∷ d) = if j == k then some v else lookup k d

  -- `d[k] = v`
  unfoldable pub insert : K → V → Dict K V → Dict K V
  insert k v [] = (k, v) ∷ []
  insert k v ((j, w) ∷ d) = if j == k then (j, v) ∷ d else (j, w) ∷ insert k v d

  -- A change of the value of one key, if it is there.
  unfoldable pub update_at : K → (V → V) → Dict K V → Dict K V
  unfolding lookup insert
  update_at k f d = elim (lookup k d) [ none ↦ d | some v ↦ insert k (f v) d ]

  -- `d.pop(k, None)`, `del d[k]`
  unfoldable pub erase : K → Dict K V → Dict K V
  erase k [] = []
  erase k ((j, v) ∷ d) = let rest = erase k d in if j == k then rest else (j, v) ∷ rest

  -- `for key in keys: d.pop(key, None)`
  unfoldable pub erase_all : List K → Dict K V → Dict K V
  erase_all [] d = d
  erase_all (k ∷ ks) d = erase_all ks (erase k d)

  -- The invariant of every `dict`: no key stands twice.
  abbrev pub Distinct : Dict K V → Type ℓ
  Distinct [] = Unit
  Distinct ((k, v) ∷ d) = (lookup k d ≡ none) × Distinct d
