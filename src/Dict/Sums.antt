-- ===== src/Dict/Sums.antt =====
-- Sums of a weight over the values of a `dict`, and predicates on all its entries.
use raguardian.Prelude.{
  ℕ, ◌+◌, ◌≤◌, ◌≡◌, Bool, Option, none, some, List, [], ◌∷◌, arith, Eq, All, nat_eq, string_eq,
  option_eq, pair_eq,
}
use raguardian.Dict.{Dict, total, without, lookup, insert, erase, erase_all, Distinct}
use raguardian.Dict.Laws.{erase_absent}

-- The weight of a value that may be absent.
abbrev pub weight {ℓ} : {V : Type ℓ} → (V → ℕ) → Option V → ℕ
weight f none = 0
weight f (some v) = f v

module _ {ℓ} {K V : Type ℓ} ⦃e : Eq K⦄ (f : V → ℕ) where
  pub total-insert :
      (k : K) (v : V) (d : Dict K V)
      → total f (insert k v d) + weight f (lookup k d) ≡ total f d + f v
  unfolding total lookup insert
  total-insert k v [] = omega arith
  total-insert k v ((i, w) ∷ d) = ground (arith, total-insert k v d)

  pub total-erase :
      (k : K) (d : Dict K V) → Distinct d → total f (erase k d) + weight f (lookup k d) ≡ total f d
  unfolding total lookup erase
  total-erase k [] h = omega arith
  total-erase k ((i, w) ∷ d) h =
      ground (arith, total-erase k d h.1, erase_absent k d, e.same_iff i k)

  pub weight-le-total : (k : K) (d : Dict K V) → weight f (lookup k d) ≤ total f d
  unfolding total lookup
  weight-le-total k [] = omega arith
  weight-le-total k ((i, w) ∷ d) = ground (arith, weight-le-total k d)

pub total-without-le {ℓ κ} :
    {K : Type ℓ} {V : Type κ} (f : V → ℕ) (p : K → V → Bool) (d : List (K × V))
    → total f (without p d) ≤ total f d
unfolding total without
total-without-le f p [] = omega arith
total-without-le f p ((k, v) ∷ d) = ground (arith, total-without-le f p d)

-- A predicate on all entries survives each operation.
module _ {ℓ} {K V : Type ℓ} (P : K × V → Type ℓ) where
  pub All-without : (p : K → V → Bool) (d : List (K × V)) → All P d → All P (without p d)
  unfolding without
  All-without p [] h = tt
  All-without p ((k, v) ∷ d) h = ground (arith, All-without p d h.1)

  pub All-erase : ⦃e : Eq K⦄ (k : K) (d : Dict K V) → All P d → All P (erase k d)
  unfolding erase
  All-erase k [] h = tt
  All-erase k ((j, v) ∷ d) h = ground (arith, All-erase k d h.1)

  pub All-lookup :
      ⦃e : Eq K⦄ (k : K) (d : Dict K V) (v : V) → All P d → lookup k d ≡ some v → P (k, v)
  unfolding lookup
  All-lookup k [] v h q = cc
  All-lookup ⦃e⦄ k ((j, w) ∷ d) v h q = ground (arith, All-lookup k d v h.1, e.same_iff j k)

  pub All-insert :
      ⦃e : Eq K⦄ (k : K) (v : V) (d : Dict K V) → P (k, v) → All P d → All P (insert k v d)
  unfolding insert
  All-insert k v [] p h = (p, tt)
  All-insert ⦃e⦄ k v ((j, w) ∷ d) p h = ground (arith, All-insert k v d p h.1, e.same_iff j k)

  pub All-erase_all : ⦃e : Eq K⦄ (ks : List K) (d : Dict K V) → All P d → All P (erase_all ks d)
  unfolding erase_all
  All-erase_all [] d h = h
  All-erase_all (k ∷ ks) d h = All-erase_all ks (erase k d) (All-erase k d h)
