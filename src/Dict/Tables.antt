-- ===== src/Dict/Tables.antt =====
-- Lemmas for dictionaries that stand for the tables of a database: changes and deletions of many
-- rows, and searches.
use raguardian.Prelude.{
  ◌≡◌, refl, inl, inr, Bool, false, none, some, [], ◌∷◌, arith, if◌then◌else◌, Option-cases, Eq,
  ◌==◌, any, nat_eq, string_eq, option_eq, pair_eq,
}
use raguardian.Dict.{Dict, keys_where, without, map_values, lookup, update_at, Distinct}
use raguardian.Dict.Laws.{lookup-insert, insert-Distinct, any-keys_where}

module _ {ℓ} {K V : Type ℓ} ⦃e : Eq K⦄ where
  pub lookup-map_values :
      (f : K → V → V) (k : K) (d : Dict K V)
      → lookup k (map_values f d) ≡ elim (lookup k d) [ none ↦ none | some v ↦ some (f k v) ]
  unfolding lookup map_values
  lookup-map_values f k [] = refl
  lookup-map_values f k ((j, v) ∷ d) = ground (arith, lookup-map_values f k d, e.same_iff j k)

  pub lookup-update_at :
      (k j : K) (f : V → V) (d : Dict K V)
      → lookup j (update_at k f d)
        ≡ (if k == j then elim (lookup j d) [ none ↦ none | some v ↦ some (f v) ] else lookup j d)
  unfolding update_at
  lookup-update_at k j f d = elim (Option-cases (lookup k d)) [
    | inl miss ↦ rw (miss, update_at) (ground (arith, miss, e.same_iff k j))
    | inr (v, hit) ↦
        rw (hit, update_at) (ground (arith, hit, lookup-insert k j (f v) d, e.same_iff k j))
  ]

  pub lookup-without_keys :
      (q : K → Bool) (k : K) (d : Dict K V)
      → lookup k (without (λ k _. q k) d) ≡ (if q k then none else lookup k d)
  unfolding lookup without
  lookup-without_keys q k [] = ground arith
  lookup-without_keys q k ((j, v) ∷ d) = ground (arith, lookup-without_keys q k d, e.same_iff j k)

  -- A search that fails rules out every stored row.
  pub any-lookup :
      (p : K × V → Bool) (k : K) (v : V) (d : Dict K V)
      → any p d ≡ false
      → lookup k d ≡ some v
      → p (k, v) ≡ false
  unfolding lookup any
  any-lookup p k v [] h s = absurd (ground arith)
  any-lookup p k v ((j, w) ∷ d) h s = ground (arith, any-lookup p k v d, e.same_iff j k)

  -- A stored key is collected if its value passes the test.
  pub any-keys_where_hit :
      (p : K → V → Bool) (k : K) (v : V) (d : Dict K V)
      → Distinct d
      → lookup k d ≡ some v
      → any (λ j. j == k) (keys_where p d) ≡ p k v
  unfolding lookup keys_where any
  any-keys_where_hit p k v [] h s = absurd (ground arith)
  any-keys_where_hit p k v ((j, w) ∷ d) h s =
      ground (arith, any-keys_where_hit p k v d h.1, any-keys_where p j d h.0, e.same_iff j k)

  pub map_values-Distinct : (f : K → V → V) (d : Dict K V) → Distinct d → Distinct (map_values f d)
  unfolding map_values
  map_values-Distinct f [] h = tt
  map_values-Distinct f ((k, v) ∷ d) h =
      ground (arith, lookup-map_values f k d, map_values-Distinct f d h.1)

  pub update_at-Distinct :
      (k : K) (f : V → V) (d : Dict K V) → Distinct d → Distinct (update_at k f d)
  unfolding update_at
  update_at-Distinct k f d h = elim (Option-cases (lookup k d)) [
    | inl miss ↦ rw (miss, update_at) h
    | inr (v, hit) ↦ rw (hit, update_at) (insert-Distinct k (f v) d h)
  ]
