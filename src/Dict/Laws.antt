-- ===== src/Dict/Laws.antt =====
-- What can be looked up after an operation on a `dict`, and that its keys stay distinct.
use raguardian.Prelude.{
  suc, ◌≤◌, ◌≡◌, refl, Bool, false, none, some, List, [], ◌∷◌, ◌++◌, arith, if◌then◌else◌, Eq, ◌==◌,
  ==_refl, length, any, nat_eq, string_eq, option_eq, pair_eq,
}
use raguardian.Dict.{Dict, keys_where, without, lookup, insert, erase, erase_all, Distinct}

module _ {ℓ} {K V : Type ℓ} ⦃e : Eq K⦄ where
  pub lookup-insert :
      (k j : K) (v : V) (d : Dict K V)
      → lookup j (insert k v d) ≡ (if k == j then some v else lookup j d)
  unfolding lookup insert
  lookup-insert k j v [] = refl
  lookup-insert k j v ((i, w) ∷ d) =
      ground (arith, e.same_iff k j, e.same_iff i k, e.same_iff i j, lookup-insert k j v d)

  pub lookup-erase :
      (k j : K) (d : Dict K V) → lookup j (erase k d) ≡ (if k == j then none else lookup j d)
  unfolding lookup erase
  lookup-erase k j [] = ground arith
  lookup-erase k j ((i, w) ∷ d) =
      ground (arith, e.same_iff k j, e.same_iff i k, e.same_iff i j, lookup-erase k j d)

  pub lookup-erase_all :
      (ks : List K) (j : K) (d : Dict K V)
      → lookup j (erase_all ks d) ≡ (if any (λ k. k == j) ks then none else lookup j d)
  unfolding erase_all any
  lookup-erase_all [] j d = refl
  lookup-erase_all (k ∷ ks) j d =
      ground (arith, lookup-erase_all ks j (erase k d), lookup-erase k j d)

  pub insert-Distinct : (k : K) (v : V) (d : Dict K V) → Distinct d → Distinct (insert k v d)
  unfolding lookup insert
  insert-Distinct k v [] h = (refl, tt)
  insert-Distinct k v ((i, w) ∷ d) h =
      ground
        (arith, lookup-insert k i v d, insert-Distinct k v d h.1, e.same_iff k i, e.same_iff i k)

  pub erase-Distinct : (k : K) (d : Dict K V) → Distinct d → Distinct (erase k d)
  unfolding erase
  erase-Distinct k [] h = tt
  erase-Distinct k ((i, w) ∷ d) h = ground (arith, lookup-erase k i d, erase-Distinct k d h.1)

  pub erase_all-Distinct : (ks : List K) (d : Dict K V) → Distinct d → Distinct (erase_all ks d)
  unfolding erase_all
  erase_all-Distinct [] d h = h
  erase_all-Distinct (k ∷ ks) d h = erase_all-Distinct ks (erase k d) (erase-Distinct k d h)

  pub erase_absent : (k : K) (d : Dict K V) → lookup k d ≡ none → erase k d ≡ d
  unfolding lookup erase
  erase_absent k [] h = refl
  erase_absent k ((i, w) ∷ d) h = ground (arith, erase_absent k d)

  erase_all-cons :
      (ks : List K) (k : K) (v : V) (d : Dict K V)
      → any (λ j. j == k) ks ≡ false
      → erase_all ks ((k, v) ∷ d) ≡ (k, v) ∷ erase_all ks d
  unfolding erase_all erase any
  erase_all-cons [] k v d h = refl
  erase_all-cons (j ∷ ks) k v d h =
      ground (arith, erase_all-cons ks k v (erase j d), e.same_iff j k, e.same_iff k j)

  pub any-keys_where :
      (p : K → V → Bool) (j : K) (d : Dict K V)
      → lookup j d ≡ none
      → any (λ k. k == j) (keys_where p d) ≡ false
  unfolding lookup keys_where any
  any-keys_where p j [] h = refl
  any-keys_where p j ((i, w) ∷ d) h = ground (arith, any-keys_where p j d)

  -- To collect the keys that pass a test and to pop each of them leaves the entries that fail it.
  pub erase_all-keys_where :
      (p : K → V → Bool) (d : Dict K V) → Distinct d → erase_all (keys_where p d) d ≡ without p d
  unfolding keys_where without erase_all erase
  erase_all-keys_where p [] h = refl
  erase_all-keys_where p ((k, v) ∷ d) h = ground (
    arith,
    ==_refl k,
    erase_absent k d,
    erase_all-keys_where p d h.1,
    erase_all-cons (keys_where p d) k v d,
    any-keys_where p k d h.0,
  )

  pub lookup-without :
      (p : K → V → Bool) (j : K) (d : Dict K V)
      → Distinct d
      → lookup j (without p d)
        ≡ elim (lookup j d) [ none ↦ none | some v ↦ (if p j v then none else some v) ]
  unfolding lookup without
  lookup-without p j [] h = refl
  lookup-without p j ((i, w) ∷ d) h = ground (arith, lookup-without p j d h.1, e.same_iff i j)

  pub without-Distinct : (p : K → V → Bool) (d : Dict K V) → Distinct d → Distinct (without p d)
  unfolding without
  without-Distinct p [] h = tt
  without-Distinct p ((k, v) ∷ d) h =
      ground (arith, lookup-without p k d h.1, without-Distinct p d h.1)

  pub lookup-append :
      (k j : K) (v : V) (d : Dict K V)
      → lookup k d ≡ none
      → lookup j (d ++ (k, v) ∷ []) ≡ (if k == j then some v else lookup j d)
  unfolding lookup
  lookup-append k j v [] h = refl
  lookup-append k j v ((i, w) ∷ d) h =
      ground (arith, lookup-append k j v d, e.same_iff i k, e.same_iff i j, e.same_iff k j)

  pub insert_absent :
      (k : K) (v : V) (d : Dict K V) → lookup k d ≡ none → insert k v d ≡ d ++ (k, v) ∷ []
  unfolding lookup insert
  insert_absent k v [] h = refl
  insert_absent k v ((i, w) ∷ d) h = ground (arith, insert_absent k v d)

  pub lookup-erase_self : (k : K) (d : Dict K V) → lookup k (erase k d) ≡ none
  lookup-erase_self k d = rw (lookup-erase k k d, ==_refl k)

  pub length-erase-le : (k : K) (d : Dict K V) → length (erase k d) ≤ length d
  unfolding erase
  length-erase-le k [] = omega arith
  length-erase-le k ((i, w) ∷ d) = ground (arith, length-erase-le k d)

  pub length-erase :
      (k : K) (v : V) (d : Dict K V) → lookup k d ≡ some v → suc (length (erase k d)) ≤ length d
  unfolding lookup erase
  length-erase k v [] h = cc
  length-erase k v ((i, w) ∷ d) h = ground (arith, length-erase k v d, length-erase-le k d)

  pub append-Distinct :
      (k : K) (v : V) (d : Dict K V) → lookup k d ≡ none → Distinct d → Distinct (d ++ (k, v) ∷ [])
  append-Distinct k v d h distinct = rw (← insert_absent k v d h) (insert-Distinct k v d distinct)

  pub length-insert-le : (k : K) (v : V) (d : Dict K V) → length (insert k v d) ≤ suc (length d)
  unfolding insert
  length-insert-le k v [] = omega arith
  length-insert-le k v ((i, w) ∷ d) = ground (arith, length-insert-le k v d)

  pub length-erase_all-le : (ks : List K) (d : Dict K V) → length (erase_all ks d) ≤ length d
  unfolding erase_all
  length-erase_all-le [] d = omega arith
  length-erase_all-le (k ∷ ks) d =
      omega (arith, length-erase_all-le ks (erase k d), length-erase-le k d)
