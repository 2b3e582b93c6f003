-- ===== src/Users/Scopes.antt =====
-- The scopes that a key can have.
use raguardian.Prelude.{
  ◌<◌, String, ◌≡◌, refl, ap, inl, inr, true, false, not, ◌&&◌, ◌||◌, List, [], ◌∷◌, ◌++◌, arith,
  Bool-cases, text_eq, text_eq_iff, ◌==◌, length, any, All, List-cases, nat_eq, string_eq,
  option_eq, pair_eq,
}
use raguardian.Users.{Builtins}
use raguardian.Users.Keys.{api_scopes, is_in, add_scope, add_scopes, normalize_api_scopes}

abbrev pub Unique : List String → Type 0
Unique [] = Unit
Unique (x ∷ xs) = (is_in x xs ≡ false) × Unique xs

abbrev pub Known : List String → Type 0
Known xs = All (λ s. is_in s api_scopes ≡ true) xs

is_in-append : (x y : String) (xs : List String) → is_in x (xs ++ y ∷ []) ≡ (is_in x xs || y == x)
unfolding is_in any
is_in-append x y [] = ground arith
is_in-append x y (z ∷ zs) = ground (arith, is_in-append x y zs)

Unique-append :
    (y : String) (xs : List String) → is_in y xs ≡ false → Unique xs → Unique (xs ++ y ∷ [])
unfolding is_in any
Unique-append y [] h u = (refl, tt)
Unique-append y (x ∷ xs) h u =
    ground (
      arith,
      is_in-append x y xs,
      u.0,
      h,
      text_eq_iff y x,
      text_eq_iff x y,
      Unique-append y xs,
      u.1,
    )

Known-append :
    (y : String) (xs : List String) → is_in y api_scopes ≡ true → Known xs → Known (xs ++ y ∷ [])
Known-append y [] h known = (h, tt)
Known-append y (x ∷ xs) h known = (known.0, Known-append y xs h known.1)

module _ (py : Builtins) where
  add_scopes-kept :
      (result scopes : List String)
      → Unique result
      → Known result
      → Unique (add_scopes py result scopes) × Known (add_scopes py result scopes)
  unfolding add_scopes add_scope
  add_scopes-kept result [] u known = (u, known)
  add_scopes-kept result (s ∷ ss) u known =
      let cleaned = py.lower (py.strip s) in
      elim (Bool-cases (is_in cleaned api_scopes && not (is_in cleaned result))) [
        | inl new ↦ rw new (
            add_scopes-kept (result ++ cleaned ∷ []) ss
              (Unique-append cleaned result (ground (arith, new)) u)
              (Known-append cleaned result (ground (arith, new)) known))
        | inr old ↦ rw old (add_scopes-kept result ss u known)
      ]

  -- Whatever scopes are asked for, a key gets at least one, each is one of `API_SCOPES`, and none
  -- stands twice.
  pub normalize_api_scopes-Known :
      (scopes : List String)
      → (0 < length (normalize_api_scopes py scopes))
        × Unique (normalize_api_scopes py scopes)
        × Known (normalize_api_scopes py scopes)
  unfolding normalize_api_scopes is_in any text_eq
  normalize_api_scopes-Known scopes =
      let (u, known) = add_scopes-kept [] scopes tt tt in
      elim (List-cases (add_scopes py [] scopes)) [
        | inl nothing ↦
            let e : normalize_api_scopes py scopes ≡ "query" ∷ [] =
              rw (normalize_api_scopes, nothing) refl in
            rw e (omega arith, (refl, tt), (refl, tt))
        | inr (x, xs, some_scope) ↦
            let e : normalize_api_scopes py scopes ≡ add_scopes py [] scopes =
              rw (normalize_api_scopes, some_scope) refl in
            rw e (ground (arith, ap length some_scope), u, known)
      ]
