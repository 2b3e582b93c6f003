-- ===== src/Users/Access.antt =====
-- Who is let in: by email and password, or by an API key.
use raguardian.Prelude.{
  ℕ, String, ◌≡◌, refl, sym, ap, ◌∙◌, inl, inr, Bool, true, false, not, ◌&&◌, ◌||◌, Option, none,
  some, List, [], ◌∷◌, arith, is_none, Option-cases, text_eq_iff, ◌==◌, ==_refl, ==_ne, any, nat_eq,
  string_eq, option_eq, pair_eq,
}
use raguardian.Prelude.Results.{ok, Ensures-raise_if, Ensures-eq-ok}
use raguardian.Dict.{Dict, lookup, insert, Distinct}
use raguardian.Dict.Tables.{lookup-update_at}
use raguardian.Users.{
  Builtins, User, ApiKey, Accounts, find_row, is_deleting, set_user, touch, normalize_email,
  authenticate,
}
use raguardian.Users.Keys.{
  lacks_kb, user_enabled, normalize_api_scopes, new_key, insert_key, create_api_key, is_expired,
  find_api_key_by_value,
}
use raguardian.Users.Steps.{Reach}
use raguardian.Users.Steps.Calls.{find_row-lookup}
use raguardian.Users.Steps.Invariant.{Reach-IsSound}

-- Whether a request with this key is attributed to the account.
abbrev pub is_let_in : Builtins → ℕ → String → String → Accounts → Bool
is_let_in py now value id db = elim (find_api_key_by_value py now value db) [
  | none ↦ false
  | some (_, k) ↦ k.user_id == id
]

module _ (py : Builtins) where
  authenticate-enabled :
      (email password : String) (db : Accounts) (id : String)
      → Distinct db.users
      → authenticate py email password db ≡ some id
      → (u : User) × (lookup id db.users ≡ some u) × (u.enabled ≡ true)
  unfolding authenticate
  authenticate-enabled email password db id distinct h =
      let p : String → User → Bool = λ _ u. u.email == normalize_email py email && u.enabled in
      elim (Option-cases (find_row p db.users)) [
        | inl miss ↦ absurd (ground (arith, miss, h))
        | inr ((i, u), found) ↦
            let (hit, passed) = find_row-lookup p db.users i u distinct found in
            let e : i ≡ id = ground (arith, found, h) in
            (u, ap (λ i. lookup i db.users) (sym e) ∙ hit, ground (arith, passed))
      ]

  found-enabled :
      (now : ℕ) (value : String) (db : Accounts) (id : String) (k : ApiKey)
      → Distinct db.api_keys
      → find_api_key_by_value py now value db ≡ some (id, k)
      → (lookup id db.api_keys ≡ some k)
        × (k.enabled ≡ true)
        × (user_enabled k.user_id db ≡ true)
        × (k.key_hash ≡ py.sha256 value)
        × (is_expired py now k.expires_at ≡ false)
  unfolding find_api_key_by_value
  found-enabled now value db id k distinct h =
      let p : String → ApiKey → Bool =
        λ _ k. k.key_hash == py.sha256 value && k.enabled && user_enabled k.user_id db in
      elim (Option-cases (find_row p db.api_keys)) [
        | inl miss ↦ absurd (ground (arith, miss, h))
        | inr ((i, m), found) ↦
            let (hit, passed) = find_row-lookup p db.api_keys i m distinct found in
            let same : i ≡ id = ground (arith, found, h) in
            let is : m ≡ k = ground (arith, found, h) in
            rw (← same, ← is)
              (
                hit,
                ground (arith, passed),
                ground (arith, passed),
                (text_eq_iff m.key_hash (py.sha256 value)).0 (ground (arith, passed)),
                ground (arith, found, h),
              )
      ]

  -- In every state that is reached without an `update_user` that enables an account whose deletion has
  -- begun or failed since it read the account, nobody is let in as an account whose deletion has begun
  -- or failed: no email and password authenticate it, and no key of it is found.
  pub locked_out :
      (db : Accounts) (id : String) (u : User) (email password value : String) (now : ℕ)
      → Reach py false db
      → lookup id db.users ≡ some u
      → is_deleting u ≡ true
      → ((authenticate py email password db == some id) ≡ false)
        × (is_let_in py now value id db ≡ false)
  unfolding user_enabled
  locked_out db id u email password value now r stored deleting =
      let was = Reach-IsSound py false db r in
      let off = was.disabled refl id u stored deleting in
      (
        ==_ne (authenticate py email password db) (some id) (λ h.
            let (v, hit, on) = authenticate-enabled email password db id was.distinct_users h in
            ground (arith, hit, stored, on, off)),
        elim (Option-cases (find_api_key_by_value py now value db)) [
          | inl miss ↦ rw (is_let_in, miss) refl
          | inr ((i, k), found) ↦
              let (_, _, on, _, _) = found-enabled now value db i k was.distinct found in
              rw (is_let_in, found) (ground (arith, on, stored, off, text_eq_iff k.user_id id))
        ],
      )

-- A row that is inserted under a new id is the only one that passes a test which no other row passes.
find_row-insert :
    {A : Type 0} (p : String → A → Bool) (d : Dict String A) (id : String) (a : A)
    → any (λ row. p row.0 row.1) d ≡ false
    → lookup id d ≡ none
    → p id a ≡ true
    → find_row p (insert id a d) ≡ some (id, a)
unfolding find_row insert any lookup
find_row-insert p [] id a none_yet fresh passes = ground (arith, passes)
find_row-insert p ((i, x) ∷ d) id a none_yet fresh passes =
    ground (arith, find_row-insert p d id a, none_yet, fresh, passes)

-- Nothing of the row but its hash decides which key a value finds.
no_hash :
    (h : String) (q r : ApiKey → Bool) (d : Dict String ApiKey)
    → any (λ row. row.1.key_hash == h) d ≡ false
    → any (λ row. row.1.key_hash == h && q row.1 && r row.1) d ≡ false
unfolding any
no_hash h q r [] e = refl
no_hash h q r ((i, k) ∷ d) e = ground (arith, no_hash h q r d, e)

absent :
    (id : String) (q : ApiKey → Bool) (d : Dict String ApiKey)
    → any (λ row. q row.1 || row.0 == id) d ≡ false
    → lookup id d ≡ none
unfolding any lookup
absent id q [] e = refl
absent id q ((i, k) ∷ d) e = ground (arith, absent id q d, e)

user_enabled-touch :
    (time id : String) (u : User) (db : Accounts)
    → lookup id db.users ≡ some u
    → u.enabled ≡ true
    → user_enabled id (touch time id db) ≡ true
unfolding touch set_user user_enabled
user_enabled-touch time id u db owner on = ground (
  arith,
  lookup-update_at id id (λ u. record u { updated_at = time }) db.users,
  ==_refl id,
  owner,
  on,
)

module _ (py : Builtins) where
  inserted-found :
      (now : ℕ) (id value : String) (k : ApiKey) (time : String) (u : User) (db : Accounts)
      → lookup k.user_id db.users ≡ some u
      → u.enabled ≡ true
      → k.enabled ≡ true
      → k.key_hash ≡ py.sha256 value
      → any (λ row. row.1.key_hash == py.sha256 value) db.api_keys ≡ false
      → lookup id db.api_keys ≡ none
      → is_expired py now k.expires_at ≡ false
      → (value == "") ≡ false
      → find_api_key_by_value py now value
          (touch time k.user_id (record db { api_keys = insert id k db.api_keys }))
        ≡ some (id, k)
  unfolding find_api_key_by_value find_row touch set_user
  inserted-found now id value k time u db owner on enabled hash fresh_hash fresh current given =
      let db' = touch time k.user_id (record db { api_keys = insert id k db.api_keys }) in
      let still : user_enabled k.user_id db' ≡ true =
        user_enabled-touch time k.user_id u (record db { api_keys = insert id k db.api_keys }) owner
          on in
      let first =
        find_row-insert
          (λ _ k. k.key_hash == py.sha256 value && k.enabled && user_enabled k.user_id db')
          db.api_keys id k
          (no_hash (py.sha256 value) (λ k. k.enabled) (λ k. user_enabled k.user_id db') db.api_keys
            fresh_hash)
          fresh (ground (arith, enabled, still, text_eq_iff k.key_hash (py.sha256 value), hash)) in
      rw (find_api_key_by_value, given, first, current) refl

  -- If `create_api_key` returns for an enabled account, and the key is enabled, has not expired and has
  -- a value whose hash no stored key has, then the value finds exactly this key.
  pub create_api_key-find :
      (time id user_id name : String) (scopes kbs : List String) (value description : String)
      (expires_at : Option String) (validates : Bool) (now : ℕ) (u : User) (k : ApiKey)
      (db db' : Accounts)
      → create_api_key py time id user_id name scopes kbs value true description expires_at
          validates db
        ≡ ok (k, db')
      → lookup user_id db.users ≡ some u
      → u.enabled ≡ true
      → any (λ row. row.1.key_hash == py.sha256 (py.strip value)) db.api_keys ≡ false
      → is_expired py now expires_at ≡ false
      → (py.strip value == "") ≡ false
      → find_api_key_by_value py now (py.strip value) db' ≡ some (id, k)
  unfolding create_api_key insert_key new_key
  create_api_key-find time id user_id name scopes kbs value description expires_at validates now u k
        db db' h owner on fresh_hash current given =
      let key =
        new_key py time user_id (py.strip name) (normalize_api_scopes py scopes) kbs
          (py.strip value) true description expires_at in
      Ensures-eq-ok (λ x. find_api_key_by_value py now (py.strip value) x.1 ≡ some (id, x.0)) _
        (k, db')
        (Ensures-raise_if _ (py.strip name == "") _ _ (λ _.
          Ensures-raise_if _ (lacks_kb (normalize_api_scopes py scopes) kbs) _ _ (λ _.
            Ensures-raise_if _ (is_none (lookup user_id db.users)) _ _ (λ _.
              Ensures-raise_if _ (not validates) _ _ (λ _.
                Ensures-raise_if _
                  (any
                    (λ row. row.1.user_id == key.user_id && row.1.name == key.name || row.0 == id)
                    db.api_keys)
                  _ _
                  (λ free.
                    inserted-found now id (py.strip value) key time u db owner on refl refl
                      fresh_hash
                      (absent id (λ m. m.user_id == key.user_id && m.name == key.name) db.api_keys
                        free)
                      current given))))))
        h
