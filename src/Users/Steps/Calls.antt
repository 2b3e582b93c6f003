-- ===== src/Users/Steps/Calls.antt =====
-- Every call is made of changes that keep the invariants.
pub mod OnKeys
use raguardian.Prelude.{
  String, ◌≡◌, refl, sym, ap, ◌∙◌, inl, inr, Bool, true, false, ◌&&◌, some, [], ◌∷◌, arith, ltb,
  Bool-cases, Option-cases, text_eq, text_eq_iff, ◌==◌, length, any, nat_eq, string_eq, option_eq,
  pair_eq,
}
use raguardian.Prelude.Results.{Ensures, Ensures-raise_if, Ensures-bind, Ensures-eq-ok}
use raguardian.Dict.{Dict, lookup, update_at, Distinct}
use raguardian.Users.{
  Builtins, User, ApiKey, Accounts, find_row, is_deleting, touch, insert_user, Patch, or_else,
  asks_enabled, normalize_email, user_record, create_user, patched_user, update_user_write,
  bootstrap_admin_if_empty,
}
use raguardian.Users.Keys.{named, set_key, write_key, change_key}
use raguardian.Users.Changes.{Change, stays, user_set, user_added, key_kept, both}

pub find_row-lookup :
    {A : Type 0} (p : String → A → Bool) (d : Dict String A) (id : String) (a : A)
    → Distinct d
    → find_row p d ≡ some (id, a)
    → (lookup id d ≡ some a) × (p id a ≡ true)
unfolding find_row lookup
find_row-lookup p [] id a distinct h = absurd (ground arith)
find_row-lookup {A} p ((i, x) ∷ d) id a distinct h = elim (Bool-cases (p i x)) [
  | inl here ↦
      let row : String × A = (i, x) in
      let e : row ≡ (id, a) = ground (arith, h, here) in
      (
        ground (arith, ap (λ r. r.0) e, ap (λ r. r.1) e, text_eq_iff i id),
        sym (ap (λ r. p r.0 r.1) e) ∙ here,
      )
  | inr there ↦
      let (hit, passed) = find_row-lookup p d id a distinct.1 (ground (arith, h, there)) in
      (ground (arith, hit, distinct.0, text_eq_iff i id), passed)
]

pub touch-Change :
    {late : Bool} (now id : String) (db : Accounts) → Change late db (touch now id db)
unfolding touch is_deleting
touch-Change now id db = user_set id _ db (λ u h. refl) (λ on_time u h was. was)

pub set_key-Change :
    {late : Bool} (id : String) (k : ApiKey) (f : ApiKey → ApiKey) (db : Accounts)
    → lookup id db.api_keys ≡ some k
    → (f k).user_id ≡ k.user_id
    → (f k).name ≡ k.name
    → Change late db (set_key id f db)
unfolding set_key update_at
set_key-Change id k f db hit account name =
    rw (hit, set_key, update_at) (key_kept id k (f k) db hit account name)

pub change_key-Change :
    {late : Bool} (now user_id name : String) (f : ApiKey → ApiKey → ApiKey) (db : Accounts)
    → ((o k : ApiKey) → (f o k).user_id ≡ k.user_id)
    → ((o k : ApiKey) → (f o k).name ≡ k.name)
    → Distinct db.api_keys
    → Change late db (change_key now user_id name f db).1
unfolding change_key named write_key
change_key-Change now user_id name f db account same distinct =
    elim (Option-cases (named user_id name db)) [
      | inl miss ↦ rw (miss, change_key) (stays db)
      | inr ((id, k), found) ↦
          let (hit, _) = find_row-lookup _ db.api_keys id k distinct found in
          rw (found, change_key, write_key)
            (both (set_key-Change id k (f k) db hit (account k k) (same k k))
              (touch-Change now user_id (set_key id (f k) db)))
    ]

pub insert_user-Change :
    (late : Bool) (id : String) (u : User) (db : Accounts)
    → is_deleting u ≡ false
    → Ensures (λ x. Change late db x.1) (insert_user id u db)
unfolding insert_user
insert_user-Change late id u db active =
    Ensures-raise_if _ (any (λ row. row.1.email == u.email) db.users) _ _ (λ free.
      Ensures-raise_if _ (any (λ row. row.0 == id) db.users) _ _
        (λ fresh. user_added id u db free fresh active))

module _ (py : Builtins) where
  user_record_active :
      (now email password display_name role : String) (enabled : Bool)
      → is_deleting (user_record py now email password display_name role enabled) ≡ false
  unfolding is_deleting user_record text_eq
  user_record_active now email password display_name role enabled = refl

  pub create_user-Change :
      (late : Bool) (now id email password display_name role : String) (enabled : Bool)
      (db : Accounts)
      → Ensures
          (λ x. Change late db x.1)
          (create_user py now id email password display_name role enabled db)
  unfolding create_user
  create_user-Change late now id email password display_name role enabled db =
      Ensures-raise_if _ (normalize_email py email == "") _ _ (λ _.
        Ensures-raise_if _ (password == "") _ _ (λ _.
          insert_user-Change late id _ db
            (user_record_active now _ password display_name _ enabled)))

  pub bootstrap-Change :
      (late : Bool) (now id email password : String) (db : Accounts)
      → Ensures (λ x. Change late db x.1) (bootstrap_admin_if_empty py now id email password db)
  unfolding bootstrap_admin_if_empty
  bootstrap-Change late now id email password db = elim (Bool-cases (ltb 0 (length db.users))) [
    | inr nobody ↦
        rw (nobody, bootstrap_admin_if_empty)
          (Ensures-bind _
            (insert_user id
              (user_record py now (normalize_email py (or_else email "admin@example.local"))
                password "Admin" "admin" true)
              db)
            _
            (λ made e.
              Ensures-eq-ok (λ x. Change late db x.1) _ made
                (insert_user-Change late id _ db
                  (user_record_active now _ password "Admin" "admin" true))
                e))
    | inl some_user ↦ rw (some_user, bootstrap_admin_if_empty) (stays db)
  ]

  pub update_user_write-Change :
      {late : Bool} (now id : String) (patch : Patch) (read : User) (db : Accounts)
      → (asks_enabled patch && is_deleting read) ≡ false
      → (late ≡ false
          → asks_enabled patch ≡ true
          → (u : User) → lookup id db.users ≡ some u
          → is_deleting u ≡ is_deleting read)
      → Change late db (update_user_write py now id patch read db)
  unfolding update_user_write patched_user is_deleting asks_enabled
  update_user_write-Change now id patch read db allowed soon =
      user_set id (patched_user py now patch read) db (λ v h. refl)
        (λ on_time v h was deleting. elim (Bool-cases (asks_enabled patch)) [
          | inl asks ↦ absurd (ground (arith, allowed, asks, soon on_time asks v h, deleting))
          | inr keeps ↦ ground (arith, was, deleting, keeps)
        ])
