-- ===== src/Users/Steps/Invariant.antt =====
-- Every state of the accounts that can be reached keeps the invariants.
use raguardian.Prelude.{
  String, ◌≡◌, refl, ap, inl, inr, Bool, false, not, ◌&&◌, ◌||◌, Option, some, List, arith, is_none,
  Bool-cases, Option-cases, ◌==◌, any, nat_eq, string_eq, option_eq, pair_eq,
}
use raguardian.Prelude.Results.{Result, ok, raised, Ensures, Ensures-raise_if}
use raguardian.Dict.{lookup, insert, Distinct}
use raguardian.Users.{
  Builtins, User, Accounts, Refusal, no_accounts, is_deleting, Patch, delete_user, asks_enabled,
  update_user_read,
}
use raguardian.Users.Keys.{
  lacks_kb, named, toggled_key, based_key, normalize_api_scopes, rotated_key, new_key, insert_key,
  create_api_key, scoped_key, update_api_key_access,
}
use raguardian.Users.Changes.{IsSound, Change, stays, user_dropped, key_added, both}
use raguardian.Users.Steps.{
  after, Reach, start, created, bootstrapped, patched, marked, ended, deleted, used, toggled,
  key_deleted, key_created, rotated, renamed, scoped, based, accessed, kb_added, kb_removed,
  kb_restored,
}
use raguardian.Users.Steps.Calls.{
  touch-Change, change_key-Change, create_user-Change, bootstrap-Change, update_user_write-Change,
}
use raguardian.Users.Changes.Keys.{Change-IsSound}
use raguardian.Users.Steps.Calls.OnKeys.{
  mark_row-Change, end_deletion-Change, update_api_key_usage-Change, write_key-Change,
  rename_write-Change, drop_key-Change, add_knowledge_base-Change, remove_phase-Change,
  restore-Change,
}

module _ (py : Builtins) where
  create_api_key-Change :
      (late : Bool) (now id user_id name : String) (scopes kbs : List String) (value : String)
      (enabled : Bool) (description : String) (expires_at : Option String) (validates : Bool)
      (db : Accounts)
      → Ensures
          (λ x. Change late db x.1)
          (create_api_key py now id user_id name scopes kbs value enabled description expires_at
            validates db)
  unfolding create_api_key insert_key new_key
  create_api_key-Change late now id user_id name scopes kbs value enabled description expires_at
        validates db =
      let k =
        new_key py now user_id (py.strip name) (normalize_api_scopes py scopes) kbs (py.strip value)
          enabled description expires_at in
      Ensures-raise_if _ (py.strip name == "") _ _ (λ _.
        Ensures-raise_if _ (lacks_kb (normalize_api_scopes py scopes) kbs) _ _ (λ _.
          Ensures-raise_if _ (is_none (lookup user_id db.users)) _ _ (λ known.
            Ensures-raise_if _ (not validates) _ _ (λ _.
              Ensures-raise_if _
                (any (λ row. row.1.user_id == k.user_id && row.1.name == k.name || row.0 == id)
                  db.api_keys)
                _ _
                (λ free. elim (Option-cases (lookup user_id db.users)) [
                  | inl miss ↦ absurd (ground (arith, known, ap is_none miss))
                  | inr (u, hit) ↦
                      both (key_added id k u db hit free) (
                        touch-Change now user_id (record db { api_keys = insert id k db.api_keys }))
                ])))))

  update_api_key_access-Change :
      (late : Bool) (now user_id name : String) (scopes kbs : List String) (validates : Bool)
      (db : Accounts)
      → Distinct db.api_keys
      → Ensures
          (λ x. Change late db x.1)
          (update_api_key_access py now user_id name scopes kbs validates db)
  unfolding update_api_key_access
  update_api_key_access-Change late now user_id name scopes kbs validates db distinct =
      Ensures-raise_if _ (lacks_kb (normalize_api_scopes py scopes) kbs) _ _ (λ _.
        elim (Option-cases (named user_id name db)) [
          | inl miss ↦ rw miss (stays db)
          | inr ((id, k), found) ↦ rw found (
              Ensures-raise_if _ (not validates) _ _
                (λ _. change_key-Change now user_id name _ db (λ o k. refl) (λ o k. refl) distinct))
        ])

  update_user_read-allowed :
      (id : String) (patch : Patch) (read : User) (db : Accounts)
      → update_user_read id patch db ≡ ok (some read)
      → (asks_enabled patch && is_deleting read) ≡ false
  unfolding update_user_read
  update_user_read-allowed id patch read db h = elim (Option-cases (lookup id db.users)) [
    | inl miss ↦ absurd (ground (arith, h, miss))
    | inr (u, hit) ↦ elim (Bool-cases (asks_enabled patch && is_deleting u)) [
      | inl refused ↦ absurd (ground (arith, h, hit, refused))
      | inr allowed ↦ let e : u ≡ read = ground (arith, h, hit, allowed) in rw (← e) allowed
    ]
  ]

  after-IsSound :
      {late : Bool} {A : Type 0} (r : Result Refusal (A × Accounts)) (db : Accounts)
      → Ensures (λ x. Change late db x.1) r
      → IsSound late db
      → IsSound late (after r db)
  after-IsSound (ok (a, db')) db change was = Change-IsSound db db' change was
  after-IsSound (raised e) db change was = was

  no_accounts-IsSound : {late : Bool} → IsSound late no_accounts
  unfolding lookup
  no_accounts-IsSound = record {
    disabled = λ on_time id u h. absurd (ground (arith, h));
    emails = λ i j u v h. absurd (ground (arith, h));
    owned = λ id k h. absurd (ground (arith, h));
    names = λ i j k m h. absurd (ground (arith, h));
    distinct = tt;
    distinct_users = tt;
  }

  -- Whatever is called, in whatever order, also between the reading and the writing of a call that does
  -- both: no two accounts share an email, every key belongs to a stored account, and no two keys of an
  -- account share a name; and if `late` is false, which excludes that an `update_user` enables an
  -- account whose deletion has begun or failed since it read the account, an account whose deletion has
  -- begun or failed is disabled.
  pub Reach-IsSound : (late : Bool) (db : Accounts) → Reach py late db → IsSound late db
  unfolding delete_user toggled_key rotated_key scoped_key based_key
  Reach-IsSound late _ start = no_accounts-IsSound
  Reach-IsSound late _ (created now id email password name role enabled db r) =
      after-IsSound _ db (create_user-Change py late now id email password name role enabled db)
        (Reach-IsSound late db r)
  Reach-IsSound late _ (bootstrapped now id email password db r) =
      after-IsSound _ db (bootstrap-Change py late now id email password db)
        (Reach-IsSound late db r)
  Reach-IsSound late _ (patched now id patch read before db r0 read_ok soon r) =
      Change-IsSound db _
        (update_user_write-Change py now id patch read db
          (update_user_read-allowed id patch read before read_ok) soon)
        (Reach-IsSound late db r)
  Reach-IsSound late _ (marked now id db r) =
      Change-IsSound db _ (mark_row-Change now id db) (Reach-IsSound late db r)
  Reach-IsSound late _ (ended now id original ending before db r0 hit r) =
      Change-IsSound db _
        (end_deletion-Change now id original ending db
          (λ on_time. (Reach-IsSound late before r0).disabled on_time id original hit))
        (Reach-IsSound late db r)
  Reach-IsSound late _ (deleted id db r) =
      Change-IsSound db _ (user_dropped id db) (Reach-IsSound late db r)
  Reach-IsSound late _ (used now user_id name db r) =
      let was = Reach-IsSound late db r in
      Change-IsSound db _ (update_api_key_usage-Change now user_id name db was.distinct) was
  Reach-IsSound late _
        (key_created now id user_id name scopes kbs value enabled description expires_at validates
          db r) =
      after-IsSound _ db
        (create_api_key-Change late now id user_id name scopes kbs value enabled description
          expires_at validates db)
        (Reach-IsSound late db r)
  Reach-IsSound late _ (toggled now user_id name enabled id k before db r0 read r) =
      Change-IsSound db _
        (write_key-Change now user_id id (toggled_key enabled k) db (λ m. refl) (λ m. refl))
        (Reach-IsSound late db r)
  Reach-IsSound late _ (key_deleted now user_id name id k before db r0 read r) =
      Change-IsSound db _ (drop_key-Change now user_id id db) (Reach-IsSound late db r)
  Reach-IsSound late _ (rotated now user_id name value id k before db r0 read r) =
      Change-IsSound db _
        (write_key-Change now user_id id (rotated_key py value) db (λ m. refl) (λ m. refl))
        (Reach-IsSound late db r)
  Reach-IsSound late _ (renamed now user_id name new_name id k before db r0 read r) =
      after-IsSound _ db (rename_write-Change late now user_id id (py.strip new_name) db)
        (Reach-IsSound late db r)
  Reach-IsSound late _ (scoped now user_id name scopes id k before db r0 read served r) =
      Change-IsSound db _
        (write_key-Change now user_id id (scoped_key py scopes) db (λ m. refl) (λ m. refl))
        (Reach-IsSound late db r)
  Reach-IsSound late _ (based now user_id name kbs id k before db r0 read served r) =
      Change-IsSound db _
        (write_key-Change now user_id id (based_key kbs) db (λ m. refl) (λ m. refl))
        (Reach-IsSound late db r)
  Reach-IsSound late _ (accessed now user_id name scopes kbs validates db r) =
      let was = Reach-IsSound late db r in
      after-IsSound _ db
        (update_api_key_access-Change late now user_id name scopes kbs validates db was.distinct)
        was
  Reach-IsSound late _ (kb_added now user_id name kb key_id required validates db r) =
      let was = Reach-IsSound late db r in
      after-IsSound _ db
        (add_knowledge_base-Change late now user_id name kb key_id required validates db
          was.distinct)
        was
  Reach-IsSound late _ (kb_removed now user_id kb lease db r) =
      after-IsSound _ db (remove_phase-Change late now user_id kb lease db)
        (Reach-IsSound late db r)
  Reach-IsSound late _ (kb_restored now user_id os db r) =
      Change-IsSound db _ (restore-Change now user_id os db) (Reach-IsSound late db r)
