-- ===== src/Users/Steps/Calls/OnKeys.antt =====
-- The calls on keys, made of changes that keep the invariants.
use raguardian.Prelude.{
  String, ◌≡◌, refl, inl, inr, Bool, true, false, not, ◌&&◌, ◌||◌, Option, none, some, [], ◌∷◌,
  arith, is_none, Bool-cases, Option-cases, ◌==◌, List-cases, nat_eq, string_eq, option_eq, pair_eq,
}
use raguardian.Prelude.Results.{Ensures, Ensures-raise_if}
use raguardian.Dict.{Dict, lookup, insert, update_at, erase, Distinct}
use raguardian.Users.{
  User, ApiKey, Accounts, find_row, is_deleting, mark_row, Ending, rejected, broken, finished,
  end_deletion,
}
use raguardian.Users.Keys.{
  is_in, named, set_key, write_key, drop_key, violates_name, rename_write, update_api_key_usage,
}
use raguardian.Users.Keys.Removal.{
  keyed, add_knowledge_base_to_api_key, stripped, originals, strip_keys, remove_phase, restore_keys,
  restore,
}
use raguardian.Users.Changes.{
  Change, stays, user_set, user_dropped, keys_mapped, key_set, key_kept, key_dropped, both,
}
use raguardian.Users.Steps.Calls.{find_row-lookup, touch-Change, set_key-Change}

pub mark_row-Change :
    {late : Bool} (now id : String) (db : Accounts) → Change late db (mark_row now id db)
unfolding mark_row
mark_row-Change now id db = user_set id _ db (λ u h. refl) (λ on_time u h was deleting. refl)

pub end_deletion-Change :
    {late : Bool} (now id : String) (original : User) (ending : Ending) (db : Accounts)
    → (late ≡ false → is_deleting original ≡ true → original.enabled ≡ false)
    → Change late db (end_deletion now id original ending db).1
unfolding end_deletion is_deleting
end_deletion-Change now id original rejected db off =
    user_set id _ db (λ u h. refl) (λ on_time u h was deleting. off on_time deleting)
end_deletion-Change now id original (broken error) db off =
    user_set id _ db (λ u h. refl) (λ on_time u h was deleting. refl)
end_deletion-Change now id original finished db off = user_dropped id db

pub update_api_key_usage-Change :
    {late : Bool} (now user_id name : String) (db : Accounts)
    → Distinct db.api_keys
    → Change late db (update_api_key_usage now user_id name db)
unfolding update_api_key_usage
update_api_key_usage-Change now user_id name db distinct =
    elim (Option-cases
      (find_row (λ _ k. k.user_id == user_id && k.name == name && k.enabled) db.api_keys)) [
        | inl miss ↦ rw (miss, update_api_key_usage) (stays db)
        | inr ((id, k), found) ↦
            let (hit, _) = find_row-lookup _ db.api_keys id k distinct found in
            rw (found, update_api_key_usage)
              (both (set_key-Change id k _ db hit refl refl)
                (touch-Change now user_id (set_key id _ db)))
      ]

-- A row that was read before is written by its id, if it is still there.
pub write_key-Change :
    {late : Bool} (now user_id id : String) (f : ApiKey → ApiKey) (db : Accounts)
    → ((k : ApiKey) → (f k).user_id ≡ k.user_id)
    → ((k : ApiKey) → (f k).name ≡ k.name)
    → Change late db (write_key now user_id id f db)
unfolding write_key set_key update_at
write_key-Change now user_id id f db account same = elim (Option-cases (lookup id db.api_keys)) [
  | inl miss ↦ rw (write_key, set_key, update_at, miss) (touch-Change now user_id db)
  | inr (k, hit) ↦
      both (set_key-Change id k f db hit (account k) (same k))
        (touch-Change now user_id (set_key id f db))
]

pub rename_write-Change :
    (late : Bool) (now user_id id new_name : String) (db : Accounts)
    → Ensures (λ x. Change late db x.1) (rename_write now user_id id new_name db)
unfolding rename_write violates_name write_key set_key update_at
rename_write-Change late now user_id id new_name db =
    Ensures-raise_if _ (violates_name id new_name db) _ _ (λ free.
      elim (Option-cases (lookup id db.api_keys)) [
        | inl miss ↦ rw (write_key, set_key, update_at, miss) (touch-Change now user_id db)
        | inr (k, hit) ↦
            let k' = record k { name = new_name } in
            rw (write_key, set_key, update_at, hit)
              (both (key_set id k k' db hit refl (ground (arith, free, hit)))
                (touch-Change now user_id (record db { api_keys = insert id k' db.api_keys })))
      ])

pub drop_key-Change :
    {late : Bool} (now user_id id : String) (db : Accounts)
    → Change late db (drop_key now user_id id db)
unfolding drop_key
drop_key-Change now user_id id db =
    both (key_dropped id db)
      (touch-Change now user_id (record db { api_keys = erase id db.api_keys }))

keyed-lookup :
    (user_id name : String) (key_id : Option String) (db : Accounts) (id : String) (k : ApiKey)
    → Distinct db.api_keys
    → keyed user_id name key_id db ≡ some (id, k)
    → lookup id db.api_keys ≡ some k
unfolding keyed named
keyed-lookup user_id name none db id k distinct found =
    (find_row-lookup (λ _ k. k.user_id == user_id && k.name == name) db.api_keys id k distinct
      found).0
keyed-lookup user_id name (some key_id) db id k distinct found =
    (find_row-lookup (λ id k. k.user_id == user_id && id == key_id) db.api_keys id k distinct
      found).0

pub add_knowledge_base-Change :
    (late : Bool) (now user_id name kb : String) (key_id required_scope : Option String)
    (validates : Bool) (db : Accounts)
    → Distinct db.api_keys
    → Ensures
        (λ x. Change late db x.1)
        (add_knowledge_base_to_api_key now user_id name kb key_id required_scope validates db)
unfolding add_knowledge_base_to_api_key
add_knowledge_base-Change late now user_id name kb key_id required_scope validates db distinct =
    elim (Option-cases (keyed user_id name key_id db)) [
      | inl miss ↦ rw (miss, add_knowledge_base_to_api_key) (stays db)
      | inr ((id, k), found) ↦
          let hit = keyed-lookup user_id name key_id db id k distinct found in
          let refused =
            not k.enabled
            || elim required_scope [ none ↦ false | some s ↦ not (is_in s k.scopes) ] in
          elim (Bool-cases refused) [
            | inl no_access ↦ rw (found, no_access, add_knowledge_base_to_api_key) (stays db)
            | inr access ↦ elim (Bool-cases (is_in kb k.knowledge_base_ids)) [
              | inl listed ↦
                  rw (found, access, listed, add_knowledge_base_to_api_key)
                    (Ensures-raise_if _ (not validates) _ _ (λ _. stays db))
              | inr unlisted ↦
                  rw (found, access, unlisted, add_knowledge_base_to_api_key)
                    (Ensures-raise_if _ (not validates) _ _ (λ _.
                      both (set_key-Change id k _ db hit refl refl)
                        (touch-Change now user_id (set_key id _ db))))
            ]
          ]
    ]

strip_keys-Change :
    {late : Bool} (user_id kb : String) (db : Accounts)
    → Change late db (record db { api_keys = strip_keys user_id kb db.api_keys })
unfolding strip_keys stripped
strip_keys-Change user_id kb db = keys_mapped _ db (λ id k. ground arith) (λ id k. ground arith)

pub remove_phase-Change :
    (late : Bool) (now user_id kb : String) (lease : Bool) (db : Accounts)
    → Ensures (λ x. Change late db x.1) (remove_phase now user_id kb lease db)
unfolding remove_phase
remove_phase-Change late now user_id kb lease db =
    Ensures-raise_if _ (is_none (lookup user_id db.users)) _ _ (λ _.
      elim (List-cases (originals user_id kb db)) [
        | inl nobody ↦ rw nobody (stays db)
        | inr (k, ks, e) ↦ rw e (
            Ensures-raise_if _ (not lease) _ _ (λ _. both (strip_keys-Change user_id kb db) (
              touch-Change now user_id
                (record db { api_keys = strip_keys user_id kb db.api_keys }))))
      ])

restore_keys-Change :
    {late : Bool} (os : Dict String ApiKey) (db : Accounts)
    → Change late db (record db { api_keys = restore_keys os db.api_keys })
unfolding restore_keys update_at
restore_keys-Change [] db = stays db
restore_keys-Change ((id, o) ∷ os) db = elim (Option-cases (lookup id db.api_keys)) [
  | inl miss ↦ rw (miss, update_at) (restore_keys-Change os db)
  | inr (k, hit) ↦
      let k' = record k { knowledge_base_ids = o.knowledge_base_ids; enabled = o.enabled } in
      rw (hit, update_at)
        (both (key_kept id k k' db hit refl refl)
          (restore_keys-Change os (record db { api_keys = insert id k' db.api_keys })))
]

pub restore-Change :
    {late : Bool} (now user_id : String) (os : Dict String ApiKey) (db : Accounts)
    → Change late db (restore now user_id os db)
unfolding restore
restore-Change now user_id [] db = stays db
restore-Change now user_id (o ∷ os) db =
    both (restore_keys-Change (o ∷ os) db)
      (touch-Change now user_id (record db { api_keys = restore_keys (o ∷ os) db.api_keys }))
