-- ===== src/Users/Keys/Removal.antt =====
-- A knowledge base is added to a key, or removed from all keys of an account, with the function
-- `finalize` that runs after the commit and whose failure restores the keys.
use raguardian.Prelude.{
  ℕ, String, Bool, true, false, not, ◌&&◌, ◌||◌, Option, none, some, List, [], ◌∷◌, ◌++◌,
  if◌then◌else◌, is_none, ◌==◌, length, filter, nat_eq, string_eq, option_eq, pair_eq,
}
use raguardian.Prelude.Results.{ok, raised, ◌>>◌, raise_if}
use raguardian.Dict.{Dict, without, map_values, lookup, update_at}
use raguardian.Users.{ApiKey, Accounts, user_not_found, callback, Call, find_row, touch}
use raguardian.Users.Keys.{is_in, requires_kb, named, set_key, scopes_of_row}

-- The row that `add_knowledge_base_to_api_key` reads.
unfoldable pub keyed : String → String → Option String → Accounts → Option (String × ApiKey)
keyed user_id name none db = named user_id name db
keyed user_id name (some key_id) db =
    find_row (λ id k. k.user_id == user_id && id == key_id) db.api_keys

-- The knowledge base id has been validated; `validates` as for `create_api_key`.
unfoldable pub add_knowledge_base_to_api_key :
    String → String → String → String → Option String → Option String → Bool → Call (Option ApiKey)
add_knowledge_base_to_api_key now user_id name kb key_id required_scope validates db =
    elim (keyed user_id name key_id db) [
      | none ↦ ok (none, db)
      | some (id, k) ↦
          if not k.enabled || elim required_scope [ none ↦ false | some s ↦ not (is_in s k.scopes) ]
          then ok (none, db)
          else raise_if (not validates) callback
            >> (if is_in kb k.knowledge_base_ids
                then ok (some k, db)
                else ok (
                  some (record k { knowledge_base_ids = k.knowledge_base_ids ++ kb ∷ [] }),
                  touch now user_id (
                      set_key id
                        (λ k. record k { knowledge_base_ids = k.knowledge_base_ids ++ kb ∷ [] })
                        db),
                ))
    ]

-- A key of the account that lists the knowledge base.
unfoldable pub uses : String → String → ApiKey → Bool
uses user_id kb k = k.user_id == user_id && is_in kb k.knowledge_base_ids

-- A key that must not stay enabled without a knowledge base.
unfoldable pub is_useless : ApiKey → List String → Bool
is_useless k kbs =
    elim kbs [ [] ↦ true | _ ∷ _ ↦ false ]
    && (requires_kb (scopes_of_row k) || not (is_in "kb_manage" (scopes_of_row k)))

unfoldable pub stripped : String → ApiKey → ApiKey
stripped kb k =
    let kbs = filter (λ x. not (x == kb)) k.knowledge_base_ids in
    record k { knowledge_base_ids = kbs; enabled = k.enabled && not (is_useless k kbs) }

-- The rows that the first phase changes, as they were.
unfoldable pub originals : String → String → Accounts → Dict String ApiKey
originals user_id kb db = without (λ _ k. not (uses user_id kb k)) db.api_keys

unfoldable pub strip_keys : String → String → Dict String ApiKey → Dict String ApiKey
strip_keys user_id kb d = map_values (λ _ k. if uses user_id kb k then stripped kb k else k) d

-- Phase 1; `lease` tells whether `lease_check`, if there is one, returns.
unfoldable pub remove_phase : String → String → String → Bool → Call (Dict String ApiKey)
remove_phase now user_id kb lease db =
    raise_if (is_none (lookup user_id db.users)) user_not_found >> elim (originals user_id kb db) [
      | [] ↦ ok ([], db)
      | k ∷ ks ↦
          raise_if (not lease) callback
          >> ok (
            k ∷ ks,
            touch now user_id (record db { api_keys = strip_keys user_id kb db.api_keys }),
          )
    ]

-- The loop that restores.
unfoldable pub restore_keys : Dict String ApiKey → Dict String ApiKey → Dict String ApiKey
restore_keys [] d = d
restore_keys ((id, o) ∷ os) d = restore_keys os (
    update_at id (λ k. record k { knowledge_base_ids = o.knowledge_base_ids; enabled = o.enabled })
      d)

unfoldable pub restore : String → String → Dict String ApiKey → Accounts → Accounts
restore now user_id [] db = db
restore now user_id (o ∷ os) db =
    touch now user_id (record db { api_keys = restore_keys (o ∷ os) db.api_keys })

-- How phase 2 ends: `lease_check` and `finalize` return, the lease is lost, or another error.
pub data Final : Type 0 where
  finalized : Final
  lease_lost : Final
  finalize_failed : Final

-- The counts of changed and of disabled keys, `none` where the call raises, and the tables.
unfoldable pub remove_knowledge_base_from_api_keys :
    String → String → String → Bool → Final → Accounts → Option (ℕ × ℕ) × Accounts
remove_knowledge_base_from_api_keys now user_id kb lease final db =
    elim (remove_phase now user_id kb lease db) [
      | raised e ↦ (none, db)
      | ok (os, db') ↦ elim final [
        | lease_lost ↦ (none, db')
        | finalize_failed ↦ (none, restore now user_id os db')
        | finalized ↦ (
          some (
            length os,
            length (
                filter
                  (λ row. is_useless row.1 (filter (λ x. not (x == kb)) row.1.knowledge_base_ids))
                  os),
          ),
          db',
        )
      ]
    ]
