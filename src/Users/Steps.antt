-- ===== src/Users/Steps.antt =====
-- What may happen to the accounts: the calls in any order with any arguments. A call that begins with
-- BEGIN IMMEDIATE, or is one statement, is one step. The others first read, outside a transaction, and
-- write later what they decided then: their write is a step in any state, after a read in any state
-- that was reached. The calls on keys that read a row write it by its id. `delete_user` and the removal
-- of a knowledge base are several steps as well.
--
-- `late` tells whether `update_user` may enable an account whose deletion has begun or failed after it
-- read the account. Nothing in the code prevents it.
pub mod Calls
pub mod Invariant
use raguardian.Prelude.{
  String, ◌≡◌, Bool, true, false, Option, some, List, nat_eq, string_eq, option_eq, pair_eq,
}
use raguardian.Prelude.Results.{Result, ok, raised}
use raguardian.Dict.{Dict, lookup}
use raguardian.Users.{
  Builtins, User, ApiKey, Accounts, Refusal, no_accounts, is_deleting, Patch, mark_row, Ending,
  end_deletion, delete_user, asks_enabled, update_user_read, create_user, update_user_write,
  bootstrap_admin_if_empty,
}
use raguardian.Users.Keys.{
  lacks_kb, named, write_key, toggled_key, drop_key, rename_write, update_api_key_usage,
  scopes_of_row, based_key, normalize_api_scopes, rotated_key, create_api_key, scoped_key,
  update_api_key_access,
}
use raguardian.Users.Keys.Removal.{add_knowledge_base_to_api_key, remove_phase, restore}

abbrev pub after : {A : Type 0} → Result Refusal (A × Accounts) → Accounts → Accounts
after (ok (a, db')) db = db'
after (raised e) db = db

pub data Reach (py : Builtins) (late : Bool) : Accounts → Type 0 where
  start : Reach py late no_accounts
  created :
      (now id email password display_name role : String) (enabled : Bool) (db : Accounts)
      → Reach py late db
      → Reach py late (after (create_user py now id email password display_name role enabled db) db)
  bootstrapped :
      (now id email password : String) (db : Accounts)
      → Reach py late db
      → Reach py late (after (bootstrap_admin_if_empty py now id email password db) db)
  patched :
      (now id : String) (patch : Patch) (read : User) (before db : Accounts)
      → Reach py late before
      → update_user_read id patch before ≡ ok (some read)
      → (late ≡ false
          → asks_enabled patch ≡ true
          → (u : User) → lookup id db.users ≡ some u
          → is_deleting u ≡ is_deleting read)
      → Reach py late db
      → Reach py late (update_user_write py now id patch read db)
  marked : (now id : String) (db : Accounts) → Reach py late db → Reach py late (mark_row now id db)
  ended :
      (now id : String) (original : User) (ending : Ending) (before db : Accounts)
      → Reach py late before
      → lookup id before.users ≡ some original
      → Reach py late db
      → Reach py late (end_deletion now id original ending db).1
  deleted : (id : String) (db : Accounts) → Reach py late db → Reach py late (delete_user id db).1
  used :
      (now user_id name : String) (db : Accounts)
      → Reach py late db
      → Reach py late (update_api_key_usage now user_id name db)
  toggled :
      (now user_id name : String) (enabled : Option Bool) (id : String) (k : ApiKey)
      (before db : Accounts)
      → Reach py late before
      → named user_id name before ≡ some (id, k)
      → Reach py late db
      → Reach py late (write_key now user_id id (toggled_key enabled k) db)
  key_deleted :
      (now user_id name : String) (id : String) (k : ApiKey) (before db : Accounts)
      → Reach py late before
      → named user_id name before ≡ some (id, k)
      → Reach py late db
      → Reach py late (drop_key now user_id id db)
  key_created :
      (now id user_id name : String) (scopes kbs : List String) (value : String) (enabled : Bool)
      (description : String) (expires_at : Option String) (validates : Bool) (db : Accounts)
      → Reach py late db
      → Reach py late (
          after
            (create_api_key py now id user_id name scopes kbs value enabled description expires_at
              validates db)
            db)
  rotated :
      (now user_id name : String) (value : String) (id : String) (k : ApiKey) (before db : Accounts)
      → Reach py late before
      → named user_id name before ≡ some (id, k)
      → Reach py late db
      → Reach py late (write_key now user_id id (rotated_key py value) db)
  renamed :
      (now user_id name : String) (new_name : String) (id : String) (k : ApiKey)
      (before db : Accounts)
      → Reach py late before
      → named user_id name before ≡ some (id, k)
      → Reach py late db
      → Reach py late (after (rename_write now user_id id (py.strip new_name) db) db)
  scoped :
      (now user_id name : String) (scopes : List String) (id : String) (k : ApiKey)
      (before db : Accounts)
      → Reach py late before
      → named user_id name before ≡ some (id, k)
      → lacks_kb (normalize_api_scopes py scopes) k.knowledge_base_ids ≡ false
      → Reach py late db
      → Reach py late (write_key now user_id id (scoped_key py scopes) db)
  based :
      (now user_id name : String) (kbs : List String) (id : String) (k : ApiKey)
      (before db : Accounts)
      → Reach py late before
      → named user_id name before ≡ some (id, k)
      → lacks_kb (scopes_of_row k) kbs ≡ false
      → Reach py late db
      → Reach py late (write_key now user_id id (based_key kbs) db)
  accessed :
      (now user_id name : String) (scopes kbs : List String) (validates : Bool) (db : Accounts)
      → Reach py late db
      → Reach py late (after (update_api_key_access py now user_id name scopes kbs validates db) db)
  kb_added :
      (now user_id name kb : String) (key_id required_scope : Option String) (validates : Bool)
      (db : Accounts)
      → Reach py late db
      → Reach py late (
          after
            (add_knowledge_base_to_api_key now user_id name kb key_id required_scope validates db)
            db)
  kb_removed :
      (now user_id kb : String) (lease : Bool) (db : Accounts)
      → Reach py late db
      → Reach py late (after (remove_phase now user_id kb lease db) db)
  kb_restored :
      (now user_id : String) (os : Dict String ApiKey) (db : Accounts)
      → Reach py late db
      → Reach py late (restore now user_id os db)
