-- ===== src/Users/Changes.antt =====
-- The invariants of the two tables, and the changes of the tables that keep them.
pub mod Keeps
pub mod Keys
use raguardian.Prelude.{
  String, ◌≡◌, Bool, true, false, not, ◌&&◌, ◌||◌, some, ◌==◌, any, nat_eq, string_eq, option_eq,
  pair_eq,
}
use raguardian.Dict.{map_values, lookup, insert, erase, Distinct}
use raguardian.Users.{User, ApiKey, Accounts, is_deleting, set_user, delete_row}

-- What holds of the two tables; the first only if no late write enables an account (Users/Steps).
pub record IsSound (late : Bool) (db : Accounts) : Type 0 where
  pub disabled :
      late ≡ false
      → (id : String) (u : User) → lookup id db.users ≡ some u
      → is_deleting u ≡ true
      → u.enabled ≡ false
  pub emails :
      (i j : String) (u v : User)
      → lookup i db.users ≡ some u
      → lookup j db.users ≡ some v
      → u.email ≡ v.email
      → i ≡ j
  pub owned :
      (id : String) (k : ApiKey)
      → lookup id db.api_keys ≡ some k
      → (u : User) × (lookup k.user_id db.users ≡ some u)
  pub names :
      (i j : String) (k m : ApiKey)
      → lookup i db.api_keys ≡ some k
      → lookup j db.api_keys ≡ some m
      → k.user_id ≡ m.user_id
      → k.name ≡ m.name
      → i ≡ j
  pub distinct : Distinct db.api_keys
  pub distinct_users : Distinct db.users

-- What every call is made of.
pub data Change (late : Bool) : Accounts → Accounts → Type 0 where
  stays : (db : Accounts) → Change late db db
  user_set :
      (id : String) (f : User → User) (db : Accounts)
      → ((u : User) → lookup id db.users ≡ some u → (f u).email ≡ u.email)
      → (late ≡ false
          → (u : User) → lookup id db.users ≡ some u
          → (is_deleting u ≡ true → u.enabled ≡ false)
          → is_deleting (f u) ≡ true
          → (f u).enabled ≡ false)
      → Change late db (set_user id f db)
  user_added :
      (id : String) (u : User) (db : Accounts)
      → any (λ row. row.1.email == u.email) db.users ≡ false
      → any (λ row. row.0 == id) db.users ≡ false
      → is_deleting u ≡ false
      → Change late db (record db { users = insert id u db.users })
  user_dropped : (id : String) (db : Accounts) → Change late db (delete_row id db)
  keys_mapped :
      (f : String → ApiKey → ApiKey) (db : Accounts)
      → ((id : String) (k : ApiKey) → (f id k).user_id ≡ k.user_id)
      → ((id : String) (k : ApiKey) → (f id k).name ≡ k.name)
      → Change late db (record db { api_keys = map_values f db.api_keys })
  key_set :
      (id : String) (k k' : ApiKey) (db : Accounts)
      → lookup id db.api_keys ≡ some k
      → k'.user_id ≡ k.user_id
      → any
          (λ row. row.1.user_id == k'.user_id && row.1.name == k'.name && not (row.0 == id))
          db.api_keys
        ≡ false
      → Change late db (record db { api_keys = insert id k' db.api_keys })
  key_kept :
      (id : String) (k k' : ApiKey) (db : Accounts)
      → lookup id db.api_keys ≡ some k
      → k'.user_id ≡ k.user_id
      → k'.name ≡ k.name
      → Change late db (record db { api_keys = insert id k' db.api_keys })
  key_added :
      (id : String) (k : ApiKey) (u : User) (db : Accounts)
      → lookup k.user_id db.users ≡ some u
      → any (λ row. row.1.user_id == k.user_id && row.1.name == k.name || row.0 == id) db.api_keys
        ≡ false
      → Change late db (record db { api_keys = insert id k db.api_keys })
  key_dropped :
      (id : String) (db : Accounts) → Change late db (record db { api_keys = erase id db.api_keys })
  both : {a b c : Accounts} → Change late a b → Change late b c → Change late a c
