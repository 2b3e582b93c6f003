-- ===== src/Users.antt =====
-- `UserStore` of app/utils/user_store.py: the local accounts and their API keys, two tables of SQLite
-- (app/db/schema.sql). This module has the rows and the calls on accounts. The columns `scopes` and
-- `knowledge_base_ids` hold JSON lists of texts, here the lists. Ids, keys and times that a call
-- makes afresh are arguments; what libraries do with texts, passwords and times is in `Builtins`.
pub mod Keys
pub mod Removed
pub mod Changes
pub mod Steps
pub mod Access
pub mod Scopes
mod Tests
use raguardian.Prelude.{
  ℕ, String, Bool, true, false, ◌&&◌, ◌||◌, Option, none, some, List, [], ◌∷◌, ltb, if◌then◌else◌,
  ◌==◌, length, any, nat_eq, string_eq, option_eq, pair_eq,
}
use raguardian.Prelude.Results.{Result, ok, ◌>>=◌, ◌>>◌, raise_if}
use raguardian.Dict.{Dict, without, lookup, insert, update_at, erase}

-- `str.strip`, `str.lower`, the functions of werkzeug, SHA-256 in hexadecimal, and the two ways in
-- which `datetime` reads an expiry: the last moment of a day, and an instant.
pub record Builtins : Type 0 where
  pub strip : String → String
  pub lower : String → String
  pub generate_password_hash : String → String
  pub check_password_hash : String → String → Bool
  pub sha256 : String → String
  pub end_of_day : String → Option ℕ
  pub fromisoformat : String → Option ℕ

pub record User : Type 0 where
  pub email : String
  pub display_name : String
  pub password_hash : String
  pub role : String
  pub enabled : Bool
  pub created_at : String
  pub updated_at : String
  pub deletion_status : String
  pub deletion_error : String

pub record ApiKey : Type 0 where
  pub user_id : String
  pub name : String
  pub key_hash : String
  pub key_prefix : String
  pub key_suffix : String
  pub scopes : List String
  pub knowledge_base_ids : List String
  pub enabled : Bool
  pub created_at : String
  pub last_used : String
  pub usage_count : ℕ
  pub description : String
  pub expires_at : Option String

-- Accounts and keys by id.
pub record Accounts : Type 0 where
  pub users : Dict String User
  pub api_keys : Dict String ApiKey

-- What the calls raise. `callback` stands for whatever a function that the caller passed raises.
pub data Refusal : Type 0 where
  email_required : Refusal
  password_required : Refusal
  email_exists : Refusal
  incomplete_deletion : Refusal
  name_required : Refusal
  name_exists : Refusal
  needs_knowledge_base : Refusal
  invalid_knowledge_base_id : Refusal
  user_not_found : Refusal
  callback : Refusal
  violated : Refusal

-- A call: the answer and the tables, or what it raised, with the tables as they were.
abbrev pub Call : Type 0 → Type 0
Call A = Accounts → Result Refusal (A × Accounts)

abbrev pub no_accounts : Accounts
no_accounts = record { users = []; api_keys = [] }

-- The first row that passes a test.
unfoldable pub find_row : {A : Type 0} → (String → A → Bool) → Dict String A → Option (String × A)
find_row p [] = none
find_row p ((id, a) ∷ d) = if p id a then some (id, a) else find_row p d

unfoldable pub is_deleting : User → Bool
is_deleting u = u.deletion_status == "deleting" || u.deletion_status == "delete_failed"

-- `UPDATE users SET ... WHERE id = ?`
unfoldable pub set_user : String → (User → User) → Accounts → Accounts
set_user id f db = record db { users = update_at id f db.users }

-- `UPDATE users SET updated_at = ? WHERE id = ?`
unfoldable pub touch : String → String → Accounts → Accounts
touch now id db = set_user id (λ u. record u { updated_at = now }) db

-- `DELETE FROM users WHERE id = ?`, which cascades
unfoldable pub delete_row : String → Accounts → Accounts
delete_row id db = record {
  users = erase id db.users;
  api_keys = without (λ _ k. k.user_id == id) db.api_keys;
}

-- The INSERT of an account, with its unique columns.
unfoldable pub insert_user : String → User → Call User
insert_user id u db =
    raise_if (any (λ row. row.1.email == u.email) db.users) email_exists
    >> (raise_if (any (λ row. row.0 == id) db.users) violated
        >> ok (u, record db { users = insert id u db.users }))

-- What `update_user` may change: a field is `none` where the patch does not name it.
pub record Patch : Type 0 where
  pub display_name : Option String
  pub role : Option String
  pub enabled : Option Bool
  pub password : Option String

unfoldable pub is_role : String → Bool
is_role r = r == "admin" || r == "user"

unfoldable pub or_else : String → String → String
or_else s t = if s == "" then t else s

-- The write of the first phase of `delete_user`
unfoldable pub mark_row : String → String → Accounts → Accounts
mark_row now id db =
    set_user id
      (λ u. record u {
        enabled = false;
        deletion_status = "deleting";
        deletion_error = "";
        updated_at = now;
      })
      db

-- The three phases of `delete_user` with a function `before_delete`, which runs between the first
-- and the others while no connection is open. The first keeps the row as it was.
unfoldable pub mark_deleting : String → String → Accounts → Option User × Accounts
mark_deleting now id db = elim (lookup id db.users) [
  | none ↦ (none, db)
  | some original ↦ (some original, mark_row now id db)
]

-- How `before_delete` ends: it raises `UserDeletionPreflightError`, or another error, or returns.
pub data Ending : Type 0 where
  rejected : Ending
  broken : String → Ending
  finished : Ending

-- What the call does then, and its answer, `none` where it raises.
unfoldable pub end_deletion : String → String → User → Ending → Accounts → Option Bool × Accounts
end_deletion now id original rejected db = (
  none,
  set_user id
      (λ u. record u {
        enabled = original.enabled;
        deletion_status = original.deletion_status;
        deletion_error = original.deletion_error;
        updated_at = now;
      })
      db,
)
end_deletion now id original (broken error) db = (
  none,
  set_user id
      (λ u. record u {
        enabled = false;
        deletion_status = "delete_failed";
        deletion_error = error;
        updated_at = now;
      })
      db,
)
end_deletion now id original finished db =
    (some (any (λ row. row.0 == id) db.users), delete_row id db)

-- `delete_user` without a function
unfoldable pub delete_user : String → Accounts → Bool × Accounts
delete_user id db = (any (λ row. row.0 == id) db.users, delete_row id db)

unfoldable pub asks_enabled : Patch → Bool
asks_enabled patch = elim patch.enabled [ none ↦ false | some e ↦ e ]

-- `update_user` up to its UPDATE: the row that it reads, and the test on it.
unfoldable pub update_user_read : String → Patch → Accounts → Result Refusal (Option User)
update_user_read id patch db = elim (lookup id db.users) [
  | none ↦ ok none
  | some u ↦ raise_if (asks_enabled patch && is_deleting u) incomplete_deletion >> ok (some u)
]

module _ (py : Builtins) where
  unfoldable pub normalize_email : String → String
  normalize_email value = py.lower (py.strip value)

  -- `_user_record`
  unfoldable pub user_record : String → String → String → String → String → Bool → User
  user_record now email password display_name role enabled = record {
    email = email;
    display_name = or_else (py.strip display_name) email;
    password_hash = py.generate_password_hash password;
    role = role;
    enabled = enabled;
    created_at = now;
    updated_at = now;
    deletion_status = "";
    deletion_error = "";
  }

  unfoldable pub create_user :
      String → String → String → String → String → String → Bool → Call User
  create_user now id email password display_name role enabled db =
      raise_if (normalize_email email == "") email_required
      >> (raise_if (password == "") password_required
          >> insert_user id
              (user_record now (normalize_email email) password display_name
                (if is_role role then role else "user") enabled)
              db)

  -- The columns that the statement sets, of which only the name depends on the row that was read.
  unfoldable pub patched_user : String → Patch → User → User → User
  patched_user now patch read u = record u {
    display_name = elim patch.display_name [
      | none ↦ u.display_name
      | some name ↦ py.strip (or_else name read.email)
    ];
    role = elim patch.role [ none ↦ u.role | some r ↦ if is_role r then r else u.role ];
    enabled = elim patch.enabled [ none ↦ u.enabled | some e ↦ e ];
    password_hash = elim patch.password [
      | none ↦ u.password_hash
      | some p ↦ if p == "" then u.password_hash else py.generate_password_hash p
    ];
    updated_at = now;
  }

  unfoldable pub update_user_write : String → String → Patch → User → Accounts → Accounts
  update_user_write now id patch read db = set_user id (patched_user now patch read) db

  -- The whole of it, where nothing comes between.
  unfoldable pub update_user : String → String → Patch → Call (Option User)
  update_user now id patch db = update_user_read id patch db >>= λ read. ok (elim read [
    | none ↦ (none, db)
    | some u ↦ (some (patched_user now patch u u), update_user_write now id patch u db)
  ])

  unfoldable pub authenticate : String → String → Accounts → Option String
  authenticate email password db =
      elim (find_row (λ _ u. u.email == normalize_email email && u.enabled) db.users) [
        | none ↦ none
        | some (id, u) ↦ if py.check_password_hash u.password_hash password then some id else none
      ]

  unfoldable pub bootstrap_admin_if_empty : String → String → String → String → Call (Option User)
  bootstrap_admin_if_empty now id email password db =
      if ltb 0 (length db.users)
      then ok (none, db)
      else (insert_user id
            (user_record now (normalize_email (or_else email "admin@example.local")) password
              "Admin" "admin" true)
            db
          >>= λ made. ok (some made.0, made.1))
