-- ===== src/Users/Keys.antt =====
-- API keys: their creation, changes, use and removal, and the look-up by which a request is
-- authenticated.
pub mod Removal
use raguardian.Prelude.{
  ℕ, ◌+◌, ◌-◌, String, Bool, true, false, not, ◌&&◌, ◌||◌, Option, none, some, List, [], ◌∷◌, ◌++◌,
  leb, if◌then◌else◌, is_none, ◌==◌, any, nat_eq, string_eq, option_eq, pair_eq,
}
use raguardian.Prelude.Results.{ok, ◌>>◌, raise_if}
use raguardian.Prelude.Texts.{text_length, truncate, drop_text, code_at}
use raguardian.Dict.{lookup, insert, update_at, erase}
use raguardian.Users.{
  Builtins, ApiKey, Accounts, name_required, name_exists, needs_knowledge_base, user_not_found,
  callback, violated, Call, find_row, touch,
}

-- `API_SCOPES`
abbrev pub api_scopes : List String
api_scopes =
    "query" ∷ "ingest" ∷ "speech" ∷ "kb_manage" ∷ "agent_manage" ∷ "history_read" ∷ "history_manage"
    ∷ []

-- `API_SCOPES_REQUIRING_KB`
abbrev pub api_scopes_requiring_kb : List String
api_scopes_requiring_kb =
    "query" ∷ "ingest" ∷ "agent_manage" ∷ "history_read" ∷ "history_manage" ∷ []

-- `x in xs`
unfoldable pub is_in : String → List String → Bool
is_in x xs = any (λ y. y == x) xs

-- `API_SCOPES_REQUIRING_KB & set(scopes)`
unfoldable pub requires_kb : List String → Bool
requires_kb scopes = any (λ s. is_in s api_scopes_requiring_kb) scopes

-- The test before a key is stored: whether it raises.
unfoldable pub lacks_kb : List String → List String → Bool
lacks_kb scopes kbs = requires_kb scopes && elim kbs [ [] ↦ true | _ ∷ _ ↦ false ]

-- `SELECT * FROM api_keys WHERE user_id = ? AND name = ?`
unfoldable pub named : String → String → Accounts → Option (String × ApiKey)
named user_id name db = find_row (λ _ k. k.user_id == user_id && k.name == name) db.api_keys

-- `UPDATE api_keys SET ... WHERE id = ?`
unfoldable pub set_key : String → (ApiKey → ApiKey) → Accounts → Accounts
set_key id f db = record db { api_keys = update_at id f db.api_keys }

-- The writes of a call that has read the row.
unfoldable pub write_key : String → String → String → (ApiKey → ApiKey) → Accounts → Accounts
write_key now user_id id f db = touch now user_id (set_key id f db)

-- Such a call where nothing comes between; `f` is the change, given the row that was read.
unfoldable pub change_key :
    String → String → String → (ApiKey → ApiKey → ApiKey) → Accounts → Option ApiKey × Accounts
change_key now user_id name f db = elim (named user_id name db) [
  | none ↦ (none, db)
  | some (id, k) ↦ (some (f k k), write_key now user_id id (f k) db)
]

-- The change of a toggle, which sets what it made of the row that was read.
unfoldable pub toggled_key : Option Bool → ApiKey → ApiKey → ApiKey
toggled_key enabled read k = record k {
  enabled = elim enabled [ none ↦ not read.enabled | some e ↦ e ];
}

unfoldable pub toggle_api_key_enabled :
    String → String → String → Option Bool → Accounts → Option ApiKey × Accounts
toggle_api_key_enabled now user_id name enabled db =
    change_key now user_id name (toggled_key enabled) db

unfoldable pub drop_key : String → String → String → Accounts → Accounts
drop_key now user_id id db = touch now user_id (record db { api_keys = erase id db.api_keys })

unfoldable pub delete_api_key : String → String → String → Accounts → Bool × Accounts
delete_api_key now user_id name db = elim (named user_id name db) [
  | none ↦ (false, db)
  | some (id, k) ↦ (true, drop_key now user_id id db)
]

-- The unique constraint on the name and the account of the row.
unfoldable pub violates_name : String → String → Accounts → Bool
violates_name id new_name db = elim (lookup id db.api_keys) [
  | none ↦ false
  | some k ↦
      any (λ row. row.1.user_id == k.user_id && row.1.name == new_name && not (row.0 == id))
        db.api_keys
]

-- The writes of `update_api_key_name`; the IntegrityError of the first is not caught.
unfoldable pub rename_write : String → String → String → String → Call String
rename_write now user_id id new_name db =
    raise_if (violates_name id new_name db) violated
    >> ok (new_name, write_key now user_id id (λ k. record k { name = new_name }) db)

unfoldable pub update_api_key_usage : String → String → String → Accounts → Accounts
update_api_key_usage now user_id name db =
    elim (find_row (λ _ k. k.user_id == user_id && k.name == name && k.enabled) db.api_keys) [
      | none ↦ db
      | some (id, k) ↦
          touch now user_id
            (set_key id (λ k. record k { last_used = now; usage_count = k.usage_count + 1 }) db)
    ]

-- The last four characters, `s[-4:]`
unfoldable pub last_four : String → String
last_four s = drop_text (text_length s - 4) s

-- `set(json.loads(row["scopes"] or "[]")) or {"query"}`
unfoldable pub scopes_of_row : ApiKey → List String
scopes_of_row k = elim k.scopes [ [] ↦ "query" ∷ [] | s ∷ ss ↦ s ∷ ss ]

-- `len(raw) == 10 and raw[4] == "-" and raw[7] == "-"`
unfoldable pub is_day : String → Bool
is_day raw = text_length raw == 10 && code_at 4 raw == 45 && code_at 7 raw == 45

-- The condition on the account in the join.
unfoldable pub user_enabled : String → Accounts → Bool
user_enabled id db = elim (lookup id db.users) [ none ↦ false | some u ↦ u.enabled ]

unfoldable pub based_key : List String → ApiKey → ApiKey
based_key kbs k = record k { knowledge_base_ids = kbs }

module _ (py : Builtins) where
  -- One turn of the loop of `_normalize_api_scopes`
  unfoldable pub add_scope : List String → String → List String
  add_scope result s =
      let cleaned = py.lower (py.strip s) in
      if is_in cleaned api_scopes && not (is_in cleaned result)
      then result ++ cleaned ∷ []
      else result

  unfoldable pub add_scopes : List String → List String → List String
  add_scopes result [] = result
  add_scopes result (s ∷ ss) = add_scopes (add_scope result s) ss

  unfoldable pub normalize_api_scopes : List String → List String
  normalize_api_scopes scopes = elim (add_scopes [] scopes) [ [] ↦ "query" ∷ [] | s ∷ ss ↦ s ∷ ss ]

  unfoldable pub rotated_key : String → ApiKey → ApiKey
  rotated_key value k = record k {
    key_hash = py.sha256 value;
    key_prefix = truncate 8 value;
    key_suffix = last_four value;
  }

  unfoldable pub rotate_api_key :
      String → String → String → String → Accounts → Option ApiKey × Accounts
  rotate_api_key now user_id name value db = change_key now user_id name (λ _. rotated_key value) db

  unfoldable pub update_api_key_name : String → String → String → String → Call (Option ApiKey)
  update_api_key_name now user_id name new_name db =
      raise_if (py.strip new_name == "") name_required >> elim (named user_id name db) [
        | none ↦ ok (none, db)
        | some (id, k) ↦
            raise_if
              (any
                (λ row.
                  row.1.user_id == user_id && row.1.name == py.strip new_name && not (row.0 == id))
                db.api_keys)
              name_exists
            >> ok (change_key now user_id name (λ _ k. record k { name = py.strip new_name }) db)
      ]

  -- The arguments of `create_api_key`; `knowledge_base_ids` has been normalised, and `validates`
  -- tells whether the function `validate`, if one is given, returns.
  unfoldable pub new_key :
      String
      → String
      → String
      → List String
      → List String
      → String
      → Bool
      → String
      → Option String
      → ApiKey
  new_key now user_id name scopes kbs value enabled description expires_at = record {
    user_id = user_id;
    name = name;
    key_hash = py.sha256 value;
    key_prefix = truncate 8 value;
    key_suffix = last_four value;
    scopes = scopes;
    knowledge_base_ids = kbs;
    enabled = enabled;
    created_at = now;
    last_used = "";
    usage_count = 0;
    description = py.strip description;
    expires_at = expires_at;
  }

  -- The INSERT of a key, with the unique columns and the reference to its account.
  unfoldable pub insert_key : String → String → ApiKey → Call ApiKey
  insert_key now id k db =
      raise_if
        (any (λ row. row.1.user_id == k.user_id && row.1.name == k.name || row.0 == id) db.api_keys)
        name_exists
      >> ok (k, touch now k.user_id (record db { api_keys = insert id k db.api_keys }))

  unfoldable pub create_api_key :
      String
      → String
      → String
      → String
      → List String
      → List String
      → String
      → Bool
      → String
      → Option String
      → Bool
      → Call ApiKey
  create_api_key now id user_id name scopes kbs value enabled description expires_at validates db =
      raise_if (py.strip name == "") name_required
      >> (raise_if (lacks_kb (normalize_api_scopes scopes) kbs) needs_knowledge_base
          >> (raise_if (is_none (lookup user_id db.users)) user_not_found
              >> (raise_if (not validates) callback
                  >> insert_key now id
                      (new_key now user_id (py.strip name) (normalize_api_scopes scopes) kbs
                        (py.strip value) enabled description expires_at)
                      db)))

  unfoldable pub scoped_key : List String → ApiKey → ApiKey
  scoped_key scopes k = record k { scopes = normalize_api_scopes scopes }

  unfoldable pub update_api_key_scopes :
      String → String → String → List String → Call (Option ApiKey)
  update_api_key_scopes now user_id name scopes db = elim (named user_id name db) [
    | none ↦ ok (none, db)
    | some (id, k) ↦
        raise_if (lacks_kb (normalize_api_scopes scopes) k.knowledge_base_ids) needs_knowledge_base
        >> ok (change_key now user_id name (λ _. scoped_key scopes) db)
  ]

  unfoldable pub update_api_key_knowledge_bases :
      String → String → String → List String → Call (Option ApiKey)
  update_api_key_knowledge_bases now user_id name kbs db = elim (named user_id name db) [
    | none ↦ ok (none, db)
    | some (id, k) ↦
        raise_if (lacks_kb (scopes_of_row k) kbs) needs_knowledge_base
        >> ok (change_key now user_id name (λ _. based_key kbs) db)
  ]

  unfoldable pub update_api_key_access :
      String → String → String → List String → List String → Bool → Call (Option ApiKey)
  update_api_key_access now user_id name scopes kbs validates db =
      raise_if (lacks_kb (normalize_api_scopes scopes) kbs) needs_knowledge_base
      >> elim (named user_id name db) [
        | none ↦ ok (none, db)
        | some (id, k) ↦
            raise_if (not validates) callback
            >> ok (
                change_key now user_id name
                  (λ _ k. record k {
                    scopes = normalize_api_scopes scopes;
                    knowledge_base_ids = kbs;
                  })
                  db)
      ]

  -- `_is_expired` and `_parse_expiration` at a time
  unfoldable pub parse_expiration : String → Option ℕ
  parse_expiration value =
      let raw = py.strip value in
      if raw == "" then none else if is_day raw then py.end_of_day raw else py.fromisoformat raw

  unfoldable pub is_expired : ℕ → Option String → Bool
  is_expired now none = false
  is_expired now (some value) = elim (parse_expiration value) [ none ↦ false | some t ↦ leb t now ]

  -- `find_api_key_by_value`: the key, its id and its account
  unfoldable pub find_api_key_by_value : ℕ → String → Accounts → Option (String × ApiKey)
  find_api_key_by_value now value db =
      if value == ""
      then none
      else elim (find_row
          (λ _ k. k.key_hash == py.sha256 value && k.enabled && user_enabled k.user_id db)
          db.api_keys) [
            | none ↦ none
            | some (id, k) ↦ if is_expired now k.expires_at then none else some (id, k)
          ]
