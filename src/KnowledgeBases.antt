-- ===== src/KnowledgeBases.antt =====
-- `KnowledgeBaseStore` of app/utils/knowledge_base_store.py: the catalog of the knowledge bases of
-- a workspace in a JSON file, and the functions that validate it. Every operation runs under the
-- lock of the file. The file is a value, its new content is part of the result. A returned record
-- stands for its public view, which leaves the requester out and adds `is_default`.
pub mod Catalog
pub mod RoundTrip
mod Tests
use Prim.Native.String.{◌++◌ as append}
use raguardian.Prelude.Texts.{truncate}
use raguardian.Prelude.{
  ℕ, String, Bool, true, false, not, ◌&&◌, Option, none, some, List, [], ◌∷◌, ◌++◌, leb,
  if◌then◌else◌, ◌==◌, length, filter, any, nat_eq, string_eq, option_eq, pair_eq,
}
use raguardian.KnowledgeBases.Catalog.{
  Builtins, Code, invalid_knowledge_base, invalid_knowledge_base_name,
  invalid_knowledge_base_description, knowledge_base_limit_reached, knowledge_base_not_found,
  knowledge_base_deleting, knowledge_base_delete_failed, default_knowledge_base,
  duplicate_knowledge_base_name, KnowledgeBase, Value, File, missing, unreadable, holds, default_id,
  is_status, validate_knowledge_base_name, validate_knowledge_base_description, validate_catalog,
  dump,
}

-- What an operation returns, or one of the two exceptions.
pub data Outcome (A : Type 0) : Type 0 where
  done : A → Outcome A
  refused : Code → Outcome A
  catalog_error : Outcome A

module _ (py : Builtins) where
  -- `_load_unlocked`
  unfoldable pub load : File → Option (List KnowledgeBase)
  load missing = none
  load unreadable = none
  load (holds json) = validate_catalog py json

  -- `self._load_unlocked()`, and then the rest of an operation that may write
  unfoldable pub with_catalog :
      {A : Type 0} → File → (List KnowledgeBase → Outcome A × File) → Outcome A × File
  with_catalog file rest = elim (load file) [
    | none ↦ (catalog_error, file)
    | some records ↦ rest records
  ]

  -- `_default_record`
  unfoldable pub default_record : String → KnowledgeBase
  default_record now = record {
    id = default_id;
    name = "General";
    description = "";
    status = "active";
    created_at = now;
    updated_at = now;
    delete_error = "";
    delete_requester_api_key_id = "";
  }

  unfoldable pub ensure_default : String → File → Outcome (List KnowledgeBase) × File
  ensure_default now missing =
      let records = default_record now ∷ [] in (done records, holds (dump records))
  ensure_default now unreadable = (catalog_error, unreadable)
  ensure_default now (holds json) = elim (validate_catalog py json) [
    | none ↦ (catalog_error, holds json)
    | some records ↦ (done records, holds json)
  ]

  -- `_find_record`
  unfoldable pub find_record : String → List KnowledgeBase → Option KnowledgeBase
  find_record id [] = none
  find_record id (r ∷ rs) = if r.id == id then some r else find_record id rs

  -- The change of the record that `_find_record` found.
  unfoldable pub change_record :
      String → (KnowledgeBase → KnowledgeBase) → List KnowledgeBase → List KnowledgeBase
  change_record id f [] = []
  change_record id f (r ∷ rs) =
      let rest = change_record id f rs in if r.id == id then f r ∷ rs else r ∷ rest

  -- `_ensure_unique_name`: whether it raises.
  unfoldable pub name_taken : String → Option String → List KnowledgeBase → Bool
  name_taken name exclude records =
      any (λ r. not (some r.id == exclude) && py.casefold r.name == py.casefold name) records

  unfoldable pub additional_count : List KnowledgeBase → ℕ
  additional_count records = length (filter (λ r. not (r.id == default_id)) records)

  -- `hex` is `uuid.uuid4().hex`, and `max_additional` the field of the store.
  unfoldable pub create : ℕ → String → String → Value → Value → File → Outcome KnowledgeBase × File
  create max_additional now hex name description file =
      elim (validate_knowledge_base_name py name) [
        | none ↦ (refused invalid_knowledge_base_name, file)
        | some name' ↦ elim (validate_knowledge_base_description py description) [
          | none ↦ (refused invalid_knowledge_base_description, file)
          | some description' ↦ with_catalog file (λ records.
              if leb max_additional (additional_count records)
              then (refused knowledge_base_limit_reached, file)
              else if name_taken name' none records
              then (refused duplicate_knowledge_base_name, file)
              else let r : KnowledgeBase = record {
                id = append "kb_" hex;
                name = name';
                description = description';
                status = "active";
                created_at = now;
                updated_at = now;
                delete_error = "";
                delete_requester_api_key_id = "";
              } in
                (done r, holds (dump (records ++ r ∷ []))))
        ]
      ]

  -- The write of a changed record, and the record that is returned.
  unfoldable pub write_change :
      String
      → (KnowledgeBase → KnowledgeBase)
      → KnowledgeBase
      → List KnowledgeBase
      → Outcome KnowledgeBase × File
  write_change id f r records = (done (f r), holds (dump (change_record id f records)))

  unfoldable pub set_status :
      String → String → String → String → File → Outcome KnowledgeBase × File
  set_status now id status delete_error file =
      if not (is_status status)
      then (refused invalid_knowledge_base, file)
      else with_catalog file (λ records. elim (find_record id records) [
        | none ↦ (refused knowledge_base_not_found, file)
        | some r ↦
            if id == default_id && not (status == "active")
            then (refused default_knowledge_base, file)
            else write_change id
                (λ r. record r {
                  status = status;
                  delete_error = truncate 1000 delete_error;
                  delete_requester_api_key_id =
                      if status == "active" then "" else r.delete_requester_api_key_id;
                  updated_at = now;
                })
                r records
      ])

  unfoldable pub begin_delete : String → String → String → File → Outcome KnowledgeBase × File
  begin_delete now id requester file =
      if id == default_id
      then (refused default_knowledge_base, file)
      else with_catalog file (λ records. elim (find_record id records) [
        | none ↦ (refused knowledge_base_not_found, file)
        | some r ↦
            if not (r.status == "deleting")
            then write_change id
                (λ r. record r {
                  status = "deleting";
                  delete_error = "";
                  delete_requester_api_key_id = requester;
                  updated_at = now;
                })
                r records
            else if not (requester == "") && r.delete_requester_api_key_id == ""
            then write_change id
                (λ r. record r { delete_requester_api_key_id = requester; updated_at = now }) r
                records
            else (done r, file)
      ])

  unfoldable pub require_active : String → File → Outcome KnowledgeBase
  require_active id file = elim (load file) [
    | none ↦ catalog_error
    | some records ↦ elim (find_record id records) [
      | none ↦ refused knowledge_base_not_found
      | some r ↦
          if r.status == "active"
          then done r
          else if r.status == "deleting"
          then refused knowledge_base_deleting
          else refused knowledge_base_delete_failed
    ]
  ]

  unfoldable pub remove : String → File → Outcome Bool × File
  remove id file =
      if id == default_id
      then (refused default_knowledge_base, file)
      else with_catalog file (λ records.
        let remaining = filter (λ r. not (r.id == id)) records in
        if length remaining == length records
        then (done false, file)
        else (done true, holds (dump remaining)))

  -- `if name is not None`, and the same for the description
  unfoldable pub new_name :
      String → Option Value → KnowledgeBase → List KnowledgeBase → Outcome String
  new_name id none r records = done r.name
  new_name id (some value) r records = elim (validate_knowledge_base_name py value) [
    | none ↦ refused invalid_knowledge_base_name
    | some name ↦
        if name_taken name (some id) records
        then refused duplicate_knowledge_base_name
        else done name
  ]

  unfoldable pub new_description : Option Value → KnowledgeBase → Outcome String
  new_description none r = done r.description
  new_description (some value) r = elim (validate_knowledge_base_description py value) [
    | none ↦ refused invalid_knowledge_base_description
    | some description ↦ done description
  ]

  -- The changes under the lock, in their order: the first exception ends them.
  unfoldable pub apply_update :
      String
      → String
      → Outcome String
      → Outcome String
      → KnowledgeBase
      → List KnowledgeBase
      → File
      → Outcome KnowledgeBase × File
  apply_update now id (done name) (done description) r records file =
      write_change id (λ r. record r { name = name; description = description; updated_at = now }) r
        records
  apply_update now id (refused code) description r records file = (refused code, file)
  apply_update now id (done name) (refused code) r records file = (refused code, file)
  apply_update now id _ _ r records file = (catalog_error, file)

  unfoldable pub update :
      String → String → Option Value → Option Value → File → Outcome KnowledgeBase × File
  update now id name description file = with_catalog file (λ records.
      elim (find_record id records) [
        | none ↦ (refused knowledge_base_not_found, file)
        | some r ↦
            if r.status == "deleting"
            then (refused knowledge_base_deleting, file)
            else apply_update now id (new_name id name r records) (new_description description r) r
                records file
      ])

  unfoldable pub delete_requester_api_key_id : String → File → Option String
  delete_requester_api_key_id id file = elim (load file) [
    | none ↦ none
    | some records ↦ elim (find_record id records) [
      | none ↦ some ""
      | some r ↦ some r.delete_requester_api_key_id
    ]
  ]
