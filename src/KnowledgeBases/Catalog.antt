-- ===== src/KnowledgeBases/Catalog.antt =====
-- The records of the catalog, their validation, and the JSON that is read and written.
use Prim.Native.Char.{code}
use text.Mathlib.Text.{starts_with}
use raguardian.Prelude.Texts.{text_length, truncate}
use raguardian.Prelude.{
  ℕ, zero, suc, String, Bool, true, ◌&&◌, ◌||◌, Option, none, some, List, [], ◌∷◌, ltb, leb,
  if◌then◌else◌, ◌==◌, length, filter, any, nat_eq, string_eq, option_eq, pair_eq,
}

-- Methods of `str` and `datetime`: `s.strip()`, `s.casefold()`, and whether
-- `datetime.fromisoformat(s.replace("Z", "+00:00"))` is a time with a zone.
pub record Builtins : Type 0 where
  pub strip : String → String
  pub casefold : String → String
  pub is_zoned : String → Bool

-- The codes of `KnowledgeBaseValidationError`.
pub data Code : Type 0 where
  invalid_knowledge_base : Code
  invalid_knowledge_base_id : Code
  invalid_knowledge_base_name : Code
  invalid_knowledge_base_description : Code
  knowledge_base_limit_reached : Code
  knowledge_base_not_found : Code
  knowledge_base_deleting : Code
  knowledge_base_delete_failed : Code
  default_knowledge_base : Code
  duplicate_knowledge_base_name : Code

pub record KnowledgeBase : Type 0 where
  pub id : String
  pub name : String
  pub description : String
  pub status : String
  pub created_at : String
  pub updated_at : String
  pub delete_error : String
  pub delete_requester_api_key_id : String

-- A value in a JSON object: missing or `null`, a text, or another with its truth and its `str`.
pub data Value : Type 0 where
  null : Value
  string : String → Value
  other : Bool → String → Value

-- `str(value or "")`
unfoldable pub text_of : Value → String
text_of null = ""
text_of (string s) = s
text_of (other truth s) = if truth then s else ""

-- An element of the list of records.
pub data Raw : Type 0 where
  not_object : Raw
  object : (id name description status created_at updated_at delete_error requester : Value) → Raw

-- The content of the file: an object with its version, if that is a number, and its records, if
-- they are a list.
pub data Json : Type 0 where
  not_catalog : Json
  catalog : Option ℕ → Option (List Raw) → Json

pub data File : Type 0 where
  missing : File
  unreadable : File
  holds : Json → File

abbrev pub default_id : String
default_id = "default"

-- `[0-9a-f]`
unfoldable pub is_hex_digit : ℕ → Bool
is_hex_digit c = leb 48 c && leb c 57 || leb 97 c && leb c 102

unfoldable pub all_hex : String → Bool
all_hex String.[] = true
all_hex (String.◌∷◌ c s) = is_hex_digit (code c) && all_hex s

unfoldable pub after : ℕ → String → String
after zero s = s
after (suc n) String.[] = ""
after (suc n) (String.◌∷◌ c s) = after n s

-- A full match of `^kb_[0-9a-f]{32}$`
unfoldable pub matches_pattern : String → Bool
matches_pattern s = starts_with s "kb_" && text_length s == 35 && all_hex (after 3 s)

-- `status in KNOWLEDGE_BASE_STATUSES`
unfoldable pub is_status : String → Bool
is_status s = s == "active" || s == "deleting" || s == "delete_failed"

infixl 5 ◌>>=◌
abbrev pub ◌>>=◌ {ℓ κ} : {A : Type ℓ} {B : Type κ} → Option A → (A → Option B) → Option B
none >>= f = none
some a >>= f = f a

module _ (py : Builtins) where
  -- `validate_knowledge_base_id` of a text: whether it raises.
  unfoldable pub is_knowledge_base_id : String → Bool
  is_knowledge_base_id value = let id = py.strip value in id == default_id || matches_pattern id

  -- `none` where it raises, here and below.
  unfoldable pub validate_knowledge_base_name : Value → Option String
  validate_knowledge_base_name (string value) =
      let name = py.strip value in
      if leb 1 (text_length name) && leb (text_length name) 120 then some name else none
  validate_knowledge_base_name _ = none

  unfoldable pub validate_knowledge_base_description : Value → Option String
  validate_knowledge_base_description (string value) =
      let description = py.strip value in
      if ltb 1000 (text_length description) then none else some description
  validate_knowledge_base_description _ = none

  unfoldable pub validate_timestamp : Value → Option String
  validate_timestamp value =
      let timestamp = py.strip (text_of value) in
      if timestamp == "" then none else if py.is_zoned timestamp then some timestamp else none

  -- One turn of the loop of `_validate_catalog`, without the test for duplicates.
  unfoldable pub normalize : Raw → Option KnowledgeBase
  normalize not_object = none
  normalize (object id name description status created_at updated_at delete_error requester) = do
    name' ← validate_knowledge_base_name name
    description' ← validate_knowledge_base_description description
    created_at' ← validate_timestamp created_at
    updated_at' ← validate_timestamp updated_at
    if is_knowledge_base_id (text_of id) && is_status (text_of status)
        then some (record {
          id = text_of id;
          name = name';
          description = description';
          status = text_of status;
          created_at = created_at';
          updated_at = updated_at';
          delete_error = truncate 1000 (text_of delete_error);
          delete_requester_api_key_id = text_of requester;
        })
        else none

  -- The loop, with `ids` and `names`.
  unfoldable pub validate_records :
      List Raw → List String → List String → Option (List KnowledgeBase)
  validate_records [] ids names = some []
  validate_records (raw ∷ raws) ids names = do
    record' ← normalize raw
    let folded = py.casefold record'.name
    rest ← validate_records raws (record'.id ∷ ids) (folded ∷ names)
    if any (λ i. i == record'.id) ids || any (λ n. n == folded) names
        then none
        else some (record' ∷ rest)

  -- `default_count`
  unfoldable pub default_count : List KnowledgeBase → ℕ
  default_count records = length (filter (λ r. r.id == default_id) records)

  -- `if default_count != 1`
  unfoldable pub with_one_default : List KnowledgeBase → Option (List KnowledgeBase)
  with_one_default records = if default_count records == 1 then some records else none

  -- `_validate_catalog`; `none` is the `KnowledgeBaseCatalogError` that each failure raises.
  unfoldable pub validate_catalog : Json → Option (List KnowledgeBase)
  validate_catalog not_catalog = none
  validate_catalog (catalog version none) = none
  validate_catalog (catalog version (some [])) = none
  validate_catalog (catalog version (some (raw ∷ raws))) =
      if version == some 1 then validate_records (raw ∷ raws) [] [] >>= with_one_default else none

-- What `json.dump` writes for a record, and for the catalog.
unfoldable pub dump_record : KnowledgeBase → Raw
dump_record r =
    object (string r.id) (string r.name) (string r.description) (string r.status)
      (string r.created_at) (string r.updated_at) (string r.delete_error)
      (string r.delete_requester_api_key_id)

unfoldable pub dump_records : List KnowledgeBase → List Raw
dump_records [] = []
dump_records (r ∷ rs) = dump_record r ∷ dump_records rs

unfoldable pub dump : List KnowledgeBase → Json
dump records = catalog (some 1) (some (dump_records records))
