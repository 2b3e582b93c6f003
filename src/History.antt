-- ===== src/History.antt =====
-- `ConversationHistoryStore` of app/utils/conversation_history_store.py: the durable history of a
-- workspace in SQLite. This module has the rows of its four tables, its limits and its errors.
-- A table is a dictionary under its primary key; a foreign key's ON DELETE CASCADE is written out in
-- `delete_conversation`. The clock, `uuid4`, `secrets` and the encoder of JSON are arguments.
pub mod Cleanup
pub mod Turns
pub mod Commit
pub mod Edits
pub mod Linear
pub mod Steps
pub mod Effects
pub mod Quotas
pub mod Ledger
pub mod Chain
pub mod Leases
pub mod Retention
mod Tests
use raguardian.Prelude.{
  ℕ, String, Bool, true, false, not, ◌&&◌, ◌||◌, Option, none, some, List, [], ◌∷◌, if◌then◌else◌,
  ◌==◌, filter, any, nat_eq, string_eq, option_eq, pair_eq,
}
use raguardian.Prelude.Results.{Result}
use raguardian.Dict.{Dict, without, lookup, erase}

-- The columns that describe the agent of a conversation; `prompt_ref` is JSON text.
pub record Agent : Type 0 where
  pub agent_id : String
  pub agent_name : String
  pub provider_id : String
  pub model_id : String
  pub prompt_ref : String
  pub response_language : String

pub record Conversation : Type 0 where
  pub client_conversation_id : String
  pub scope_key : String
  pub scope_kind : String
  pub title : String
  pub archived : Bool
  pub agent : Agent
  pub summary : String
  pub summary_version : ℕ
  pub summary_through_sequence : ℕ
  pub message_count : ℕ
  pub payload_bytes : ℕ
  pub last_turn_id : Option String
  pub created_at : ℕ
  pub updated_at : ℕ
  pub archived_at : Option ℕ

pub data Status : Type 0 where
  generating ready complete failed : Status

pub record Turn : Type 0 where
  pub parent_turn_id : Option String
  pub request_fingerprint : String
  pub status : Status
  pub result_digest : Option String
  pub lease_token : Option String
  pub lease_expires_at : Option ℕ
  pub created_at : ℕ
  pub updated_at : ℕ

pub data Role : Type 0 where
  user assistant : Role

pub record Message : Type 0 where
  pub conversation_id : String
  pub turn_id : String
  pub role : Role
  pub message_type : String
  pub content : String
  pub sequence : ℕ
  pub sources : String
  pub metadata : String
  pub payload_bytes : ℕ
  pub created_at : ℕ

pub record KbLink : Type 0 where
  pub is_selected : Bool
  pub first_used_at : ℕ
  pub last_used_at : ℕ

-- Conversations by id, turns by conversation and turn id, links by conversation and knowledge base.
pub record Db : Type 0 where
  pub conversations : Dict String Conversation
  pub knowledge_bases : Dict (String × String) KbLink
  pub turns : Dict (String × String) Turn
  pub messages : List Message

pub record Limits : Type 0 where
  pub max_conversations : ℕ
  pub max_pending_turns : ℕ
  pub max_messages_per_conversation : ℕ
  pub max_conversation_bytes : ℕ
  pub max_message_chars : ℕ
  pub max_sources_bytes_per_turn : ℕ
  pub max_metadata_bytes_per_turn : ℕ
  pub max_history_bytes : ℕ
  pub retention_days : ℕ
  pub lease_seconds : ℕ
  pub incomplete_turn_retention_days : ℕ

-- The exceptions. `integrity_error` is SQLite's, where no handler turns it into another.
pub data Error : Type 0 where
  history_error : Error
  turn_conflict : Error
  turn_in_progress : Error
  continuity : Option String → Error
  quota_exceeded : Error
  conversation_not_found : Error
  conversation_archived : Error
  integrity_error : Error

-- A transaction: it commits and returns, or it raises and is rolled back.
abbrev pub Transaction : Type 0 → Type 0
Transaction A = Db → Result Error (A × Db)

abbrev pub empty : Db
empty = record { conversations = []; knowledge_bases = []; turns = []; messages = [] }

abbrev pub is_status : Status → Status → Bool
is_status generating generating = true
is_status ready ready = true
is_status complete complete = true
is_status failed failed = true
is_status _ _ = false

-- `status IN ('generating', 'ready')`
abbrev pub is_active : Turn → Bool
is_active t = is_status t.status generating || is_status t.status ready

-- `WHERE scope_key = ?`, a unique column
unfoldable pub find_scope : String → Dict String Conversation → Option (String × Conversation)
find_scope scope_key [] = none
find_scope scope_key ((id, c) ∷ d) =
    if c.scope_key == scope_key then some (id, c) else find_scope scope_key d

-- `_get_turn_for_update`, with the key of the row
unfoldable pub get_turn_for_update : String → String → Db → Option ((String × String) × Turn)
get_turn_for_update scope_key turn_id db = elim (find_scope scope_key db.conversations) [
  | none ↦ none
  | some (id, _) ↦ elim (lookup (id, turn_id) db.turns) [
    | none ↦ none
    | some t ↦ some ((id, turn_id), t)
  ]
]

-- `DELETE FROM conversations WHERE id = ?`, which cascades
unfoldable pub delete_conversation : String → Db → Db
delete_conversation id db = record {
  conversations = erase id db.conversations;
  knowledge_bases = without (λ k _. k.0 == id) db.knowledge_bases;
  turns = without (λ k _. k.0 == id) db.turns;
  messages = filter (λ m. not (m.conversation_id == id)) db.messages;
}

unfoldable pub delete_conversations : List String → Db → Db
delete_conversations [] db = db
delete_conversations (id ∷ ids) db = delete_conversations ids (delete_conversation id db)

-- `EXISTS (SELECT 1 FROM turn_requests WHERE conversation_id = ? AND status IN (...))`
unfoldable pub has_active_turn : String → Db → Bool
has_active_turn id db = any (λ row. row.0.0 == id && is_active row.1) db.turns

-- `_messages_for_turn`; the rows stand in the order of their sequence
unfoldable pub messages_for_turn : String → String → Db → List Message
messages_for_turn id turn_id db =
    filter (λ m. m.conversation_id == id && m.turn_id == turn_id) db.messages
