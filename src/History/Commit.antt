-- ===== src/History/Commit.antt =====
-- `complete_turn`: the commit of a turn's two messages. `json.dumps(value)` is an argument, `none`
-- where it raises, and so is `" ".join(text.split())`.
use raguardian.Prelude.{
  ℕ, ◌+◌, max, String, Bool, true, false, not, ◌&&◌, ◌||◌, Option, none, some, List, [], ◌∷◌, ◌++◌,
  ltb, leb, if◌then◌else◌, is_none, ◌==◌, length, filter, any, nat_eq, string_eq, option_eq,
  pair_eq,
}
use raguardian.Prelude.Results.{Result, ok, raised, ◌>>=◌, ◌>>◌, raise_if}
use raguardian.Prelude.Texts.{text_length, truncate, utf8_bytes}
use raguardian.Dict.{Dict, total, map_values, lookup, insert, update_at}
use raguardian.History.{
  Agent, Conversation, complete, Turn, user, assistant, Message, KbLink, Db, Limits, Error,
  history_error, turn_conflict, quota_exceeded, conversation_not_found, integrity_error,
  Transaction, is_status, get_turn_for_update, messages_for_turn,
}

pub record Completion : Type 0 where
  pub scope_key : String
  pub turn_id : String
  pub lease_token : String
  pub request_fingerprint : String
  pub user_content : String
  pub assistant_content : String
  pub message_type : String
  pub selected_knowledge_base_ids : List String
  pub agent : Agent
  pub prompt_ref : Option String
  pub sources : Option String
  pub metadata : Option String

pub data Outcome : Type 0 where
  replayed : List Message → Outcome
  committed :
      (user_sequence message_count payload_bytes : ℕ) (title : String) (messages : List Message)
      → Outcome

-- `_validate_json_field`, on the encoded value
unfoldable pub validate_json_field : Option String → ℕ → Result Error String
validate_json_field none max_bytes = raised history_error
validate_json_field (some encoded) max_bytes =
    if ltb max_bytes (utf8_bytes encoded) then raised history_error else ok encoded

-- `_validate_message_content`: whether it raises.
unfoldable pub content_too_long : Limits → Completion → Bool
content_too_long l c =
    ltb l.max_message_chars (text_length c.user_content)
    || ltb l.max_message_chars (text_length c.assistant_content)

-- `COALESCE(MAX(sequence), 0)` of a conversation
unfoldable pub max_sequence : String → List Message → ℕ
max_sequence id [] = 0
max_sequence id (m ∷ ms) =
    let rest = max_sequence id ms in if m.conversation_id == id then max m.sequence rest else rest

-- `SUM(payload_bytes)` of the conversations
unfoldable pub history_bytes : Db → ℕ
history_bytes db = total (λ (c : Conversation). c.payload_bytes) db.conversations

unfoldable pub turn_bytes : Completion → String → String → ℕ
turn_bytes c sources metadata =
    utf8_bytes c.user_content
    + utf8_bytes c.assistant_content
    + utf8_bytes sources
    + utf8_bytes metadata

-- `_enforce_conversation_quota_on_first_commit`: whether it raises.
unfoldable pub over_quota_on_first_commit : Limits → String → Conversation → Db → Bool
over_quota_on_first_commit l id conv db =
    ltb 0 l.max_conversations
    && conv.message_count == 0
    && leb l.max_conversations
        (length (filter (λ row. ltb 0 row.1.message_count && not (row.0 == id)) db.conversations))

-- The four quotas: whether one raises.
unfoldable pub over_quota : Limits → String → Conversation → ℕ → Db → Bool
over_quota l id conv bytes db =
    over_quota_on_first_commit l id conv db
    || ltb l.max_messages_per_conversation (conv.message_count + 2)
    || ltb l.max_conversation_bytes (conv.payload_bytes + bytes)
    || ltb l.max_history_bytes (history_bytes db + bytes)

-- `_derive_title`
unfoldable pub derive_title : (String → String) → String → String → String
derive_title collapse current content =
    if current == "" then truncate 80 (collapse content) else current

unfoldable pub user_message : ℕ → String → Completion → ℕ → Message
user_message now id c sequence = record {
  conversation_id = id;
  turn_id = c.turn_id;
  role = user;
  message_type = "text";
  content = c.user_content;
  sequence = sequence;
  sources = "[]";
  metadata = "{}";
  payload_bytes = utf8_bytes c.user_content;
  created_at = now;
}

unfoldable pub assistant_message : ℕ → String → Completion → String → String → ℕ → Message
assistant_message now id c sources metadata sequence = record {
  conversation_id = id;
  turn_id = c.turn_id;
  role = assistant;
  message_type = c.message_type;
  content = c.assistant_content;
  sequence = sequence;
  sources = sources;
  metadata = metadata;
  payload_bytes = utf8_bytes c.assistant_content + utf8_bytes sources + utf8_bytes metadata;
  created_at = now;
}

-- A row that the two unique constraints of `messages` let stand in the way of the inserts.
unfoldable pub blocks_insert : String → String → ℕ → Message → Bool
blocks_insert id turn_id sequence m =
    m.conversation_id == id
    && (m.turn_id == turn_id || m.sequence == sequence || m.sequence == sequence + 1)

-- The loop of `_upsert_knowledge_bases` over the ids; `existing` is read before it.
unfoldable pub select_knowledge_bases :
    String → List String → ℕ → Dict (String × String) KbLink → Dict (String × String) KbLink
select_knowledge_bases id [] now d = d
select_knowledge_bases id (kb ∷ kbs) now d = select_knowledge_bases id kbs now (
    if kb == "" then d else elim (lookup (id, kb) d) [
      | some link ↦ insert (id, kb) (record link { is_selected = true; last_used_at = now }) d
      | none ↦
          insert (id, kb) (record { is_selected = true; first_used_at = now; last_used_at = now }) d
    ])

-- A new id that is listed twice is inserted twice, which violates the primary key.
unfoldable pub repeats_new : String → List String → Dict (String × String) KbLink → Bool
repeats_new id [] d = false
repeats_new id (kb ∷ kbs) d =
    not (kb == "") && is_none (lookup (id, kb) d) && any (λ k. k == kb) kbs || repeats_new id kbs d

unfoldable pub upsert_knowledge_bases :
    String → List String → ℕ → Dict (String × String) KbLink → Dict (String × String) KbLink
upsert_knowledge_bases id kbs now d =
    map_values
      (λ k link.
        if k.0 == id && not (any (λ kb. kb == k.1) kbs)
        then record link { is_selected = false }
        else link)
      (select_knowledge_bases id kbs now d)

unfoldable pub close_turn : ℕ → Turn → Turn
close_turn now t = record t {
  status = complete;
  lease_token = none;
  lease_expires_at = none;
  updated_at = now;
}

-- Whether an insert of a commit violates a constraint of its table.
unfoldable pub violates : String → Completion → Db → Bool
violates id c db =
    any (blocks_insert id c.turn_id (max_sequence id db.messages + 1)) db.messages
    || repeats_new id c.selected_knowledge_base_ids db.knowledge_bases

module _ (collapse : String → String) where
  unfoldable pub commit_conversation : ℕ → Completion → String → ℕ → Conversation → Conversation
  commit_conversation now c prompt_ref bytes conv = record conv {
    title = derive_title collapse conv.title c.user_content;
    agent = record c.agent { prompt_ref = prompt_ref };
    message_count = conv.message_count + 2;
    payload_bytes = conv.payload_bytes + bytes;
    last_turn_id = some c.turn_id;
    updated_at = now;
  }

  -- The tables after the writes of a commit.
  unfoldable pub written :
      ℕ → Completion → String → String → String → String → Conversation → Db → Db
  written now c sources metadata prompt_ref id conv db =
      let next = max_sequence id db.messages + 1 in
      record {
        conversations =
            insert id (commit_conversation now c prompt_ref (turn_bytes c sources metadata) conv)
              db.conversations;
        knowledge_bases =
            upsert_knowledge_bases id c.selected_knowledge_base_ids now db.knowledge_bases;
        turns = update_at (id, c.turn_id) (close_turn now) db.turns;
        messages =
            db.messages
            ++ user_message now id c next
              ∷ assistant_message now id c sources metadata (next + 1)
              ∷ [];
      }

  -- The writes of a commit and their answer.
  unfoldable pub commit :
      ℕ → Completion → String → String → String → String → Conversation → Transaction Outcome
  commit now c sources metadata prompt_ref id conv db =
      let bytes = turn_bytes c sources metadata in
      let conv' = commit_conversation now c prompt_ref bytes conv in
      let db' = written now c sources metadata prompt_ref id conv db in
      raise_if (violates id c db) integrity_error
      >> ok (
        committed (max_sequence id db.messages + 1) conv'.message_count conv'.payload_bytes
            conv'.title (messages_for_turn id c.turn_id db'),
        db',
      )

  -- The part of `complete_turn` under the row of an open turn.
  unfoldable pub complete_open :
      Limits
      → ℕ
      → Completion
      → String
      → String
      → String
      → String × String
      → Turn
      → Transaction Outcome
  complete_open l now c sources metadata prompt_ref k t db =
      raise_if (not (t.lease_token == some c.lease_token)) turn_conflict
      >> (raise_if (not (t.request_fingerprint == c.request_fingerprint)) turn_conflict
          >> elim (lookup k.0 db.conversations) [
            | none ↦ raised conversation_not_found
            | some conv ↦
                raise_if (over_quota l k.0 conv (turn_bytes c sources metadata) db) quota_exceeded
                >> commit now c sources metadata prompt_ref k.0 conv db
          ])

  -- What follows the tests on the arguments.
  unfoldable pub complete_row :
      Limits → ℕ → Completion → String → String → String → Transaction Outcome
  complete_row l now c sources metadata prompt_ref db =
      elim (get_turn_for_update c.scope_key c.turn_id db) [
        | none ↦ raised conversation_not_found
        | some (k, t) ↦
            if is_status t.status complete
            then ok (replayed (messages_for_turn k.0 c.turn_id db), db)
            else complete_open l now c sources metadata prompt_ref k t db
      ]

  unfoldable pub complete_turn : Limits → ℕ → Completion → Transaction Outcome
  complete_turn l now c db =
      raise_if (content_too_long l c) history_error
      >> (validate_json_field c.sources l.max_sources_bytes_per_turn >>= λ sources.
          validate_json_field c.metadata l.max_metadata_bytes_per_turn >>= λ metadata.
          validate_json_field c.prompt_ref 65536 >>= λ prompt_ref.
          complete_row l now c sources metadata prompt_ref db)
