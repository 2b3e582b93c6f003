-- ===== src/History/Turns.antt =====
-- The life of a turn up to its lease: reservation, replay, retry and resumption.
pub mod Held
use raguardian.Prelude.{
  ℕ, ◌+◌, String, Bool, false, not, ◌&&◌, ◌||◌, Option, none, some, List, [], ◌∷◌, ltb, leb,
  if◌then◌else◌, is_none, ◌==◌, length, filter, any, nat_eq, string_eq, option_eq, pair_eq,
}
use raguardian.Prelude.Results.{Result, ok, raised, ◌>>=◌, ◌>>◌, raise_if}
use raguardian.Prelude.Texts.{text_length}
use raguardian.Clock.{seconds}
use raguardian.Dict.{Dict, lookup, insert, update_at}
use raguardian.History.{
  Agent, Conversation, Status, generating, ready, complete, failed, Turn, Message, KbLink, Db,
  Limits, Error, history_error, turn_conflict, turn_in_progress, continuity, quota_exceeded,
  conversation_archived, integrity_error, Transaction, is_status, find_scope, messages_for_turn,
}
use raguardian.History.Cleanup.{cleanup_expired_locked}

-- The arguments of `begin_turn`, with the fresh id and lease token that it may use.
pub record Request : Type 0 where
  pub client_conversation_id : String
  pub scope_key : String
  pub scope_kind : String
  pub turn_id : String
  pub parent_turn_id : Option String
  pub request_fingerprint : String
  pub selected_knowledge_base_ids : List String
  pub agent : Agent
  pub new_id : String
  pub new_lease_token : String

pub data Reply : Type 0 where
  new_lease : String → ℕ → Reply
  replay_ready : Option String → Option String → Option ℕ → Reply
  replay_complete : List Message → Reply

unfoldable pub is_scope_kind : String → Bool
is_scope_kind kind = kind == "default" || kind == "kb" || kind == "multi"

-- `_enforce_conversation_quota_for_new_scope`: whether it raises.
unfoldable pub over_conversation_quota : Limits → String → Db → Bool
over_conversation_quota l scope_key db =
    ltb 0 l.max_conversations
    && is_none (find_scope scope_key db.conversations)
    && leb l.max_conversations (length (filter (λ row. ltb 0 row.1.message_count) db.conversations))

unfoldable pub new_conversation : ℕ → Request → Conversation
new_conversation now r = record {
  client_conversation_id = r.client_conversation_id;
  scope_key = r.scope_key;
  scope_kind = r.scope_kind;
  title = "";
  archived = false;
  agent = r.agent;
  summary = "";
  summary_version = 0;
  summary_through_sequence = 0;
  message_count = 0;
  payload_bytes = 0;
  last_turn_id = none;
  created_at = now;
  updated_at = now;
  archived_at = none;
}

-- `_get_or_create_conversation`; an id that is taken violates the primary key.
unfoldable pub get_or_create_conversation : ℕ → Request → Transaction (String × Conversation)
get_or_create_conversation now r db = elim (find_scope r.scope_key db.conversations) [
  | some (id, c) ↦ if c.archived then raised conversation_archived else ok ((id, c), db)
  | none ↦ elim (lookup r.new_id db.conversations) [
    | some _ ↦ raised integrity_error
    | none ↦ ok (
      (r.new_id, new_conversation now r),
      record db { conversations = insert r.new_id (new_conversation now r) db.conversations },
    )
  ]
]

-- `_associate_reservation_knowledge_bases`: INSERT OR IGNORE for each id
unfoldable pub associate_knowledge_bases :
    String → List String → ℕ → Dict (String × String) KbLink → Dict (String × String) KbLink
associate_knowledge_bases id [] now d = d
associate_knowledge_bases id (kb ∷ kbs) now d = associate_knowledge_bases id kbs now (
    if kb == "" then d else elim (lookup (id, kb) d) [
      | some _ ↦ d
      | none ↦
          insert (id, kb) (record { is_selected = false; first_used_at = now; last_used_at = now })
            d
    ])

-- `last_turn_id` of the conversation, `None` if there is none
unfoldable pub last_turn_of : String → Db → Option String
last_turn_of id db = elim (lookup id db.conversations) [ none ↦ none | some c ↦ c.last_turn_id ]

-- `_assert_linear_parent`
unfoldable pub assert_linear_parent : String → Option String → Db → Result Error (Unit {0})
assert_linear_parent id parent db =
    let expected = last_turn_of id db in
    if expected == parent then ok tt else raised (continuity expected)

-- `_enforce_pending_quota`: whether it raises.
unfoldable pub over_pending_quota : Limits → Db → Bool
over_pending_quota l db =
    ltb 0 l.max_pending_turns
    && leb l.max_pending_turns
        (length (filter (λ row. not (is_status row.1.status complete)) db.turns))

-- `COALESCE(parent_turn_id, '')`
unfoldable pub coalesce : Option String → String
coalesce none = ""
coalesce (some s) = s

-- A row that the unique index `idx_turn_requests_linear_parent` lets stand in the way of another.
unfoldable pub claims_parent : String × String → Option String → (String × String) × Turn → Bool
claims_parent k parent row =
    row.0.0 == k.0
    && not (row.0.1 == k.1)
    && not (is_status row.1.status failed)
    && coalesce row.1.parent_turn_id == coalesce parent

unfoldable pub parent_claimed : String × String → Option String → Db → Bool
parent_claimed k parent db = any (claims_parent k parent) db.turns

unfoldable pub set_turn : String × String → (Turn → Turn) → Db → Db
set_turn k f db = record db { turns = update_at k f db.turns }

unfoldable pub take_lease : String → ℕ → ℕ → Turn → Turn
take_lease token expires now t = record t {
  status = generating;
  lease_token = some token;
  lease_expires_at = some expires;
  updated_at = now;
}

-- `existing["lease_expires_at"] and existing["lease_expires_at"] < now`
unfoldable pub lease_lapsed : ℕ → Turn → Bool
lease_lapsed now t = elim t.lease_expires_at [ none ↦ false | some e ↦ not (e == 0) && ltb e now ]

-- The UPDATE that makes a failed turn generate again, which the unique index may refuse.
unfoldable pub retry_failed : Limits → ℕ → String → String × String → Turn → Transaction Reply
retry_failed l now token k t db =
    assert_linear_parent k.0 t.parent_turn_id db
    >> (raise_if (parent_claimed k t.parent_turn_id db) integrity_error
        >> ok (
          new_lease token (now + seconds l.lease_seconds),
          set_turn k (take_lease token (now + seconds l.lease_seconds) now) db,
        ))

-- `_handle_existing_turn`, after the test of the fingerprint
unfoldable pub resume : Limits → ℕ → String → String × String → Turn → Status → Transaction Reply
resume l now token k t complete db = ok (replay_complete (messages_for_turn k.0 k.1 db), db)
resume l now token k t ready db =
    ok (replay_ready t.result_digest t.lease_token t.lease_expires_at, db)
resume l now token k t failed db = retry_failed l now token k t db
resume l now token k t generating db =
    if lease_lapsed now t
    then ok (
      new_lease token (now + seconds l.lease_seconds),
      set_turn k
          (λ t. record t {
            lease_token = some token;
            lease_expires_at = some (now + seconds l.lease_seconds);
            updated_at = now;
          })
          db,
    )
    else raised turn_in_progress

unfoldable pub handle_existing_turn :
    Limits → ℕ → Request → String × String → Turn → Transaction Reply
handle_existing_turn l now r k t db =
    raise_if (not (t.request_fingerprint == r.request_fingerprint)) turn_conflict
    >> resume l now r.new_lease_token k t t.status db

-- The row of a reservation.
unfoldable pub reserved : Limits → ℕ → Request → Turn
reserved l now r = record {
  parent_turn_id = r.parent_turn_id;
  request_fingerprint = r.request_fingerprint;
  status = generating;
  result_digest = none;
  lease_token = some r.new_lease_token;
  lease_expires_at = some (now + seconds l.lease_seconds);
  created_at = now;
  updated_at = now;
}

-- The INSERT of a reservation; a violation of the index is turned into `TurnInProgressError`.
unfoldable pub reserve : Limits → ℕ → Request → String → Transaction Reply
reserve l now r id db =
    assert_linear_parent id r.parent_turn_id db
    >> (raise_if (over_pending_quota l db) quota_exceeded
        >> (raise_if (parent_claimed (id, r.turn_id) r.parent_turn_id db) turn_in_progress
            >> ok (
              new_lease r.new_lease_token (now + seconds l.lease_seconds),
              record db { turns = insert (id, r.turn_id) (reserved l now r) db.turns },
            )))

-- What follows in `begin_turn` once the conversation is there.
unfoldable pub begin_in : Limits → ℕ → Request → String → Transaction Reply
begin_in l now r id db =
    let db' = record db {
      knowledge_bases =
          associate_knowledge_bases id r.selected_knowledge_base_ids now db.knowledge_bases;
    } in
    elim (lookup (id, r.turn_id) db'.turns) [
      | some t ↦ handle_existing_turn l now r (id, r.turn_id) t db'
      | none ↦ reserve l now r id db'
    ]

-- The tests on the arguments: whether one raises.
unfoldable pub is_malformed : Request → Bool
is_malformed r =
    not (is_scope_kind r.scope_kind)
    || r.turn_id == ""
    || ltb 80 (text_length r.turn_id)
    || r.request_fingerprint == ""
    || ltb 64 (text_length r.request_fingerprint)

-- `begin_turn`, with the conversation that it adds to the reply
unfoldable pub begin_turn : Limits → ℕ → Request → Transaction (Reply × Conversation)
begin_turn l now r db =
    raise_if (is_malformed r) history_error
    >> (let db1 = (cleanup_expired_locked l now db).1 in
        raise_if (over_conversation_quota l r.scope_key db1) quota_exceeded
        >> (get_or_create_conversation now r db1 >>= λ created.
            begin_in l now r created.0.0 created.1 >>= λ begun.
            ok ((begun.0, created.0.1), begun.1)))
