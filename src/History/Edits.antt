-- ===== src/History/Edits.antt =====
-- Renaming, archiving, summaries, deletion and the view of the quotas.
use raguardian.Prelude.{
  ℕ, ◌+◌, String, Bool, true, false, not, ◌&&◌, ◌||◌, Option, none, some, List, [], ◌∷◌, ltb, leb,
  if◌then◌else◌, ◌==◌, length, filter, nat_eq, string_eq, option_eq, pair_eq,
}
use raguardian.Prelude.Results.{ok, raised, ◌>>◌, raise_if}
use raguardian.Prelude.Texts.{text_length}
use raguardian.Dict.{Dict, lookup, insert, update_at}
use raguardian.History.{
  Conversation, KbLink, Db, Limits, history_error, turn_in_progress, conversation_not_found,
  Transaction, is_active, find_scope, delete_conversation, delete_conversations, has_active_turn,
}
use raguardian.History.Cleanup.{cleanup_expired_locked}
use raguardian.History.Commit.{history_bytes}

-- The test on `str(title).strip()`: whether it raises.
unfoldable pub bad_title : Option String → Bool
bad_title none = false
bad_title (some title) = title == "" || ltb 120 (text_length title)

unfoldable pub edited : ℕ → Option String → Option Bool → Conversation → Conversation
edited now title archived c = record c {
  title = elim title [ none ↦ c.title | some t ↦ t ];
  archived = elim archived [ none ↦ c.archived | some a ↦ a ];
  archived_at = elim archived [ none ↦ c.archived_at | some a ↦ if a then some now else none ];
  updated_at = now;
}

-- `update_conversation`; the title has been stripped
unfoldable pub update_conversation :
    ℕ → String → Option String → Option Bool → Transaction Conversation
update_conversation now id title archived db =
    raise_if (bad_title title) history_error >> elim (lookup id db.conversations) [
      | none ↦ raised conversation_not_found
      | some c ↦
          raise_if (elim archived [ none ↦ false | some a ↦ a ] && has_active_turn id db)
            turn_in_progress
          >> ok (
            edited now title archived c,
            record db { conversations = insert id (edited now title archived c) db.conversations },
          )
    ]

unfoldable pub summarised : ℕ → String → ℕ → ℕ → Conversation → Conversation
summarised now summary expected_version through_sequence c = record c {
  summary = summary;
  summary_version = expected_version + 1;
  summary_through_sequence = through_sequence;
  updated_at = now;
}

unfoldable pub update_summary : ℕ → String → String → ℕ → ℕ → Transaction Bool
update_summary now scope_key summary expected_version through_sequence db =
    elim (find_scope scope_key db.conversations) [
      | none ↦ ok (false, db)
      | some (id, c) ↦
          if not (c.summary_version == expected_version)
            || leb through_sequence c.summary_through_sequence
          then ok (false, db)
          else ok (
            true,
            record db {
              conversations =
                  update_at id (summarised now summary expected_version through_sequence)
                    db.conversations;
            },
          )
    ]

unfoldable pub delete : String → Transaction Bool
delete id db = elim (lookup id db.conversations) [
  | none ↦ ok (false, db)
  | some _ ↦ ok (true, delete_conversation id db)
]

-- The conversations of a knowledge base.
unfoldable pub conversations_of : String → Dict (String × String) KbLink → List String
conversations_of kb [] = []
conversations_of kb ((k, link) ∷ d) =
    let rest = conversations_of kb d in if k.1 == kb then k.0 ∷ rest else rest

unfoldable pub delete_by_knowledge_base : String → Transaction ℕ
delete_by_knowledge_base kb db =
    let ids = conversations_of kb db.knowledge_bases in ok (length ids, delete_conversations ids db)

pub record QuotaStatus : Type 0 where
  pub conversations : ℕ
  pub bytes : ℕ
  pub pending_turns : ℕ

-- `quota_status`, without the limits that it repeats
unfoldable pub quota_status : Limits → ℕ → Db → QuotaStatus × Db
quota_status l now db =
    let db' = (cleanup_expired_locked l now db).1 in
    (
      record {
        conversations = length (filter (λ row. ltb 0 row.1.message_count) db'.conversations);
        bytes = history_bytes db';
        pending_turns = length (filter (λ row. is_active row.1) db'.turns);
      },
      db',
    )
