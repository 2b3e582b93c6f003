-- ===== src/History/Effects.antt =====
-- What the calls do to the conversations, the messages and the number of unfinished turns: the steps
-- of which every call is made.
pub mod Calls
pub mod Reserves
pub mod Commits
pub mod Reached
use raguardian.Prelude.{
  ℕ, ◌≤◌, max, String, ◌≡◌, true, false, none, some, ltb, if◌then◌else◌, nat_eq, string_eq,
  option_eq, pair_eq,
}
use raguardian.Dict.{Dict, total, lookup, insert}
use raguardian.History.{
  Conversation, complete, Turn, KbLink, Db, Limits, is_status, delete_conversation,
}
use raguardian.History.Commit.{Completion, turn_bytes, over_quota, violates, written}

-- The number of turns that are not complete.
abbrev pub unfinished : Turn → ℕ
unfinished t = if is_status t.status complete then 0 else 1

abbrev pub pending : Dict (String × String) Turn → ℕ
pending ts = total unfinished ts

pub data Effect (collapse : String → String) (l : Limits) : Db → Db → Type 0 where
  stays : (db : Db) → Effect collapse l db db
  drops : (id : String) (db : Db) → Effect collapse l db (delete_conversation id db)
  turned :
      (kbs : Dict (String × String) KbLink) (ts : Dict (String × String) Turn) (db : Db)
      → (ltb 0 l.max_pending_turns ≡ true → pending ts ≤ max (pending db.turns) l.max_pending_turns)
      → Effect collapse l db (record db { knowledge_bases = kbs; turns = ts })
  opened :
      (id : String) (c : Conversation) (db : Db)
      → lookup id db.conversations ≡ none
      → c.message_count ≡ 0
      → c.payload_bytes ≡ 0
      → c.last_turn_id ≡ none
      → Effect collapse l db (record db { conversations = insert id c db.conversations })
  changed :
      (id : String) (c c' : Conversation) (db : Db)
      → lookup id db.conversations ≡ some c
      → c'.message_count ≡ c.message_count
      → c'.payload_bytes ≡ c.payload_bytes
      → c'.last_turn_id ≡ c.last_turn_id
      → Effect collapse l db (record db { conversations = insert id c' db.conversations })
  commits :
      (now : ℕ) (c : Completion) (sources metadata prompt_ref id : String) (conv : Conversation)
      (db : Db)
      → lookup id db.conversations ≡ some conv
      → over_quota l id conv (turn_bytes c sources metadata) db ≡ false
      → violates id c db ≡ false
      → Effect collapse l db (written collapse now c sources metadata prompt_ref id conv db)
  both : {a b c : Db} → Effect collapse l a b → Effect collapse l b c → Effect collapse l a c
