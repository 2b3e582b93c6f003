-- ===== src/History/Tests.antt =====
-- A conversation of one workspace, run step by step.
use raguardian.Prelude.{
  ◌+◌, String, ◌≡◌, refl, ap, Bool, true, false, Option, none, some, List, [], ◌∷◌, arith, text_eq,
  ◌==◌, filter, any, nat_eq, string_eq, option_eq, pair_eq,
}
use raguardian.Prelude.Results.{Result, ok, raised, Ensures}
use raguardian.Prelude.Texts.{text_length, truncate, code_bytes, utf8_bytes}
use raguardian.Clock.{seconds}
use raguardian.Dict.{
  total, keys_where, without, map_values, lookup, insert, update_at, erase, erase_all,
}
use raguardian.History.{
  Agent, Conversation, Message, Db, Limits, Error, turn_in_progress, integrity_error, empty,
  find_scope, get_turn_for_update, delete_conversation, delete_conversations, has_active_turn,
  messages_for_turn,
}
use raguardian.History.Cleanup.{
  lease_expired, has_expired, fail_lease, expire_leases, older_than, is_outdated, is_stale_turn,
  is_stub, scopes_of, scoped_turns, retain_conversations, retain_turns, retain_stubs,
  cleanup_expired_locked,
}
use raguardian.History.Turns.Held.{by_holder, mark_turn_ready, renew_turn_lease, fail_turn}
use raguardian.History.Turns.{
  Request, is_scope_kind, over_conversation_quota, new_conversation, get_or_create_conversation,
  associate_knowledge_bases, last_turn_of, assert_linear_parent, over_pending_quota, coalesce,
  claims_parent, parent_claimed, set_turn, take_lease, lease_lapsed, retry_failed, resume,
  handle_existing_turn, reserved, reserve, begin_in, is_malformed, begin_turn,
}
use raguardian.History.Commit.{
  Completion, Outcome, replayed, validate_json_field, content_too_long, max_sequence, history_bytes,
  turn_bytes, over_quota_on_first_commit, over_quota, derive_title, user_message, assistant_message,
  blocks_insert, select_knowledge_bases, repeats_new, upsert_knowledge_bases, close_turn, violates,
  commit_conversation, written, commit, complete_open, complete_row, complete_turn,
}
use raguardian.History.Chain.{IsChained, Reach-IsChained}
use raguardian.History.Steps.{after, Reach, created, begun, completed}
use raguardian.History.Quotas.{IsWithin, Reach-IsWithin}
use raguardian.History.Ledger.{owned, IsLedger}
use raguardian.History.Ledger.Reached.{Reach-IsLedger}
use raguardian.History.Leases.Replay.{complete_turn-replay}
use raguardian.History.Leases.Fence.{Leased, begin_turn-Leased}
use raguardian.History.Leases.Holder.{begin_turn-fences}
use raguardian.History.Retention.{cleanup-lookup}

abbrev agent : Agent
agent = record {
  agent_id = "a";
  agent_name = "A";
  provider_id = "p";
  model_id = "m";
  prompt_ref = "null";
  response_language = "auto";
}

abbrev limits : Limits
limits = record {
  max_conversations = 2;
  max_pending_turns = 3;
  max_messages_per_conversation = 4;
  max_conversation_bytes = 100;
  max_message_chars = 20;
  max_sources_bytes_per_turn = 50;
  max_metadata_bytes_per_turn = 50;
  max_history_bytes = 200;
  retention_days = 1;
  lease_seconds = 300;
  incomplete_turn_retention_days = 7;
}

abbrev request : String → Option String → String → Request
request turn_id parent token = record {
  client_conversation_id = "c";
  scope_key = "scope";
  scope_kind = "default";
  turn_id = turn_id;
  parent_turn_id = parent;
  request_fingerprint = "f";
  selected_knowledge_base_ids = "kb" ∷ [];
  agent = agent;
  new_id = "id";
  new_lease_token = token;
}

abbrev completion : String → String → Completion
completion turn_id token = record {
  scope_key = "scope";
  turn_id = turn_id;
  lease_token = token;
  request_fingerprint = "f";
  user_content = "hi";
  assistant_content = "hello";
  message_type = "text";
  selected_knowledge_base_ids = "kb" ∷ [];
  agent = agent;
  prompt_ref = some "null";
  sources = some "[]";
  metadata = some "{}";
}

abbrev begun_db : Db
begun_db = after (begin_turn limits 10 (request "t1" none "x") empty) empty

abbrev done : Result Error (Outcome × Db)
done = complete_turn (λ s. s) limits 20 (completion "t1" "x") begun_db

abbrev done_db : Db
done_db = after done begun_db

abbrev history : Reach (λ s. s) limits done_db
history =
    completed 20 (completion "t1" "x") begun_db (begun 10 (request "t1" none "x") empty created)

-- After the first turn is complete the next one is open.
abbrev next_db : Db
next_db = after (begin_turn limits 30 (request "t2" (some "t1") "y") done_db) done_db

Reach-IsChained_example : IsChained next_db
Reach-IsChained_example =
    Reach-IsChained (λ s. s) limits next_db
      (begun 30 (request "t2" (some "t1") "y") done_db history)

Reach-IsWithin_example : IsWithin limits done_db
Reach-IsWithin_example = Reach-IsWithin (λ s. s) limits done_db history

Reach-IsLedger_example : IsLedger done_db
Reach-IsLedger_example = Reach-IsLedger (λ s. s) limits done_db history

program : Unit {0}
unfolding text_eq text_length truncate code_bytes utf8_bytes filter any total keys_where without
    map_values lookup insert update_at erase erase_all find_scope get_turn_for_update
    delete_conversation delete_conversations has_active_turn messages_for_turn lease_expired
    has_expired fail_lease expire_leases older_than is_outdated is_stale_turn is_stub scopes_of
    scoped_turns retain_conversations retain_turns retain_stubs cleanup_expired_locked is_scope_kind
    over_conversation_quota new_conversation get_or_create_conversation associate_knowledge_bases
    last_turn_of assert_linear_parent over_pending_quota coalesce claims_parent parent_claimed
    set_turn take_lease lease_lapsed retry_failed resume handle_existing_turn reserved reserve
    begin_in is_malformed begin_turn by_holder fail_turn validate_json_field content_too_long
    max_sequence history_bytes turn_bytes over_quota_on_first_commit over_quota derive_title
    user_message assistant_message blocks_insert select_knowledge_bases repeats_new
    upsert_knowledge_bases close_turn commit_conversation written commit violates complete_open
    complete_row complete_turn
program = tt

-- What the clients see of a run: whether it returned.
abbrev returned : {A : Type 0} → Result Error A → Bool
returned (ok a) = true
returned (raised e) = false

abbrev messages : List Message
messages = messages_for_turn "id" "t1" done_db

complete_turn-replay_example :
    complete_turn (λ s. s) limits 30 (completion "t1" "y") done_db ≡ ok (replayed messages, done_db)
unfolding program
complete_turn-replay_example =
    complete_turn-replay (λ s. s) limits 20 30 (completion "t1" "x") "y" begun_db done_db 1 2 11
      "hi" messages (refl, tt) refl

abbrev first_conversation : Conversation
first_conversation = new_conversation 10 (request "t1" none "x")

begin_turn-Leased_example :
    (10 + seconds 300 ≡ 10 + seconds 300) × Leased limits 10 "scope" "t1" "x" begun_db
unfolding program
begin_turn-Leased_example =
    begin_turn-Leased limits 10 (request "t1" none "x") empty begun_db "x" (10 + seconds 300)
      first_conversation refl

begin_turn-fences_example :
    (staged : Db) × (mark_turn_ready 20 "scope" "t1" "x" "d" begun_db ≡ ok (true, staged))
    × (renewed : Db) × (renew_turn_lease limits 20 "scope" "t1" "x" begun_db ≡ ok (true, renewed))
    × (gone : Db) × (fail_turn 20 "scope" "t1" "x" begun_db ≡ ok (true, gone))
    × (mark_turn_ready 20 "scope" "t1" "y" "d" begun_db ≡ ok (false, begun_db))
    × (renew_turn_lease limits 20 "scope" "t1" "y" begun_db ≡ ok (false, begun_db))
    × (fail_turn 20 "scope" "t1" "y" begun_db ≡ ok (false, begun_db))
    × Ensures (λ _. ⊥) (complete_turn (λ s. s) limits 20 (completion "t1" "y") begun_db)
unfolding program
begin_turn-fences_example =
    begin_turn-fences (λ s. s) limits 10 20 (request "t1" none "x") empty begun_db "x"
      (10 + seconds 300) first_conversation (completion "t1" "y") "d" refl refl refl
      (λ h. let e : false ≡ true = ap (λ o. o == "y") h in absurd (ground (arith, e)))

-- A day and a second later the conversation goes.
cleanup-lookup_example :
    (lookup "id" (cleanup_expired_locked limits (seconds 86401 + 20) done_db).1.conversations
      ≡ none)
    × (owned "id" (cleanup_expired_locked limits (seconds 86401 + 20) done_db).1.messages ≡ [])
unfolding program
cleanup-lookup_example =
    cleanup-lookup limits (seconds 86401 + 20) done_db "id" _ (refl, tt) refl refl

-- The first turn fails, and another one with the same parent begins.
abbrev failed_db : Db
failed_db = after (fail_turn 20 "scope" "t1" "x" begun_db) begun_db

abbrev both_db : Db
both_db = after (begin_turn limits 30 (request "t2" none "y") failed_db) failed_db

-- A new turn with that parent is refused as in progress.
third_turn : begin_turn limits 40 (request "t3" none "z") both_db ≡ raised turn_in_progress
unfolding program
third_turn = refl

-- To begin the failed turn again violates the index, and the violation reaches the caller.
retry_escapes : begin_turn limits 40 (request "t1" none "z") both_db ≡ raised integrity_error
unfolding program
retry_escapes = refl
