-- ===== src/Users/Tests.antt =====
-- Two accounts and their keys, with a toy hash.
use raguardian.Prelude.{
  ◌<◌, ◌≡◌, refl, true, false, none, some, [], ◌∷◌, arith, text_eq, ◌==◌, length, filter, any,
  nat_eq, string_eq, option_eq, pair_eq,
}
use raguardian.Prelude.Texts.{text_length, truncate, drop_text, code_at}
use raguardian.Dict.{without, map_values, lookup, insert, update_at, erase}
use raguardian.Users.{
  Builtins, User, ApiKey, Accounts, no_accounts, find_row, is_deleting, set_user, touch, delete_row,
  insert_user, Patch, is_role, or_else, mark_row, mark_deleting, end_deletion, asks_enabled,
  update_user_read, normalize_email, user_record, create_user, patched_user, update_user_write,
  update_user, authenticate,
}
use raguardian.Users.Keys.{
  is_in, requires_kb, lacks_kb, named, set_key, write_key, change_key, toggled_key,
  toggle_api_key_enabled, drop_key, last_four, scopes_of_row, is_day, user_enabled, add_scope,
  add_scopes, normalize_api_scopes, new_key, insert_key, create_api_key, parse_expiration,
  is_expired, find_api_key_by_value,
}
use raguardian.Users.Keys.Removal.{
  uses, is_useless, stripped, originals, strip_keys, remove_phase, restore_keys, restore,
  finalize_failed, remove_knowledge_base_from_api_keys,
}
use raguardian.Users.Removed.{finalize_failed-restores}
use raguardian.Users.Changes.{IsSound}
use raguardian.Users.Steps.{after, Reach, start, created, patched, marked, key_created}
use raguardian.Users.Steps.Invariant.{Reach-IsSound}
use raguardian.Users.Access.{is_let_in, locked_out, create_api_key-find}
use raguardian.Users.Scopes.{Unique, Known, normalize_api_scopes-Known}

abbrev py : Builtins
py = record {
  strip = λ s. s;
  lower = λ s. s;
  generate_password_hash = λ s. s;
  check_password_hash = λ h p. h == p;
  sha256 = λ s. s;
  end_of_day = λ s. none;
  fromisoformat = λ s. none;
}

abbrev ann : Accounts
ann = after (create_user py "now" "ann" "a@x" "pw" "Ann" "user" true no_accounts) no_accounts

abbrev with_key : Accounts
with_key =
    after
      (create_api_key py "now" "k1" "ann" "key" ("query" ∷ []) ("default" ∷ []) "secret" true ""
        none true ann)
      ann

abbrev ann_deleting : Accounts
ann_deleting = (mark_deleting "later" "ann" with_key).1

abbrev history : Reach py false with_key
history =
    key_created "now" "k1" "ann" "key" ("query" ∷ []) ("default" ∷ []) "secret" true "" none true
      ann (created "now" "ann" "a@x" "pw" "Ann" "user" true no_accounts start)

Reach-IsSound_example : IsSound false with_key
Reach-IsSound_example = Reach-IsSound py false with_key history

program : Unit {0}
unfolding text_eq text_length truncate drop_text code_at filter any without map_values lookup insert
    update_at erase find_row is_deleting set_user touch delete_row insert_user is_role or_else
    mark_deleting end_deletion normalize_email user_record create_user authenticate is_in
    requires_kb lacks_kb named set_key change_key toggle_api_key_enabled last_four add_scope
    add_scopes normalize_api_scopes new_key insert_key create_api_key scopes_of_row parse_expiration
    is_expired is_day user_enabled find_api_key_by_value uses is_useless stripped originals
    strip_keys remove_phase restore_keys restore remove_knowledge_base_from_api_keys patched_user
    update_user mark_row update_user_write update_user_read asks_enabled write_key toggled_key
    drop_key
program = tt

abbrev deleting_user : User
deleting_user = record {
  email = "a@x";
  display_name = "Ann";
  password_hash = "pw";
  role = "user";
  enabled = false;
  created_at = "now";
  updated_at = "later";
  deletion_status = "deleting";
  deletion_error = "";
}

locked_out_example :
    ((authenticate py "a@x" "pw" ann_deleting == some "ann") ≡ false)
    × (is_let_in py 0 "secret" "ann" ann_deleting ≡ false)
unfolding program
locked_out_example =
    locked_out py ann_deleting "ann" deleting_user "a@x" "pw" "secret" 0
      (marked "later" "ann" with_key history) refl refl

-- Before the deletion both let in.
let_in_before :
    (authenticate py "a@x" "pw" with_key ≡ some "ann")
    × (is_let_in py 0 "secret" "ann" with_key ≡ true)
unfolding program
let_in_before = (refl, refl)

abbrev ann_user : User
ann_user = record deleting_user { enabled = true; updated_at = "now"; deletion_status = "" }

abbrev key : ApiKey
key = new_key py "now" "ann" "key" ("query" ∷ []) ("default" ∷ []) "secret" true "" none

create_api_key-find_example : find_api_key_by_value py 0 "secret" with_key ≡ some ("k1", key)
unfolding program
create_api_key-find_example =
    create_api_key-find py "now" "k1" "ann" "key" ("query" ∷ []) ("default" ∷ []) "secret" "" none
      true 0 ann_user key ann with_key refl refl refl refl refl refl

abbrev without_default : Accounts
without_default = after (remove_phase "later" "ann" "default" true with_key) with_key

-- An `update_user` that read the account before its deletion began enables it afterwards, and the
-- account lets in while its deletion is under way.
abbrev enabling : Patch
enabling = record { display_name = none; role = none; enabled = some true; password = none }

abbrev ann_enabled : Accounts
ann_enabled = update_user_write py "then" "ann" enabling ann_user ann_deleting

enabled_late : Reach py true ann_enabled
unfolding program
enabled_late =
    patched "then" "ann" enabling ann_user ann ann_deleting
      (created "now" "ann" "a@x" "pw" "Ann" "user" true no_accounts start) refl
      (λ on_time. absurd (ground (arith, on_time)))
      (marked "later" "ann" with_key (
        key_created "now" "k1" "ann" "key" ("query" ∷ []) ("default" ∷ []) "secret" true "" none
          true ann (created "now" "ann" "a@x" "pw" "Ann" "user" true no_accounts start)))

let_in_deleting :
    (authenticate py "a@x" "pw" ann_enabled ≡ some "ann")
    × (is_let_in py 0 "secret" "ann" ann_enabled ≡ true)
unfolding program
let_in_deleting = (refl, refl)

-- A key for the management of knowledge bases stays enabled without any, a key for speech does not.
left_without_base :
    ((stripped "default" (record key { scopes = "kb_manage" ∷ [] })).enabled ≡ true)
    × ((stripped "default" (record key { scopes = "speech" ∷ [] })).enabled ≡ false)
unfolding program
left_without_base = (refl, refl)

finalize_failed-restores_example :
    lookup "k1"
      (remove_knowledge_base_from_api_keys "later" "ann" "default" true finalize_failed
        with_key).1.api_keys
    ≡ lookup "k1" with_key.api_keys
unfolding program
finalize_failed-restores_example =
    finalize_failed-restores "later" "ann" "default" true with_key "k1" (refl, tt)

normalize_api_scopes-Known_example :
    (0 < length (normalize_api_scopes py ("ingest" ∷ "root" ∷ "ingest" ∷ [])))
    × Unique (normalize_api_scopes py ("ingest" ∷ "root" ∷ "ingest" ∷ []))
    × Known (normalize_api_scopes py ("ingest" ∷ "root" ∷ "ingest" ∷ []))
normalize_api_scopes-Known_example =
    normalize_api_scopes-Known py ("ingest" ∷ "root" ∷ "ingest" ∷ [])

-- The key that was disabled for having no knowledge base is enabled again by a toggle, and lets in.
toggled_back :
    is_let_in py 0 "secret" "ann" (toggle_api_key_enabled "then" "ann" "key" none without_default).1
    ≡ true
unfolding program
toggled_back = refl
