-- ===== src/History/Cleanup.antt =====
-- `_cleanup_expired_locked`: leases that expired, and the retention of old rows.
use raguardian.Prelude.{
  ℕ, ◌+◌, ◌*◌, String, Bool, false, not, ◌&&◌, ◌||◌, none, some, List, [], ◌∷◌, ◌++◌, ltb,
  if◌then◌else◌, ◌==◌, length, any, nat_eq, string_eq, option_eq, pair_eq,
}
use raguardian.Prelude.Results.{ok}
use raguardian.Clock.{seconds}
use raguardian.Dict.{Dict, keys_where, map_values, lookup, erase_all}
use raguardian.History.{
  Conversation, generating, ready, failed, Turn, Db, Limits, Transaction, is_status,
  delete_conversations, has_active_turn,
}

pub record Report : Type 0 where
  pub conversations_deleted : ℕ
  pub turns_deleted : ℕ
  pub expired_leases_failed : ℕ
  pub deleted_scope_keys : List String
  pub deleted_turns : List (String × String)

abbrev pub days : ℕ → ℕ
days n = seconds (n * 86400)

-- `lease_expires_at IS NOT NULL AND lease_expires_at < ?`
unfoldable pub lease_expired : ℕ → Turn → Bool
lease_expired now t = elim t.lease_expires_at [ none ↦ false | some e ↦ ltb e now ]

unfoldable pub has_expired : ℕ → Turn → Bool
has_expired now t = is_status t.status generating && lease_expired now t

unfoldable pub fail_lease : Turn → Turn
fail_lease t = record t { status = failed; lease_token = none; lease_expires_at = none }

-- The first UPDATE.
unfoldable pub expire_leases : ℕ → Db → Db
expire_leases now db = record db {
  turns = map_values (λ _ t. if has_expired now t then fail_lease t else t) db.turns;
}

-- `updated_at < now - days * 86400`
unfoldable pub older_than : ℕ → ℕ → ℕ → Bool
older_than n now updated_at = ltb (updated_at + days n) now

-- The rows of the first SELECT.
unfoldable pub is_outdated : ℕ → ℕ → Db → String → Conversation → Bool
is_outdated retention now db id c =
    not c.archived
    && ltb 0 c.message_count
    && older_than retention now c.updated_at
    && not (has_active_turn id db)

-- Those of the second, joined with their conversation.
unfoldable pub is_stale_turn : ℕ → ℕ → Db → String × String → Turn → Bool
is_stale_turn retention now db k t =
    (is_status t.status ready || is_status t.status failed)
    && older_than retention now t.updated_at
    && any (λ row. row.0 == k.0) db.conversations

-- Those of the third.
unfoldable pub is_stub : ℕ → ℕ → Db → String → Conversation → Bool
is_stub retention now db id c =
    c.message_count == 0
    && older_than retention now c.updated_at
    && not (any (λ row. row.0.0 == id) db.turns)

-- The scope keys of some conversations.
unfoldable pub scopes_of : List String → Dict String Conversation → List String
scopes_of [] d = []
scopes_of (id ∷ ids) d =
    let rest = scopes_of ids d in elim (lookup id d) [ none ↦ rest | some c ↦ c.scope_key ∷ rest ]

unfoldable pub scoped_turns :
    List (String × String) → Dict String Conversation → List (String × String)
scoped_turns [] d = []
scoped_turns (k ∷ ks) d =
    let rest = scoped_turns ks d in
    elim (lookup k.0 d) [ none ↦ rest | some c ↦ (c.scope_key, k.1) ∷ rest ]

unfoldable pub retain_conversations : ℕ → ℕ → Db → List String × Db
retain_conversations retention now db =
    if ltb 0 retention
    then (let ids = keys_where (is_outdated retention now db) db.conversations in
        (scopes_of ids db.conversations, delete_conversations ids db))
    else ([], db)

unfoldable pub retain_turns : ℕ → ℕ → Db → List (String × String) × Db
retain_turns retention now db =
    if ltb 0 retention
    then (let ks = keys_where (is_stale_turn retention now db) db.turns in
        (scoped_turns ks db.conversations, record db { turns = erase_all ks db.turns }))
    else ([], db)

unfoldable pub retain_stubs : ℕ → ℕ → Db → List String × Db
retain_stubs retention now db =
    if ltb 0 retention
    then (let ids = keys_where (is_stub retention now db) db.conversations in
        (scopes_of ids db.conversations, delete_conversations ids db))
    else ([], db)

unfoldable pub cleanup_expired_locked : Limits → ℕ → Db → Report × Db
cleanup_expired_locked l now db =
    let expired = keys_where (λ _ t. has_expired now t) db.turns in
    let (scopes, db1) = retain_conversations l.retention_days now (expire_leases now db) in
    let (turns, db2) = retain_turns l.incomplete_turn_retention_days now db1 in
    let (stubs, db3) = retain_stubs l.incomplete_turn_retention_days now db2 in
    (
      record {
        conversations_deleted = length scopes + length stubs;
        turns_deleted = length turns;
        expired_leases_failed = length expired;
        deleted_scope_keys = scopes ++ stubs;
        deleted_turns = turns;
      },
      db3,
    )

-- `cleanup_expired`
unfoldable pub cleanup_expired : Limits → ℕ → Transaction Report
cleanup_expired l now db = ok (cleanup_expired_locked l now db)
