-- ===== src/History/Retention.antt =====
-- What the retention of the history deletes.
use raguardian.Prelude.{
  ℕ, ◌+◌, ◌*◌, String, ◌≡◌, refl, ap, ◌∙◌, inl, inr, Bool, true, false, not, ◌&&◌, none, some, List,
  [], ◌∷◌, arith, ltb, if◌then◌else◌, Bool-cases, Option-cases, ◌==◌, any, nat_eq, string_eq,
  option_eq, pair_eq,
}
use raguardian.Dict.{Dict, keys_where, map_values, lookup, Distinct}
use raguardian.Dict.Laws.{lookup-erase, erase-Distinct, any-keys_where}
use raguardian.Dict.Tables.{any-keys_where_hit}
use raguardian.History.{
  Conversation, generating, ready, complete, failed, Turn, Db, Limits, is_active,
  delete_conversation, delete_conversations, has_active_turn,
}
use raguardian.History.Cleanup.{
  lease_expired, has_expired, fail_lease, expire_leases, older_than, is_outdated, is_stub,
  retain_conversations, retain_turns, retain_stubs, cleanup_expired_locked,
}
use raguardian.Clock.{seconds}
use raguardian.History.Ledger.{owned, owned-filter}

-- A conversation and its messages after the deletion of some conversations.
delete_conversations-lookup :
    (ids : List String) (j : String) (db : Db)
    → (lookup j (delete_conversations ids db).conversations
        ≡ (if any (λ id. id == j) ids then none else lookup j db.conversations))
      × (owned j (delete_conversations ids db).messages
          ≡ (if any (λ id. id == j) ids then [] else owned j db.messages))
unfolding delete_conversations delete_conversation any
delete_conversations-lookup [] j db = (refl, refl)
delete_conversations-lookup (id ∷ ids) j db =
    let (cs, ms) = delete_conversations-lookup ids j (delete_conversation id db) in
    (
      ground (arith, cs, lookup-erase id j db.conversations),
      ground (arith, ms, owned-filter id j db.messages),
    )

delete_conversations-Distinct :
    (ids : List String) (db : Db)
    → Distinct db.conversations
    → Distinct (delete_conversations ids db).conversations
unfolding delete_conversations delete_conversation
delete_conversations-Distinct [] db h = h
delete_conversations-Distinct (id ∷ ids) db h =
    delete_conversations-Distinct ids (delete_conversation id db)
      (erase-Distinct id db.conversations h)

retain_conversations-lookup :
    (n now : ℕ) (db : Db) (id : String) (c : Conversation)
    → Distinct db.conversations
    → lookup id db.conversations ≡ some c
    → (let gone = ltb 0 n && is_outdated n now db id c in
        let db' = (retain_conversations n now db).1 in
        (lookup id db'.conversations ≡ (if gone then none else some c))
        × (owned id db'.messages ≡ (if gone then [] else owned id db.messages))
        × Distinct db'.conversations)
unfolding retain_conversations
retain_conversations-lookup n now db id c distinct hit = elim (Bool-cases (ltb 0 n)) [
  | inl on ↦
      let ids = keys_where (is_outdated n now db) db.conversations in
      let (cs, ms) = delete_conversations-lookup ids id db in
      let e = any-keys_where_hit (is_outdated n now db) id c db.conversations distinct hit in
      rw on (
        ground (arith, cs, e, hit),
        ground (arith, ms, e),
        delete_conversations-Distinct ids db distinct,
      )
  | inr off ↦ rw off (hit, refl, distinct)
]

-- No stub has messages.
retain_stubs-lookup :
    (n now : ℕ) (db : Db) (id : String)
    → Distinct db.conversations
    → ((c : Conversation) → lookup id db.conversations ≡ some c → ltb 0 c.message_count ≡ true)
    → (let db' = (retain_stubs n now db).1 in
        (lookup id db'.conversations ≡ lookup id db.conversations)
        × (owned id db'.messages ≡ owned id db.messages))
unfolding retain_stubs is_stub
retain_stubs-lookup n now db id distinct live = elim (Bool-cases (ltb 0 n)) [
  | inl on ↦
      let ids = keys_where (is_stub n now db) db.conversations in
      let (cs, ms) = delete_conversations-lookup ids id db in
      let spared : any (λ j. j == id) ids ≡ false =
        elim (Option-cases (lookup id db.conversations)) [
          | inl miss ↦ any-keys_where (is_stub n now db) id db.conversations miss
          | inr (c, hit) ↦ ground (
            arith,
            any-keys_where_hit (is_stub n now db) id c db.conversations distinct hit,
            live c hit,
          )
        ] in
      rw on (ground (arith, cs, spared), ground (arith, ms, spared))
  | inr off ↦ rw off (refl, refl)
]

retain_turns-lookup :
    (n now : ℕ) (db : Db)
    → (let db' = (retain_turns n now db).1 in
        (db'.conversations ≡ db.conversations) × (db'.messages ≡ db.messages))
unfolding retain_turns
retain_turns-lookup n now db = elim (Bool-cases (ltb 0 n)) [
  | inl on ↦ rw on (refl, refl)
  | inr off ↦ rw off (refl, refl)
]

-- An open turn that the failing of expired leases leaves open: staged, or under a lease that has not
-- ended.
abbrev pub is_held : ℕ → Turn → Bool
is_held now t = elim t.status [
  | generating ↦ elim t.lease_expires_at [ none ↦ true | some e ↦ not (ltb e now) ]
  | ready ↦ true
  | complete ↦ false
  | failed ↦ false
]

open_after_expiry :
    (now : ℕ) (t : Turn) → is_active (if has_expired now t then fail_lease t else t) ≡ is_held now t
unfolding has_expired lease_expired fail_lease
open_after_expiry now t = ground arith

held_rows :
    (now : ℕ) (id : String) (ts : Dict (String × String) Turn)
    → any
        (λ row. row.0.0 == id && is_active row.1)
        (map_values (λ _ t. if has_expired now t then fail_lease t else t) ts)
      ≡ any (λ row. row.0.0 == id && is_held now row.1) ts
unfolding any map_values
held_rows now id [] = refl
held_rows now id ((k, t) ∷ ts) = rw (open_after_expiry now t, held_rows now id ts) refl

has_active_turn-expire_leases :
    (now : ℕ) (id : String) (db : Db)
    → has_active_turn id (expire_leases now db)
      ≡ any (λ row. row.0.0 == id && is_held now row.1) db.turns
unfolding has_active_turn expire_leases
has_active_turn-expire_leases now id db = held_rows now id db.turns

cleanup-outdated :
    (l : Limits) (now : ℕ) (db : Db) (id : String) (c : Conversation)
    → Distinct db.conversations
    → lookup id db.conversations ≡ some c
    → ltb 0 c.message_count ≡ true
    → (let gone =
          ltb 0 l.retention_days && is_outdated l.retention_days now (expire_leases now db) id c in
        let db' = (cleanup_expired_locked l now db).1 in
        (lookup id db'.conversations ≡ (if gone then none else some c))
        × (owned id db'.messages ≡ (if gone then [] else owned id db.messages)))
unfolding cleanup_expired_locked expire_leases
cleanup-outdated l now db id c distinct hit live =
    let db0 = expire_leases now db in
    let db1 = (retain_conversations l.retention_days now db0).1 in
    let db2 = (retain_turns l.incomplete_turn_retention_days now db1).1 in
    let (cs1, ms1, distinct1) =
      retain_conversations-lookup l.retention_days now db0 id c distinct hit in
    let (cs2, ms2) = retain_turns-lookup l.incomplete_turn_retention_days now db1 in
    let same : lookup id db2.conversations ≡ lookup id db1.conversations = ap (lookup id) cs2 in
    let (cs3, ms3) =
      retain_stubs-lookup l.incomplete_turn_retention_days now db2 id (rw cs2 distinct1) (λ x h.
        let e : some c ≡ some x = ground (arith, same, cs1, h) in ground (arith, e, live)) in
    (cs3 ∙ same ∙ cs1, ms3 ∙ ap (owned id) ms2 ∙ ms1)

-- If no id of a conversation stands twice, the retention deletes a stored conversation that has
-- messages, with its messages, exactly if the retention is on, the conversation is not archived, its
-- last change and the days of the retention lie before now, and it has no turn that is staged or
-- under a lease that has not ended; otherwise it keeps the conversation as it is, with all its
-- messages.
pub cleanup-lookup :
    (l : Limits) (now : ℕ) (db : Db) (id : String) (c : Conversation)
    → Distinct db.conversations
    → lookup id db.conversations ≡ some c
    → ltb 0 c.message_count ≡ true
    → (let held = any (λ row. row.0.0 == id && is_held now row.1) db.turns in
        let old = ltb (c.updated_at + seconds (l.retention_days * 86400)) now in
        let gone = ltb 0 l.retention_days && not c.archived && old && not held in
        let db' = (cleanup_expired_locked l now db).1 in
        (lookup id db'.conversations ≡ (if gone then none else some c))
        × (owned id db'.messages ≡ (if gone then [] else owned id db.messages)))
unfolding is_outdated older_than
cleanup-lookup l now db id c distinct hit live =
    let e = has_active_turn-expire_leases now id db in
    let (cs, ms) = cleanup-outdated l now db id c distinct hit live in
    (ground (arith, cs, e, live), ground (arith, ms, e, live))
