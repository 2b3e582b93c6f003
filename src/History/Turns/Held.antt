-- ===== src/History/Turns/Held.antt =====
-- What happens to a turn under its lease: recovery, staging, renewal, failure and the reset of a
-- conversation.
use raguardian.Prelude.{
  ℕ, ◌+◌, String, Bool, true, false, not, ◌&&◌, Option, none, some, if◌then◌else◌, ◌==◌, length,
  nat_eq, string_eq, option_eq, pair_eq,
}
use raguardian.Prelude.Results.{ok, raised, ◌>>◌, raise_if}
use raguardian.Clock.{seconds}
use raguardian.Dict.{keys_where, map_values, lookup}
use raguardian.History.{
  generating, ready, complete, Turn, Limits, turn_conflict, turn_in_progress,
  conversation_not_found, Transaction, is_status, is_active, get_turn_for_update, messages_for_turn,
}
use raguardian.History.Cleanup.{has_expired, fail_lease}
use raguardian.History.Turns.{Reply, new_lease, replay_complete, set_turn}

-- The lease of a ready turn passes to the caller who names its holder.
unfoldable pub recover_row :
    Limits → ℕ → String × String → Turn → Option String → String → Transaction Reply
recover_row l now k t expected token db =
    raise_if (not (is_status t.status ready)) turn_in_progress
    >> (raise_if (not (t.lease_token == expected)) turn_in_progress
        >> ok (
          new_lease token (now + seconds l.lease_seconds),
          set_turn k
              (λ t. record t {
                status = generating;
                result_digest = none;
                lease_token = some token;
                lease_expires_at = some (now + seconds l.lease_seconds);
                updated_at = now;
              })
              db,
        ))

-- `recover_ready_turn`
unfoldable pub recover_ready_turn :
    Limits → ℕ → String → String → String → Option String → String → Transaction Reply
recover_ready_turn l now scope_key turn_id fingerprint expected token db =
    elim (get_turn_for_update scope_key turn_id db) [
      | none ↦ raised conversation_not_found
      | some (k, t) ↦
          raise_if (not (t.request_fingerprint == fingerprint)) turn_conflict
          >> (if is_status t.status complete
              then ok (replay_complete (messages_for_turn k.0 turn_id db), db)
              else recover_row l now k t expected token db)
    ]

-- The shape of three methods: a change of the turn by the holder of its lease, or `False`.
unfoldable pub by_holder :
    String → String → String → (Turn → Bool) → (Turn → Turn) → Transaction Bool
by_holder scope_key turn_id token allowed change db =
    elim (get_turn_for_update scope_key turn_id db) [
      | none ↦ ok (false, db)
      | some (k, t) ↦
          if t.lease_token == some token && allowed t
          then ok (true, set_turn k change db)
          else ok (false, db)
    ]

unfoldable pub mark_turn_ready : ℕ → String → String → String → String → Transaction Bool
mark_turn_ready now scope_key turn_id token digest db =
    by_holder scope_key turn_id token (λ t. is_active t)
      (λ t. record t { status = ready; result_digest = some digest; updated_at = now }) db

unfoldable pub renew_turn_lease : Limits → ℕ → String → String → String → Transaction Bool
renew_turn_lease l now scope_key turn_id token db =
    by_holder scope_key turn_id token (λ t. is_active t)
      (λ t. record t { lease_expires_at = some (now + seconds l.lease_seconds); updated_at = now })
      db

unfoldable pub fail_turn : ℕ → String → String → String → Transaction Bool
fail_turn now scope_key turn_id token db =
    by_holder scope_key turn_id token (λ t. not (is_status t.status complete))
      (λ t. record (fail_lease t) { updated_at = now }) db

-- `reset_continuity`: the last complete turn, and the number of leases that were cleaned up
unfoldable pub reset_continuity : ℕ → String → Transaction (Option String × ℕ)
reset_continuity now id db = elim (lookup id db.conversations) [
  | none ↦ raised conversation_not_found
  | some c ↦
      let lapsed : String × String → Turn → Bool = λ k t. k.0 == id && has_expired now t in
      ok (
        (c.last_turn_id, length (keys_where lapsed db.turns)),
        record db {
          turns =
              map_values
                (λ k t. if lapsed k t then record (fail_lease t) { updated_at = now } else t)
                db.turns;
        },
      )
]
