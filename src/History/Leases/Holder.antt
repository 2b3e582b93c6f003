-- ===== src/History/Leases/Holder.antt =====
-- Whoever does not hold the lease of an open turn cannot change it, and whoever holds it can.
use raguardian.Prelude.{
  ℕ, String, ◌≡◌, refl, sym, ◌∙◌, ◌≢◌, Bool, true, false, some, arith, text_eq_iff, ==_ne, nat_eq,
  string_eq, option_eq, pair_eq,
}
use raguardian.Prelude.Results.{ok, raised, Ensures, Ensures-raise_if, Ensures-bind}
use raguardian.History.{
  Conversation, complete, Turn, Db, Limits, turn_conflict, is_status, get_turn_for_update,
}
use raguardian.History.Turns.Held.{by_holder, mark_turn_ready, renew_turn_lease, fail_turn}
use raguardian.History.Commit.{
  Completion, validate_json_field, content_too_long, complete_open, complete_row, complete_turn,
}
use raguardian.History.Leases.Fence.{begin_turn-Leased}
use raguardian.History.Turns.{Request, new_lease, set_turn, begin_turn}

module _ (c : Completion) (k : String × String) (t : Turn) (db : Db)
    (found : get_turn_for_update c.scope_key c.turn_id db ≡ some (k, t))
    (lost : t.lease_token ≢ some c.lease_token) where
  by_holder_lost :
      (allowed : Turn → Bool) (change : Turn → Turn)
      → by_holder c.scope_key c.turn_id c.lease_token allowed change db ≡ ok (false, db)
  unfolding by_holder
  by_holder_lost allowed change =
      rw (found, by_holder, ==_ne t.lease_token (some c.lease_token) lost) refl

  complete_row_lost :
      (collapse : String → String) (l : Limits) (now : ℕ) (sources metadata prompt_ref : String)
      → is_status t.status complete ≡ false
      → complete_row collapse l now c sources metadata prompt_ref db ≡ raised turn_conflict
  unfolding complete_row complete_open
  complete_row_lost collapse l now sources metadata prompt_ref pending =
      rw (found, complete_row, pending, ==_ne t.lease_token (some c.lease_token) lost) refl

  complete_turn_lost :
      (collapse : String → String) (l : Limits) (now : ℕ)
      → is_status t.status complete ≡ false
      → Ensures (λ _. ⊥) (complete_turn collapse l now c db)
  unfolding complete_turn
  complete_turn_lost collapse l now pending = Ensures-raise_if _ (content_too_long l c) _ _ (λ _.
      Ensures-bind _ (validate_json_field c.sources l.max_sources_bytes_per_turn) _ (λ sources _.
        Ensures-bind _ (validate_json_field c.metadata l.max_metadata_bytes_per_turn) _
          (λ metadata _. Ensures-bind _ (validate_json_field c.prompt_ref 65536) _ (λ prompt_ref _.
            rw (complete_row_lost collapse l now sources metadata prompt_ref pending) tt))))

  lost_lease :
      (collapse : String → String) (l : Limits) (now : ℕ) (digest : String)
      → is_status t.status complete ≡ false
      → (mark_turn_ready now c.scope_key c.turn_id c.lease_token digest db ≡ ok (false, db))
        × (renew_turn_lease l now c.scope_key c.turn_id c.lease_token db ≡ ok (false, db))
        × (fail_turn now c.scope_key c.turn_id c.lease_token db ≡ ok (false, db))
        × Ensures (λ _. ⊥) (complete_turn collapse l now c db)
  unfolding mark_turn_ready renew_turn_lease fail_turn
  lost_lease collapse l now digest pending = (
    by_holder_lost _ _,
    by_holder_lost _ _,
    by_holder_lost _ _,
    complete_turn_lost collapse l now pending,
  )

by_holder_held :
    (s turn_id token : String) (allowed : Turn → Bool) (change : Turn → Turn) (k : String × String)
    (t : Turn) (db : Db)
    → get_turn_for_update s turn_id db ≡ some (k, t)
    → t.lease_token ≡ some token
    → allowed t ≡ true
    → (db' : Db) × (by_holder s turn_id token allowed change db ≡ ok (true, db'))
unfolding by_holder
by_holder_held s turn_id token allowed change k t db found held may = (
  set_turn k change db,
  rw (found, by_holder) (ground (arith, held, may, text_eq_iff token token)),
)

-- If `begin_turn` returns a new lease, whether of a new turn, of a failed one or of one whose lease
-- has ended, then at any time and until the next change of the history its holder can stage, renew
-- and fail the turn, and for whoever has another token, the holder of the earlier lease included,
-- these three answer `False` and change nothing, and `complete_turn` raises.
pub begin_turn-fences :
    (collapse : String → String) (l : Limits) (now later : ℕ) (r : Request) (db db' : Db)
    (token : String) (expires : ℕ) (conv : Conversation) (c : Completion) (digest : String)
    → begin_turn l now r db ≡ ok ((new_lease token expires, conv), db')
    → c.scope_key ≡ r.scope_key
    → c.turn_id ≡ r.turn_id
    → token ≢ c.lease_token
    → (let s = r.scope_key in
        let id = r.turn_id in
        let other = c.lease_token in
        (staged : Db) × (mark_turn_ready later s id token digest db' ≡ ok (true, staged))
        × (renewed : Db) × (renew_turn_lease l later s id token db' ≡ ok (true, renewed))
        × (gone : Db) × (fail_turn later s id token db' ≡ ok (true, gone))
        × (mark_turn_ready later s id other digest db' ≡ ok (false, db'))
        × (renew_turn_lease l later s id other db' ≡ ok (false, db'))
        × (fail_turn later s id other db' ≡ ok (false, db'))
        × Ensures (λ _. ⊥) (complete_turn collapse l later c db'))
unfolding mark_turn_ready renew_turn_lease fail_turn
begin_turn-fences collapse l now later r db db' token expires conv c digest begun scope turn other =
    let (_, leased) = begin_turn-Leased l now r db db' token expires conv begun in
    let (k, t, found, going, held, _) = leased in
    let at : get_turn_for_update c.scope_key c.turn_id db' ≡ some (k, t) = rw (scope, turn) found in
    let apart : t.lease_token ≢ some c.lease_token = λ e.
      let same : some token ≡ some c.lease_token = sym held ∙ e in other (ground (arith, same)) in
    let (no_stage, no_renewal, no_failure, no_commit) =
      lost_lease c k t db' at apart collapse l later digest (ground (arith, going)) in
    let (staged, stages) =
      by_holder_held r.scope_key r.turn_id token _ _ k t db' found held (ground (arith, going)) in
    let (renewed, renews) =
      by_holder_held r.scope_key r.turn_id token _ _ k t db' found held (ground (arith, going)) in
    let (gone, fails) =
      by_holder_held r.scope_key r.turn_id token _ _ k t db' found held (ground (arith, going)) in
    (
      staged,
      stages,
      renewed,
      renews,
      gone,
      fails,
      rw (← scope, ← turn) no_stage,
      rw (← scope, ← turn) no_renewal,
      rw (← scope, ← turn) no_failure,
      no_commit,
    )
