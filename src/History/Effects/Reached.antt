-- ===== src/History/Effects/Reached.antt =====
-- Everything that can be reached is reached by the steps of Effects.
use raguardian.Prelude.{String, arith, nat_eq, string_eq, option_eq, pair_eq}
use raguardian.Prelude.Results.{Result, ok, raised, Ensures}
use raguardian.History.{Db, Limits, Error, empty}
use raguardian.History.Cleanup.{fail_lease, cleanup_expired}
use raguardian.History.Turns.Held.{mark_turn_ready, renew_turn_lease, fail_turn}
use raguardian.History.Edits.{delete_by_knowledge_base, quota_status}
use raguardian.History.Steps.{
  after, Reach, created, cleaned, begun, recovered, marked, renewed, gave_up, completed, reset,
  updated, summed, deleted, unlinked, observed,
}
use raguardian.History.Effects.{Effect, stays, both}
use raguardian.History.Effects.Calls.{delete_conversations-Effect, cleanup-Effect, by_holder-Effect}
use raguardian.History.Effects.Reserves.{begin_turn-Effect}
use raguardian.History.Effects.Commits.{
  complete_turn-Effect, recover_ready_turn-Effect, reset_continuity-Effect,
  update_conversation-Effect, update_summary-Effect, delete-Effect,
}

module _ (collapse : String → String) (l : Limits) where
  after-Effect :
      {A : Type 0} (r : Result Error (A × Db)) (db : Db)
      → Ensures (λ x. Effect collapse l db x.1) r
      → Effect collapse l empty db
      → Effect collapse l empty (after r db)
  after-Effect (ok (a, db')) db e was = both was e
  after-Effect (raised x) db e was = was

  pub Reach-Effect : (db : Db) → Reach collapse l db → Effect collapse l empty db
  unfolding cleanup_expired quota_status mark_turn_ready renew_turn_lease fail_turn fail_lease
      delete_by_knowledge_base
  Reach-Effect _ created = stays empty
  Reach-Effect _ (cleaned now db r) = both (Reach-Effect db r) (cleanup-Effect collapse l now db)
  Reach-Effect _ (begun now q db r) =
      after-Effect _ db (begin_turn-Effect collapse l now q db) (Reach-Effect db r)
  Reach-Effect _ (recovered now s i f e t db r) =
      after-Effect _ db (recover_ready_turn-Effect collapse l now s i f e t db) (Reach-Effect db r)
  Reach-Effect _ (marked now s i t d db r) =
      after-Effect _ db (by_holder-Effect collapse l s i t _ _ db (λ u h. ground (arith, h)))
        (Reach-Effect db r)
  Reach-Effect _ (renewed now s i t db r) =
      after-Effect _ db (by_holder-Effect collapse l s i t _ _ db (λ u h. omega arith))
        (Reach-Effect db r)
  Reach-Effect _ (gave_up now s i t db r) =
      after-Effect _ db (by_holder-Effect collapse l s i t _ _ db (λ u h. ground (arith, h)))
        (Reach-Effect db r)
  Reach-Effect _ (completed now c db r) =
      after-Effect _ db (complete_turn-Effect collapse l now c db) (Reach-Effect db r)
  Reach-Effect _ (reset now id db r) =
      after-Effect _ db (reset_continuity-Effect collapse l now id db) (Reach-Effect db r)
  Reach-Effect _ (updated now id t a db r) =
      after-Effect _ db (update_conversation-Effect collapse l now id t a db) (Reach-Effect db r)
  Reach-Effect _ (summed now s t e n db r) =
      after-Effect _ db (update_summary-Effect collapse l now s t e n db) (Reach-Effect db r)
  Reach-Effect _ (deleted id db r) =
      after-Effect _ db (delete-Effect collapse l id db) (Reach-Effect db r)
  Reach-Effect _ (unlinked kb db r) =
      both (Reach-Effect db r) (delete_conversations-Effect collapse l _ db)
  Reach-Effect _ (observed now db r) = both (Reach-Effect db r) (cleanup-Effect collapse l now db)
