-- ===== src/History/Steps.antt =====
-- What may happen to a history: the calls of the store in any order, each in one transaction, by
-- any number of workers. Their arguments, the clock, the fresh ids and the lease tokens are free.
use raguardian.Prelude.{ℕ, String, Bool, Option, arith, nat_eq, string_eq, option_eq, pair_eq}
use raguardian.Prelude.Results.{Result, ok, raised}
use raguardian.Dict.{lookup}
use raguardian.History.{Db, Limits, Error, empty}
use raguardian.History.Cleanup.{cleanup_expired}
use raguardian.History.Turns.Held.{
  recover_ready_turn, mark_turn_ready, renew_turn_lease, fail_turn, reset_continuity,
}
use raguardian.History.Turns.{Request, begin_turn}
use raguardian.History.Commit.{Completion, complete_turn}
use raguardian.History.Edits.{
  update_conversation, update_summary, delete, delete_by_knowledge_base, quota_status,
}
use raguardian.History.Linear.{IsLinear}
use raguardian.History.Linear.Keeps.{Linear, Sound, cleanup-Linear}
use raguardian.History.Linear.Keeps.Begin.{begin_turn-Sound}
use raguardian.History.Linear.Keeps.Later.{
  mark_turn_ready-Sound, renew_turn_lease-Sound, fail_turn-Sound, recover_ready_turn-Sound,
  reset_continuity-Sound, complete_turn-Sound,
}
use raguardian.History.Linear.Keeps.Edited.{
  update_conversation-Sound, update_summary-Sound, delete-Sound, delete_by_knowledge_base-Sound,
}

-- The tables after a call: what it committed, or what was there before if it raised.
abbrev pub after : {A : Type 0} → Result Error (A × Db) → Db → Db
after (ok (a, db')) db = db'
after (raised e) db = db

pub data Reach (collapse : String → String) (l : Limits) : Db → Type 0 where
  created : Reach collapse l empty
  cleaned :
      (now : ℕ) (db : Db)
      → Reach collapse l db
      → Reach collapse l (after (cleanup_expired l now db) db)
  begun :
      (now : ℕ) (r : Request) (db : Db)
      → Reach collapse l db
      → Reach collapse l (after (begin_turn l now r db) db)
  recovered :
      (now : ℕ) (scope_key turn_id fingerprint : String) (expected : Option String) (token : String)
      (db : Db)
      → Reach collapse l db
      → Reach collapse l
          (after (recover_ready_turn l now scope_key turn_id fingerprint expected token db) db)
  marked :
      (now : ℕ) (scope_key turn_id token digest : String) (db : Db)
      → Reach collapse l db
      → Reach collapse l (after (mark_turn_ready now scope_key turn_id token digest db) db)
  renewed :
      (now : ℕ) (scope_key turn_id token : String) (db : Db)
      → Reach collapse l db
      → Reach collapse l (after (renew_turn_lease l now scope_key turn_id token db) db)
  gave_up :
      (now : ℕ) (scope_key turn_id token : String) (db : Db)
      → Reach collapse l db
      → Reach collapse l (after (fail_turn now scope_key turn_id token db) db)
  completed :
      (now : ℕ) (c : Completion) (db : Db)
      → Reach collapse l db
      → Reach collapse l (after (complete_turn collapse l now c db) db)
  reset :
      (now : ℕ) (id : String) (db : Db)
      → Reach collapse l db
      → Reach collapse l (after (reset_continuity now id db) db)
  updated :
      (now : ℕ) (id : String) (title : Option String) (archived : Option Bool) (db : Db)
      → Reach collapse l db
      → Reach collapse l (after (update_conversation now id title archived db) db)
  summed :
      (now : ℕ) (scope_key summary : String) (expected through : ℕ) (db : Db)
      → Reach collapse l db
      → Reach collapse l (after (update_summary now scope_key summary expected through db) db)
  deleted :
      (id : String) (db : Db) → Reach collapse l db → Reach collapse l (after (delete id db) db)
  unlinked :
      (kb : String) (db : Db)
      → Reach collapse l db
      → Reach collapse l (after (delete_by_knowledge_base kb db) db)
  observed : (now : ℕ) (db : Db) → Reach collapse l db → Reach collapse l (quota_status l now db).1

after-Linear :
    {A : Type 0} (r : Result Error (A × Db)) (db : Db) → Sound r → Linear db → Linear (after r db)
after-Linear (ok (a, db')) db sound was = sound
after-Linear (raised e) db sound was = was

empty-Linear : Linear empty
unfolding lookup
empty-Linear = record {
  parents = λ k t h live. absurd (ground (arith, h));
  single = λ k k' t t' h h' live live' e. absurd (ground (arith, h));
  closed = λ k t h off. absurd (ground (arith, h));
}

-- Whatever is called, in whatever order: the parent of every open turn is the
-- `last_turn_id` of its conversation, no conversation has two open turns, and a turn that is not open
-- has no lease.
pub Reach-IsLinear :
    (collapse : String → String) (l : Limits) (db : Db)
    → Reach collapse l db
    → IsLinear db.conversations db.turns
unfolding cleanup_expired quota_status
Reach-IsLinear collapse l _ created = empty-Linear
Reach-IsLinear collapse l _ (cleaned now db r) =
    cleanup-Linear l now db (Reach-IsLinear collapse l db r)
Reach-IsLinear collapse l _ (begun now q db r) =
    let was = Reach-IsLinear collapse l db r in
    after-Linear _ db (begin_turn-Sound l now q db was) was
Reach-IsLinear collapse l _ (recovered now s i f e t db r) =
    let was = Reach-IsLinear collapse l db r in
    after-Linear _ db (recover_ready_turn-Sound l now s i f e t db was) was
Reach-IsLinear collapse l _ (marked now s i t d db r) =
    let was = Reach-IsLinear collapse l db r in
    after-Linear _ db (mark_turn_ready-Sound now s i t d db was) was
Reach-IsLinear collapse l _ (renewed now s i t db r) =
    let was = Reach-IsLinear collapse l db r in
    after-Linear _ db (renew_turn_lease-Sound l now s i t db was) was
Reach-IsLinear collapse l _ (gave_up now s i t db r) =
    let was = Reach-IsLinear collapse l db r in
    after-Linear _ db (fail_turn-Sound now s i t db was) was
Reach-IsLinear collapse l _ (completed now c db r) =
    let was = Reach-IsLinear collapse l db r in
    after-Linear _ db (complete_turn-Sound collapse l now c db was) was
Reach-IsLinear collapse l _ (reset now id db r) =
    let was = Reach-IsLinear collapse l db r in
    after-Linear _ db (reset_continuity-Sound now id db was) was
Reach-IsLinear collapse l _ (updated now id t a db r) =
    let was = Reach-IsLinear collapse l db r in
    after-Linear _ db (update_conversation-Sound now id t a db was) was
Reach-IsLinear collapse l _ (summed now s t e n db r) =
    let was = Reach-IsLinear collapse l db r in
    after-Linear _ db (update_summary-Sound now s t e n db was) was
Reach-IsLinear collapse l _ (deleted id db r) =
    let was = Reach-IsLinear collapse l db r in after-Linear _ db (delete-Sound id db was) was
Reach-IsLinear collapse l _ (unlinked kb db r) =
    let was = Reach-IsLinear collapse l db r in
    after-Linear _ db (delete_by_knowledge_base-Sound kb db was) was
Reach-IsLinear collapse l _ (observed now db r) =
    cleanup-Linear l now db (Reach-IsLinear collapse l db r)
