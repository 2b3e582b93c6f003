-- ===== src/Jobs/Rebuilds.antt =====
-- The slots of the rebuilds: every running rebuild holds the slot of its knowledge base.
pub mod Admission
pub mod Steps
use raguardian.Prelude.{
  String, ◌≡◌, refl, ap, inl, inr, true, false, ◌||◌, some, arith, Bool-cases, Option-cases, ◌==◌,
  nat_eq, string_eq, option_eq, pair_eq,
}
use raguardian.Dict.{Dict, lookup, insert, Distinct}
use raguardian.Dict.Laws.{lookup-insert}
use raguardian.Job.{
  Job, or_text, is_running, has_type, is_rebuild, base_of, running_job, rebuild_key,
}
use raguardian.Jobs.{Store, rebuild_in_the_way, with_rebuild_type}
use raguardian.Jobs.Steps.Effects.{Alike, Shrinks}

module _ (digest : String → String) where
  -- The slot of each running rebuild names it.
  abbrev pub Registered : Dict String Job → Dict String String → Type 0
  Registered jobs slots =
      (k : String) (job : Job)
      → lookup k jobs ≡ some job
      → is_running job ≡ true
      → is_rebuild job ≡ true
      → lookup (rebuild_key digest job) slots ≡ some k

  abbrev pub Ready : Store → Type 0
  Ready s = Distinct s.active_rebuilds × Registered s.jobs s.active_rebuilds

  pub Ready-same :
      (s t : Store) → t.jobs ≡ s.jobs → t.active_rebuilds ≡ s.active_rebuilds → Ready s → Ready t
  Ready-same s t jobs slots was = rw (jobs, slots) was

  rebuild_key-Alike :
      (new old : Job) → Alike new old → rebuild_key digest new ≡ rebuild_key digest old
  unfolding rebuild_key base_of
  rebuild_key-Alike new old alike =
      let workspace : or_text new.workspace_id "" ≡ or_text old.workspace_id "" =
        ap (λ w. or_text w "") alike.workspace_id in
      let base : or_text new.knowledge_base_id "default" ≡ or_text old.knowledge_base_id "default" =
        ap (λ w. or_text w "default") alike.knowledge_base_id in
      rw (workspace, base) refl

  is_rebuild-Alike : (new old : Job) → Alike new old → is_rebuild new ≡ is_rebuild old
  unfolding is_rebuild has_type
  is_rebuild-Alike new old alike =
      ap (λ t. t == some "rebuild" || t == some "rebuild_index") alike.type

  pub Registered-Shrinks :
      (old new : Dict String Job) (slots slots' : Dict String String)
      → Shrinks old new
      → ((k : String) (job : Job) (key : String)
          → lookup k new ≡ some job
          → is_running job ≡ true
          → lookup key slots ≡ some k
          → lookup key slots' ≡ some k)
      → Registered old slots
      → Registered new slots'
  Registered-Shrinks old new slots slots' fewer keeps was k job stored running rebuilds =
      let (before, h, alike) = fewer.0 k job stored in
      keeps k job (rebuild_key digest job) stored running (
        rw (rebuild_key-Alike job before alike) (
          was k before h (alike.running running)
            (rw (← is_rebuild-Alike job before alike) rebuilds)))

  -- A change of the jobs that leaves the slots.
  pub Ready-Shrinks :
      (s t : Store)
      → Shrinks s.jobs t.jobs
      → t.active_rebuilds ≡ s.active_rebuilds
      → Ready s
      → Ready t
  Ready-Shrinks s t fewer slots was = (
    rw slots was.0,
    Registered-Shrinks s.jobs t.jobs s.active_rebuilds t.active_rebuilds fewer
        (λ k job key stored running h. rw slots h) was.1,
  )

  pub Registered-adds :
      (job : Job) (jobs : Dict String Job) (slots : Dict String String)
      → is_rebuild job ≡ false
      → Registered jobs slots
      → Registered (insert job.id job jobs) slots
  Registered-adds job jobs slots kind was k j stored running rebuilds =
      let at = lookup-insert job.id k job jobs in
      elim (Bool-cases (job.id == k)) [
        | inl here ↦
            let is : job ≡ j = ground (arith, at) in absurd (ground (arith, ap is_rebuild is))
        | inr there ↦ was k j (ground (arith, at)) running rebuilds
      ]

  -- A slot that names a running job refuses.
  pub running_job-stored :
      (k : String) (jobs : Dict String Job) (job : Job)
      → (k == "") ≡ false
      → lookup k jobs ≡ some job
      → is_running job ≡ true
      → running_job (some k) jobs ≡ some job
  unfolding running_job
  running_job-stored k jobs job named stored running = rw (named, stored, running, running_job) refl

  pub rebuild_in_the_way-own :
      (key k : String) (slots : Dict String String)
      → (k == "") ≡ false
      → lookup key slots ≡ some k
      → rebuild_in_the_way key slots ≡ some k
  unfolding rebuild_in_the_way or_text
  rebuild_in_the_way-own key k slots named held = rw (held, named) (ground arith)

  pub rebuild_key-with_rebuild_type :
      (job : Job) → rebuild_key digest (with_rebuild_type job) ≡ rebuild_key digest job
  unfolding with_rebuild_type rebuild_key base_of
  rebuild_key-with_rebuild_type job = elim (Option-cases job.type) [
    | inl missing ↦ rw (missing, with_rebuild_type) refl
    | inr (t, given) ↦ rw (given, with_rebuild_type) refl
  ]
