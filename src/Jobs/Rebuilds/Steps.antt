-- ===== src/Jobs/Rebuilds/Steps.antt =====
-- Every reachable store has at most one running rebuild for a slot.
use raguardian.Prelude.{
  ℕ, String, ◌≡◌, refl, ap, inl, inr, Bool, true, false, ◌||◌, Option, some, List, arith,
  if◌then◌else◌, Bool-cases, Option-cases, text_eq_iff, ◌==◌, any, All, nat_eq, string_eq,
  option_eq, pair_eq,
}
use raguardian.Dict.{Dict, lookup, insert, erase_all, Distinct}
use raguardian.Dict.Laws.{
  lookup-insert, lookup-erase, lookup-erase_all, erase-Distinct, erase_all-Distinct,
  erase_all-keys_where, lookup-without,
}
use raguardian.Job.{
  Job, or_text, is_running, is_rebuild, base_of, same_knowledge_base, rebuild_key,
  knowledge_base_key,
}
use raguardian.Jobs.{
  Store, init, store_job, active_delete, admit_rebuild, create_rebuild_job, admit_sync,
  create_data_source_sync_job, create_delete_job, create_job,
}
use raguardian.Jobs.Changes.{
  Patch, apply_patch, change_job, update, append_error, release, finished, release_slots, finish,
  clear_slots, clear_jobs, clear_by_knowledge_base, clear_by_workspace, clear,
}
use raguardian.Jobs.Gate.{Keyed}
use raguardian.Jobs.Steps.{
  Step, rebuild, sync, other, deletion, query, updating, error, finishing, clear_base,
  clear_workspace, clear_every, Reach, start, next,
}
use raguardian.Jobs.Steps.Effects.{
  Alike, Shrinks-erase_all, Shrinks-insert, Alike-finished, Shrinks-update, Shrinks-append_error,
}
use raguardian.Jobs.Exclusive.{Reach-IsValid}
use raguardian.Jobs.Rebuilds.{Ready, Registered-Shrinks, Ready-Shrinks}
use raguardian.Jobs.Rebuilds.Admission.{
  Ready-active_delete, Ready-unless_deleting, Ready-store_job, Ready-admit_rebuild,
  Ready-admit_sync, Ready-admit_delete,
}

release-Distinct :
    (key id : String) (slots : Dict String String)
    → Distinct slots
    → Distinct (release key id slots)
unfolding release
release-Distinct key id slots h = ground (arith, erase-Distinct key slots h)

lookup-release_other :
    (key id j k : String) (slots : Dict String String)
    → lookup j slots ≡ some k
    → (id == k) ≡ false
    → lookup j (release key id slots) ≡ some k
unfolding release
lookup-release_other key id j k slots held apart =
    ground (arith, lookup-erase key j slots, text_eq_iff key j, text_eq_iff k id, text_eq_iff id k)

clear_slots-Distinct :
    (ids : List String) (slots : Dict String String)
    → Distinct slots
    → Distinct (clear_slots ids slots)
unfolding clear_slots
clear_slots-Distinct ids slots h = erase_all-Distinct _ slots h

lookup-clear_slots :
    (ids : List String) (slots : Dict String String) (j k : String)
    → Distinct slots
    → any (λ i. i == k) ids ≡ false
    → lookup j slots ≡ some k
    → lookup j (clear_slots ids slots) ≡ some k
unfolding clear_slots
lookup-clear_slots ids slots j k h kept held =
    let p : String → String → Bool = λ _ id. any (λ i. i == id) ids in
    rw (erase_all-keys_where p slots h, lookup-without p j slots h, held, kept) refl

module _ (digest : String → String) where
  Ready-clear_jobs :
      (ids : List String) (s : Store) → Ready digest s → Ready digest (clear_jobs ids s)
  unfolding clear_jobs
  Ready-clear_jobs ids s was = (
    clear_slots-Distinct ids s.active_rebuilds was.0,
    Registered-Shrinks digest s.jobs (erase_all ids s.jobs) s.active_rebuilds
        (clear_slots ids s.active_rebuilds) (Shrinks-erase_all ids s.jobs)
        (λ k job key stored running held.
          lookup-clear_slots ids s.active_rebuilds key k was.0
            (ground (arith, lookup-erase_all ids k s.jobs)) held)
        was.1,
  )

  Ready-clear_base :
      (workspace_id knowledge_base_id : String) (exclude : Option String) (s : Store)
      → Ready digest s
      → Ready digest (clear_by_knowledge_base workspace_id knowledge_base_id exclude s).1
  unfolding clear_by_knowledge_base
  Ready-clear_base workspace_id knowledge_base_id exclude s was =
      elim (Bool-cases (workspace_id == "" || knowledge_base_id == "")) [
        | inl missing ↦ rw missing was
        | inr given ↦ rw given (Ready-clear_jobs _ s was)
      ]

  Ready-clear_workspace :
      (workspace_id : String) (s : Store)
      → Ready digest s
      → Ready digest (clear_by_workspace workspace_id s).1
  unfolding clear_by_workspace
  Ready-clear_workspace workspace_id s was = elim (Bool-cases (workspace_id == "")) [
    | inl missing ↦ rw missing was
    | inr given ↦ rw given (Ready-clear_jobs _ s was)
  ]

  Ready-clear : (s : Store) → Ready digest (clear s)
  unfolding clear lookup
  Ready-clear s = (tt, λ k job h running rebuilds. absurd (ground arith))

  active_rebuilds-change_job :
      (id : String) (f : Job → Job) (s : Store)
      → (change_job id f s).active_rebuilds ≡ s.active_rebuilds
  unfolding change_job
  active_rebuilds-change_job id f s = elim (Option-cases (lookup id s.jobs)) [
    | inl miss ↦ rw (miss, change_job) refl
    | inr (old, hit) ↦ rw (hit, change_job) refl
  ]

  -- The slots after the end of a job.
  Ready-release_slots :
      (id : String) (old job : Job) (s : Store)
      → lookup id s.jobs ≡ some old
      → Alike job old
      → is_running job ≡ false
      → Ready digest s
      → Ready digest (release_slots digest id job (record s { jobs = insert id job s.jobs }))
  unfolding release_slots
  Ready-release_slots id old job s hit alike ended was =
      let key = rebuild_key digest job in
      let slots = if is_rebuild job then release key id s.active_rebuilds else s.active_rebuilds in
      (
        ground (arith, was.0, release-Distinct key id s.active_rebuilds),
        Registered-Shrinks digest s.jobs (insert id job s.jobs) s.active_rebuilds slots
            (Shrinks-insert id old job s.jobs hit alike)
            (λ k j slot stored running held.
              let apart : (id == k) ≡ false = elim (Bool-cases (id == k)) [
                | inl here ↦
                    let is : job ≡ j = ground (arith, lookup-insert id k job s.jobs) in
                    absurd (ground (arith, ap is_running is))
                | inr there ↦ there
              ] in
              ground (arith, lookup-release_other key id slot k s.active_rebuilds held apart))
            was.1,
      )

  Ready-finish :
      (now : ℕ) (id status message : String) (s : Store)
      → (some status == some "queued" || some status == some "running") ≡ false
      → Ready digest s
      → Ready digest (finish digest now id status message s)
  unfolding finish is_running finished
  Ready-finish now id status message s ended was = elim (Option-cases (lookup id s.jobs)) [
    | inl miss ↦ rw (miss, finish) was
    | inr (old, hit) ↦
        rw (hit, finish)
          (Ready-release_slots id old (finished status message now old) s hit
            (Alike-finished status message now old ended) ended was)
  ]

  Ready-update :
      (id : String) (patch : Patch) (s : Store)
      → ((job : Job)
          → lookup id s.jobs ≡ some job
          → is_running (apply_patch patch job) ≡ true
          → is_running job ≡ true)
      → Ready digest s
      → Ready digest (update id patch s)
  unfolding update
  Ready-update id patch s keeps =
      Ready-Shrinks digest s (change_job id (apply_patch patch) s)
        (unfold update in (Shrinks-update id patch s keeps))
        (active_rebuilds-change_job id (apply_patch patch) s)

  Ready-append_error :
      (id filename message : String) (s : Store)
      → Ready digest s
      → Ready digest (append_error id filename message s)
  unfolding append_error
  Ready-append_error id filename message s =
      Ready-Shrinks digest s (append_error id filename message s)
        (Shrinks-append_error id filename message s) (active_rebuilds-change_job id _ s)

  Ready-create_delete_job :
      (job : Job) (s : Store) → Ready digest s → Ready digest (create_delete_job digest job s).1
  unfolding create_delete_job
  Ready-create_delete_job job s was =
      let after = active_delete digest job s in
      let ready = Ready-active_delete digest job s was in
      elim (Bool-cases (knowledge_base_key digest job == "")) [
        | inl missing ↦ rw missing was
        | inr given ↦ elim (Bool-cases (after.0 == "")) [
          | inl idle ↦ rw (given, idle) (Ready-admit_delete digest job after.1 ready)
          | inr active ↦ rw (given, active) ready
        ]
      ]

  Ready-Step : (s t : Store) → Step digest s t → All Keyed s.jobs → Ready digest s → Ready digest t
  unfolding create_rebuild_job create_data_source_sync_job create_job
  Ready-Step s _ (rebuild job named kind type fresh) keyed =
      Ready-unless_deleting digest job (admit_rebuild digest job) s keyed
        (Ready-admit_rebuild digest job)
  Ready-Step s _ (sync job named kind type fresh) keyed =
      Ready-unless_deleting digest job (admit_sync digest job) s keyed
        (λ t keyed' ready. Ready-admit_sync digest job t type ready)
  Ready-Step s _ (other job named kind type fresh) keyed = rw kind (
      Ready-unless_deleting digest job (store_job job) s keyed
        (λ t keyed' ready. Ready-store_job digest job t type ready))
  Ready-Step s _ (deletion job named fresh) keyed = Ready-create_delete_job job s
  Ready-Step s _ (query job) keyed = Ready-active_delete digest job s
  Ready-Step s _ (updating id patch keeps) keyed = Ready-update id patch s keeps
  Ready-Step s _ (error id filename message) keyed = Ready-append_error id filename message s
  Ready-Step s _ (finishing now id status message ended) keyed =
      Ready-finish now id status message s ended
  Ready-Step s _ (clear_base workspace_id knowledge_base_id exclude) keyed =
      Ready-clear_base workspace_id knowledge_base_id exclude s
  Ready-Step s _ (clear_workspace workspace_id) keyed = Ready-clear_workspace workspace_id s
  Ready-Step s _ clear_every keyed = λ was. Ready-clear s

  Reach-Ready : (s : Store) → Reach digest s → Ready digest s
  unfolding init lookup
  Reach-Ready _ start = (tt, λ k job h running rebuilds. absurd (ground arith))
  Reach-Ready _ (next {s} {t} reach step) =
      Ready-Step s t step (Reach-IsValid digest s reach).0 (Reach-Ready s reach)

  same_slot :
      (j j' : Job) → same_knowledge_base j j' ≡ true → rebuild_key digest j ≡ rebuild_key digest j'
  unfolding same_knowledge_base rebuild_key
  same_slot j j' same = ground (
    arith,
    text_eq_iff (or_text j.workspace_id "") (or_text j'.workspace_id ""),
    text_eq_iff (base_of j) (base_of j'),
  )

  -- In every store that the application can reach, whatever the digest, at most one queued or
  -- running rebuild stands for a knowledge base.
  pub one_rebuild :
      (s : Store) (k k' : String) (j j' : Job)
      → Reach digest s
      → lookup k s.jobs ≡ some j
      → lookup k' s.jobs ≡ some j'
      → is_running j ≡ true
      → is_running j' ≡ true
      → is_rebuild j ≡ true
      → is_rebuild j' ≡ true
      → same_knowledge_base j j' ≡ true
      → k ≡ k'
  one_rebuild s k k' j j' reach h h' running running' rebuilds rebuilds' same =
      let ready = Reach-Ready s reach in
      ground (
        arith,
        ready.1 k j h running rebuilds,
        ready.1 k' j' h' running' rebuilds',
        same_slot j j' same,
      )
