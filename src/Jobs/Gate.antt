-- ===== src/Jobs/Gate.antt =====
-- The gate of a deletion: nothing is admitted to a knowledge base that is being deleted.
use raguardian.Prelude.{
  String, ◌≡◌, refl, ap, ◌∙◌, inl, inr, Bool, true, false, ◌&&◌, Option, none, some, [], ◌∷◌, arith,
  Bool-cases, Option-cases, ◌==◌, All, nat_eq, string_eq, option_eq, pair_eq,
}
use raguardian.Dict.{Dict, lookup}
use raguardian.Job.{
  Job, or_text, is_running, is_delete, same_knowledge_base, find_job, running_job,
  knowledge_base_key,
}
use raguardian.Jobs.{
  Store, knowledge_base_deleting, Reply, refused, store_job, scan_deletes, drop_stale,
  active_delete, unless_deleting, admit_rebuild, create_rebuild_job, admit_sync,
  create_data_source_sync_job, create_job,
}

-- A job is stored under its own id, which is not empty.
abbrev pub Keyed : String × Job → Type 0
Keyed item = (item.1.id ≡ item.0) × ((item.0 == "") ≡ false)

-- A deletion that may stand in the way of a job: running, and of the same knowledge base.
abbrev pub deletes : Job → Job → Bool
deletes job c = is_delete c && is_running c && same_knowledge_base c job

pub find_job-has :
    (p : Job → Bool) (id : String) (d : Dict String Job) (job : Job)
    → lookup id d ≡ some job
    → p job ≡ true
    → (c : Job) × (find_job p d ≡ some c)
unfolding lookup find_job
find_job-has p id [] job h t = absurd (ground arith)
find_job-has p id ((k, j) ∷ d) job h t = elim (Bool-cases (p j)) [
  | inl here ↦ (j, rw here)
  | inr later ↦ let (c, e) = find_job-has p id d job (ground arith) t in (c, rw later e)
]

pub find_job-Keyed :
    (p : Job → Bool) (d : Dict String Job) (c : Job)
    → All Keyed d
    → find_job p d ≡ some c
    → (p c ≡ true) × ((c.id == "") ≡ false)
unfolding find_job
find_job-Keyed p [] c h e = absurd (ground arith)
find_job-Keyed p ((k, j) ∷ d) c h e = elim (Bool-cases (p j)) [
  | inl here ↦ ground (arith, ap (λ i. i == "") h.0.0)
  | inr later ↦ find_job-Keyed p d c h.1 (ground arith)
]

pub find_job-none :
    (p : Job → Bool) (id : String) (d : Dict String Job) (job : Job)
    → find_job p d ≡ none
    → lookup id d ≡ some job
    → p job ≡ false
unfolding lookup find_job
find_job-none p id [] job h e = absurd (ground arith)
find_job-none p id ((k, j) ∷ d) job h e = ground (arith, find_job-none p id d job)

running_job-some :
    (id : Option String) (jobs : Dict String Job) (job : Job)
    → running_job id jobs ≡ some job
    → (or_text id "" == "") ≡ false
unfolding running_job or_text
running_job-some none jobs job h = absurd (ground arith)
running_job-some (some id) jobs job h = ground arith

module _ (digest : String → String) where
  jobs-drop_stale :
      (id : Option String) (job : Job) (s : Store) → (drop_stale digest id job s).jobs ≡ s.jobs
  unfolding drop_stale
  jobs-drop_stale none job s = refl
  jobs-drop_stale (some id) job s = ground arith

  jobs-scan_deletes : (job : Job) (s : Store) → (scan_deletes digest job s).1.jobs ≡ s.jobs
  unfolding scan_deletes
  jobs-scan_deletes job s = ground arith

  scan_deletes-finds :
      (job : Job) (s : Store) (c : Job)
      → find_job (deletes job) s.jobs ≡ some c
      → (c.id == "") ≡ false
      → ((scan_deletes digest job s).0 == "") ≡ false
  unfolding scan_deletes
  scan_deletes-finds job s c found named = rw (found, scan_deletes) named

  -- The search for a deletion changes no job.
  pub jobs-active_delete : (job : Job) (s : Store) → (active_delete digest job s).1.jobs ≡ s.jobs
  unfolding active_delete
  jobs-active_delete job s =
      let id = lookup (knowledge_base_key digest job) s.active_deletes in
      ground (arith, jobs-scan_deletes job (drop_stale digest id job s), jobs-drop_stale id job s)

  active_delete-found :
      (job : Job) (s : Store) (c : Job)
      → All Keyed s.jobs
      → find_job (deletes job) s.jobs ≡ some c
      → ((active_delete digest job s).0 == "") ≡ false
  unfolding active_delete
  active_delete-found job s c keyed found =
      let slot = lookup (knowledge_base_key digest job) s.active_deletes in
      let s' = drop_stale digest slot job s in
      elim (Option-cases (running_job slot s.jobs)) [
        | inl idle ↦
            rw (idle, active_delete)
              (scan_deletes-finds job s' c (rw (jobs-drop_stale slot job s) found)
                (find_job-Keyed (deletes job) s.jobs c keyed found).1)
        | inr (j, running) ↦ rw (running, active_delete) (running_job-some slot s.jobs j running)
      ]

  -- It finds one if there is one.
  pub active_delete-finds :
      (job : Job) (s : Store) (id : String) (d : Job)
      → All Keyed s.jobs
      → lookup id s.jobs ≡ some d
      → deletes job d ≡ true
      → ((active_delete digest job s).0 == "") ≡ false
  active_delete-finds job s id d keyed stored pending =
      let (c, found) = find_job-has (deletes job) id s.jobs d stored pending in
      active_delete-found job s c keyed found

  -- Where it finds none, no stored deletion stands in the way.
  pub active_delete-none :
      (job : Job) (s : Store)
      → All Keyed s.jobs
      → ((active_delete digest job s).0 == "") ≡ true
      → (id : String) (d : Job) → lookup id s.jobs ≡ some d
      → deletes job d ≡ false
  active_delete-none job s keyed empty id d stored = elim (Bool-cases (deletes job d)) [
    | inl pending ↦ ground (arith, active_delete-finds job s id d keyed stored pending)
    | inr free ↦ free
  ]

  unless_deleting-refuses :
      (job : Job) (s : Store) (admit : Store → Reply × Store)
      → ((active_delete digest job s).0 == "") ≡ false
      → unless_deleting digest job admit s ≡ (
        refused knowledge_base_deleting (active_delete digest job s).0,
        (active_delete digest job s).1,
      )
  unfolding unless_deleting
  unless_deleting-refuses job s admit named = rw named

  -- A reply that refuses because of a deletion, with no job changed.
  abbrev pub IsRefused : Store → Reply × Store → Type 0
  IsRefused s outcome =
      (i : String) × ((i == "") ≡ false)
      × (outcome.0 ≡ refused knowledge_base_deleting i)
      × (outcome.1.jobs ≡ s.jobs)

  refuses :
      (job : Job) (s : Store) (admit : Store → Reply × Store)
      → ((active_delete digest job s).0 == "") ≡ false
      → IsRefused s (unless_deleting digest job admit s)
  refuses job s admit named =
      let e = unless_deleting-refuses job s admit named in
      (
        (active_delete digest job s).0,
        named,
        ap (λ r. r.0) e,
        ap (λ r. r.1.jobs) e ∙ jobs-active_delete job s,
      )

  -- While a deletion of a knowledge base is queued or running, no job for it that is not a deletion
  -- is admitted: a rebuild, a synchronisation and any other job are answered with the conflict and
  -- a job id, and no job changes, whatever the slots hold, where every job is stored under its own
  -- non-empty id.
  pub deletion_gate :
      (job : Job) (s : Store) (id : String) (d : Job)
      → All Keyed s.jobs
      → lookup id s.jobs ≡ some d
      → deletes job d ≡ true
      → is_delete job ≡ false
      → IsRefused s (create_rebuild_job digest job s)
        × IsRefused s (create_data_source_sync_job digest job s)
        × IsRefused s (create_job digest job s)
  unfolding create_rebuild_job create_data_source_sync_job create_job
  deletion_gate job s id d keyed stored pending kind =
      let named = active_delete-finds job s id d keyed stored pending in
      (
        refuses job s (admit_rebuild digest job) named,
        refuses job s (admit_sync digest job) named,
        rw kind (refuses job s (store_job job) named),
      )
