-- ===== src/Jobs/Steps/Effects.antt =====
-- What a step does to the stored jobs: it admits one job that nothing stands in the way of, or it
-- leaves, changes and removes jobs without starting any.
use raguardian.Prelude.{
  ℕ, String, ◌≡◌, refl, ◌∙◌, inl, inr, Bool, true, false, ◌&&◌, ◌||◌, Option, some, List, arith,
  Bool-cases, Option-cases, text_eq_iff, ◌==◌, All, nat_eq, string_eq, option_eq, pair_eq,
}
use raguardian.Dict.{Dict, lookup, insert, erase_all}
use raguardian.Dict.Laws.{lookup-insert, lookup-erase_all}
use raguardian.Dict.Sums.{All-lookup, All-insert, All-erase_all}
use raguardian.Job.{
  Job, is_running, is_delete, base_of, same_knowledge_base, find_job, running_job, rebuild_key,
  knowledge_base_key, data_source_sync_key,
}
use raguardian.Jobs.{
  Store, Reply, store_job, rebuild_in_the_way, with_rebuild_type, active_delete, unless_deleting,
  admit_rebuild, create_rebuild_job, admit_sync, create_data_source_sync_job, admit_delete,
  create_delete_job, create_job,
}
use raguardian.Jobs.Changes.{
  Patch, apply_patch, change_job, update, append_error, finished, release_slots, finish, clear_jobs,
  clear_by_knowledge_base, clear_by_workspace, clear,
}
use raguardian.Jobs.Gate.{Keyed, deletes, find_job-none, jobs-active_delete, active_delete-none}
use raguardian.Jobs.Steps.{
  Step, rebuild, sync, other, deletion, query, updating, error, finishing, clear_base,
  clear_workspace, clear_every,
}

-- A job after a change: the same job of the same target, and not restarted.
pub record Alike (new old : Job) : Type 0 where
  pub id : new.id ≡ old.id
  pub type : new.type ≡ old.type
  pub workspace_id : new.workspace_id ≡ old.workspace_id
  pub knowledge_base_id : new.knowledge_base_id ≡ old.knowledge_base_id
  pub running : is_running new ≡ true → is_running old ≡ true

pub Alike-refl : (job : Job) → Alike job job
Alike-refl job = record {
  id = refl;
  type = refl;
  workspace_id = refl;
  knowledge_base_id = refl;
  running = λ h. h;
}

-- Every job that is stored now was stored before under its id, and is still stored under it.
abbrev pub Shrinks : Dict String Job → Dict String Job → Type 0
Shrinks old new =
    ((id : String) (job : Job)
      → lookup id new ≡ some job
      → (before : Job) × (lookup id old ≡ some before) × Alike job before)
    × (All Keyed old → All Keyed new)

pub data Effect (old new : Dict String Job) : Type 0 where
  shrinks : Shrinks old new → Effect old new
  adds :
      (job : Job)
      → (job.id == "") ≡ false
      → new ≡ insert job.id job old
      → is_delete job ≡ false
      → ((id : String) (d : Job) → lookup id old ≡ some d → deletes job d ≡ false)
      → Effect old new
  adds_delete :
      (job : Job)
      → (job.id == "") ≡ false
      → new ≡ insert job.id job old
      → ((id : String) (c : Job)
          → lookup id old ≡ some c
          → (is_running c && same_knowledge_base c job) ≡ false)
      → Effect old new

Shrinks-refl : (jobs : Dict String Job) → Shrinks jobs jobs
Shrinks-refl jobs = (λ id job h. (job, h, Alike-refl job), λ keyed. keyed)

same : (old new : Dict String Job) → new ≡ old → Effect old new
same old new e = shrinks (rw e (Shrinks-refl old))

pub Shrinks-erase_all :
    (ids : List String) (jobs : Dict String Job) → Shrinks jobs (erase_all ids jobs)
Shrinks-erase_all ids jobs = (
  λ id job h. (job, ground (arith, lookup-erase_all ids id jobs), Alike-refl job),
  All-erase_all Keyed ids jobs,
)

stored-insert :
    (id : String) (old new : Job) (jobs : Dict String Job)
    → lookup id jobs ≡ some old
    → Alike new old
    → (j : String) (job : Job) → lookup j (insert id new jobs) ≡ some job
    → (before : Job) × (lookup j jobs ≡ some before) × Alike job before
stored-insert id old new jobs hit alike j job h = elim (Bool-cases (id == j)) [
  | inl here ↦
      let is : new ≡ job = ground (arith, lookup-insert id j new jobs) in
      (old, rw (← (text_eq_iff id j).0 here) hit, rw is at alike)
  | inr there ↦ (job, ground (arith, lookup-insert id j new jobs), Alike-refl job)
]

pub Shrinks-insert :
    (id : String) (old new : Job) (jobs : Dict String Job)
    → lookup id jobs ≡ some old
    → Alike new old
    → Shrinks jobs (insert id new jobs)
Shrinks-insert id old new jobs hit alike = (
  stored-insert id old new jobs hit alike,
  λ keyed.
      let was = All-lookup Keyed id jobs old keyed hit in
      All-insert Keyed id new jobs (alike.id ∙ was.0, was.1) keyed,
)

Shrinks-change_job :
    (id : String) (f : Job → Job) (s : Store)
    → ((job : Job) → lookup id s.jobs ≡ some job → Alike (f job) job)
    → Shrinks s.jobs (change_job id f s).jobs
unfolding change_job
Shrinks-change_job id f s alike = elim (Option-cases (lookup id s.jobs)) [
  | inl miss ↦ rw (miss, change_job) (Shrinks-refl s.jobs)
  | inr (old, hit) ↦ rw (hit, change_job) (Shrinks-insert id old (f old) s.jobs hit (alike old hit))
]

pub Alike-finished :
    (status message : String) (now : ℕ) (job : Job)
    → (some status == some "queued" || some status == some "running") ≡ false
    → Alike (finished status message now job) job
unfolding finished is_running
Alike-finished status message now job ended = record {
  id = refl;
  type = refl;
  workspace_id = refl;
  knowledge_base_id = refl;
  running = λ h. ground arith;
}

Alike-apply_patch :
    (patch : Patch) (job : Job)
    → (is_running (apply_patch patch job) ≡ true → is_running job ≡ true)
    → Alike (apply_patch patch job) job
unfolding apply_patch
Alike-apply_patch patch job keeps = record {
  id = refl;
  type = refl;
  workspace_id = refl;
  knowledge_base_id = refl;
  running = keeps;
}

Shrinks-finish :
    (digest : String → String) (now : ℕ) (id status message : String) (s : Store)
    → (some status == some "queued" || some status == some "running") ≡ false
    → Shrinks s.jobs (finish digest now id status message s).jobs
unfolding finish
Shrinks-finish digest now id status message s ended = elim (Option-cases (lookup id s.jobs)) [
  | inl miss ↦ rw (miss, finish) (Shrinks-refl s.jobs)
  | inr (old, hit) ↦
      rw (hit, finish)
        (unfold release_slots in
          (Shrinks-insert id old (finished status message now old) s.jobs hit
            (Alike-finished status message now old ended)))
]

Shrinks-clear_base :
    (workspace_id knowledge_base_id : String) (exclude : Option String) (s : Store)
    → Shrinks s.jobs (clear_by_knowledge_base workspace_id knowledge_base_id exclude s).1.jobs
unfolding clear_by_knowledge_base clear_jobs
Shrinks-clear_base workspace_id knowledge_base_id exclude s =
    elim (Bool-cases (workspace_id == "" || knowledge_base_id == "")) [
      | inl missing ↦ rw missing (Shrinks-refl s.jobs)
      | inr given ↦ rw given (Shrinks-erase_all _ s.jobs)
    ]

Shrinks-clear_workspace :
    (workspace_id : String) (s : Store) → Shrinks s.jobs (clear_by_workspace workspace_id s).1.jobs
unfolding clear_by_workspace clear_jobs
Shrinks-clear_workspace workspace_id s = elim (Bool-cases (workspace_id == "")) [
  | inl missing ↦ rw missing (Shrinks-refl s.jobs)
  | inr given ↦ rw given (Shrinks-erase_all _ s.jobs)
]

pub Shrinks-update :
    (id : String) (patch : Patch) (s : Store)
    → ((job : Job)
        → lookup id s.jobs ≡ some job
        → is_running (apply_patch patch job) ≡ true
        → is_running job ≡ true)
    → Shrinks s.jobs (update id patch s).jobs
unfolding update
Shrinks-update id patch s keeps =
    Shrinks-change_job id (apply_patch patch) s
      (λ job stored. Alike-apply_patch patch job (keeps job stored))

pub Shrinks-append_error :
    (id filename message : String) (s : Store)
    → Shrinks s.jobs (append_error id filename message s).jobs
unfolding append_error is_running
Shrinks-append_error id filename message s = Shrinks-change_job id _ s (λ job stored. record {
  id = refl;
  type = refl;
  workspace_id = refl;
  knowledge_base_id = refl;
  running = λ h. h;
})

Shrinks-clear : (s : Store) → Shrinks s.jobs (clear s).jobs
unfolding clear lookup
Shrinks-clear s = (λ id job h. absurd (ground arith), λ keyed. tt)

-- No stored deletion stands in the way of the job.
abbrev Free : Job → Dict String Job → Type 0
Free job jobs = (id : String) (d : Job) → lookup id jobs ≡ some d → deletes job d ≡ false

Free-with_rebuild_type :
    (job d : Job) → deletes job d ≡ false → deletes (with_rebuild_type job) d ≡ false
unfolding with_rebuild_type same_knowledge_base base_of
Free-with_rebuild_type job d free = elim (Option-cases job.type) [
  | inl missing ↦ rw (missing, with_rebuild_type) free
  | inr (t, given) ↦ rw (given, with_rebuild_type) free
]

with_rebuild_type-named :
    (job : Job) → (job.id == "") ≡ false → ((with_rebuild_type job).id == "") ≡ false
unfolding with_rebuild_type
with_rebuild_type-named job named = elim (Option-cases job.type) [
  | inl missing ↦ rw (missing, with_rebuild_type) named
  | inr (t, given) ↦ rw (given, with_rebuild_type) named
]

module _ (digest : String → String) (s : Store) (keyed : All Keyed s.jobs) where
  Effect-unless_deleting :
      (job : Job) (admit : Store → Reply × Store)
      → (Free job s.jobs → (t : Store) → t.jobs ≡ s.jobs → Effect s.jobs (admit t).1.jobs)
      → Effect s.jobs (unless_deleting digest job admit s).1.jobs
  unfolding unless_deleting
  Effect-unless_deleting job admit go =
      let after = active_delete digest job s in
      elim (Bool-cases (after.0 == "")) [
        | inl none_active ↦ rw none_active (
            go (active_delete-none digest job s keyed none_active) after.1
              (jobs-active_delete digest job s))
        | inr active ↦ rw active (same s.jobs after.1.jobs (jobs-active_delete digest job s))
      ]

  Effect-store_job :
      (job : Job)
      → (job.id == "") ≡ false
      → is_delete job ≡ false
      → Free job s.jobs
      → (t : Store) → t.jobs ≡ s.jobs
      → Effect s.jobs (store_job job t).1.jobs
  unfolding store_job
  Effect-store_job job named kind free t e = adds job named (rw e refl) kind free

  Effect-admit_rebuild :
      (job : Job)
      → (job.id == "") ≡ false
      → is_delete (with_rebuild_type job) ≡ false
      → Free job s.jobs
      → (t : Store) → t.jobs ≡ s.jobs
      → Effect s.jobs (admit_rebuild digest job t).1.jobs
  unfolding admit_rebuild
  Effect-admit_rebuild job named kind free t e =
      let id = rebuild_in_the_way (rebuild_key digest job) t.active_rebuilds in
      elim (Option-cases (running_job id t.jobs)) [
        | inl idle ↦
            rw (idle, admit_rebuild)
              (Effect-store_job (with_rebuild_type job) (with_rebuild_type-named job named) kind
                (λ k d stored. Free-with_rebuild_type job d (free k d stored)) t e)
        | inr (c, busy) ↦ rw (busy, admit_rebuild) (same s.jobs t.jobs e)
      ]

  Effect-admit_sync :
      (job : Job)
      → (job.id == "") ≡ false
      → is_delete job ≡ false
      → Free job s.jobs
      → (t : Store) → t.jobs ≡ s.jobs
      → Effect s.jobs (admit_sync digest job t).1.jobs
  unfolding admit_sync
  Effect-admit_sync job named kind free t e =
      let id = lookup (data_source_sync_key digest job) t.active_syncs in
      elim (Option-cases (running_job id t.jobs)) [
        | inl idle ↦ rw (idle, admit_sync) (Effect-store_job job named kind free t e)
        | inr (c, busy) ↦ rw (busy, admit_sync) (same s.jobs t.jobs e)
      ]

  Effect-admit_delete :
      (job : Job)
      → (job.id == "") ≡ false
      → (t : Store) → t.jobs ≡ s.jobs
      → Effect s.jobs (admit_delete digest job t).1.jobs
  unfolding admit_delete
  Effect-admit_delete job named t e =
      let id = lookup "legacy" t.active_rebuilds in
      let p : Job → Bool = λ c. is_running c && same_knowledge_base c job in
      elim (Option-cases (running_job id t.jobs)) [
        | inl idle ↦ elim (Option-cases (find_job p t.jobs)) [
          | inl alone ↦
              rw (idle, alone, admit_delete)
                (unfold store_job in
                  (adds_delete (record job { type = some "delete_knowledge_base" }) named
                    (rw e refl)
                    (λ k c stored.
                      unfold same_knowledge_base base_of in
                      (find_job-none p k t.jobs c alone (rw e stored)))))
          | inr (c, busy) ↦ rw (idle, busy, admit_delete) (same s.jobs t.jobs e)
        ]
        | inr (c, busy) ↦ rw (busy, admit_delete) (same s.jobs t.jobs e)
      ]

  Effect-create_delete_job :
      (job : Job) → (job.id == "") ≡ false → Effect s.jobs (create_delete_job digest job s).1.jobs
  unfolding create_delete_job
  Effect-create_delete_job job named =
      let after = active_delete digest job s in
      let e = jobs-active_delete digest job s in
      elim (Bool-cases (knowledge_base_key digest job == "")) [
        | inl missing ↦ rw missing (same s.jobs s.jobs refl)
        | inr given ↦ elim (Bool-cases (after.0 == "")) [
          | inl none_active ↦ rw (given, none_active) (Effect-admit_delete job named after.1 e)
          | inr active ↦ rw (given, active) (same s.jobs after.1.jobs e)
        ]
      ]

  -- What a step does to the jobs.
  pub Step-Effect : (t : Store) → Step digest s t → Effect s.jobs t.jobs
  unfolding create_rebuild_job create_data_source_sync_job create_job create_delete_job
  Step-Effect _ (rebuild job named kind type fresh) =
      Effect-unless_deleting job (admit_rebuild digest job) (Effect-admit_rebuild job named kind)
  Step-Effect _ (sync job named kind type fresh) =
      Effect-unless_deleting job (admit_sync digest job) (Effect-admit_sync job named kind)
  Step-Effect _ (other job named kind type fresh) =
      rw kind (Effect-unless_deleting job (store_job job) (Effect-store_job job named kind))
  Step-Effect _ (deletion job named fresh) = Effect-create_delete_job job named
  Step-Effect _ (query job) = same s.jobs _ (jobs-active_delete digest job s)
  Step-Effect _ (updating id patch keeps) = shrinks (Shrinks-update id patch s keeps)
  Step-Effect _ (error id filename message) = shrinks (Shrinks-append_error id filename message s)
  Step-Effect _ (finishing now id status message ended) =
      shrinks (Shrinks-finish digest now id status message s ended)
  Step-Effect _ (clear_base workspace_id knowledge_base_id exclude) =
      shrinks (Shrinks-clear_base workspace_id knowledge_base_id exclude s)
  Step-Effect _ (clear_workspace workspace_id) = shrinks (Shrinks-clear_workspace workspace_id s)
  Step-Effect _ clear_every = shrinks (Shrinks-clear s)
