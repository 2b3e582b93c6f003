-- ===== src/Jobs/Changes.antt =====
-- The operations of `MemoryJobStore` on stored jobs: `get`, `update`, `append_error`, `finish`,
-- `active_jobs_count` and the `clear` methods.
use raguardian.Prelude.{
  ℕ, String, Bool, true, not, ◌&&◌, ◌||◌, Option, none, some, List, [], ◌∷◌, ◌++◌, if◌then◌else◌,
  ◌==◌, length, any, nat_eq, string_eq, option_eq, pair_eq,
}
use raguardian.Dict.{Dict, keys_where, lookup, insert, erase, erase_all}
use raguardian.Job.{
  Job, is_running, has_type, is_delete, is_rebuild, base_of, public_job, rebuild_key,
  knowledge_base_key, data_source_sync_key,
}
use raguardian.Jobs.{Store}

unfoldable pub get : String → Store → Option Job
get id s = elim (lookup id s.jobs) [ none ↦ none | some job ↦ some (public_job job) ]

-- `**patch`: the fields that the callers of `update` pass.
pub record Patch : Type 0 where
  pub status : Option String
  pub message : Option String
  pub current_file : Option String
  pub other : List (String × String)

unfoldable pub patched : Option String → Option String → Option String
patched none old = old
patched (some new) old = some new

unfoldable pub merge : List (String × String) → Dict String String → Dict String String
merge [] d = d
merge ((k, v) ∷ changes) d = merge changes (insert k v d)

-- `job.update(patch)`
unfoldable pub apply_patch : Patch → Job → Job
apply_patch patch job = record job {
  status = patched patch.status job.status;
  message = patched patch.message job.message;
  current_file = patched patch.current_file job.current_file;
  other = merge patch.other job.other;
}

-- A change of one stored job, if it is there.
unfoldable pub change_job : String → (Job → Job) → Store → Store
change_job id f s = elim (lookup id s.jobs) [
  | none ↦ s
  | some job ↦ record s { jobs = insert id (f job) s.jobs }
]

unfoldable pub update : String → Patch → Store → Store
update id patch s = change_job id (apply_patch patch) s

unfoldable pub append_error : String → String → String → Store → Store
append_error id filename message s =
    change_job id (λ job. record job { errors = job.errors ++ (filename, message) ∷ [] }) s

-- `if slots.get(key) == job_id: slots.pop(key, None)`
unfoldable pub release : String → String → Dict String String → Dict String String
release key id slots = if lookup key slots == some id then erase key slots else slots

-- The record of the end of a job.
unfoldable pub finished : String → String → ℕ → Job → Job
finished status message now job = record job {
  status = some status;
  message = some message;
  current_file = some "";
  finished_at = some now;
}

module _ (digest : String → String) where
  unfoldable pub release_slots : String → Job → Store → Store
  release_slots id job s = record s {
    active_rebuilds =
        if is_rebuild job
        then release (rebuild_key digest job) id s.active_rebuilds
        else s.active_rebuilds;
    active_syncs =
        if has_type "data_source_sync" job
        then release (data_source_sync_key digest job) id s.active_syncs
        else s.active_syncs;
    active_deletes =
        if is_delete job
        then release (knowledge_base_key digest job) id s.active_deletes
        else s.active_deletes;
  }

  unfoldable pub finish : ℕ → String → String → String → Store → Store
  finish now id status message s = elim (lookup id s.jobs) [
    | none ↦ s
    | some job ↦
        let job' = finished status message now job in
        release_slots id job' (record s { jobs = insert id job' s.jobs })
  ]

-- `workspace_id is None or job.get("workspace_id") == workspace_id`
unfoldable pub matches_workspace : Option String → Job → Bool
matches_workspace none job = true
matches_workspace (some workspace_id) job = job.workspace_id == some workspace_id

unfoldable pub matches_base : Option String → Job → Bool
matches_base none job = true
matches_base (some knowledge_base_id) job = base_of job == knowledge_base_id

unfoldable pub active_jobs_count : Option String → Option String → Store → ℕ
active_jobs_count workspace_id knowledge_base_id s = length (
    keys_where
      (λ _ job.
        is_running job && matches_workspace workspace_id job && matches_base knowledge_base_id job)
      s.jobs)

-- The slots that refer to one of the jobs are emptied.
unfoldable pub clear_slots : List String → Dict String String → Dict String String
clear_slots ids slots = erase_all (keys_where (λ _ id. any (λ i. i == id) ids) slots) slots

-- `self._jobs.pop` for each job, and `_clear_job_ids`
unfoldable pub clear_jobs : List String → Store → Store
clear_jobs ids s = record {
  jobs = erase_all ids s.jobs;
  active_rebuilds = clear_slots ids s.active_rebuilds;
  active_syncs = clear_slots ids s.active_syncs;
  active_deletes = clear_slots ids s.active_deletes;
}

unfoldable pub clear_by_knowledge_base : String → String → Option String → Store → ℕ × Store
clear_by_knowledge_base workspace_id knowledge_base_id exclude_job_id s =
    if workspace_id == "" || knowledge_base_id == ""
    then (0, s)
    else let ids =
        keys_where
          (λ id job.
            matches_workspace (some workspace_id) job
            && matches_base (some knowledge_base_id) job
            && not (some id == exclude_job_id))
          s.jobs in
      (length ids, clear_jobs ids s)

unfoldable pub clear_by_workspace : String → Store → ℕ × Store
clear_by_workspace workspace_id s =
    if workspace_id == ""
    then (0, s)
    else let ids = keys_where (λ _ job. matches_workspace (some workspace_id) job) s.jobs in
      (length ids, clear_jobs ids s)

unfoldable pub clear : Store → Store
clear s = record { jobs = []; active_rebuilds = []; active_syncs = []; active_deletes = [] }
