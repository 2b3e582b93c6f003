-- ===== src/Jobs/Steps.antt =====
-- The calls that the application makes on the store, as steps, and what each does to the jobs.
pub mod Effects
use raguardian.Prelude.{
  ℕ, String, ◌≡◌, true, false, ◌||◌, Option, none, some, ◌==◌, nat_eq, string_eq, option_eq,
  pair_eq,
}
use raguardian.Dict.{lookup}
use raguardian.Job.{Job, is_running, is_delete, is_rebuild}
use raguardian.Jobs.{
  Store, init, with_rebuild_type, active_delete, create_rebuild_job, create_data_source_sync_job,
  create_delete_job, create_job,
}
use raguardian.Jobs.Changes.{
  Patch, apply_patch, update, append_error, finish, clear_by_knowledge_base, clear_by_workspace,
  clear,
}

-- The conditions are those under which the application calls: a fresh, non-empty id; the entry point
-- that belongs to the type of the job; a change of status by `update` only to a running status and
-- only of a job that still runs; and `finish` with a status that is not running.
pub data Step (digest : String → String) (s : Store) : Store → Type 0 where
  rebuild :
      (job : Job)
      → (job.id == "") ≡ false
      → is_delete (with_rebuild_type job) ≡ false
      → is_rebuild (with_rebuild_type job) ≡ true
      → lookup job.id s.jobs ≡ none
      → Step digest s (create_rebuild_job digest job s).1
  sync :
      (job : Job)
      → (job.id == "") ≡ false
      → is_delete job ≡ false
      → is_rebuild job ≡ false
      → lookup job.id s.jobs ≡ none
      → Step digest s (create_data_source_sync_job digest job s).1
  other :
      (job : Job)
      → (job.id == "") ≡ false
      → is_delete job ≡ false
      → is_rebuild job ≡ false
      → lookup job.id s.jobs ≡ none
      → Step digest s (create_job digest job s).1
  deletion :
      (job : Job)
      → (job.id == "") ≡ false
      → lookup job.id s.jobs ≡ none
      → Step digest s (create_delete_job digest job s).1
  query : (job : Job) → Step digest s (active_delete digest job s).1
  updating :
      (id : String) (patch : Patch)
      → ((job : Job)
          → lookup id s.jobs ≡ some job
          → is_running (apply_patch patch job) ≡ true
          → is_running job ≡ true)
      → Step digest s (update id patch s)
  error : (id filename message : String) → Step digest s (append_error id filename message s)
  finishing :
      (now : ℕ) (id status message : String)
      → (some status == some "queued" || some status == some "running") ≡ false
      → Step digest s (finish digest now id status message s)
  clear_base :
      (workspace_id knowledge_base_id : String) (exclude : Option String)
      → Step digest s (clear_by_knowledge_base workspace_id knowledge_base_id exclude s).1
  clear_workspace : (workspace_id : String) → Step digest s (clear_by_workspace workspace_id s).1
  clear_every : Step digest s (clear s)

pub data Reach (digest : String → String) : Store → Type 0 where
  start : Reach digest init
  next : {s t : Store} → Reach digest s → Step digest s t → Reach digest t
