-- ===== src/Job.antt =====
-- The jobs of app/utils/job_store.py, the tests on them, and the keys of their targets.
-- `sha256(...).hexdigest()[:32]` is the parameter `digest`.
use Prim.Native.String.{◌++◌ as append}
use raguardian.Prelude.{
  ℕ, String, Bool, not, ◌&&◌, ◌||◌, Option, none, some, List, [], ◌∷◌, if◌then◌else◌, ◌==◌, nat_eq,
  string_eq, option_eq, pair_eq,
}
use raguardian.Dict.{Dict, lookup}

-- A job is a `dict`: an optional field is `none` where it is missing. `other` holds the fields that
-- the store does not read.
pub record Job : Type 0 where
  pub id : String
  pub type : Option String
  pub status : Option String
  pub workspace_id : Option String
  pub knowledge_base_id : Option String
  pub data_source_id : Option String
  pub message : Option String
  pub current_file : Option String
  pub finished_at : Option ℕ
  pub errors : List (String × String)
  pub other : List (String × String)

-- `value or default`
unfoldable pub or_text : Option String → String → String
or_text none default = default
or_text (some s) default = if s == "" then default else s

-- `job.get("status") in RUNNING_JOB_STATUSES`
unfoldable pub is_running : Job → Bool
is_running job = job.status == some "queued" || job.status == some "running"

unfoldable pub has_type : String → Job → Bool
has_type name job = job.type == some name

unfoldable pub is_delete : Job → Bool
is_delete job = has_type "delete_knowledge_base" job

-- `job.get("type") in {"rebuild", "rebuild_index"}`
unfoldable pub is_rebuild : Job → Bool
is_rebuild job = has_type "rebuild" job || has_type "rebuild_index" job

unfoldable pub base_of : Job → String
base_of job = or_text job.knowledge_base_id "default"

-- `_same_knowledge_base`
unfoldable pub same_knowledge_base : Job → Job → Bool
same_knowledge_base first second =
    let workspace = or_text first.workspace_id "" in
    not (workspace == "")
    && workspace == or_text second.workspace_id ""
    && base_of first == base_of second

-- `_public_job`
unfoldable pub public_job : Job → Job
public_job job = record job { knowledge_base_id = some (base_of job) }

unfoldable pub find_job : (Job → Bool) → Dict String Job → Option Job
find_job p [] = none
find_job p ((id, job) ∷ d) = if p job then some job else find_job p d

-- `self._jobs.get(active_id) if active_id else None`, if it is running
unfoldable pub running_job : Option String → Dict String Job → Option Job
running_job none jobs = none
running_job (some id) jobs = if id == "" then none else elim (lookup id jobs) [
  | none ↦ none
  | some job ↦ if is_running job then some job else none
]

module _ (digest : String → String) where
  -- `_rebuild_key`
  unfoldable pub rebuild_key : Job → String
  rebuild_key job =
      if or_text job.workspace_id "" == ""
      then "legacy"
      else digest (append (or_text job.workspace_id "") (append ":" (base_of job)))

  -- `_knowledge_base_key`
  unfoldable pub knowledge_base_key : Job → String
  knowledge_base_key job =
      if or_text job.workspace_id "" == ""
      then ""
      else digest (append (or_text job.workspace_id "") (append ":" (base_of job)))

  -- `_data_source_sync_key`
  unfoldable pub data_source_sync_key : Job → String
  data_source_sync_key job = digest (
      append (or_text job.workspace_id "")
        (append ":" (append (base_of job) (append ":" (or_text job.data_source_id "")))))
