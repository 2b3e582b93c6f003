-- ===== src/Jobs.antt =====
-- `MemoryJobStore` of app/utils/job_store.py: background jobs, and the slots that admit one
-- rebuild, one synchronisation and one deletion at a time. `sha256(...).hexdigest()[:32]` is a
-- parameter, and so is the clock.
pub mod Changes
pub mod Gate
pub mod Steps
pub mod Exclusive
pub mod Rebuilds
mod Tests
use raguardian.Prelude.{
  String, ◌&&◌, Option, none, some, [], if◌then◌else◌, ◌==◌, nat_eq, string_eq, option_eq, pair_eq,
}
use raguardian.Job.{
  Job, or_text, is_running, is_delete, same_knowledge_base, public_job, find_job, running_job,
  rebuild_key, knowledge_base_key, data_source_sync_key,
}
use raguardian.Dict.{Dict, lookup, insert, erase}

pub record Store : Type 0 where
  pub jobs : Dict String Job
  pub active_rebuilds : Dict String String
  pub active_syncs : Dict String String
  pub active_deletes : Dict String String

-- The error bodies that go with status 409.
pub data Conflict : Type 0 where
  knowledge_base_deleting : Conflict
  knowledge_base_has_active_jobs : Conflict
  rebuild_running : Conflict
  sync_running : String → Conflict

-- `(job, 202)`, `(conflict, 409)` with the job that stands in the way, or an exception.
pub data Reply : Type 0 where
  accepted : Job → Reply
  refused : Conflict → String → Reply
  value_error : Reply
  key_error : Reply

unfoldable pub init : Store
init = record { jobs = []; active_rebuilds = []; active_syncs = []; active_deletes = [] }

-- `self._jobs[id] = stored`, and the reply
unfoldable pub store_job : Job → Store → Reply × Store
store_job job s = (accepted (public_job job), record s { jobs = insert job.id job s.jobs })

-- `active_id or self._active_rebuild_job_ids.get("legacy")`
unfoldable pub rebuild_in_the_way : String → Dict String String → Option String
rebuild_in_the_way key slots =
    let own = lookup key slots in
    if key == "legacy" then own else if or_text own "" == "" then lookup "legacy" slots else own

-- `stored.setdefault("type", "rebuild_index")`
unfoldable pub with_rebuild_type : Job → Job
with_rebuild_type job = elim job.type [
  | none ↦ record job { type = some "rebuild_index" }
  | some _ ↦ job
]

-- `self.get(active_delete) or deepcopy(self._jobs[active_delete])`
unfoldable pub reply_stored : String → Store → Reply
reply_stored id s = elim (lookup id s.jobs) [
  | none ↦ key_error
  | some job ↦ accepted (public_job job)
]

module _ (digest : String → String) where
  -- The scan at the end of `_active_delete_unlocked`.
  unfoldable pub scan_deletes : Job → Store → String × Store
  scan_deletes job s =
      elim (find_job (λ c. is_delete c && is_running c && same_knowledge_base c job) s.jobs) [
        | none ↦ ("", s)
        | some c ↦ (
          c.id,
          record s {
            active_deletes = insert (knowledge_base_key digest job) c.id s.active_deletes;
          },
        )
      ]

  -- `if active_id: self._active_delete_job_ids.pop(target_key, None)`
  unfoldable pub drop_stale : Option String → Job → Store → Store
  drop_stale none job s = s
  drop_stale (some id) job s =
      if id == ""
      then s
      else record s { active_deletes = erase (knowledge_base_key digest job) s.active_deletes }

  -- `_active_delete_unlocked`
  unfoldable pub active_delete : Job → Store → String × Store
  active_delete job s =
      let active_id = lookup (knowledge_base_key digest job) s.active_deletes in
      elim (running_job active_id s.jobs) [
        | some _ ↦ (or_text active_id "", s)
        | none ↦ scan_deletes job (drop_stale active_id job s)
      ]

  -- The admission that the three `create` methods share: refused while the target is deleted.
  unfoldable pub unless_deleting : Job → (Store → Reply × Store) → Store → Reply × Store
  unless_deleting job admit s =
      let (active_id, s') = active_delete job s in
      if active_id == "" then admit s' else (refused knowledge_base_deleting active_id, s')

  unfoldable pub admit_rebuild : Job → Store → Reply × Store
  admit_rebuild job s =
      let key = rebuild_key digest job in
      let active_id = rebuild_in_the_way key s.active_rebuilds in
      elim (running_job active_id s.jobs) [
        | some _ ↦ (refused rebuild_running (or_text active_id ""), s)
        | none ↦
            let (reply, s') = store_job (with_rebuild_type job) s in
            (reply, record s' { active_rebuilds = insert key job.id s'.active_rebuilds })
      ]

  unfoldable pub create_rebuild_job : Job → Store → Reply × Store
  create_rebuild_job job s = unless_deleting job (admit_rebuild job) s

  unfoldable pub admit_sync : Job → Store → Reply × Store
  admit_sync job s =
      let key = data_source_sync_key digest job in
      let active_id = lookup key s.active_syncs in
      elim (running_job active_id s.jobs) [
        | some _ ↦
            (refused (sync_running (or_text job.data_source_id "")) (or_text active_id ""), s)
        | none ↦
            let (reply, s') = store_job job s in
            (reply, record s' { active_syncs = insert key job.id s'.active_syncs })
      ]

  unfoldable pub create_data_source_sync_job : Job → Store → Reply × Store
  create_data_source_sync_job job s = unless_deleting job (admit_sync job) s

  -- The admission of a deletion when none is active.
  unfoldable pub admit_delete : Job → Store → Reply × Store
  admit_delete job s =
      let legacy_id = lookup "legacy" s.active_rebuilds in
      elim (running_job legacy_id s.jobs) [
        | some _ ↦ (refused knowledge_base_has_active_jobs (or_text legacy_id ""), s)
        | none ↦ elim (find_job (λ c. is_running c && same_knowledge_base c job) s.jobs) [
          | some c ↦ (refused knowledge_base_has_active_jobs c.id, s)
          | none ↦
              let (reply, s') = store_job (record job { type = some "delete_knowledge_base" }) s in
              (
                reply,
                record s' {
                  active_deletes = insert (knowledge_base_key digest job) job.id s'.active_deletes;
                },
              )
        ]
      ]

  unfoldable pub create_delete_job : Job → Store → Reply × Store
  create_delete_job job s =
      if knowledge_base_key digest job == ""
      then (value_error, s)
      else let (active_id, s') = active_delete job s in
        if active_id == "" then admit_delete job s' else (reply_stored active_id s', s')

  unfoldable pub create_job : Job → Store → Reply × Store
  create_job job s =
      if is_delete job then create_delete_job job s else unless_deleting job (store_job job) s
