-- ===== src/Jobs/Tests.antt =====
-- Runs of the job store, and its theorems where two knowledge bases are rebuilt and deleted.
use raguardian.Prelude.{
  String, ◌≡◌, refl, true, false, none, some, [], text_eq, All, nat_eq, string_eq, option_eq,
  pair_eq,
}
use raguardian.Dict.{lookup, insert}
use raguardian.Job.{
  Job, or_text, is_running, has_type, is_delete, is_rebuild, base_of, same_knowledge_base,
  public_job, find_job, running_job, rebuild_key, knowledge_base_key, data_source_sync_key,
}
use raguardian.Jobs.{
  Store, knowledge_base_has_active_jobs, rebuild_running, accepted, refused, init, store_job,
  rebuild_in_the_way, with_rebuild_type, scan_deletes, drop_stale, active_delete, unless_deleting,
  admit_rebuild, create_rebuild_job, admit_sync, create_data_source_sync_job, admit_delete,
  create_delete_job, create_job,
}
use raguardian.Jobs.Gate.{Keyed, deletes, IsRefused, deletion_gate}
use raguardian.Jobs.Steps.{rebuild, deletion, Reach, start, next}
use raguardian.Jobs.Exclusive.{Exclusive, IsValid, Reach-IsValid}
use raguardian.Jobs.Rebuilds.Steps.{one_rebuild}
use raguardian.Jobs.Exclusive
use raguardian.Jobs.Rebuilds.Steps as Rebuilds

abbrev job_of : String → String → String → Job
job_of id type base = record {
  id = id;
  type = some type;
  status = some "queued";
  workspace_id = some "w";
  knowledge_base_id = some base;
  data_source_id = none;
  message = none;
  current_file = none;
  finished_at = none;
  errors = [];
  other = [];
}

-- Slots under the text itself.
abbrev digest : String → String
digest s = s

program : Unit {0}
unfolding text_eq lookup insert or_text is_running has_type is_delete is_rebuild base_of
    same_knowledge_base find_job running_job rebuild_key knowledge_base_key data_source_sync_key
    init store_job rebuild_in_the_way with_rebuild_type scan_deletes drop_stale active_delete
    unless_deleting admit_rebuild create_rebuild_job admit_sync create_data_source_sync_job
    admit_delete create_delete_job create_job public_job
program = tt

abbrev rebuild_a : Job
rebuild_a = job_of "r1" "rebuild" "a"

abbrev delete_b : Job
delete_b = job_of "d1" "delete_knowledge_base" "b"

abbrev rebuilding : Store
rebuilding = (create_rebuild_job digest rebuild_a init).1

abbrev deleting : Store
deleting = (create_delete_job digest delete_b rebuilding).1

-- A knowledge base that is rebuilt is not deleted, and another one is.
delete_refused :
    (create_delete_job digest (job_of "d2" "delete_knowledge_base" "a") rebuilding).0
    ≡ refused knowledge_base_has_active_jobs "r1"
unfolding program
delete_refused = refl

delete_accepted : (create_delete_job digest delete_b rebuilding).0 ≡ accepted delete_b
unfolding program
delete_accepted = refl

second_rebuild :
    (create_rebuild_job digest (job_of "r2" "rebuild" "a") deleting).0
    ≡ refused rebuild_running "r1"
unfolding program
second_rebuild = refl

Reach-rebuilding : Reach digest rebuilding
unfolding program
Reach-rebuilding = next start (rebuild rebuild_a refl refl refl refl)

Reach-deleting : Reach digest deleting
unfolding program
Reach-deleting = next Reach-rebuilding (deletion delete_b refl refl)

keyed : All Keyed deleting.jobs
unfolding program
keyed = ((refl, refl), ((refl, refl), tt))

stored_delete : lookup "d1" deleting.jobs ≡ some delete_b
unfolding program
stored_delete = refl

stored_rebuild : lookup "r1" deleting.jobs ≡ some rebuild_a
unfolding program
stored_rebuild = refl

late_deletes : deletes (job_of "r3" "rebuild" "b") delete_b ≡ true
unfolding program
late_deletes = refl

late_kind : is_delete (job_of "r3" "rebuild" "b") ≡ false
unfolding program
late_kind = refl

rebuild_runs : is_running rebuild_a ≡ true
unfolding program
rebuild_runs = refl

rebuild_kind : is_rebuild rebuild_a ≡ true
unfolding program
rebuild_kind = refl

rebuild_same : same_knowledge_base rebuild_a rebuild_a ≡ true
unfolding program
rebuild_same = refl

deletion_gate_example :
    IsRefused digest deleting (create_rebuild_job digest (job_of "r3" "rebuild" "b") deleting)
    × IsRefused digest deleting
        (create_data_source_sync_job digest (job_of "r3" "rebuild" "b") deleting)
    × IsRefused digest deleting (create_job digest (job_of "r3" "rebuild" "b") deleting)
deletion_gate_example =
    deletion_gate digest (job_of "r3" "rebuild" "b") deleting "d1" delete_b keyed stored_delete
      late_deletes late_kind

Reach-IsValid_example : IsValid deleting.jobs
Reach-IsValid_example = Exclusive.Reach-IsValid digest deleting Reach-deleting

one_rebuild_example : ◌≡◌ {A = String} "r1" "r1"
one_rebuild_example =
    Rebuilds.one_rebuild digest deleting "r1" "r1" rebuild_a rebuild_a Reach-deleting stored_rebuild
      stored_rebuild rebuild_runs rebuild_runs rebuild_kind rebuild_kind rebuild_same
