-- ===== src/Jobs/Rebuilds/Admission.antt =====
-- No step lets a second rebuild of a knowledge base run.
use raguardian.Prelude.{
  String, ◌≡◌, refl, ap, inl, inr, Bool, true, false, ◌&&◌, Option, none, some, arith, Bool-cases,
  Option-cases, text_eq, text_eq_iff, ◌==◌, All, nat_eq, string_eq, option_eq, pair_eq,
}
use raguardian.Dict.{lookup, insert}
use raguardian.Dict.Laws.{lookup-insert, insert-Distinct}
use raguardian.Dict.Sums.{All-lookup}
use raguardian.Job.{
  Job, is_running, has_type, is_rebuild, same_knowledge_base, find_job, running_job, rebuild_key,
  knowledge_base_key, data_source_sync_key,
}
use raguardian.Jobs.{
  Store, Reply, store_job, rebuild_in_the_way, with_rebuild_type, scan_deletes, drop_stale,
  active_delete, unless_deleting, admit_rebuild, admit_sync, admit_delete,
}
use raguardian.Jobs.Gate.{Keyed, jobs-active_delete}
use raguardian.Jobs.Rebuilds.{
  Registered, Ready, Ready-same, Registered-adds, running_job-stored, rebuild_in_the_way-own,
  rebuild_key-with_rebuild_type,
}

module _ (digest : String → String) where
  active_rebuilds-drop_stale :
      (id : Option String) (job : Job) (s : Store)
      → (drop_stale digest id job s).active_rebuilds ≡ s.active_rebuilds
  unfolding drop_stale
  active_rebuilds-drop_stale none job s = refl
  active_rebuilds-drop_stale (some id) job s = ground arith

  active_rebuilds-scan_deletes :
      (job : Job) (s : Store) → (scan_deletes digest job s).1.active_rebuilds ≡ s.active_rebuilds
  unfolding scan_deletes
  active_rebuilds-scan_deletes job s = ground arith

  active_rebuilds-active_delete :
      (job : Job) (s : Store) → (active_delete digest job s).1.active_rebuilds ≡ s.active_rebuilds
  unfolding active_delete
  active_rebuilds-active_delete job s =
      let id = lookup (knowledge_base_key digest job) s.active_deletes in
      ground (
        arith,
        active_rebuilds-scan_deletes job (drop_stale digest id job s),
        active_rebuilds-drop_stale id job s,
      )

  pub Ready-active_delete :
      (job : Job) (s : Store) → Ready digest s → Ready digest (active_delete digest job s).1
  Ready-active_delete job s =
      Ready-same digest s (active_delete digest job s).1 (jobs-active_delete digest job s)
        (active_rebuilds-active_delete job s)

  pub Ready-unless_deleting :
      (job : Job) (admit : Store → Reply × Store) (s : Store)
      → All Keyed s.jobs
      → ((t : Store) → All Keyed t.jobs → Ready digest t → Ready digest (admit t).1)
      → Ready digest s
      → Ready digest (unless_deleting digest job admit s).1
  unfolding unless_deleting
  Ready-unless_deleting job admit s keyed go was =
      let after = active_delete digest job s in
      let ready = Ready-active_delete job s was in
      elim (Bool-cases (after.0 == "")) [
        | inl idle ↦ rw idle (go after.1 (rw (jobs-active_delete digest job s) keyed) ready)
        | inr active ↦ rw active ready
      ]

  pub Ready-store_job :
      (job : Job) (t : Store)
      → is_rebuild job ≡ false
      → Ready digest t
      → Ready digest (store_job job t).1
  unfolding store_job
  Ready-store_job job t kind was =
      (was.0, Registered-adds digest job t.jobs t.active_rebuilds kind was.1)

  -- While no running job holds the slot, no running rebuild of the same slot is stored.
  slot_free :
      (job : Job) (t : Store) (k : String) (j : Job)
      → All Keyed t.jobs
      → Ready digest t
      → running_job (rebuild_in_the_way (rebuild_key digest job) t.active_rebuilds) t.jobs ≡ none
      → lookup k t.jobs ≡ some j
      → is_running j ≡ true
      → is_rebuild j ≡ true
      → (rebuild_key digest job == rebuild_key digest j) ≡ false
  slot_free job t k j keyed was idle stored running rebuilds =
      let held = was.1 k j stored running rebuilds in
      let own = All-lookup Keyed k t.jobs j keyed stored in
      let key = rebuild_key digest job in
      elim (Bool-cases (key == rebuild_key digest j)) [
        | inl equal ↦
            let held' : lookup key t.active_rebuilds ≡ some k =
              rw ((text_eq_iff key (rebuild_key digest j)).0 equal) held in
            absurd (
              ground (
                arith,
                rebuild_in_the_way-own digest key k t.active_rebuilds own.1 held',
                running_job-stored digest k t.jobs j own.1 stored running,
              ))
        | inr apart ↦ apart
      ]

  Registered-admits :
      (job new : Job) (t : Store)
      → new.id ≡ job.id
      → rebuild_key digest new ≡ rebuild_key digest job
      → All Keyed t.jobs
      → Ready digest t
      → running_job (rebuild_in_the_way (rebuild_key digest job) t.active_rebuilds) t.jobs ≡ none
      → Registered digest
          (insert new.id new t.jobs)
          (insert (rebuild_key digest job) job.id t.active_rebuilds)
  Registered-admits job new t id key keyed was idle k j stored running rebuilds =
      let at = lookup-insert new.id k new t.jobs in
      let slot =
        lookup-insert (rebuild_key digest job) (rebuild_key digest j) job.id t.active_rebuilds in
      elim (Bool-cases (new.id == k)) [
        | inl here ↦
            let is : new ≡ j = ground (arith, at) in
            ground (
              arith,
              ap (rebuild_key digest) is,
              text_eq_iff new.id k,
              text_eq_iff (rebuild_key digest job) (rebuild_key digest j),
            )
        | inr there ↦
            let stored' : lookup k t.jobs ≡ some j = ground (arith, at) in
            ground (
              arith,
              slot_free job t k j keyed was idle stored' running rebuilds,
              was.1 k j stored' running rebuilds,
            )
      ]

  id-with_rebuild_type : (job : Job) → (with_rebuild_type job).id ≡ job.id
  unfolding with_rebuild_type
  id-with_rebuild_type job = elim (Option-cases job.type) [
    | inl missing ↦ rw (missing, with_rebuild_type) refl
    | inr (t, given) ↦ rw (given, with_rebuild_type) refl
  ]

  pub Ready-admit_rebuild :
      (job : Job) (t : Store)
      → All Keyed t.jobs
      → Ready digest t
      → Ready digest (admit_rebuild digest job t).1
  unfolding admit_rebuild
  Ready-admit_rebuild job t keyed was =
      let id = rebuild_in_the_way (rebuild_key digest job) t.active_rebuilds in
      elim (Option-cases (running_job id t.jobs)) [
        | inl idle ↦
            rw (idle, admit_rebuild)
              (unfold store_job in
                (
                  insert-Distinct (rebuild_key digest job) job.id t.active_rebuilds was.0,
                  Registered-admits job (with_rebuild_type job) t (id-with_rebuild_type job)
                      (rebuild_key-with_rebuild_type digest job) keyed was idle,
                ))
        | inr (c, busy) ↦ rw (busy, admit_rebuild) was
      ]

  pub Ready-admit_sync :
      (job : Job) (t : Store)
      → is_rebuild job ≡ false
      → Ready digest t
      → Ready digest (admit_sync digest job t).1
  unfolding admit_sync
  Ready-admit_sync job t kind was =
      let id = lookup (data_source_sync_key digest job) t.active_syncs in
      elim (Option-cases (running_job id t.jobs)) [
        | inl idle ↦ rw (idle, admit_sync) (Ready-store_job job t kind was)
        | inr (c, busy) ↦ rw (busy, admit_sync) was
      ]

  pub Ready-admit_delete :
      (job : Job) (t : Store) → Ready digest t → Ready digest (admit_delete digest job t).1
  unfolding admit_delete is_rebuild has_type text_eq
  Ready-admit_delete job t was =
      let id = lookup "legacy" t.active_rebuilds in
      let p : Job → Bool = λ c. is_running c && same_knowledge_base c job in
      elim (Option-cases (running_job id t.jobs)) [
        | inl idle ↦ elim (Option-cases (find_job p t.jobs)) [
          | inl alone ↦
              rw (idle, alone, admit_delete)
                (Ready-store_job (record job { type = some "delete_knowledge_base" }) t refl was)
          | inr (c, busy) ↦ rw (idle, busy, admit_delete) was
        ]
        | inr (c, busy) ↦ rw (busy, admit_delete) was
      ]
