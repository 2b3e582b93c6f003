-- ===== src/Jobs/Exclusive.antt =====
-- A knowledge base that is being deleted has no other running job.
use raguardian.Prelude.{
  String, ◌≡◌, refl, ap, inl, inr, true, false, ◌&&◌, some, arith, Bool-cases, text_eq_iff, ◌==◌,
  All, nat_eq, string_eq, option_eq, pair_eq,
}
use raguardian.Dict.{Dict, lookup, insert}
use raguardian.Dict.Laws.{lookup-insert}
use raguardian.Dict.Sums.{All-insert}
use raguardian.Job.{Job, or_text, is_running, has_type, is_delete, base_of, same_knowledge_base}
use raguardian.Jobs.{Store, init}
use raguardian.Jobs.Gate.{Keyed, deletes}
use raguardian.Jobs.Steps.{Step, Reach, start, next}
use raguardian.Jobs.Steps.Effects.{Alike, Shrinks, Effect, shrinks, adds, adds_delete, Step-Effect}

-- A running deletion is the only running job of its knowledge base.
abbrev pub Exclusive : Dict String Job → Type 0
Exclusive jobs =
    (k k' : String) (d j : Job)
    → lookup k jobs ≡ some d
    → lookup k' jobs ≡ some j
    → deletes j d ≡ true
    → is_running j ≡ true
    → k ≡ k'

-- Every job is stored under its own non-empty id, and a running deletion stands alone.
abbrev pub IsValid : Dict String Job → Type 0
IsValid jobs = All Keyed jobs × Exclusive jobs

text_eq_sym : (a b : String) → (a == b) ≡ (b == a)
text_eq_sym a b = elim (Bool-cases (a == b)) [
  | inl equal ↦ ground (arith, text_eq_iff a b, text_eq_iff b a)
  | inr apart ↦ ground (arith, text_eq_iff a b, text_eq_iff b a)
]

same_knowledge_base-sym :
    (a b : Job) → same_knowledge_base a b ≡ true → same_knowledge_base b a ≡ true
unfolding same_knowledge_base
same_knowledge_base-sym a b h = ground (
  arith,
  text_eq_sym (base_of a) (base_of b),
  text_eq_iff (or_text a.workspace_id "") (or_text b.workspace_id ""),
  text_eq_iff (or_text b.workspace_id "") (or_text a.workspace_id ""),
)

deletes-Alike :
    (j d j' d' : Job) → Alike j j' → Alike d d' → deletes j d ≡ true → deletes j' d' ≡ true
unfolding same_knowledge_base is_delete has_type base_of
deletes-Alike j d j' d' a b h =
    let type : is_delete d ≡ is_delete d' = ap (λ t. t == some "delete_knowledge_base") b.type in
    let workspace : or_text d.workspace_id "" ≡ or_text d'.workspace_id "" =
      ap (λ w. or_text w "") b.workspace_id in
    let other_workspace : or_text j.workspace_id "" ≡ or_text j'.workspace_id "" =
      ap (λ w. or_text w "") a.workspace_id in
    let base : base_of d ≡ base_of d' = ap (λ w. or_text w "default") b.knowledge_base_id in
    let other_base : base_of j ≡ base_of j' = ap (λ w. or_text w "default") a.knowledge_base_id in
    ground arith

Exclusive-Shrinks : (old new : Dict String Job) → Shrinks old new → Exclusive old → Exclusive new
Exclusive-Shrinks old new fewer was k k' d j hd hj pending running =
    let (d', hd', b) = fewer.0 k d hd in
    let (j', hj', a) = fewer.0 k' j hj in
    was k k' d' j' hd' hj' (deletes-Alike j d j' d' a b pending) (a.running running)

Exclusive-adds :
    (job : Job) (jobs : Dict String Job)
    → is_delete job ≡ false
    → ((id : String) (d : Job) → lookup id jobs ≡ some d → deletes job d ≡ false)
    → Exclusive jobs
    → Exclusive (insert job.id job jobs)
Exclusive-adds job jobs kind free was k k' d j hd hj pending running =
    let at = lookup-insert job.id k job jobs in
    let at' = lookup-insert job.id k' job jobs in
    elim (Bool-cases (job.id == k)) [
      | inl here ↦ let is : job ≡ d = ground (arith, at) in absurd (ground (arith, ap is_delete is))
      | inr there ↦ elim (Bool-cases (job.id == k')) [
        | inl here ↦
            let is : job ≡ j = ground (arith, at') in
            absurd (ground (arith, ap (λ x. deletes x d) is, free k d (ground (arith, at))))
        | inr elsewhere ↦ was k k' d j (ground (arith, at)) (ground (arith, at')) pending running
      ]
    ]

Exclusive-adds_delete :
    (job : Job) (jobs : Dict String Job)
    → ((id : String) (c : Job)
        → lookup id jobs ≡ some c
        → (is_running c && same_knowledge_base c job) ≡ false)
    → Exclusive jobs
    → Exclusive (insert job.id job jobs)
Exclusive-adds_delete job jobs alone was k k' d j hd hj pending running =
    let at = lookup-insert job.id k job jobs in
    let at' = lookup-insert job.id k' job jobs in
    elim (Bool-cases (job.id == k)) [
      | inl here ↦ elim (Bool-cases (job.id == k')) [
        | inl here' ↦ ground (arith, text_eq_iff job.id k, text_eq_iff job.id k')
        | inr there ↦
            let is : job ≡ d = ground (arith, at) in
            absurd (
              ground (
                arith,
                same_knowledge_base-sym d j,
                ap (same_knowledge_base j) is,
                alone k' j (ground (arith, at')),
              ))
      ]
      | inr there ↦ elim (Bool-cases (job.id == k')) [
        | inl here ↦
            let is : job ≡ j = ground (arith, at') in
            absurd (ground (arith, ap (same_knowledge_base d) is, alone k d (ground (arith, at))))
        | inr elsewhere ↦ was k k' d j (ground (arith, at)) (ground (arith, at')) pending running
      ]
    ]

IsValid-Effect : (old new : Dict String Job) → Effect old new → IsValid old → IsValid new
IsValid-Effect old new (shrinks fewer) was = (fewer.1 was.0, Exclusive-Shrinks old new fewer was.1)
IsValid-Effect old new (adds job named e kind free) was =
    rw e
      (All-insert Keyed job.id job old (refl, named) was.0, Exclusive-adds job old kind free was.1)
IsValid-Effect old new (adds_delete job named e alone) was =
    rw e (
      All-insert Keyed job.id job old (refl, named) was.0,
      Exclusive-adds_delete job old alone was.1,
    )

-- Each step keeps the jobs valid.
pub IsValid-Step :
    (digest : String → String) (s t : Store) → Step digest s t → IsValid s.jobs → IsValid t.jobs
IsValid-Step digest s t step was =
    IsValid-Effect s.jobs t.jobs (Step-Effect digest s was.0 t step) was

-- In every store that the application can reach, whatever the digest of the slots, each job stands
-- under its own id, which is not empty, and a queued or running deletion of a knowledge base
-- is the only queued or running job of that knowledge base.
pub Reach-IsValid : (digest : String → String) (s : Store) → Reach digest s → IsValid s.jobs
unfolding init lookup
Reach-IsValid digest _ start = (tt, λ k k' d j hd hj pending running. absurd (ground arith))
Reach-IsValid digest _ (next {s} {t} reach step) =
    IsValid-Step digest s t step (Reach-IsValid digest s reach)
