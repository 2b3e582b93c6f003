-- ===== src/Users/Removed.antt =====
-- The removal of a knowledge base from the keys of an account: what it changes, and that a failure
-- of `finalize` restores every key.
use raguardian.Prelude.{
  String, ◌≡◌, refl, sym, ap, ◌∙◌, inl, inr, Bool, not, ◌&&◌, none, some, List, [], ◌∷◌, arith,
  if◌then◌else◌, is_none, Bool-cases, text_eq_iff, ◌==◌, any, List-cases, nat_eq, string_eq,
  option_eq, pair_eq,
}
use raguardian.Dict.{Dict, lookup, update_at, Distinct}
use raguardian.Dict.Laws.{lookup-without, without-Distinct}
use raguardian.Dict.Tables.{lookup-map_values, lookup-update_at}
use raguardian.Users.{ApiKey, Accounts, set_user, touch}
use raguardian.Users.Keys.Removal.{
  uses, stripped, originals, strip_keys, remove_phase, restore_keys, restore, finalize_failed,
  remove_knowledge_base_from_api_keys,
}

lookup-originals :
    (user_id kb : String) (db : Accounts) (j : String)
    → Distinct db.api_keys
    → lookup j (originals user_id kb db) ≡ elim (lookup j db.api_keys) [
      | none ↦ none
      | some k ↦ (if uses user_id kb k then some k else none)
    ]
unfolding originals
lookup-originals user_id kb db j distinct =
    ground (arith, lookup-without (λ _ k. not (uses user_id kb k)) j db.api_keys distinct)

lookup-strip_keys :
    (user_id kb : String) (d : Dict String ApiKey) (j : String)
    → lookup j (strip_keys user_id kb d) ≡ elim (lookup j d) [
      | none ↦ none
      | some k ↦ some (if uses user_id kb k then stripped kb k else k)
    ]
unfolding strip_keys
lookup-strip_keys user_id kb d j = lookup-map_values _ j d

abbrev put_back : ApiKey → ApiKey → ApiKey
put_back o k = record k { knowledge_base_ids = o.knowledge_base_ids; enabled = o.enabled }

lookup-restore_keys :
    (os d : Dict String ApiKey) (j : String)
    → Distinct os
    → lookup j (restore_keys os d) ≡ elim (lookup j os) [
      | none ↦ lookup j d
      | some o ↦ elim (lookup j d) [ none ↦ none | some k ↦ some (put_back o k) ]
    ]
unfolding restore_keys lookup
lookup-restore_keys [] d j distinct = refl
lookup-restore_keys ((id, o) ∷ os) d j distinct = ground (
  arith,
  lookup-restore_keys os (update_at id (put_back o) d) j distinct.1,
  lookup-update_at id j (put_back o) d,
  text_eq_iff id j,
  distinct.0,
)

-- The rows that were kept bring back every key of the table.
restored :
    (user_id kb : String) (db : Accounts) (j : String)
    → Distinct db.api_keys
    → lookup j (restore_keys (originals user_id kb db) (strip_keys user_id kb db.api_keys))
      ≡ lookup j db.api_keys
unfolding originals stripped
restored user_id kb db j distinct =
    let os = originals user_id kb db in
    let e =
      lookup-restore_keys os (strip_keys user_id kb db.api_keys) j
        (without-Distinct (λ _ k. not (uses user_id kb k)) db.api_keys distinct) in
    e
    ∙ ground (
      arith,
      lookup-originals user_id kb db j distinct,
      lookup-strip_keys user_id kb db.api_keys j,
    )

-- If no id of a key stands twice and `finalize` fails, every key is as it was before the call.
pub finalize_failed-restores :
    (now user_id kb : String) (lease : Bool) (db : Accounts) (j : String)
    → Distinct db.api_keys
    → lookup j
        (remove_knowledge_base_from_api_keys now user_id kb lease finalize_failed db).1.api_keys
      ≡ lookup j db.api_keys
unfolding remove_knowledge_base_from_api_keys remove_phase restore touch set_user
finalize_failed-restores now user_id kb lease db j distinct =
    elim (Bool-cases (is_none (lookup user_id db.users))) [
      | inl unknown ↦ rw (remove_knowledge_base_from_api_keys, remove_phase, unknown) refl
      | inr known ↦ elim (List-cases (originals user_id kb db)) [
        | inl nobody ↦ rw (remove_knowledge_base_from_api_keys, remove_phase, known, nobody) refl
        | inr (k, ks, e) ↦ elim (Bool-cases lease) [
          | inl held ↦
              rw (remove_knowledge_base_from_api_keys, remove_phase, known, e, held)
                (ap (λ os. lookup j (restore_keys os (strip_keys user_id kb db.api_keys))) (sym e)
                  ∙ restored user_id kb db j distinct)
          | inr lost ↦ rw (remove_knowledge_base_from_api_keys, remove_phase, known, e, lost) refl
        ]
      ]
    ]

-- The scopes with which a key stays of use without a knowledge base: those of the management of
-- knowledge bases, with or without speech.
abbrev pub manages_only : List String → Bool
manages_only scopes =
    any (λ s. s == "kb_manage") scopes
    && not (any (λ s. not (s == "kb_manage") && not (s == "speech")) scopes)
