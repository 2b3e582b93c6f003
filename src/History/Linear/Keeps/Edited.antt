-- ===== src/History/Linear/Keeps/Edited.antt =====
-- The changes of a conversation and its deletion keep the line of every conversation.
use raguardian.Prelude.{
  ℕ, String, ◌≡◌, refl, inl, inr, Bool, false, not, ◌&&◌, ◌||◌, Option, none, some, leb, Bool-cases,
  Option-cases, ◌==◌, nat_eq, string_eq, option_eq, pair_eq,
}
use raguardian.Prelude.Results.{Ensures-raise_if}
use raguardian.Dict.{lookup, update_at}
use raguardian.History.{Conversation, Db, find_scope, has_active_turn}
use raguardian.History.Edits.{
  bad_title, edited, update_conversation, summarised, update_summary, delete,
  delete_by_knowledge_base,
}
use raguardian.History.Linear.{IsLinear}
use raguardian.History.Linear.Keeps.Begin.{find_scope-lookup}
use raguardian.History.Linear.Keeps.{
  Linear, Sound, delete_conversation-Linear, delete_conversations-Linear, Linear-conversation,
}

pub update_conversation-Sound :
    (now : ℕ) (id : String) (title : Option String) (archived : Option Bool) (db : Db)
    → Linear db
    → Sound (update_conversation now id title archived db)
unfolding update_conversation edited
update_conversation-Sound now id title archived db was =
    Ensures-raise_if _ (bad_title title) _ _ (λ _.
      elim (Option-cases (lookup id db.conversations)) [
        | inl miss ↦ rw miss tt
        | inr (c, hit) ↦ rw hit (
            Ensures-raise_if _
              (elim archived [ none ↦ false | some a ↦ a ] && has_active_turn id db) _ _
              (λ _. Linear-conversation id c (edited now title archived c) db hit refl was))
      ])

Linear-summarised :
    (now : ℕ) (summary : String) (expected through : ℕ) (id : String) (c : Conversation) (db : Db)
    → lookup id db.conversations ≡ some c
    → Linear db
    → IsLinear (update_at id (summarised now summary expected through) db.conversations) db.turns
unfolding update_at summarised
Linear-summarised now summary expected through id c db hit was =
    rw (hit, update_at) (Linear-conversation id c _ db hit refl was)

pub update_summary-Sound :
    (now : ℕ) (scope_key summary : String) (expected through : ℕ) (db : Db)
    → Linear db
    → Sound (update_summary now scope_key summary expected through db)
unfolding update_summary update_at
update_summary-Sound now scope_key summary expected through db was =
    elim (Option-cases (find_scope scope_key db.conversations)) [
      | inl miss ↦ rw (miss, update_summary) was
      | inr ((id, c), found) ↦
          let stale =
            not (c.summary_version == expected) || leb through c.summary_through_sequence in
          let (c', hit) = find_scope-lookup scope_key db.conversations id c found in
          elim (Bool-cases stale) [
            | inl old ↦ rw (found, old, update_summary) was
            | inr current ↦
                rw (found, current, update_summary)
                  (Linear-summarised now summary expected through id c' db hit was)
          ]
    ]

pub delete-Sound : (id : String) (db : Db) → Linear db → Sound (delete id db)
unfolding delete
delete-Sound id db was = elim (Option-cases (lookup id db.conversations)) [
  | inl miss ↦ rw (miss, delete) was
  | inr (c, hit) ↦ rw (hit, delete) (delete_conversation-Linear id db was)
]

pub delete_by_knowledge_base-Sound :
    (kb : String) (db : Db) → Linear db → Sound (delete_by_knowledge_base kb db)
unfolding delete_by_knowledge_base
delete_by_knowledge_base-Sound kb db was = delete_conversations-Linear _ db was
