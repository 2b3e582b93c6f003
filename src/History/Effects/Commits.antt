-- ===== src/History/Effects/Commits.antt =====
-- The commit of a turn and the other calls, as steps of Effects, and all that can be reached.
use raguardian.Prelude.{
  ℕ, String, ◌≡◌, refl, ap, inl, inr, Bool, false, not, ◌&&◌, ◌||◌, Option, none, some, arith, leb,
  Bool-cases, Option-cases, ◌==◌, nat_eq, string_eq, option_eq, pair_eq,
}
use raguardian.Prelude.Results.{Ensures, Ensures-raise_if, Ensures-bind}
use raguardian.Dict.{lookup, update_at}
use raguardian.History.{
  Conversation, ready, complete, Turn, Db, Limits, is_status, find_scope, get_turn_for_update,
  has_active_turn,
}
use raguardian.History.Cleanup.{has_expired, fail_lease}
use raguardian.History.Turns.Held.{recover_row, recover_ready_turn, reset_continuity}
use raguardian.History.Commit.{
  Completion, validate_json_field, content_too_long, turn_bytes, over_quota, violates, commit,
  complete_open, complete_row, complete_turn,
}
use raguardian.History.Edits.{
  bad_title, edited, update_conversation, summarised, update_summary, delete,
}
use raguardian.History.Linear.Keeps.Begin.{find_scope-lookup}
use raguardian.History.Linear.Keeps.Later.{get_turn_for_update-lookup}
use raguardian.History.Effects.{unfinished, pending, Effect, stays, drops, changed, commits}
use raguardian.History.Effects.Calls.{total-map_values-le, turns_change, set_turn-Effect}

module _ (collapse : String → String) (l : Limits) where
  complete_open-Effect :
      (now : ℕ) (c : Completion) (sources metadata prompt_ref : String) (k : String × String)
      (t : Turn) (db : Db)
      → Ensures
          (λ x. Effect collapse l db x.1)
          (complete_open collapse l now c sources metadata prompt_ref k t db)
  unfolding complete_open commit
  complete_open-Effect now c sources metadata prompt_ref k t db =
      Ensures-raise_if _ (not (t.lease_token == some c.lease_token)) _ _ (λ _.
        Ensures-raise_if _ (not (t.request_fingerprint == c.request_fingerprint)) _ _ (λ _.
          elim (Option-cases (lookup k.0 db.conversations)) [
            | inl miss ↦ rw miss tt
            | inr (conv, hit) ↦ rw hit (
                Ensures-raise_if _ (over_quota l k.0 conv (turn_bytes c sources metadata) db) _ _
                  (λ under.
                    Ensures-raise_if _ (violates k.0 c db) _ _ (λ free.
                      commits now c sources metadata prompt_ref k.0 conv db hit under free)))
          ]))

  complete_row-Effect :
      (now : ℕ) (c : Completion) (sources metadata prompt_ref : String) (db : Db)
      → Ensures
          (λ x. Effect collapse l db x.1)
          (complete_row collapse l now c sources metadata prompt_ref db)
  unfolding complete_row
  complete_row-Effect now c sources metadata prompt_ref db =
      elim (Option-cases (get_turn_for_update c.scope_key c.turn_id db)) [
        | inl miss ↦ rw (miss, complete_row) tt
        | inr ((k, t), found) ↦ elim (Bool-cases (is_status t.status complete)) [
          | inl done ↦ rw (found, done, complete_row) (stays db)
          | inr pending ↦
              rw (found, pending, complete_row)
                (complete_open-Effect now c sources metadata prompt_ref k t db)
        ]
      ]

  pub complete_turn-Effect :
      (now : ℕ) (c : Completion) (db : Db)
      → Ensures (λ x. Effect collapse l db x.1) (complete_turn collapse l now c db)
  unfolding complete_turn
  complete_turn-Effect now c db = Ensures-raise_if _ (content_too_long l c) _ _ (λ _.
      Ensures-bind _ (validate_json_field c.sources l.max_sources_bytes_per_turn) _ (λ sources _.
        Ensures-bind _ (validate_json_field c.metadata l.max_metadata_bytes_per_turn) _
          (λ metadata _.
            Ensures-bind _ (validate_json_field c.prompt_ref 65536) _
              (λ prompt_ref _. complete_row-Effect now c sources metadata prompt_ref db))))

  pub recover_ready_turn-Effect :
      (now : ℕ) (s turn_id fingerprint : String) (expected : Option String) (token : String)
      (db : Db)
      → Ensures
          (λ x. Effect collapse l db x.1)
          (recover_ready_turn l now s turn_id fingerprint expected token db)
  unfolding recover_ready_turn recover_row
  recover_ready_turn-Effect now s turn_id fingerprint expected token db =
      elim (Option-cases (get_turn_for_update s turn_id db)) [
        | inl miss ↦ rw (miss, recover_ready_turn) tt
        | inr ((k, t), found) ↦
            let (h, _) = get_turn_for_update-lookup s turn_id db k t found in
            elim (Bool-cases (is_status t.status complete)) [
              | inl done ↦
                  rw (found, done, recover_ready_turn)
                    (Ensures-raise_if _ (not (t.request_fingerprint == fingerprint)) _ _
                      (λ _. stays db))
              | inr going ↦
                  rw (found, going, recover_ready_turn)
                    (Ensures-raise_if _ (not (t.request_fingerprint == fingerprint)) _ _ (λ _.
                      Ensures-raise_if _ (not (is_status t.status ready)) _ _ (λ staged.
                        Ensures-raise_if _ (not (t.lease_token == expected)) _ _ (λ _.
                          set_turn-Effect collapse l k _ db (λ t' h'.
                            let e : t ≡ t' = ground (arith, h, h') in
                            ground (arith, ap (λ x. x.status) e, going))))))
            ]
      ]

  pub reset_continuity-Effect :
      (now : ℕ) (id : String) (db : Db)
      → Ensures (λ x. Effect collapse l db x.1) (reset_continuity now id db)
  unfolding reset_continuity has_expired fail_lease
  reset_continuity-Effect now id db = elim (Option-cases (lookup id db.conversations)) [
    | inl miss ↦ rw (miss, reset_continuity) tt
    | inr (c, hit) ↦
        rw (hit, reset_continuity)
          (turns_change collapse l _ db
            (total-map_values-le unfinished _ db.turns (λ k t. ground arith)))
  ]

  pub update_conversation-Effect :
      (now : ℕ) (id : String) (title : Option String) (archived : Option Bool) (db : Db)
      → Ensures (λ x. Effect collapse l db x.1) (update_conversation now id title archived db)
  unfolding update_conversation edited
  update_conversation-Effect now id title archived db =
      Ensures-raise_if _ (bad_title title) _ _ (λ _.
        elim (Option-cases (lookup id db.conversations)) [
          | inl miss ↦ rw miss tt
          | inr (c, hit) ↦ rw hit (
              Ensures-raise_if _
                (elim archived [ none ↦ false | some a ↦ a ] && has_active_turn id db) _ _
                (λ _. changed id c (edited now title archived c) db hit refl refl refl))
        ])

  summarised-Effect :
      (now : ℕ) (summary : String) (expected through : ℕ) (id : String) (c : Conversation) (db : Db)
      → lookup id db.conversations ≡ some c
      → Effect collapse l db (record db {
        conversations = update_at id (summarised now summary expected through) db.conversations;
      })
  unfolding update_at summarised
  summarised-Effect now summary expected through id c db hit =
      rw (hit, update_at) (changed id c _ db hit refl refl refl)

  pub update_summary-Effect :
      (now : ℕ) (scope_key summary : String) (expected through : ℕ) (db : Db)
      → Ensures
          (λ x. Effect collapse l db x.1)
          (update_summary now scope_key summary expected through db)
  unfolding update_summary
  update_summary-Effect now scope_key summary expected through db =
      elim (Option-cases (find_scope scope_key db.conversations)) [
        | inl miss ↦ rw (miss, update_summary) (stays db)
        | inr ((id, c), found) ↦
            let stale =
              not (c.summary_version == expected) || leb through c.summary_through_sequence in
            let (c', hit) = find_scope-lookup scope_key db.conversations id c found in
            elim (Bool-cases stale) [
              | inl old ↦ rw (found, old, update_summary) (stays db)
              | inr current ↦
                  rw (found, current, update_summary)
                    (summarised-Effect now summary expected through id c' db hit)
            ]
      ]

  pub delete-Effect :
      (id : String) (db : Db) → Ensures (λ x. Effect collapse l db x.1) (delete id db)
  unfolding delete
  delete-Effect id db = elim (Option-cases (lookup id db.conversations)) [
    | inl miss ↦ rw (miss, delete) (stays db)
    | inr (c, hit) ↦ rw (hit, delete) (drops id db)
  ]
