-- ===== src/History/Leases.antt =====
-- What a commit writes, who may commit, and what a repeated commit answers.
pub mod Replay
pub mod Fence
pub mod Holder
use raguardian.Prelude.{
  ℕ, String, ◌≡◌, refl, ap, ◌∙◌, inl, inr, false, not, some, List, arith, Bool-cases, Option-cases,
  option_same_iff, ◌==◌, nat_eq, string_eq, option_eq, pair_eq,
}
use raguardian.Prelude.Results.{ok, Ensures, Ensures-raise_if, Ensures-bind, Ensures-eq-ok}
use raguardian.Dict.{lookup}
use raguardian.History.{
  Conversation, complete, Turn, Message, Db, Limits, is_status, get_turn_for_update,
  messages_for_turn,
}
use raguardian.History.Commit.{
  Completion, Outcome, replayed, committed, validate_json_field, content_too_long, turn_bytes,
  over_quota, violates, written, commit, complete_open, complete_row, complete_turn,
}
use raguardian.History.Linear.Keeps.Later.{get_turn_for_update-lookup}

-- A commit that took place: its conversation, its row and the texts that were encoded.
pub record Writes (collapse : String → String) (l : Limits) (now : ℕ) (c : Completion) (db : Db)
    (ms : List Message) (db' : Db) : Type 0 where
  pub id : String
  pub row : Turn
  pub conv : Conversation
  pub sources : String
  pub metadata : String
  pub prompt_ref : String
  pub found : get_turn_for_update c.scope_key c.turn_id db ≡ some ((id, c.turn_id), row)
  pub open_row : is_status row.status complete ≡ false
  pub holder : row.lease_token ≡ some c.lease_token
  pub stored : lookup id db.conversations ≡ some conv
  pub under : over_quota l id conv (turn_bytes c sources metadata) db ≡ false
  pub free : violates id c db ≡ false
  pub tables : db' ≡ written collapse now c sources metadata prompt_ref id conv db
  pub answer : ms ≡ messages_for_turn id c.turn_id db'

-- What holds if an outcome is returned.
abbrev pub Traced : (String → String) → Limits → ℕ → Completion → Db → Outcome × Db → Type 0
Traced collapse l now c db (replayed ms, db') = Unit
Traced collapse l now c db (committed s n b title ms, db') = Writes collapse l now c db ms db'

complete_open-Traced :
    (collapse : String → String) (l : Limits) (now : ℕ) (c : Completion)
    (sources metadata prompt_ref id : String) (t : Turn) (db : Db)
    → get_turn_for_update c.scope_key c.turn_id db ≡ some ((id, c.turn_id), t)
    → is_status t.status complete ≡ false
    → Ensures
        (Traced collapse l now c db)
        (complete_open collapse l now c sources metadata prompt_ref (id, c.turn_id) t db)
unfolding complete_open commit
complete_open-Traced collapse l now c sources metadata prompt_ref id t db found pending =
    Ensures-raise_if _ (not (t.lease_token == some c.lease_token)) _ _ (λ held.
      Ensures-raise_if _ (not (t.request_fingerprint == c.request_fingerprint)) _ _ (λ _.
        elim (Option-cases (lookup id db.conversations)) [
          | inl miss ↦ rw miss tt
          | inr (conv, hit) ↦ rw hit (
              Ensures-raise_if _ (over_quota l id conv (turn_bytes c sources metadata) db) _ _
                (λ under. Ensures-raise_if _ (violates id c db) _ _ (λ free. record {
                  id = id;
                  row = t;
                  conv = conv;
                  sources = sources;
                  metadata = metadata;
                  prompt_ref = prompt_ref;
                  found = found;
                  open_row = pending;
                  holder = ground (arith, held, option_same_iff t.lease_token (some c.lease_token));
                  stored = hit;
                  under = under;
                  free = free;
                  tables = refl;
                  answer = refl;
                })))
        ]))

complete_row-Traced :
    (collapse : String → String) (l : Limits) (now : ℕ) (c : Completion)
    (sources metadata prompt_ref : String) (db : Db)
    → Ensures
        (Traced collapse l now c db)
        (complete_row collapse l now c sources metadata prompt_ref db)
unfolding complete_row
complete_row-Traced collapse l now c sources metadata prompt_ref db =
    elim (Option-cases (get_turn_for_update c.scope_key c.turn_id db)) [
      | inl miss ↦ rw (miss, complete_row) tt
      | inr (((id, turn_id), t), found) ↦ elim (Bool-cases (is_status t.status complete)) [
        | inl done ↦ rw (found, done, complete_row) tt
        | inr pending ↦
            let (_, same) =
              get_turn_for_update-lookup c.scope_key c.turn_id db (id, turn_id) t found in
            let found' : get_turn_for_update c.scope_key c.turn_id db ≡ some ((id, c.turn_id), t) =
              found ∙ ap (λ i. some ((id, i), t)) same in
            rw (found', pending, complete_row)
              (complete_open-Traced collapse l now c sources metadata prompt_ref id t db found'
                pending)
      ]
    ]

pub complete_turn-Traced :
    (collapse : String → String) (l : Limits) (now : ℕ) (c : Completion) (db : Db)
    → Ensures (Traced collapse l now c db) (complete_turn collapse l now c db)
unfolding complete_turn
complete_turn-Traced collapse l now c db = Ensures-raise_if _ (content_too_long l c) _ _ (λ _.
    Ensures-bind _ (validate_json_field c.sources l.max_sources_bytes_per_turn) _ (λ sources _.
      Ensures-bind _ (validate_json_field c.metadata l.max_metadata_bytes_per_turn) _ (λ metadata _.
        Ensures-bind _ (validate_json_field c.prompt_ref 65536) _
          (λ prompt_ref _. complete_row-Traced collapse l now c sources metadata prompt_ref db))))

pub complete_turn-Writes :
    (collapse : String → String) (l : Limits) (now : ℕ) (c : Completion) (db db' : Db) (s n b : ℕ)
    (title : String) (ms : List Message)
    → complete_turn collapse l now c db ≡ ok (committed s n b title ms, db')
    → Writes collapse l now c db ms db'
complete_turn-Writes collapse l now c db db' s n b title ms h =
    Ensures-eq-ok (Traced collapse l now c db) _ (committed s n b title ms, db')
      (complete_turn-Traced collapse l now c db) h
