-- ===== src/History/Leases/Replay.antt =====
-- A turn is committed once: the same call again answers with the same messages and writes nothing.
use raguardian.Prelude.{
  ℕ, String, ◌≡◌, refl, sym, ap, ◌∙◌, inl, inr, true, some, List, [], ◌∷◌, arith, Bool-cases,
  Option-cases, text_eq_iff, ◌==◌, nat_eq, string_eq, option_eq, pair_eq,
}
use raguardian.Prelude.Results.{ok, raise_if, bind-eq-ok}
use raguardian.Dict.{Dict, lookup, insert, Distinct}
use raguardian.Dict.Tables.{lookup-update_at}
use raguardian.History.{
  Conversation, complete, Turn, Message, Db, Limits, history_error, is_status, find_scope,
  get_turn_for_update, messages_for_turn,
}
use raguardian.History.Commit.{
  Completion, Outcome, replayed, committed, validate_json_field, content_too_long, turn_bytes,
  close_turn, commit_conversation, written, complete_row, complete_turn,
}
use raguardian.History.Linear.Keeps.Later.{get_turn_for_update-lookup}
use raguardian.History.Leases.{complete_turn-Writes}

-- The row that a scope finds is the one under its id.
pub find_scope-Distinct :
    (s : String) (d : Dict String Conversation) (id : String) (c : Conversation)
    → Distinct d
    → find_scope s d ≡ some (id, c)
    → (lookup id d ≡ some c) × (c.scope_key ≡ s)
unfolding find_scope lookup
find_scope-Distinct s [] id c distinct h = absurd (ground arith)
find_scope-Distinct s ((i, x) ∷ d) id c distinct h = elim (Bool-cases (x.scope_key == s)) [
  | inl here ↦
      let row : String × Conversation = (i, x) in
      let e : row ≡ (id, c) = ground (arith, h, here) in
      (
        ground (arith, ap (λ r. r.0) e, ap (λ r. r.1) e, text_eq_iff i id),
        sym (ap (λ r. r.1.scope_key) e) ∙ (text_eq_iff x.scope_key s).0 here,
      )
  | inr there ↦
      let (hit, scope) = find_scope-Distinct s d id c distinct.1 (ground (arith, h, there)) in
      (ground (arith, hit, distinct.0, text_eq_iff i id), scope)
]

-- It is found again after a change that leaves its scope.
pub find_scope-insert :
    (s : String) (d : Dict String Conversation) (id : String) (c c' : Conversation)
    → Distinct d
    → find_scope s d ≡ some (id, c)
    → c'.scope_key ≡ c.scope_key
    → find_scope s (insert id c' d) ≡ some (id, c')
unfolding find_scope insert
find_scope-insert s [] id c c' distinct h same = absurd (ground arith)
find_scope-insert s ((i, x) ∷ d) id c c' distinct h same = elim (Bool-cases (x.scope_key == s)) [
  | inl here ↦
      let row : String × Conversation = (i, x) in
      let e : row ≡ (id, c) = ground (arith, h, here) in
      ground (arith, ap (λ r. r.0) e, ap (λ r. r.1.scope_key) e, same, here, text_eq_iff i id)
  | inr there ↦
      let h' : find_scope s d ≡ some (id, c) = ground (arith, h, there) in
      let (hit, _) = find_scope-Distinct s d id c distinct.1 h' in
      ground (
        arith,
        find_scope-insert s d id c c' distinct.1 h' same,
        there,
        hit,
        distinct.0,
        text_eq_iff i id,
      )
]

-- The row of a turn, and its conversation.
pub get_turn_for_update-Distinct :
    (s turn_id : String) (db : Db) (k : String × String) (t : Turn)
    → Distinct db.conversations
    → get_turn_for_update s turn_id db ≡ some (k, t)
    → (c : Conversation) × (find_scope s db.conversations ≡ some (k.0, c))
unfolding get_turn_for_update
get_turn_for_update-Distinct s turn_id db k t distinct h =
    elim (Option-cases (find_scope s db.conversations)) [
      | inl miss ↦ absurd (ground (arith, miss, h))
      | inr ((id, c), found) ↦ elim (Option-cases (lookup (id, turn_id) db.turns)) [
        | inl miss ↦ absurd (ground (arith, found, miss, h))
        | inr (u, hit) ↦
            let row : (String × String) × Turn = ((id, turn_id), u) in
            let e : row ≡ (k, t) = ground (arith, found, hit, h) in
            (c, found ∙ ap (λ x. some (x.0.0, c)) e)
      ]
    ]

pub get_turn_for_update-hit :
    (s turn_id id : String) (c : Conversation) (db : Db) (t : Turn)
    → find_scope s db.conversations ≡ some (id, c)
    → lookup (id, turn_id) db.turns ≡ some t
    → get_turn_for_update s turn_id db ≡ some ((id, turn_id), t)
unfolding get_turn_for_update
get_turn_for_update-hit s turn_id id c db t found hit = rw (found, get_turn_for_update, hit) refl

-- The row of a committed turn is complete.
committed_complete :
    (collapse : String → String) (now : ℕ) (c : Completion)
    (sources metadata prompt_ref id : String) (t : Turn) (conv : Conversation) (db : Db)
    → Distinct db.conversations
    → get_turn_for_update c.scope_key c.turn_id db ≡ some ((id, c.turn_id), t)
    → lookup id db.conversations ≡ some conv
    → get_turn_for_update c.scope_key c.turn_id
        (written collapse now c sources metadata prompt_ref id conv db)
      ≡ some ((id, c.turn_id), close_turn now t)
unfolding written commit_conversation get_turn_for_update
committed_complete collapse now c sources metadata prompt_ref id t conv db distinct h stored =
    let (x, scoped) =
      get_turn_for_update-Distinct c.scope_key c.turn_id db (id, c.turn_id) t distinct h in
    let (hit, _) = find_scope-Distinct c.scope_key db.conversations id x distinct scoped in
    let next = commit_conversation collapse now c prompt_ref (turn_bytes c sources metadata) conv in
    let e : conv ≡ x = ground (arith, hit, stored) in
    let again =
      find_scope-insert c.scope_key db.conversations id x next distinct scoped
        (ap (λ c. c.scope_key) e) in
    let (row, _) = get_turn_for_update-lookup c.scope_key c.turn_id db (id, c.turn_id) t h in
    get_turn_for_update-hit c.scope_key c.turn_id id _
      (written collapse now c sources metadata prompt_ref id conv db) _ again
      (ground (
        arith,
        lookup-update_at (id, c.turn_id) (id, c.turn_id) (close_turn now) db.turns,
        row,
        text_eq_iff id id,
        text_eq_iff c.turn_id c.turn_id,
      ))

complete_row-replay :
    (collapse : String → String) (l : Limits) (now : ℕ) (c : Completion)
    (sources metadata prompt_ref id : String) (t : Turn) (db : Db)
    → get_turn_for_update c.scope_key c.turn_id db ≡ some ((id, c.turn_id), t)
    → is_status t.status complete ≡ true
    → complete_row collapse l now c sources metadata prompt_ref db
      ≡ ok (replayed (messages_for_turn id c.turn_id db), db)
unfolding complete_row
complete_row-replay collapse l now c sources metadata prompt_ref id t db found done =
    rw (found, done, complete_row) refl

-- The tests on the arguments pass again where they have passed.
passes_again :
    (collapse : String → String) (l : Limits) (now now' : ℕ) (c : Completion) (token : String)
    (db db' : Db) (x y : Outcome × Db)
    → complete_turn collapse l now c db ≡ ok x
    → ((sources metadata prompt_ref : String)
        → complete_row collapse l now'
            (record c { lease_token = token })
            sources
            metadata
            prompt_ref
            db'
          ≡ ok y)
    → complete_turn collapse l now' (record c { lease_token = token }) db' ≡ ok y
unfolding complete_turn content_too_long
passes_again collapse l now now' c token db db' x y h row =
    let (_, e1, h1) = bind-eq-ok (raise_if (content_too_long l c) history_error) _ x h in
    let (sources, e2, h2) =
      bind-eq-ok (validate_json_field c.sources l.max_sources_bytes_per_turn) _ x h1 in
    let (metadata, e3, h3) =
      bind-eq-ok (validate_json_field c.metadata l.max_metadata_bytes_per_turn) _ x h2 in
    let (prompt_ref, e4, h4) = bind-eq-ok (validate_json_field c.prompt_ref 65536) _ x h3 in
    rw (complete_turn, e1, e2, e3, e4) (row sources metadata prompt_ref)

-- If no id of a conversation stands twice and a call of `complete_turn` commits, the same call with any lease token at any later time answers
-- with the messages that were committed and changes nothing.
pub complete_turn-replay :
    (collapse : String → String) (l : Limits) (now now' : ℕ) (c : Completion) (token : String)
    (db db' : Db) (s n b : ℕ) (title : String) (ms : List Message)
    → Distinct db.conversations
    → complete_turn collapse l now c db ≡ ok (committed s n b title ms, db')
    → complete_turn collapse l now' (record c { lease_token = token }) db' ≡ ok (replayed ms, db')
unfolding close_turn
complete_turn-replay collapse l now now' c token db db' s n b title ms distinct h =
    let w = complete_turn-Writes collapse l now c db db' s n b title ms h in
    passes_again collapse l now now' c token db db' _ _ h (λ sources metadata prompt_ref.
      complete_row-replay collapse l now' (record c { lease_token = token }) sources metadata
        prompt_ref w.id (close_turn now w.row) db'
        (ap (get_turn_for_update c.scope_key c.turn_id) w.tables
          ∙ committed_complete collapse now c w.sources w.metadata w.prompt_ref w.id w.row w.conv db
              distinct w.found w.stored)
        refl
      ∙ ap (λ m. ok (replayed m, db')) (sym w.answer))
