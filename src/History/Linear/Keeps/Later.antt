-- ===== src/History/Linear/Keeps/Later.antt =====
-- Whatever happens to a conversation after the reservation keeps its line.
use raguardian.Prelude.{
  ℕ, String, ◌≡◌, refl, sym, ap, ◌∙◌, inl, inr, Bool, true, false, not, ◌&&◌, Option, some, arith,
  Bool-cases, Option-cases, option_same_iff, ◌==◌, nat_eq, string_eq, option_eq, pair_eq,
}
use raguardian.Prelude.Results.{Ensures-raise_if, Ensures-bind}
use raguardian.Dict.{lookup}
use raguardian.History.{
  Conversation, ready, complete, Turn, Db, Limits, is_status, is_active, find_scope,
  get_turn_for_update,
}
use raguardian.History.Cleanup.{has_expired, fail_lease}
use raguardian.History.Turns.Held.{
  recover_row, recover_ready_turn, by_holder, mark_turn_ready, renew_turn_lease, fail_turn,
  reset_continuity,
}
use raguardian.History.Commit.{
  Completion, validate_json_field, content_too_long, turn_bytes, over_quota, close_turn, violates,
  written, commit, complete_open, complete_row, complete_turn,
}
use raguardian.History.Linear.Opens.{IsLinear-completes}
use raguardian.History.Linear.{Row, shut, alike, IsLinear-Kept, same-Row}
use raguardian.History.Linear.Keeps.{Linear, Sound, Kept-map_values, set_turn-Linear}

pub get_turn_for_update-lookup :
    (s turn_id : String) (db : Db) (k : String × String) (t : Turn)
    → get_turn_for_update s turn_id db ≡ some (k, t)
    → (lookup k db.turns ≡ some t) × (k.1 ≡ turn_id)
unfolding get_turn_for_update
get_turn_for_update-lookup s turn_id db k t h =
    elim (Option-cases (find_scope s db.conversations)) [
      | inl miss ↦ absurd (ground (arith, miss, h))
      | inr ((id, c), found) ↦ elim (Option-cases (lookup (id, turn_id) db.turns)) [
        | inl miss ↦ absurd (ground (arith, found, miss, h))
        | inr (u, hit) ↦
            let row : (String × String) × Turn = ((id, turn_id), u) in
            let e : row ≡ (k, t) = ground (arith, found, hit, h) in
            (
              sym (ap (λ x. lookup x.0 db.turns) e) ∙ hit ∙ ap (λ x. some x.1) e,
              sym (ap (λ x. x.0.1) e),
            )
      ]
    ]

by_holder-Sound :
    (s turn_id token : String) (allowed : Turn → Bool) (change : Turn → Turn) (db : Db)
    → ((k : String × String) (t : Turn)
        → lookup k db.turns ≡ some t
        → allowed t ≡ true
        → Row db.turns k (change t))
    → Linear db
    → Sound (by_holder s turn_id token allowed change db)
unfolding by_holder
by_holder-Sound s turn_id token allowed change db row was =
    elim (Option-cases (get_turn_for_update s turn_id db)) [
      | inl miss ↦ rw (miss, by_holder) was
      | inr ((k, t), found) ↦ elim (Bool-cases (t.lease_token == some token && allowed t)) [
        | inl held ↦
            rw (found, held, by_holder)
              (set_turn-Linear k change db
                (λ t' h'.
                  let (h, _) = get_turn_for_update-lookup s turn_id db k t found in
                  let e : t ≡ t' = ground (arith, h, h') in
                  row k t' h' (sym (ap allowed e) ∙ ground (arith, held)))
                was)
        | inr refused ↦ rw (found, refused, by_holder) was
      ]
    ]

pub mark_turn_ready-Sound :
    (now : ℕ) (s turn_id token digest : String) (db : Db)
    → Linear db
    → Sound (mark_turn_ready now s turn_id token digest db)
unfolding mark_turn_ready
mark_turn_ready-Sound now s turn_id token digest db was =
    by_holder-Sound s turn_id token _ _ db (λ k t h live. alike t h (sym live) refl (λ off. refl))
      was

pub renew_turn_lease-Sound :
    (l : Limits) (now : ℕ) (s turn_id token : String) (db : Db)
    → Linear db
    → Sound (renew_turn_lease l now s turn_id token db)
unfolding renew_turn_lease
renew_turn_lease-Sound l now s turn_id token db was =
    by_holder-Sound s turn_id token _ _ db (λ k t h live. alike t h refl refl (λ off. refl)) was

pub fail_turn-Sound :
    (now : ℕ) (s turn_id token : String) (db : Db)
    → Linear db
    → Sound (fail_turn now s turn_id token db)
unfolding fail_turn fail_lease
fail_turn-Sound now s turn_id token db was =
    by_holder-Sound s turn_id token _ _ db (λ k t h running. shut refl refl) was

recover_row-Sound :
    (l : Limits) (now : ℕ) (k : String × String) (t : Turn) (expected : Option String)
    (token : String) (db : Db)
    → lookup k db.turns ≡ some t
    → Linear db
    → Sound (recover_row l now k t expected token db)
unfolding recover_row
recover_row-Sound l now k t expected token db h was =
    Ensures-raise_if _ (not (is_status t.status ready)) _ _ (λ staged.
      Ensures-raise_if _ (not (t.lease_token == expected)) _ _ (λ _.
        set_turn-Linear k _ db
          (λ t' h'.
            let e : t ≡ t' = ground (arith, h, h') in
            let live : is_active t' ≡ true = ground (arith, ap (λ x. x.status) e, staged) in
            alike t' h' (sym live) refl (λ (off : true ≡ false). absurd (ground (arith, off))))
          was))

pub recover_ready_turn-Sound :
    (l : Limits) (now : ℕ) (s turn_id fingerprint : String) (expected : Option String)
    (token : String) (db : Db)
    → Linear db
    → Sound (recover_ready_turn l now s turn_id fingerprint expected token db)
unfolding recover_ready_turn
recover_ready_turn-Sound l now s turn_id fingerprint expected token db was =
    elim (Option-cases (get_turn_for_update s turn_id db)) [
      | inl miss ↦ rw (miss, recover_ready_turn) tt
      | inr ((k, t), found) ↦
          let (h, _) = get_turn_for_update-lookup s turn_id db k t found in
          let rest = recover_row-Sound l now k t expected token db h was in
          elim (Bool-cases (is_status t.status complete)) [
            | inl done ↦
                rw (found, done, recover_ready_turn)
                  (Ensures-raise_if _ (not (t.request_fingerprint == fingerprint)) _ _ (λ _. was))
            | inr pending ↦
                rw (found, pending, recover_ready_turn)
                  (Ensures-raise_if _ (not (t.request_fingerprint == fingerprint)) _ _ (λ _. rest))
          ]
    ]

pub reset_continuity-Sound :
    (now : ℕ) (id : String) (db : Db) → Linear db → Sound (reset_continuity now id db)
unfolding reset_continuity fail_lease
reset_continuity-Sound now id db was = elim (Option-cases (lookup id db.conversations)) [
  | inl miss ↦ rw (miss, reset_continuity) tt
  | inr (c, hit) ↦
      rw (hit, reset_continuity)
        (IsLinear-Kept db.conversations db.conversations db.turns _
          (Kept-map_values db.conversations db.turns _ (λ k t h.
            elim (Bool-cases (k.0 == id && has_expired now t)) [
              | inl lapsed ↦ rw lapsed (shut refl refl)
              | inr running ↦ rw running (same-Row db.turns k t h)
            ]))
          was)
]

commit-Sound :
    (collapse : String → String) (now : ℕ) (c : Completion)
    (sources metadata prompt_ref id : String) (t : Turn) (conv : Conversation) (db : Db)
    → lookup (id, c.turn_id) db.turns ≡ some t
    → is_active t ≡ true
    → Linear db
    → Sound (commit collapse now c sources metadata prompt_ref id conv db)
unfolding commit written close_turn
commit-Sound collapse now c sources metadata prompt_ref id t conv db h live was =
    Ensures-raise_if _ (violates id c db) _ _ (λ _.
      IsLinear-completes db.conversations db.turns (id, c.turn_id) t (close_turn now) _ was h live
        refl refl)

-- An open row is one that has a lease.
lease_held :
    (db : Db) (k : String × String) (t : Turn) (token : String)
    → Linear db
    → lookup k db.turns ≡ some t
    → not (t.lease_token == some token) ≡ false
    → is_active t ≡ true
lease_held db k t token was h held = elim (Bool-cases (is_active t)) [
  | inl live ↦ live
  | inr off ↦
      absurd
        (ground (arith, was.closed k t h off, held, option_same_iff t.lease_token (some token)))
]

complete_open-Sound :
    (collapse : String → String) (l : Limits) (now : ℕ) (c : Completion)
    (sources metadata prompt_ref : String) (k : String × String) (t : Turn) (db : Db)
    → lookup k db.turns ≡ some t
    → k.1 ≡ c.turn_id
    → Linear db
    → Sound (complete_open collapse l now c sources metadata prompt_ref k t db)
unfolding complete_open
complete_open-Sound collapse l now c sources metadata prompt_ref k t db h same was =
    Ensures-raise_if _ (not (t.lease_token == some c.lease_token)) _ _ (λ held.
      Ensures-raise_if _ (not (t.request_fingerprint == c.request_fingerprint)) _ _ (λ _.
        elim (Option-cases (lookup k.0 db.conversations)) [
          | inl miss ↦ rw miss tt
          | inr (conv, hit) ↦ rw hit (
              Ensures-raise_if _ (over_quota l k.0 conv (turn_bytes c sources metadata) db) _ _
                (λ _.
                  commit-Sound collapse now c sources metadata prompt_ref k.0 t conv db
                    (rw (← same) h) (lease_held db k t c.lease_token was h held) was))
        ]))

-- The part of `complete_turn` that reads the tables.
pub complete_row-Sound :
    (collapse : String → String) (l : Limits) (now : ℕ) (c : Completion)
    (sources metadata prompt_ref : String) (db : Db)
    → Linear db
    → Sound (complete_row collapse l now c sources metadata prompt_ref db)
unfolding complete_row
complete_row-Sound collapse l now c sources metadata prompt_ref db was =
    elim (Option-cases (get_turn_for_update c.scope_key c.turn_id db)) [
      | inl miss ↦ rw (miss, complete_row) tt
      | inr ((k, t), found) ↦ elim (Bool-cases (is_status t.status complete)) [
        | inl done ↦ rw (found, done, complete_row) was
        | inr pending ↦
            let (h, same) = get_turn_for_update-lookup c.scope_key c.turn_id db k t found in
            rw (found, pending, complete_row)
              (complete_open-Sound collapse l now c sources metadata prompt_ref k t db h same was)
      ]
    ]

pub complete_turn-Sound :
    (collapse : String → String) (l : Limits) (now : ℕ) (c : Completion) (db : Db)
    → Linear db
    → Sound (complete_turn collapse l now c db)
unfolding complete_turn
complete_turn-Sound collapse l now c db was = Ensures-raise_if _ (content_too_long l c) _ _ (λ _.
    Ensures-bind _ (validate_json_field c.sources l.max_sources_bytes_per_turn) _ (λ sources _.
      Ensures-bind _ (validate_json_field c.metadata l.max_metadata_bytes_per_turn) _ (λ metadata _.
        Ensures-bind _ (validate_json_field c.prompt_ref 65536) _ (λ prompt_ref _.
          complete_row-Sound collapse l now c sources metadata prompt_ref db was))))
