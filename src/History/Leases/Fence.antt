-- ===== src/History/Leases/Fence.antt =====
-- A turn that is begun has the new lease, and whoever does not hold the lease of a turn cannot change it.
use raguardian.Prelude.{
  ℕ, ◌+◌, String, ◌≡◌, refl, inl, inr, not, none, some, [], ◌∷◌, arith, Bool-cases, Option-cases,
  text_eq_iff, ◌==◌, nat_eq, string_eq, option_eq, pair_eq,
}
use raguardian.Prelude.Results.{ok, Ensures, Ensures-raise_if, Ensures-bind, Ensures-eq-ok}
use raguardian.Dict.{Dict, lookup, insert, update_at}
use raguardian.Dict.Laws.{lookup-insert}
use raguardian.Dict.Tables.{lookup-update_at}
use raguardian.History.{
  Conversation, Status, generating, ready, complete, failed, Turn, Db, Limits, find_scope,
  get_turn_for_update,
}
use raguardian.History.Turns.{
  Request, Reply, new_lease, replay_ready, replay_complete, over_conversation_quota,
  new_conversation, get_or_create_conversation, assert_linear_parent, over_pending_quota,
  parent_claimed, set_turn, take_lease, lease_lapsed, retry_failed, resume, handle_existing_turn,
  reserved, reserve, begin_in, is_malformed, begin_turn,
}
use raguardian.History.Cleanup.{cleanup_expired_locked}
use raguardian.Clock.{seconds}
use raguardian.History.Leases.Replay.{get_turn_for_update-hit}

-- The row of a turn under a lease.
abbrev pub Leased : Limits → ℕ → String → String → String → Db → Type 0
Leased l now scope_key turn_id token db =
    (k : String × String) × (t : Turn) × (get_turn_for_update scope_key turn_id db ≡ some (k, t))
    × (t.status ≡ generating)
    × (t.lease_token ≡ some token)
    × (t.lease_expires_at ≡ some (now + seconds l.lease_seconds))

-- What the reply `new_lease` promises.
abbrev pub Issued : Limits → ℕ → String → String → Reply → Db → Type 0
Issued l now scope_key turn_id (new_lease token expires) db =
    (expires ≡ now + seconds l.lease_seconds) × Leased l now scope_key turn_id token db
Issued l now scope_key turn_id (replay_ready a b c) db = Unit
Issued l now scope_key turn_id (replay_complete ms) db = Unit

module _ (l : Limits) (now : ℕ) (s turn_id : String) where
  -- The row of a new lease is set.
  set_turn-Leased :
      (id token : String) (c : Conversation) (t : Turn) (f : Turn → Turn) (db : Db)
      → find_scope s db.conversations ≡ some (id, c)
      → lookup (id, turn_id) db.turns ≡ some t
      → (f t).status ≡ generating
      → (f t).lease_token ≡ some token
      → (f t).lease_expires_at ≡ some (now + seconds l.lease_seconds)
      → Leased l now s turn_id token (set_turn (id, turn_id) f db)
  unfolding set_turn
  set_turn-Leased id token c t f db found hit going held until = (
    (id, turn_id),
    f t,
    get_turn_for_update-hit s turn_id id c
        (record db { turns = update_at (id, turn_id) f db.turns }) (f t) found
        (ground (
          arith,
          lookup-update_at (id, turn_id) (id, turn_id) f db.turns,
          hit,
          text_eq_iff id id,
          text_eq_iff turn_id turn_id,
        )),
    going,
    held,
    until,
  )

  resume-Issued :
      (id token : String) (c : Conversation) (t : Turn) (st : Status) (db : Db)
      → find_scope s db.conversations ≡ some (id, c)
      → lookup (id, turn_id) db.turns ≡ some t
      → t.status ≡ st
      → Ensures (λ x. Issued l now s turn_id x.0 x.1) (resume l now token (id, turn_id) t st db)
  unfolding resume retry_failed take_lease
  resume-Issued id token c t complete db found hit e = tt
  resume-Issued id token c t ready db found hit e = tt
  resume-Issued id token c t failed db found hit e =
      Ensures-bind _ (assert_linear_parent id t.parent_turn_id db) _ (λ u _.
        Ensures-raise_if _ (parent_claimed (id, turn_id) t.parent_turn_id db) _ _
          (λ _. (refl, set_turn-Leased id token c t _ db found hit refl refl refl)))
  resume-Issued id token c t generating db found hit e = elim (Bool-cases (lease_lapsed now t)) [
    | inl lapsed ↦
        rw (lapsed, resume) (refl, set_turn-Leased id token c t _ db found hit e refl refl)
    | inr held ↦ rw (held, resume) tt
  ]

reserve-Issued :
    (l : Limits) (now : ℕ) (r : Request) (id : String) (c : Conversation) (db : Db)
    → find_scope r.scope_key db.conversations ≡ some (id, c)
    → Ensures (λ x. Issued l now r.scope_key r.turn_id x.0 x.1) (reserve l now r id db)
unfolding reserve reserved
reserve-Issued l now r id c db found =
    Ensures-bind _ (assert_linear_parent id r.parent_turn_id db) _ (λ u _.
      Ensures-raise_if _ (over_pending_quota l db) _ _ (λ _.
        Ensures-raise_if _ (parent_claimed (id, r.turn_id) r.parent_turn_id db) _ _ (λ _. (
          refl,
          (
            (id, r.turn_id),
            reserved l now r,
            get_turn_for_update-hit r.scope_key r.turn_id id c
                (record db { turns = insert (id, r.turn_id) (reserved l now r) db.turns })
                (reserved l now r) found
                (ground (
                  arith,
                  lookup-insert (id, r.turn_id) (id, r.turn_id) (reserved l now r) db.turns,
                  text_eq_iff id id,
                  text_eq_iff r.turn_id r.turn_id,
                )),
            refl,
            refl,
            refl,
          ),
        ))))

begin_in-Issued :
    (l : Limits) (now : ℕ) (r : Request) (id : String) (c : Conversation) (db : Db)
    → find_scope r.scope_key db.conversations ≡ some (id, c)
    → Ensures (λ x. Issued l now r.scope_key r.turn_id x.0 x.1) (begin_in l now r id db)
unfolding begin_in handle_existing_turn
begin_in-Issued l now r id c db found = elim (Option-cases (lookup (id, r.turn_id) db.turns)) [
  | inl miss ↦ rw (miss, begin_in) (reserve-Issued l now r id c _ found)
  | inr (t, hit) ↦
      rw (hit, begin_in)
        (Ensures-raise_if _ (not (t.request_fingerprint == r.request_fingerprint)) _ _ (λ _.
          resume-Issued l now r.scope_key r.turn_id id r.new_lease_token c t t.status _ found hit
            refl))
]

-- A new conversation is the one its scope finds.
find_scope-new :
    (s : String) (d : Dict String Conversation) (id : String) (c : Conversation)
    → find_scope s d ≡ none
    → lookup id d ≡ none
    → c.scope_key ≡ s
    → find_scope s (insert id c d) ≡ some (id, c)
unfolding find_scope lookup insert
find_scope-new s [] id c h fresh e = ground (arith, e, text_eq_iff s s)
find_scope-new s ((i, x) ∷ d) id c h fresh e = ground (arith, find_scope-new s d id c, h, fresh, e)

get_or_create-scope :
    (now : ℕ) (r : Request) (db : Db)
    → Ensures
        (λ x. (c : Conversation) × (find_scope r.scope_key x.1.conversations ≡ some (x.0.0, c)))
        (get_or_create_conversation now r db)
unfolding get_or_create_conversation new_conversation
get_or_create-scope now r db = elim (Option-cases (find_scope r.scope_key db.conversations)) [
  | inl new ↦ elim (Option-cases (lookup r.new_id db.conversations)) [
    | inl fresh ↦
        rw (new, fresh, get_or_create_conversation)
          (_, find_scope-new r.scope_key db.conversations r.new_id _ new fresh refl)
    | inr (c, taken) ↦ rw (new, taken, get_or_create_conversation) tt
  ]
  | inr ((id, c), found) ↦ elim (Bool-cases c.archived) [
    | inl old ↦ rw (found, old, get_or_create_conversation) tt
    | inr current ↦ rw (found, current, get_or_create_conversation) (c, found)
  ]
]

begin_turn-Issued :
    (l : Limits) (now : ℕ) (r : Request) (db : Db)
    → Ensures (λ x. Issued l now r.scope_key r.turn_id x.0.0 x.1) (begin_turn l now r db)
unfolding begin_turn
begin_turn-Issued l now r db =
    let db1 = (cleanup_expired_locked l now db).1 in
    Ensures-raise_if _ (is_malformed r) _ _ (λ _.
      Ensures-raise_if _ (over_conversation_quota l r.scope_key db1) _ _ (λ _.
        Ensures-bind _ (get_or_create_conversation now r db1) _ (λ created e.
          let (c, found) = Ensures-eq-ok _ _ created (get_or_create-scope now r db1) e in
          Ensures-bind _ (begin_in l now r created.0.0 created.1) _ (λ begun e'.
            Ensures-eq-ok (λ x. Issued l now r.scope_key r.turn_id x.0 x.1) _ begun
              (begin_in-Issued l now r created.0.0 c created.1 found) e'))))

-- If `begin_turn` returns a new lease, then the row of the turn is stored as generating under exactly
-- this lease, which ends `lease_seconds` from now.
pub begin_turn-Leased :
    (l : Limits) (now : ℕ) (r : Request) (db db' : Db) (token : String) (expires : ℕ)
    (conv : Conversation)
    → begin_turn l now r db ≡ ok ((new_lease token expires, conv), db')
    → (expires ≡ now + seconds l.lease_seconds) × Leased l now r.scope_key r.turn_id token db'
begin_turn-Leased l now r db db' token expires conv h =
    Ensures-eq-ok (λ x. Issued l now r.scope_key r.turn_id x.0.0 x.1) _
      ((new_lease token expires, conv), db') (begin_turn-Issued l now r db) h
