-- ===== src/History/Linear/Keeps/Begin.antt =====
-- The reservation, the recovery and the holder's operations keep the line of a conversation.
use raguardian.Prelude.{
  ℕ, String, ◌≡◌, refl, ap, inl, inr, true, false, not, Option, some, [], ◌∷◌, arith, Bool-cases,
  Option-cases, text_eq_iff, option_same_iff, ◌==◌, nat_eq, string_eq, option_eq, pair_eq,
}
use raguardian.Prelude.Results.{ok, Ensures, Ensures-raise_if, Ensures-bind, Ensures-eq-ok}
use raguardian.Dict.{Dict, lookup, update_at}
use raguardian.Dict.Laws.{lookup-insert}
use raguardian.History.{
  Conversation, Status, generating, ready, complete, failed, Turn, Db, Limits, is_active,
  find_scope,
}
use raguardian.History.Cleanup.{cleanup_expired_locked}
use raguardian.History.Turns.{
  Request, over_conversation_quota, new_conversation, get_or_create_conversation, last_turn_of,
  assert_linear_parent, over_pending_quota, parent_claimed, set_turn, take_lease, lease_lapsed,
  retry_failed, resume, handle_existing_turn, reserved, reserve, begin_in, is_malformed, begin_turn,
}
use raguardian.History.Linear.Opens.{IsLinear-claims}
use raguardian.History.Linear.{alike}
use raguardian.History.Linear.Keeps.{Linear, Sound, cleanup-Linear, Linear-new, set_turn-Linear}

-- A conversation that is found by its scope can be looked up by its id.
pub find_scope-lookup :
    (s : String) (d : Dict String Conversation) (id : String) (c : Conversation)
    → find_scope s d ≡ some (id, c)
    → (c' : Conversation) × (lookup id d ≡ some c')
unfolding find_scope lookup
find_scope-lookup s [] id c h = absurd (ground arith)
find_scope-lookup s ((i, x) ∷ d) id c h = elim (Bool-cases (i == id)) [
  | inl here ↦ (x, ground (arith, here))
  | inr there ↦
      let (c', e) = find_scope-lookup s d id c (ground (arith, h, there, text_eq_iff i id)) in
      (c', ground (arith, there, e))
]

assert_linear_parent-ok :
    (id : String) (parent : Option String) (db : Db) (c : Conversation) (u : Unit {0})
    → lookup id db.conversations ≡ some c
    → assert_linear_parent id parent db ≡ ok u
    → parent ≡ c.last_turn_id
unfolding assert_linear_parent last_turn_of
assert_linear_parent-ok id parent db c u hc h =
    ground (arith, hc, h, option_same_iff c.last_turn_id parent)

reserve-Sound :
    (l : Limits) (now : ℕ) (r : Request) (id : String) (db : Db) (c : Conversation)
    → lookup id db.conversations ≡ some c
    → Linear db
    → Sound (reserve l now r id db)
unfolding reserve reserved parent_claimed
reserve-Sound l now r id db c hc was =
    Ensures-bind _ (assert_linear_parent id r.parent_turn_id db) _ (λ u linear.
      Ensures-raise_if _ (over_pending_quota l db) _ _ (λ _.
        Ensures-raise_if _ (parent_claimed (id, r.turn_id) r.parent_turn_id db) _ _ (λ free.
          IsLinear-claims db.conversations db.turns (id, r.turn_id) _ c was hc refl
            (assert_linear_parent-ok id r.parent_turn_id db c u hc linear) free)))

-- A row that is there opens again.
Linear-reopened :
    (k : String × String) (f : Turn → Turn) (t : Turn) (db : Db) (c : Conversation)
    → lookup k.0 db.conversations ≡ some c
    → lookup k db.turns ≡ some t
    → is_active (f t) ≡ true
    → (f t).parent_turn_id ≡ c.last_turn_id
    → parent_claimed k (f t).parent_turn_id db ≡ false
    → Linear db
    → Linear (set_turn k f db)
unfolding set_turn update_at parent_claimed
Linear-reopened k f t db c hc h live parent free was =
    rw (h, set_turn, update_at)
      (IsLinear-claims db.conversations db.turns k (f t) c was hc live parent free)

retry_failed-Sound :
    (l : Limits) (now : ℕ) (token : String) (k : String × String) (t : Turn) (db : Db)
    (c : Conversation)
    → lookup k.0 db.conversations ≡ some c
    → lookup k db.turns ≡ some t
    → Linear db
    → Sound (retry_failed l now token k t db)
unfolding retry_failed take_lease
retry_failed-Sound l now token k t db c hc h was =
    Ensures-bind _ (assert_linear_parent k.0 t.parent_turn_id db) _ (λ u linear.
      Ensures-raise_if _ (parent_claimed k t.parent_turn_id db) _ _ (λ free.
        Linear-reopened k _ t db c hc h refl
          (assert_linear_parent-ok k.0 t.parent_turn_id db c u hc linear) free was))

resume-Sound :
    (l : Limits) (now : ℕ) (token : String) (k : String × String) (t : Turn) (s : Status) (db : Db)
    (c : Conversation)
    → lookup k.0 db.conversations ≡ some c
    → lookup k db.turns ≡ some t
    → t.status ≡ s
    → Linear db
    → Sound (resume l now token k t s db)
unfolding resume
resume-Sound l now token k t complete db c hc h e was = was
resume-Sound l now token k t ready db c hc h e was = was
resume-Sound l now token k t failed db c hc h e was =
    retry_failed-Sound l now token k t db c hc h was
resume-Sound l now token k t generating db c hc h e was = elim (Bool-cases (lease_lapsed now t)) [
  | inl lapsed ↦ rw lapsed (
      set_turn-Linear k _ db
        (λ t' h'.
          let same : t ≡ t' = ground (arith, h, h') in
          alike t' h' refl refl (λ off. absurd (ground (arith, ap (λ x. x.status) same, e, off))))
        was)
  | inr held ↦ rw held tt
]

begin_in-Sound :
    (l : Limits) (now : ℕ) (r : Request) (id : String) (db : Db) (c : Conversation)
    → lookup id db.conversations ≡ some c
    → Linear db
    → Sound (begin_in l now r id db)
unfolding begin_in handle_existing_turn
begin_in-Sound l now r id db c hc was = elim (Option-cases (lookup (id, r.turn_id) db.turns)) [
  | inl miss ↦ rw (miss, begin_in) (reserve-Sound l now r id _ c hc was)
  | inr (t, hit) ↦
      rw (hit, begin_in)
        (Ensures-raise_if _ (not (t.request_fingerprint == r.request_fingerprint)) _ _ (λ _.
          resume-Sound l now r.new_lease_token (id, r.turn_id) t t.status _ c hc hit refl was))
]

get_or_create-Sound :
    (now : ℕ) (r : Request) (db : Db)
    → Linear db
    → Ensures
        (λ x. (c : Conversation) × (lookup x.0.0 x.1.conversations ≡ some c) × Linear x.1)
        (get_or_create_conversation now r db)
unfolding get_or_create_conversation
get_or_create-Sound now r db was = elim (Option-cases (find_scope r.scope_key db.conversations)) [
  | inl new ↦ elim (Option-cases (lookup r.new_id db.conversations)) [
    | inl fresh ↦
        rw (new, fresh, get_or_create_conversation)
          (
            new_conversation now r,
            ground (
              arith,
              lookup-insert r.new_id r.new_id (new_conversation now r) db.conversations,
              text_eq_iff r.new_id r.new_id,
            ),
            Linear-new r.new_id (new_conversation now r) db fresh was,
          )
    | inr (c, taken) ↦ rw (new, taken, get_or_create_conversation) tt
  ]
  | inr ((id, c), found) ↦ elim (Bool-cases c.archived) [
    | inl old ↦ rw (found, old, get_or_create_conversation) tt
    | inr current ↦
        let (c', hit) = find_scope-lookup r.scope_key db.conversations id c found in
        rw (found, current, get_or_create_conversation) (c', hit, was)
  ]
]

pub begin_turn-Sound :
    (l : Limits) (now : ℕ) (r : Request) (db : Db) → Linear db → Sound (begin_turn l now r db)
unfolding begin_turn
begin_turn-Sound l now r db was =
    let db1 = (cleanup_expired_locked l now db).1 in
    Ensures-raise_if _ (is_malformed r) _ _ (λ _.
      Ensures-raise_if _ (over_conversation_quota l r.scope_key db1) _ _ (λ _.
        Ensures-bind _ (get_or_create_conversation now r db1) _ (λ created e.
          let (c, hc, linear) =
            Ensures-eq-ok _ _ created (get_or_create-Sound now r db1 (cleanup-Linear l now db was))
              e in
          Ensures-bind _ (begin_in l now r created.0.0 created.1) _ (λ begun e'.
            Ensures-eq-ok (λ x. Linear x.1) _ begun
              (begin_in-Sound l now r created.0.0 created.1 c hc linear) e'))))
