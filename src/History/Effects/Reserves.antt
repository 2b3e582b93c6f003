-- ===== src/History/Effects/Reserves.antt =====
-- The calls up to the commit of a turn, as steps of Effects.
use raguardian.Prelude.{
  ℕ, String, ◌≡◌, refl, sym, ap, ◌∙◌, inl, inr, false, not, none, some, arith, Bool-cases,
  Option-cases, ◌==◌, nat_eq, string_eq, option_eq, pair_eq,
}
use raguardian.Prelude.Results.{
  Result, Ensures, Ensures-raise_if, Ensures-bind, Ensures-eq-ok, Ensures-mono,
}
use raguardian.Dict.{Dict, lookup, insert}
use raguardian.Dict.Sums.{total-insert}
use raguardian.History.{
  Status, generating, ready, complete, failed, Turn, KbLink, Db, Limits, Error, find_scope,
}
use raguardian.History.Cleanup.{cleanup_expired_locked}
use raguardian.History.Turns.{
  Request, Reply, over_conversation_quota, new_conversation, get_or_create_conversation,
  associate_knowledge_bases, assert_linear_parent, over_pending_quota, parent_claimed, take_lease,
  lease_lapsed, retry_failed, resume, handle_existing_turn, reserve, begin_in, is_malformed,
  begin_turn,
}
use raguardian.History.Effects.{unfinished, Effect, stays, turned, opened, both}
use raguardian.History.Effects.Calls.{pending-count, set_turn-Effect, cleanup-Effect}

module _ (collapse : String → String) (l : Limits) where
  insert-Effect :
      (kbs : Dict (String × String) KbLink) (k : String × String) (t : Turn) (db : Db)
      → lookup k db.turns ≡ none
      → over_pending_quota l db ≡ false
      → Effect collapse l db (record db { knowledge_bases = kbs; turns = insert k t db.turns })
  unfolding over_pending_quota
  insert-Effect kbs k t db fresh under = turned kbs (insert k t db.turns) db (λ on.
      ground
        (arith, total-insert unfinished k t db.turns, fresh, pending-count db.turns, under, on))

  retry_failed-Effect :
      (now : ℕ) (token : String) (k : String × String) (t : Turn) (db : Db)
      → lookup k db.turns ≡ some t
      → t.status ≡ failed
      → Ensures (λ x. Effect collapse l db x.1) (retry_failed l now token k t db)
  unfolding retry_failed take_lease
  retry_failed-Effect now token k t db h e =
      Ensures-bind _ (assert_linear_parent k.0 t.parent_turn_id db) _ (λ u linear.
        Ensures-raise_if _ (parent_claimed k t.parent_turn_id db) _ _ (λ free.
          set_turn-Effect collapse l k _ db (λ t' h'.
            let same : t ≡ t' = ground (arith, h, h') in
            let was : t'.status ≡ failed = sym (ap (λ x. x.status) same) ∙ e in
            ground (arith, was))))

  resume-Effect :
      (now : ℕ) (token : String) (k : String × String) (t : Turn) (s : Status) (db : Db)
      → lookup k db.turns ≡ some t
      → t.status ≡ s
      → Ensures (λ x. Effect collapse l db x.1) (resume l now token k t s db)
  unfolding resume
  resume-Effect now token k t complete db h e = stays db
  resume-Effect now token k t ready db h e = stays db
  resume-Effect now token k t failed db h e = retry_failed-Effect now token k t db h e
  resume-Effect now token k t generating db h e = elim (Bool-cases (lease_lapsed now t)) [
    | inl lapsed ↦ rw (lapsed, resume) (set_turn-Effect collapse l k _ db (λ t' h'. omega arith))
    | inr held ↦ rw (held, resume) tt
  ]

  links_change :
      (kbs : Dict (String × String) KbLink) (db : Db)
      → Effect collapse l db (record db { knowledge_bases = kbs })
  links_change kbs db = turned kbs db.turns db (λ on. omega arith)

  reserve-Effect :
      (now : ℕ) (r : Request) (id : String) (db : Db)
      → lookup (id, r.turn_id) db.turns ≡ none
      → Ensures (λ x. Effect collapse l db x.1) (reserve l now r id db)
  unfolding reserve
  reserve-Effect now r id db fresh =
      Ensures-bind _ (assert_linear_parent id r.parent_turn_id db) _ (λ u linear.
        Ensures-raise_if _ (over_pending_quota l db) _ _ (λ under.
          Ensures-raise_if _ (parent_claimed (id, r.turn_id) r.parent_turn_id db) _ _
            (λ free. insert-Effect db.knowledge_bases (id, r.turn_id) _ db fresh under)))

  linked :
      (kbs : Dict (String × String) KbLink) (db : Db) (m : Result Error (Reply × Db))
      → Ensures (λ x. Effect collapse l (record db { knowledge_bases = kbs }) x.1) m
      → Ensures (λ x. Effect collapse l db x.1) m
  linked kbs db m h =
      Ensures-mono (λ (x : Reply × Db). Effect collapse l (record db { knowledge_bases = kbs }) x.1)
        (λ x. Effect collapse l db x.1) (λ x e. both (links_change kbs db) e) m h

  handle_existing_turn-Effect :
      (now : ℕ) (r : Request) (k : String × String) (t : Turn) (db : Db)
      → lookup k db.turns ≡ some t
      → Ensures (λ x. Effect collapse l db x.1) (handle_existing_turn l now r k t db)
  unfolding handle_existing_turn
  handle_existing_turn-Effect now r k t db hit =
      Ensures-raise_if _ (not (t.request_fingerprint == r.request_fingerprint)) _ _
        (λ _. resume-Effect now r.new_lease_token k t t.status db hit refl)

  begin_in-Effect :
      (now : ℕ) (r : Request) (id : String) (db : Db)
      → Ensures (λ x. Effect collapse l db x.1) (begin_in l now r id db)
  unfolding begin_in
  begin_in-Effect now r id db =
      let kbs = associate_knowledge_bases id r.selected_knowledge_base_ids now db.knowledge_bases in
      let db' : Db = record db { knowledge_bases = kbs } in
      elim (Option-cases (lookup (id, r.turn_id) db.turns)) [
        | inl miss ↦
            rw (miss, begin_in)
              (linked kbs db (reserve l now r id db') (reserve-Effect now r id db' miss))
        | inr (t, hit) ↦
            rw (hit, begin_in)
              (linked kbs db (handle_existing_turn l now r (id, r.turn_id) t db')
                (handle_existing_turn-Effect now r (id, r.turn_id) t db' hit))
      ]

  get_or_create-Effect :
      (now : ℕ) (r : Request) (db : Db)
      → Ensures (λ x. Effect collapse l db x.1) (get_or_create_conversation now r db)
  unfolding get_or_create_conversation new_conversation
  get_or_create-Effect now r db = elim (Option-cases (find_scope r.scope_key db.conversations)) [
    | inl new ↦ elim (Option-cases (lookup r.new_id db.conversations)) [
      | inl fresh ↦
          rw (new, fresh, get_or_create_conversation) (opened r.new_id _ db fresh refl refl refl)
      | inr (c, taken) ↦ rw (new, taken, get_or_create_conversation) tt
    ]
    | inr ((id, c), found) ↦ elim (Bool-cases c.archived) [
      | inl old ↦ rw (found, old, get_or_create_conversation) tt
      | inr current ↦ rw (found, current, get_or_create_conversation) (stays db)
    ]
  ]

  pub begin_turn-Effect :
      (now : ℕ) (r : Request) (db : Db)
      → Ensures (λ x. Effect collapse l db x.1) (begin_turn l now r db)
  unfolding begin_turn
  begin_turn-Effect now r db =
      let db1 = (cleanup_expired_locked l now db).1 in
      Ensures-raise_if _ (is_malformed r) _ _ (λ _.
        Ensures-raise_if _ (over_conversation_quota l r.scope_key db1) _ _ (λ _.
          Ensures-bind _ (get_or_create_conversation now r db1) _ (λ created e.
            let fx =
              Ensures-eq-ok (λ x. Effect collapse l db1 x.1) _ created
                (get_or_create-Effect now r db1) e in
            Ensures-bind _ (begin_in l now r created.0.0 created.1) _ (λ begun e'.
              both (cleanup-Effect collapse l now db) (
                both fx (
                  Ensures-eq-ok (λ x. Effect collapse l created.1 x.1) _ begun
                    (begin_in-Effect now r created.0.0 created.1) e'))))))
