-- ===== src/History/Linear/Keeps.antt =====
-- Each operation keeps the line of a conversation.
pub mod Begin
pub mod Later
pub mod Edited
use raguardian.Prelude.{
  ℕ, String, ◌≡◌, refl, inl, inr, none, some, List, [], ◌∷◌, arith, ltb, Bool-cases, Option-cases,
  text_eq_iff, ◌==◌, nat_eq, string_eq, option_eq, pair_eq,
}
use raguardian.Prelude.Results.{Result, Ensures}
use raguardian.Dict.{map_values, lookup, insert, erase_all}
use raguardian.Dict.Laws.{lookup-insert, lookup-erase, lookup-erase_all}
use raguardian.Dict.Tables.{lookup-map_values, lookup-without_keys}
use raguardian.History.{
  Conversation, failed, Turn, Db, Limits, Error, delete_conversation, delete_conversations,
}
use raguardian.History.Cleanup.{
  has_expired, fail_lease, expire_leases, retain_conversations, retain_turns, retain_stubs,
  cleanup_expired_locked,
}
use raguardian.History.Turns.{set_turn}
use raguardian.History.Linear.{
  Conversations, Turns, IsLinear, Row, shut, Kept, IsLinear-Kept, same-Row, Kept-update_at,
}

abbrev pub Linear : Db → Type 0
Linear db = IsLinear db.conversations db.turns

-- Whatever is committed is linear.
abbrev pub Sound : {A : Type 0} → Result Error (A × Db) → Type 0
Sound r = Ensures (λ x. Linear x.1) r

Kept-refl : (cs : Conversations) (ts : Turns) → Kept cs ts cs ts
Kept-refl cs ts = record { rows = λ k t h. same-Row ts k t h; lasts = λ k t h c hc. (c, hc, refl) }

-- Every row of the new table may be changed if it is closed or stays as open as it was.
pub Kept-map_values :
    (cs : Conversations) (ts : Turns) (f : String × String → Turn → Turn)
    → ((k : String × String) (t : Turn) → lookup k ts ≡ some t → Row ts k (f k t))
    → Kept cs ts cs (map_values f ts)
Kept-map_values cs ts f change = record {
  rows = λ k t h.
      let at = lookup-map_values f k ts in
      elim (Option-cases (lookup k ts)) [
        | inl miss ↦ absurd (ground (arith, at, miss, h))
        | inr (old, hit) ↦
            let is : f k old ≡ t = ground (arith, at, hit, h) in rw (← is) (change k old hit)
      ];
  lasts = λ k t h c hc. (c, hc, refl);
}

fail_lease-Row :
    (ts : Turns) (k : String × String) (t u : Turn)
    → u.status ≡ failed
    → u.lease_token ≡ none
    → Row ts k u
fail_lease-Row ts k t u e no_lease = shut (rw e refl) no_lease

pub expire_leases-Linear : (now : ℕ) (db : Db) → Linear db → Linear (expire_leases now db)
unfolding expire_leases fail_lease
expire_leases-Linear now db was =
    IsLinear-Kept db.conversations db.conversations db.turns _
      (Kept-map_values db.conversations db.turns _ (λ k t h. elim (Bool-cases (has_expired now t)) [
        | inl expired ↦ rw expired (shut refl refl)
        | inr running ↦ rw running (same-Row db.turns k t h)
      ]))
      was

Kept-delete_conversation :
    (id : String) (db : Db)
    → Kept db.conversations db.turns
        (delete_conversation id db).conversations
        (delete_conversation id db).turns
unfolding delete_conversation
Kept-delete_conversation id db = record {
  rows = λ k t h.
      same-Row db.turns k t (ground (arith, lookup-without_keys (λ j. j.0 == id) k db.turns, h));
  lasts = λ k t h c hc. (
    c,
    ground (
      arith,
      lookup-without_keys (λ j. j.0 == id) k db.turns,
      h,
      lookup-erase id k.0 db.conversations,
      hc,
      text_eq_iff id k.0,
      text_eq_iff k.0 id,
    ),
    refl,
  );
}

pub delete_conversation-Linear :
    (id : String) (db : Db) → Linear db → Linear (delete_conversation id db)
delete_conversation-Linear id db was =
    IsLinear-Kept db.conversations _ db.turns _ (Kept-delete_conversation id db) was

pub delete_conversations-Linear :
    (ids : List String) (db : Db) → Linear db → Linear (delete_conversations ids db)
unfolding delete_conversations
delete_conversations-Linear [] db was = was
delete_conversations-Linear (id ∷ ids) db was =
    delete_conversations-Linear ids (delete_conversation id db)
      (delete_conversation-Linear id db was)

retain_conversations-Linear :
    (n now : ℕ) (db : Db) → Linear db → Linear (retain_conversations n now db).1
unfolding retain_conversations
retain_conversations-Linear n now db was = elim (Bool-cases (ltb 0 n)) [
  | inl on ↦ rw on (delete_conversations-Linear _ db was)
  | inr off ↦ rw off was
]

retain_stubs-Linear : (n now : ℕ) (db : Db) → Linear db → Linear (retain_stubs n now db).1
unfolding retain_stubs
retain_stubs-Linear n now db was = elim (Bool-cases (ltb 0 n)) [
  | inl on ↦ rw on (delete_conversations-Linear _ db was)
  | inr off ↦ rw off was
]

Kept-erase_all :
    (cs : Conversations) (ts : Turns) (ks : List (String × String))
    → Kept cs ts cs (erase_all ks ts)
Kept-erase_all cs ts ks = record {
  rows = λ k t h. same-Row ts k t (ground (arith, lookup-erase_all ks k ts, h));
  lasts = λ k t h c hc. (c, hc, refl);
}

retain_turns-Linear : (n now : ℕ) (db : Db) → Linear db → Linear (retain_turns n now db).1
unfolding retain_turns
retain_turns-Linear n now db was = elim (Bool-cases (ltb 0 n)) [
  | inl on ↦ rw on (
      IsLinear-Kept db.conversations db.conversations db.turns _
        (Kept-erase_all db.conversations db.turns _) was)
  | inr off ↦ rw off was
]

pub cleanup-Linear :
    (l : Limits) (now : ℕ) (db : Db) → Linear db → Linear (cleanup_expired_locked l now db).1
unfolding cleanup_expired_locked
cleanup-Linear l now db was =
    let db0 = expire_leases now db in
    let db1 = (retain_conversations l.retention_days now db0).1 in
    let db2 = (retain_turns l.incomplete_turn_retention_days now db1).1 in
    retain_stubs-Linear l.incomplete_turn_retention_days now db2 (
      retain_turns-Linear l.incomplete_turn_retention_days now db1
        (retain_conversations-Linear l.retention_days now db0 (expire_leases-Linear now db was)))

-- A change of one conversation that leaves its last turn.
pub Linear-conversation :
    (id : String) (c c' : Conversation) (db : Db)
    → lookup id db.conversations ≡ some c
    → c'.last_turn_id ≡ c.last_turn_id
    → Linear db
    → IsLinear (insert id c' db.conversations) db.turns
Linear-conversation id c c' db hit same was =
    IsLinear-Kept db.conversations (insert id c' db.conversations) db.turns db.turns
      (record {
        rows = λ k t h. same-Row db.turns k t h;
        lasts = λ k t h x hx.
            let at = lookup-insert id k.0 c' db.conversations in
            elim (Bool-cases (id == k.0)) [
              | inl here ↦
                  let e : x ≡ c = ground (arith, hx, hit, text_eq_iff id k.0, here) in
                  (c', ground (arith, at, here), rw e same)
              | inr there ↦ (x, ground (arith, at, there, hx), refl)
            ];
      })
      was

-- A new conversation.
pub Linear-new :
    (id : String) (c : Conversation) (db : Db)
    → lookup id db.conversations ≡ none
    → Linear db
    → IsLinear (insert id c db.conversations) db.turns
Linear-new id c db fresh was =
    IsLinear-Kept db.conversations (insert id c db.conversations) db.turns db.turns
      (record {
        rows = λ k t h. same-Row db.turns k t h;
        lasts = λ k t h x hx. (
          x,
          ground (arith, lookup-insert id k.0 c db.conversations, hx, fresh, text_eq_iff id k.0),
          refl,
        );
      })
      was

pub set_turn-Linear :
    (k : String × String) (f : Turn → Turn) (db : Db)
    → ((t : Turn) → lookup k db.turns ≡ some t → Row db.turns k (f t))
    → Linear db
    → Linear (set_turn k f db)
unfolding set_turn
set_turn-Linear k f db change was =
    IsLinear-Kept db.conversations db.conversations db.turns _
      (Kept-update_at db.conversations db.turns k f change) was
