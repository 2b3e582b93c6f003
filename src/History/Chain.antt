-- ===== src/History/Chain.antt =====
-- A conversation grows in a line: what its open turns follow, in terms of its messages.
use raguardian.Prelude.{
  ℕ, String, ◌≡◌, refl, sym, ap, ◌∙◌, inl, inr, true, false, Option, none, some, List, [], ◌∷◌,
  ◌++◌, arith, Bool-cases, text_eq_iff, ◌==◌, nat_eq, string_eq, option_eq, pair_eq,
}
use raguardian.Dict.{Dict, lookup, insert, update_at}
use raguardian.Dict.Laws.{lookup-insert, lookup-erase}
use raguardian.History.{
  Conversation, Turn, Message, KbLink, Db, Limits, empty, is_active, delete_conversation,
}
use raguardian.History.Commit.{
  Completion, user_message, assistant_message, upsert_knowledge_bases, close_turn,
  commit_conversation, written,
}
use raguardian.History.Steps.{Reach, Reach-IsLinear}
use raguardian.History.Effects.{Effect, stays, drops, turned, opened, changed, commits, both}
use raguardian.History.Effects.Reached.{Reach-Effect}
use raguardian.History.Linear.{Turns}
use raguardian.History.Ledger.{owned, IsLedger, empty-IsLedger, owned-filter}
use raguardian.History.Ledger.Reached.{owned-append, Effect-IsLedger}

-- The turn of the last message.
abbrev pub last_turn : List Message → Option String
last_turn [] = none
last_turn (m ∷ ms) = elim (last_turn ms) [ none ↦ some m.turn_id | some t ↦ some t ]

-- An open turn is `generating` or `ready`.
pub record IsChained (db : Db) : Type 0 where
  pub follows :
      (k : String × String) (t : Turn)
      → lookup k db.turns ≡ some t
      → is_active t ≡ true
      → t.parent_turn_id ≡ last_turn (owned k.0 db.messages)
  pub single :
      (k k' : String × String) (t t' : Turn)
      → lookup k db.turns ≡ some t
      → lookup k' db.turns ≡ some t'
      → is_active t ≡ true
      → is_active t' ≡ true
      → k.0 ≡ k'.0
      → k ≡ k'
  pub closed :
      (k : String × String) (t : Turn)
      → lookup k db.turns ≡ some t
      → is_active t ≡ false
      → t.lease_token ≡ none

abbrev AtLast : Db → Type 0
AtLast db =
    (id : String) (c : Conversation)
    → lookup id db.conversations ≡ some c
    → c.last_turn_id ≡ last_turn (owned id db.messages)

last_turn-append :
    (ms : List Message) (q a : Message) → last_turn (ms ++ q ∷ a ∷ []) ≡ some a.turn_id
last_turn-append [] q a = refl
last_turn-append (m ∷ ms) q a = rw (last_turn-append ms q a) refl

placed-AtLast :
    (id : String) (c : Conversation) (db : Db)
    → c.last_turn_id ≡ last_turn (owned id db.messages)
    → AtLast db
    → AtLast (record db { conversations = insert id c db.conversations })
placed-AtLast id c db last was = λ j x h. elim (Bool-cases (id == j)) [
  | inl here ↦
      let e : c ≡ x = ground (arith, lookup-insert id j c db.conversations, h, here) in
      rw (← e, ← (text_eq_iff id j).0 here) last
  | inr there ↦ was j x (ground (arith, lookup-insert id j c db.conversations, h, there))
]

drops-AtLast : (id : String) (db : Db) → AtLast db → AtLast (delete_conversation id db)
unfolding delete_conversation
drops-AtLast id db was = λ j c h.
    ground (arith, owned-filter id j db.messages, lookup-erase id j db.conversations, h, was j c)

appended-AtLast :
    (id : String) (c : Conversation) (q a : Message) (ts : Turns)
    (kbs : Dict (String × String) KbLink) (db : Db)
    → q.conversation_id ≡ id
    → a.conversation_id ≡ id
    → c.last_turn_id ≡ some a.turn_id
    → AtLast db
    → AtLast (record {
      conversations = insert id c db.conversations;
      knowledge_bases = kbs;
      turns = ts;
      messages = db.messages ++ q ∷ a ∷ [];
    })
appended-AtLast id c q a ts kbs db hq ha last was = λ j x h. elim (Bool-cases (id == j)) [
  | inl here ↦
      let e : c ≡ x = ground (arith, lookup-insert id j c db.conversations, h, here) in
      rw
        (
          owned-append id j db.messages q a hq ha,
          here,
          ← e,
          last_turn-append (owned j db.messages) q a,
        )
        last
  | inr there ↦
      rw (owned-append id j db.messages q a hq ha, there)
        (was j x (ground (arith, lookup-insert id j c db.conversations, h, there)))
]

commits-AtLast :
    (collapse : String → String) (now : ℕ) (c : Completion)
    (sources metadata prompt_ref id : String) (conv : Conversation) (db : Db)
    → AtLast db
    → AtLast (written collapse now c sources metadata prompt_ref id conv db)
unfolding written commit_conversation user_message assistant_message
commits-AtLast collapse now c sources metadata prompt_ref id conv db was =
    appended-AtLast id _ _ _ (update_at (id, c.turn_id) (close_turn now) db.turns)
      (upsert_knowledge_bases id c.selected_knowledge_base_ids now db.knowledge_bases) db refl refl
      refl was

Effect-AtLast :
    (collapse : String → String) (l : Limits) (a b : Db)
    → Effect collapse l a b
    → IsLedger a
    → AtLast a
    → AtLast b
Effect-AtLast collapse l _ _ (stays db) led was = was
Effect-AtLast collapse l _ _ (drops id db) led was = drops-AtLast id db was
Effect-AtLast collapse l _ _ (turned kbs ts db grows) led was = was
Effect-AtLast collapse l _ _ (opened id c db fresh few small first) led was =
    placed-AtLast id c db (first ∙ sym (ap last_turn (led.cascaded id fresh))) was
Effect-AtLast collapse l _ _ (changed id c c' db hit few small same) led was =
    placed-AtLast id c' db (same ∙ was id c hit) was
Effect-AtLast collapse l _ _ (commits now c sources metadata prompt_ref id conv db hit under free)
      led was =
    commits-AtLast collapse now c sources metadata prompt_ref id conv db was
Effect-AtLast collapse l a c (both first next) led was =
    Effect-AtLast collapse l _ c next (Effect-IsLedger collapse l a _ first led)
      (Effect-AtLast collapse l a _ first led was)

empty-AtLast : AtLast empty
unfolding lookup
empty-AtLast = λ id c h. absurd (ground (arith, h))

-- Whatever is called, in whatever order: the parent of every open turn of a conversation is the turn
-- whose messages are the last of the conversation, or none if it has no messages; no conversation
-- has two open turns; and a turn that is not open has no lease.
pub Reach-IsChained :
    (collapse : String → String) (l : Limits) (db : Db) → Reach collapse l db → IsChained db
Reach-IsChained collapse l db r =
    let linear = Reach-IsLinear collapse l db r in
    let last =
      Effect-AtLast collapse l empty db (Reach-Effect collapse l db r) empty-IsLedger
        empty-AtLast in
    record {
      follows = λ k t h live. let (c, hit, e) = linear.parents k t h live in e ∙ last k.0 c hit;
      single = linear.single;
      closed = linear.closed;
    }
