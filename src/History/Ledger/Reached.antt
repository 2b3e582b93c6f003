-- ===== src/History/Ledger/Reached.antt =====
-- Every commit, and so every call, keeps the ledger of the messages.
use raguardian.Prelude.{
  ℕ, ◌+◌, String, ◌≡◌, refl, sym, ap, ◌∙◌, inl, inr, some, List, [], ◌∷◌, ◌++◌, arith,
  if◌then◌else◌, Bool-cases, text_eq_iff, ◌==◌, length, filter, length-append, nat_eq, string_eq,
  option_eq, pair_eq,
}
use raguardian.Dict.{Dict, lookup, insert}
use raguardian.Dict.Laws.{lookup-insert}
use raguardian.History.{Conversation, Turn, Message, KbLink, Db, Limits, empty}
use raguardian.History.Commit.{
  Completion, turn_bytes, user_message, assistant_message, commit_conversation, written,
}
use raguardian.History.Steps.{Reach}
use raguardian.History.Effects.{Effect, stays, drops, turned, opened, changed, commits, both}
use raguardian.History.Effects.Reached.{Reach-Effect}
use raguardian.History.Ledger.{
  owned, sum_bytes, Paired, IsLedger, empty-IsLedger, max_sequence-Paired, Paired-append,
  sum_bytes-append, drops-IsLedger,
}

-- A conversation comes or changes whose counters stay.
placed-IsLedger :
    (id : String) (c : Conversation) (db : Db)
    → c.message_count ≡ length (owned id db.messages)
    → c.payload_bytes ≡ sum_bytes (owned id db.messages)
    → IsLedger db
    → IsLedger (record db { conversations = insert id c db.conversations })
placed-IsLedger id c db count weight was = record {
  pairs = was.pairs;
  counted = λ j x h. elim (Bool-cases (id == j)) [
    | inl here ↦
        let e : c ≡ x = ground (arith, lookup-insert id j c db.conversations, h, here) in
        rw (← e, ← (text_eq_iff id j).0 here) count
    | inr there ↦ was.counted j x (ground (arith, lookup-insert id j c db.conversations, h, there))
  ];
  weighed = λ j x h. elim (Bool-cases (id == j)) [
    | inl here ↦
        let e : c ≡ x = ground (arith, lookup-insert id j c db.conversations, h, here) in
        rw (← e, ← (text_eq_iff id j).0 here) weight
    | inr there ↦ was.weighed j x (ground (arith, lookup-insert id j c db.conversations, h, there))
  ];
  cascaded = λ j h. was.cascaded j (ground (arith, lookup-insert id j c db.conversations, h));
}

-- Two rows of one conversation are appended.
pub owned-append :
    (id j : String) (ms : List Message) (q a : Message)
    → q.conversation_id ≡ id
    → a.conversation_id ≡ id
    → owned j (ms ++ q ∷ a ∷ []) ≡ (if id == j then owned j ms ++ q ∷ a ∷ [] else owned j ms)
unfolding filter
owned-append id j [] q a hq ha = ground (arith, hq, ha)
owned-append id j (m ∷ ms) q a hq ha = ground (arith, owned-append id j ms q a hq ha)

appended-IsLedger :
    (id : String) (c : Conversation) (q a : Message) (ts : Dict (String × String) Turn)
    (kbs : Dict (String × String) KbLink) (db : Db)
    → q.conversation_id ≡ id
    → a.conversation_id ≡ id
    → Paired 0 (owned id db.messages ++ q ∷ a ∷ [])
    → c.message_count ≡ length (owned id db.messages) + 2
    → c.payload_bytes ≡ sum_bytes (owned id db.messages) + (q.payload_bytes + a.payload_bytes)
    → IsLedger db
    → IsLedger (record {
      conversations = insert id c db.conversations;
      knowledge_bases = kbs;
      turns = ts;
      messages = db.messages ++ q ∷ a ∷ [];
    })
appended-IsLedger id c q a ts kbs db hq ha paired count weight was =
    let rows = q ∷ a ∷ [] in
    record {
      pairs = λ j. elim (Bool-cases (id == j)) [
        | inl here ↦
            rw (owned-append id j db.messages q a hq ha, here, ← (text_eq_iff id j).0 here) paired
        | inr there ↦ rw (owned-append id j db.messages q a hq ha, there) (was.pairs j)
      ];
      counted = λ j x h. elim (Bool-cases (id == j)) [
        | inl here ↦
            let e : c ≡ x = ground (arith, lookup-insert id j c db.conversations, h, here) in
            rw (owned-append id j db.messages q a hq ha, here, ← e, ← (text_eq_iff id j).0 here)
              (count ∙ sym (length-append (owned id db.messages) rows))
        | inr there ↦
            rw (owned-append id j db.messages q a hq ha, there)
              (was.counted j x (ground (arith, lookup-insert id j c db.conversations, h, there)))
      ];
      weighed = λ j x h. elim (Bool-cases (id == j)) [
        | inl here ↦
            let e : c ≡ x = ground (arith, lookup-insert id j c db.conversations, h, here) in
            rw (owned-append id j db.messages q a hq ha, here, ← e, ← (text_eq_iff id j).0 here)
              (omega (arith, weight, sum_bytes-append (owned id db.messages) rows))
        | inr there ↦
            rw (owned-append id j db.messages q a hq ha, there)
              (was.weighed j x (ground (arith, lookup-insert id j c db.conversations, h, there)))
      ];
      cascaded = λ j h. ground (
        arith,
        owned-append id j db.messages q a hq ha,
        lookup-insert id j c db.conversations,
        h,
        was.cascaded j,
      );
    }

commits-IsLedger :
    (collapse : String → String) (now : ℕ) (c : Completion)
    (sources metadata prompt_ref id : String) (conv : Conversation) (db : Db)
    → lookup id db.conversations ≡ some conv
    → IsLedger db
    → IsLedger (written collapse now c sources metadata prompt_ref id conv db)
unfolding written commit_conversation turn_bytes user_message assistant_message
commits-IsLedger collapse now c sources metadata prompt_ref id conv db hit was =
    let last = max_sequence-Paired id db.messages (was.pairs id) in
    appended-IsLedger id _ _ _ _ _ db refl refl
      (Paired-append 0 (owned id db.messages) _ _ (was.pairs id) refl refl refl
        (omega (arith, last)) (omega (arith, last)))
      (omega (arith, was.counted id conv hit)) (omega (arith, was.weighed id conv hit)) was

pub Effect-IsLedger :
    (collapse : String → String) (l : Limits) (a b : Db)
    → Effect collapse l a b
    → IsLedger a
    → IsLedger b
Effect-IsLedger collapse l _ _ (stays db) was = was
Effect-IsLedger collapse l _ _ (drops id db) was = drops-IsLedger id db was
Effect-IsLedger collapse l _ _ (turned kbs ts db grows) was = record {
  pairs = was.pairs;
  counted = was.counted;
  weighed = was.weighed;
  cascaded = was.cascaded;
}
Effect-IsLedger collapse l _ _ (opened id c db fresh few small first) was =
    let none_yet = was.cascaded id fresh in
    placed-IsLedger id c db (few ∙ sym (ap length none_yet)) (small ∙ sym (ap sum_bytes none_yet))
      was
Effect-IsLedger collapse l _ _ (changed id c c' db hit few small same) was =
    placed-IsLedger id c' db (few ∙ was.counted id c hit) (small ∙ was.weighed id c hit) was
Effect-IsLedger collapse l _ _ (commits now c sources metadata prompt_ref id conv db hit under free)
      was =
    commits-IsLedger collapse now c sources metadata prompt_ref id conv db hit was
Effect-IsLedger collapse l a c (both first next) was =
    Effect-IsLedger collapse l _ c next (Effect-IsLedger collapse l a _ first was)

-- Whatever is called, in whatever order: the messages of a conversation are pairs of a user's and an
-- assistant's message of one turn, numbered 1, 2, 3 and so on in the order of their insertion, its
-- counters are their number and the sum of their bytes, and a conversation that is not stored has no
-- messages.
pub Reach-IsLedger :
    (collapse : String → String) (l : Limits) (db : Db) → Reach collapse l db → IsLedger db
Reach-IsLedger collapse l db r =
    Effect-IsLedger collapse l empty db (Reach-Effect collapse l db r) empty-IsLedger
