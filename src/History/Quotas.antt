-- ===== src/History/Quotas.antt =====
-- The quotas bound what is stored, whatever is called.
use raguardian.Prelude.{
  ℕ, suc, ◌≤◌, max, String, ◌≡◌, refl, ap, inl, inr, true, false, not, ◌&&◌, none, some, [], ◌∷◌,
  arith, ltb, if◌then◌else◌, Bool-cases, Option-cases, text_eq_iff, ◌==◌, length, filter, nat_eq,
  string_eq, option_eq, pair_eq,
}
use raguardian.Dict.{Dict, total, lookup, insert, Distinct}
use raguardian.Dict.Laws.{lookup-insert, lookup-erase, insert-Distinct, erase-Distinct}
use raguardian.Dict.Sums.{weight, total-insert, total-without-le}
use raguardian.History.{Conversation, Turn, KbLink, Db, Limits, empty, delete_conversation}
use raguardian.History.Commit.{
  Completion, history_bytes, turn_bytes, over_quota_on_first_commit, over_quota, close_turn,
  commit_conversation, written,
}
use raguardian.History.Steps.{Reach}
use raguardian.History.Effects.{
  unfinished, pending, Effect, stays, drops, turned, opened, changed, commits, both,
}
use raguardian.History.Effects.Calls.{total-erase-le, total-update_at-le}
use raguardian.History.Effects.Reached.{Reach-Effect}

-- 1 for a conversation that has messages.
abbrev visible : Conversation → ℕ
visible c = if ltb 0 c.message_count then 1 else 0

pub record IsWithin (l : Limits) (db : Db) : Type 0 where
  pub distinct : Distinct db.conversations
  pub pending_turns : ltb 0 l.max_pending_turns ≡ true → pending db.turns ≤ l.max_pending_turns
  pub conversations :
      ltb 0 l.max_conversations ≡ true → total visible db.conversations ≤ l.max_conversations
  pub messages :
      (id : String) (c : Conversation)
      → lookup id db.conversations ≡ some c
      → c.message_count ≤ l.max_messages_per_conversation
  pub bytes :
      (id : String) (c : Conversation)
      → lookup id db.conversations ≡ some c
      → c.payload_bytes ≤ l.max_conversation_bytes
  pub history : history_bytes db ≤ l.max_history_bytes

-- The other conversations that have messages.
abbrev others : String → Dict String Conversation → ℕ
others id d = length (filter (λ row. ltb 0 row.1.message_count && not (row.0 == id)) d)

others_absent :
    (id : String) (d : Dict String Conversation)
    → lookup id d ≡ none
    → others id d ≡ total visible d
unfolding lookup filter total
others_absent id [] h = refl
others_absent id ((i, c) ∷ d) h = ground (arith, others_absent id d)

visible-insert :
    (id : String) (c : Conversation) (d : Dict String Conversation)
    → Distinct d
    → total visible (insert id c d) ≤ suc (others id d)
unfolding insert filter total
visible-insert id c [] h = ground arith
visible-insert id c ((i, x) ∷ d) h =
    ground (arith, visible-insert id c d h.1, others_absent id d, text_eq_iff i id, h.0)

empty-IsWithin : (l : Limits) → IsWithin l empty
unfolding lookup total history_bytes
empty-IsWithin l = record {
  distinct = tt;
  pending_turns = λ on. omega arith;
  conversations = λ on. omega arith;
  messages = λ id c h. absurd (ground (arith, h));
  bytes = λ id c h. absurd (ground (arith, h));
  history = omega arith;
}

-- One conversation is added or changed.
inserted :
    (id j : String) (c x : Conversation) (d : Dict String Conversation) (n : ℕ)
    (f : Conversation → ℕ)
    → ((i : String) (y : Conversation) → lookup i d ≡ some y → f y ≤ n)
    → f c ≤ n
    → lookup j (insert id c d) ≡ some x
    → f x ≤ n
inserted id j c x d n f all this h = elim (Bool-cases (id == j)) [
  | inl here ↦
      let e : c ≡ x = ground (arith, lookup-insert id j c d, h, here) in omega (arith, this, ap f e)
  | inr there ↦ all j x (ground (arith, lookup-insert id j c d, h, there))
]

drops-IsWithin :
    (l : Limits) (id : String) (db : Db) → IsWithin l db → IsWithin l (delete_conversation id db)
unfolding delete_conversation history_bytes
drops-IsWithin l id db was = record {
  distinct = erase-Distinct id db.conversations was.distinct;
  pending_turns = λ on. omega (
    arith,
    total-without-le unfinished (λ (k : String × String) (_ : Turn). k.0 == id) db.turns,
    was.pending_turns on,
  );
  conversations =
      λ on. omega (arith, total-erase-le visible id db.conversations, was.conversations on);
  messages = λ j c h. was.messages j c (ground (arith, lookup-erase id j db.conversations, h));
  bytes = λ j c h. was.bytes j c (ground (arith, lookup-erase id j db.conversations, h));
  history = omega (
    arith,
    total-erase-le (λ (c : Conversation). c.payload_bytes) id db.conversations,
    was.history,
  );
}

commits-IsWithin :
    (collapse : String → String) (l : Limits) (now : ℕ) (c : Completion)
    (sources metadata prompt_ref id : String) (conv : Conversation) (db : Db)
    → lookup id db.conversations ≡ some conv
    → over_quota l id conv (turn_bytes c sources metadata) db ≡ false
    → IsWithin l db
    → IsWithin l (written collapse now c sources metadata prompt_ref id conv db)
unfolding written commit_conversation over_quota over_quota_on_first_commit history_bytes close_turn
commits-IsWithin collapse l now c sources metadata prompt_ref id conv db hit under was =
    let d = db.conversations in
    let next = commit_conversation collapse now c prompt_ref (turn_bytes c sources metadata) conv in
    record {
      distinct = insert-Distinct id next d was.distinct;
      pending_turns = λ on. omega (
        arith,
        was.pending_turns on,
        total-update_at-le unfinished (id, c.turn_id) (close_turn now) db.turns
            (λ t h. omega arith),
      );
      conversations = λ on. ground (
        arith,
        was.conversations on,
        visible-insert id next d was.distinct,
        total-insert visible id next d,
        hit,
        under,
        on,
      );
      messages = λ j x h.
          inserted id j next x d _ (λ c. c.message_count) was.messages (ground (arith, under)) h;
      bytes = λ j x h.
          inserted id j next x d _ (λ c. c.payload_bytes) was.bytes (ground (arith, under)) h;
      history =
          ground
            (arith, total-insert (λ (c : Conversation). c.payload_bytes) id next d, hit, under);
    }

turned-IsWithin :
    (l : Limits) (kbs : Dict (String × String) KbLink) (ts : Dict (String × String) Turn) (db : Db)
    → (ltb 0 l.max_pending_turns ≡ true → pending ts ≤ max (pending db.turns) l.max_pending_turns)
    → IsWithin l db
    → IsWithin l (record db { knowledge_bases = kbs; turns = ts })
unfolding history_bytes
turned-IsWithin l kbs ts db grows was = record {
  distinct = was.distinct;
  pending_turns = λ on. omega (arith, grows on, was.pending_turns on);
  conversations = was.conversations;
  messages = was.messages;
  bytes = was.bytes;
  history = was.history;
}

-- A conversation comes or changes, with no more messages and bytes than the one in its place.
placed-IsWithin :
    (l : Limits) (id : String) (c : Conversation) (db : Db)
    → c.message_count ≤ weight (λ c. c.message_count) (lookup id db.conversations)
    → c.payload_bytes ≤ weight (λ c. c.payload_bytes) (lookup id db.conversations)
    → IsWithin l db
    → IsWithin l (record db { conversations = insert id c db.conversations })
unfolding history_bytes
placed-IsWithin l id c db few small was =
    let d = db.conversations in
    record {
      distinct = insert-Distinct id c d was.distinct;
      pending_turns = was.pending_turns;
      conversations = λ on.
          let sum = total-insert visible id c d in
          elim (Option-cases (lookup id d)) [
            | inl miss ↦ ground (arith, sum, was.conversations on, miss, few)
            | inr (x, hit) ↦ ground (arith, sum, was.conversations on, hit, few)
          ];
      messages = λ j x h.
          inserted id j c x d _ (λ c. c.message_count) was.messages
            (elim (Option-cases (lookup id d)) [
              | inl miss ↦ ground (arith, miss, few)
              | inr (y, hit) ↦ ground (arith, hit, few, was.messages id y hit)
            ])
            h;
      bytes = λ j x h.
          inserted id j c x d _ (λ c. c.payload_bytes) was.bytes
            (elim (Option-cases (lookup id d)) [
              | inl miss ↦ ground (arith, miss, small)
              | inr (y, hit) ↦ ground (arith, hit, small, was.bytes id y hit)
            ])
            h;
      history =
          omega (
            arith,
            total-insert (λ (c : Conversation). c.payload_bytes) id c d,
            small,
            was.history,
          );
    }

Effect-IsWithin :
    (collapse : String → String) (l : Limits) (a b : Db)
    → Effect collapse l a b
    → IsWithin l a
    → IsWithin l b
Effect-IsWithin collapse l _ _ (stays db) was = was
Effect-IsWithin collapse l _ _ (drops id db) was = drops-IsWithin l id db was
Effect-IsWithin collapse l _ _ (turned kbs ts db grows) was = turned-IsWithin l kbs ts db grows was
Effect-IsWithin collapse l _ _ (opened id c db fresh few small first) was =
    placed-IsWithin l id c db (ground (arith, few)) (ground (arith, small)) was
Effect-IsWithin collapse l _ _ (changed id c c' db hit few small same) was =
    placed-IsWithin l id c' db (ground (arith, few, hit)) (ground (arith, small, hit)) was
Effect-IsWithin collapse l _ _ (commits now c sources metadata prompt_ref id conv db hit under free)
      was =
    commits-IsWithin collapse l now c sources metadata prompt_ref id conv db hit under was
Effect-IsWithin collapse l a c (both first next) was =
    Effect-IsWithin collapse l _ c next (Effect-IsWithin collapse l a _ first was)

-- Whatever is called, in whatever order: conversations with messages, messages and bytes of a
-- conversation, bytes of the history and unfinished turns never exceed their limits, where the limits
-- on conversations and on unfinished turns count only if they are not 0.
pub Reach-IsWithin :
    (collapse : String → String) (l : Limits) (db : Db) → Reach collapse l db → IsWithin l db
Reach-IsWithin collapse l db r =
    Effect-IsWithin collapse l empty db (Reach-Effect collapse l db r) (empty-IsWithin l)
