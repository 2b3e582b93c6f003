-- ===== src/History/Ledger.antt =====
-- The messages of a conversation: pairs of a question and an answer, numbered from 1, which the
-- counters of the conversation count.
pub mod Reached
use raguardian.Prelude.{
  ℕ, suc, ◌+◌, ◌≤◌, ◌<◌, max, String, ◌≡◌, refl, inl, inr, not, none, some, List, [], ◌∷◌, ◌++◌,
  arith, if◌then◌else◌, Bool-cases, text_eq_iff, ◌==◌, length, filter, nat_eq, string_eq, option_eq,
  pair_eq,
}
use raguardian.Dict.{lookup}
use raguardian.Dict.Laws.{lookup-erase}
use raguardian.History.{Conversation, user, assistant, Message, Db, empty, delete_conversation}
use raguardian.History.Commit.{max_sequence}

abbrev pub owned : String → List Message → List Message
owned id ms = filter (λ m. m.conversation_id == id) ms

abbrev pub sum_bytes : List Message → ℕ
sum_bytes [] = 0
sum_bytes (m ∷ ms) = m.payload_bytes + sum_bytes ms

-- Pairs of one turn each, numbered from n + 1.
abbrev pub Paired : ℕ → List Message → Type 0
Paired n [] = Unit
Paired n (q ∷ []) = ⊥
Paired n (q ∷ a ∷ ms) =
    (q.role ≡ user)
    × (a.role ≡ assistant)
    × (q.turn_id ≡ a.turn_id)
    × (q.sequence ≡ n + 1)
    × (a.sequence ≡ n + 2)
    × Paired (n + 2) ms

pub record IsLedger (db : Db) : Type 0 where
  pub pairs : (id : String) → Paired 0 (owned id db.messages)
  pub counted :
      (id : String) (c : Conversation)
      → lookup id db.conversations ≡ some c
      → c.message_count ≡ length (owned id db.messages)
  pub weighed :
      (id : String) (c : Conversation)
      → lookup id db.conversations ≡ some c
      → c.payload_bytes ≡ sum_bytes (owned id db.messages)
  pub cascaded : (id : String) → lookup id db.conversations ≡ none → owned id db.messages ≡ []

pub empty-IsLedger : IsLedger empty
unfolding lookup filter
empty-IsLedger = record {
  pairs = λ id. tt;
  counted = λ id c h. absurd (ground (arith, h));
  weighed = λ id c h. absurd (ground (arith, h));
  cascaded = λ id h. refl;
}

-- The highest number of a list.
abbrev top : List Message → ℕ
top [] = 0
top (m ∷ ms) = max m.sequence (top ms)

max_sequence_lem : (id : String) (ms : List Message) → max_sequence id ms ≡ top (owned id ms)
unfolding max_sequence filter
max_sequence_lem id [] = refl
max_sequence_lem id (m ∷ ms) = ground (arith, max_sequence_lem id ms)

top-Paired :
    (n : ℕ) (ms : List Message)
    → Paired n ms
    → (top ms ≤ n + length ms) × (0 < length ms → top ms ≡ n + length ms)
top-Paired n [] h = (omega arith, λ some. omega arith)
top-Paired n (q ∷ []) h = absurd h
top-Paired n (q ∷ a ∷ ms) (_, _, _, first, second, rest) =
    let (below, at) = top-Paired (n + 2) ms rest in
    let here : max q.sequence (max a.sequence (top ms)) ≡ n + suc (suc (length ms)) =
      ground (arith, below, at, first, second) in
    (omega (arith, here), λ _. here)

pub max_sequence-Paired :
    (id : String) (ms : List Message)
    → Paired 0 (owned id ms)
    → max_sequence id ms ≡ length (owned id ms)
max_sequence-Paired id ms h =
    let (below, at) = top-Paired 0 (owned id ms) h in
    ground (arith, max_sequence_lem id ms, below, at)

pub Paired-append :
    (n : ℕ) (ms : List Message) (q a : Message)
    → Paired n ms
    → q.role ≡ user
    → a.role ≡ assistant
    → q.turn_id ≡ a.turn_id
    → q.sequence ≡ n + length ms + 1
    → a.sequence ≡ n + length ms + 2
    → Paired n (ms ++ q ∷ a ∷ [])
Paired-append n [] q a h u v e first second =
    (u, v, e, omega (arith, first), omega (arith, second), tt)
Paired-append n (x ∷ []) q a h u v e first second = absurd h
Paired-append n (x ∷ y ∷ ms) q a (hu, hv, he, h1, h2, rest) u v e first second = (
  hu,
  hv,
  he,
  h1,
  h2,
  Paired-append (n + 2) ms q a rest u v e (omega (arith, first)) (omega (arith, second)),
)

pub sum_bytes-append : (xs ys : List Message) → sum_bytes (xs ++ ys) ≡ sum_bytes xs + sum_bytes ys
sum_bytes-append [] ys = omega arith
sum_bytes-append (x ∷ xs) ys = omega (arith, sum_bytes-append xs ys)

-- The messages that a deletion leaves.
pub owned-filter :
    (id j : String) (ms : List Message)
    → owned j (filter (λ m. not (m.conversation_id == id)) ms)
      ≡ (if id == j then [] else owned j ms)
unfolding filter
owned-filter id j [] = ground arith
owned-filter id j (m ∷ ms) = ground (
  arith,
  owned-filter id j ms,
  text_eq_iff m.conversation_id id,
  text_eq_iff m.conversation_id j,
  text_eq_iff id j,
)

pub drops-IsLedger : (id : String) (db : Db) → IsLedger db → IsLedger (delete_conversation id db)
unfolding delete_conversation
drops-IsLedger id db was = record {
  pairs = λ j. elim (Bool-cases (id == j)) [
    | inl here ↦ rw (owned-filter id j db.messages, here) tt
    | inr there ↦ rw (owned-filter id j db.messages, there) (was.pairs j)
  ];
  counted = λ j c h. ground (
    arith,
    owned-filter id j db.messages,
    lookup-erase id j db.conversations,
    h,
    was.counted j c,
  );
  weighed = λ j c h. ground (
    arith,
    owned-filter id j db.messages,
    lookup-erase id j db.conversations,
    h,
    was.weighed j c,
  );
  cascaded = λ j h.
      ground (
        arith,
        owned-filter id j db.messages,
        lookup-erase id j db.conversations,
        h,
        was.cascaded j,
      );
}
