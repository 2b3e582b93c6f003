-- ===== src/History/Linear.antt =====
-- A conversation grows in a line: its open turns have its `last_turn_id` as their parent, and there is
-- at most one. This module has the invariant and the changes of the tables that keep it.
pub mod Keeps
pub mod Opens
use raguardian.Prelude.{
  String, ◌≡◌, refl, sym, ◌∙◌, inl, inr, true, false, none, some, arith, Bool-cases, Option-cases,
  ◌==◌, pair_eq, nat_eq, string_eq, option_eq,
}
use raguardian.Dict.{Dict, lookup, update_at}
use raguardian.Dict.Tables.{lookup-update_at}
use raguardian.History.{Conversation, Turn, is_active}

abbrev pub Conversations : Type 0
Conversations = Dict String Conversation

abbrev pub Turns : Type 0
Turns = Dict (String × String) Turn

-- An open turn is `generating` or `ready`.
pub record IsLinear (cs : Conversations) (ts : Turns) : Type 0 where
  pub parents :
      (k : String × String) (t : Turn)
      → lookup k ts ≡ some t
      → is_active t ≡ true
      → (c : Conversation) × (lookup k.0 cs ≡ some c) × (t.parent_turn_id ≡ c.last_turn_id)
  pub single :
      (k k' : String × String) (t t' : Turn)
      → lookup k ts ≡ some t
      → lookup k' ts ≡ some t'
      → is_active t ≡ true
      → is_active t' ≡ true
      → k.0 ≡ k'.0
      → k ≡ k'
  pub closed :
      (k : String × String) (t : Turn)
      → lookup k ts ≡ some t
      → is_active t ≡ false
      → t.lease_token ≡ none

-- Where a row of the new table comes from: it has no lease, or it stood there with the same parent
-- and as open as now.
pub data Row (old : Turns) (k : String × String) (t : Turn) : Type 0 where
  shut : is_active t ≡ false → t.lease_token ≡ none → Row old k t
  alike :
      (before : Turn)
      → lookup k old ≡ some before
      → is_active t ≡ is_active before
      → t.parent_turn_id ≡ before.parent_turn_id
      → (is_active t ≡ false → t.lease_token ≡ before.lease_token)
      → Row old k t

pub record Kept (cs : Conversations) (ts : Turns) (cs' : Conversations) (ts' : Turns) : Type 0 where
  pub rows : (k : String × String) (t : Turn) → lookup k ts' ≡ some t → Row ts k t
  pub lasts :
      (k : String × String) (t : Turn)
      → lookup k ts' ≡ some t
      → (c : Conversation) → lookup k.0 cs ≡ some c
      → (c' : Conversation) × (lookup k.0 cs' ≡ some c') × (c'.last_turn_id ≡ c.last_turn_id)

-- The open row that a new open row was.
pub was_open :
    (old : Turns) (k : String × String) (t : Turn)
    → Row old k t
    → is_active t ≡ true
    → (before : Turn) × (lookup k old ≡ some before)
      × (is_active before ≡ true)
      × (t.parent_turn_id ≡ before.parent_turn_id)
was_open old k t (shut off no_lease) live = absurd (ground (arith, off, live))
was_open old k t (alike before h same parent lease) live = (before, h, sym same ∙ live, parent)

pub lease_kept :
    (cs : Conversations) (old : Turns) (k : String × String) (t : Turn)
    → IsLinear cs old
    → Row old k t
    → is_active t ≡ false
    → t.lease_token ≡ none
lease_kept cs old k t was (shut off no_lease) off' = no_lease
lease_kept cs old k t was (alike before h same parent lease) off' =
    lease off' ∙ was.closed k before h (sym same ∙ off')

pub IsLinear-Kept :
    (cs cs' : Conversations) (ts ts' : Turns)
    → Kept cs ts cs' ts'
    → IsLinear cs ts
    → IsLinear cs' ts'
IsLinear-Kept cs cs' ts ts' kept was = record {
  parents = λ k t h live.
      let (before, h0, live0, parent) = was_open ts k t (kept.rows k t h) live in
      let (c, hc, e) = was.parents k before h0 live0 in
      let (c', hc', e') = kept.lasts k t h c hc in (c', hc', parent ∙ e ∙ sym e');
  single = λ k k' t t' h h' live live' e.
      let (b, hb, liveb, _) = was_open ts k t (kept.rows k t h) live in
      let (b', hb', liveb', _) = was_open ts k' t' (kept.rows k' t' h') live' in
      was.single k k' b b' hb hb' liveb liveb' e;
  closed = λ k t h off. lease_kept cs ts k t was (kept.rows k t h) off;
}

pub same-Row : (ts : Turns) (k : String × String) (t : Turn) → lookup k ts ≡ some t → Row ts k t
same-Row ts k t h = alike t h refl refl (λ off. refl)

-- One row changes.
pub Kept-update_at :
    (cs : Conversations) (ts : Turns) (k : String × String) (f : Turn → Turn)
    → ((t : Turn) → lookup k ts ≡ some t → Row ts k (f t))
    → Kept cs ts cs (update_at k f ts)
Kept-update_at cs ts k f change = record {
  rows = λ j t h.
      let at = lookup-update_at k j f ts in
      elim (Bool-cases (k == j)) [
        | inl here ↦
            let e : k ≡ j = (pair_eq.same_iff k j).0 here in
            elim (Option-cases (lookup j ts)) [
              | inl miss ↦ absurd (ground (arith, at, miss, here))
              | inr (old, hit) ↦
                  let is : f old ≡ t = ground (arith, at, hit, here) in
                  rw (← is, ← e) (change old (rw e hit))
            ]
        | inr there ↦ same-Row ts j t (ground (arith, at, there))
      ];
  lasts = λ j t h c hc. (c, hc, refl);
}
