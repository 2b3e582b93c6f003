-- ===== src/History/Linear/Opens.antt =====
-- A turn opens, and a turn is completed.
use raguardian.Prelude.{
  String, ◌≡◌, sym, ap, ◌∙◌, inl, inr, true, false, none, some, arith, Bool-cases, text_eq_iff,
  ◌==◌, pair_eq, any, nat_eq, string_eq, option_eq,
}
use raguardian.Dict.{lookup, insert, update_at}
use raguardian.Dict.Laws.{lookup-insert}
use raguardian.Dict.Tables.{lookup-update_at, any-lookup}
use raguardian.History.{Conversation, Turn, is_active}
use raguardian.History.Turns.{coalesce, claims_parent}
use raguardian.History.Linear.{
  Conversations, Turns, IsLinear, Row, shut, was_open, lease_kept, Kept-update_at,
}

-- While no row claims the last turn as its parent, no other row of the conversation is open.
no_other :
    (cs : Conversations) (ts : Turns) (k : String × String) (t : Turn) (c : Conversation)
    → IsLinear cs ts
    → lookup k.0 cs ≡ some c
    → t.parent_turn_id ≡ c.last_turn_id
    → any (claims_parent k t.parent_turn_id) ts ≡ false
    → (j : String × String) (u : Turn) → lookup j ts ≡ some u
    → is_active u ≡ true
    → j.0 ≡ k.0
    → (k == j) ≡ false
    → ⊥
unfolding claims_parent
no_other cs ts k t c was hc parent free j u h live same apart =
    let (c2, h2, e2) = was.parents j u h live in
    let e : c2 ≡ c = ground (arith, ap (λ i. lookup i cs) same, h2, hc) in
    let parents : u.parent_turn_id ≡ t.parent_turn_id =
      e2 ∙ ap (λ x. x.last_turn_id) e ∙ sym parent in
    let claimed = any-lookup (claims_parent k t.parent_turn_id) j u ts free h in
    ground (
      arith,
      claimed,
      ap coalesce parents,
      text_eq_iff j.0 k.0,
      text_eq_iff k.0 j.0,
      text_eq_iff j.1 k.1,
      text_eq_iff k.1 j.1,
      text_eq_iff (coalesce u.parent_turn_id) (coalesce t.parent_turn_id),
    )

inserted :
    (ts : Turns) (k j : String × String) (t u : Turn)
    → lookup j (insert k t ts) ≡ some u
    → (k == j) ≡ true
    → (k ≡ j) × (t ≡ u)
inserted ts k j t u h here =
    ((pair_eq.same_iff k j).0 here, ground (arith, lookup-insert k j t ts, h, here))

not_inserted :
    (ts : Turns) (k j : String × String) (t u : Turn)
    → lookup j (insert k t ts) ≡ some u
    → (k == j) ≡ false
    → lookup j ts ≡ some u
not_inserted ts k j t u h there = ground (arith, lookup-insert k j t ts, h, there)

-- A row opens whose parent is the last turn and is claimed by no other row.
pub IsLinear-claims :
    (cs : Conversations) (ts : Turns) (k : String × String) (t : Turn) (c : Conversation)
    → IsLinear cs ts
    → lookup k.0 cs ≡ some c
    → is_active t ≡ true
    → t.parent_turn_id ≡ c.last_turn_id
    → any (claims_parent k t.parent_turn_id) ts ≡ false
    → IsLinear cs (insert k t ts)
IsLinear-claims cs ts k t c was hc live parent free = record {
  parents = λ j u h live'. elim (Bool-cases (k == j)) [
    | inl here ↦ let (e, is) = inserted ts k j t u h here in rw (← e, ← is) (c, hc, parent)
    | inr there ↦ was.parents j u (not_inserted ts k j t u h there) live'
  ];
  single = λ j j' u u' h h' a a' e. elim (Bool-cases (k == j)) [
    | inl here ↦ elim (Bool-cases (k == j')) [
      | inl here' ↦ sym (inserted ts k j t u h here).0 ∙ (inserted ts k j' t u' h' here').0
      | inr there ↦ absurd (
          no_other cs ts k t c was hc parent free j' u' (not_inserted ts k j' t u' h' there) a'
            (sym e ∙ sym (ap (λ x. x.0) (inserted ts k j t u h here).0)) there)
    ]
    | inr there ↦ elim (Bool-cases (k == j')) [
      | inl here' ↦ absurd (
          no_other cs ts k t c was hc parent free j u (not_inserted ts k j t u h there) a
            (e ∙ sym (ap (λ x. x.0) (inserted ts k j' t u' h' here').0)) there)
      | inr there' ↦
          was.single j j' u u' (not_inserted ts k j t u h there)
            (not_inserted ts k j' t u' h' there') a a' e
    ]
  ];
  closed = λ j u h off. elim (Bool-cases (k == j)) [
    | inl here ↦
        let (e, is) = inserted ts k j t u h here in
        absurd (ground (arith, ap is_active is, live, off))
    | inr there ↦ was.closed j u (not_inserted ts k j t u h there) off
  ];
}

-- A row that is open after another was closed stands in another conversation.
other_conversation :
    (cs : Conversations) (ts : Turns) (k j : String × String) (t before : Turn) (f : Turn → Turn)
    (u : Turn)
    → IsLinear cs ts
    → lookup k ts ≡ some t
    → lookup j ts ≡ some before
    → is_active t ≡ true
    → is_active before ≡ true
    → is_active (f t) ≡ false
    → lookup j (update_at k f ts) ≡ some u
    → is_active u ≡ true
    → (k.0 == j.0) ≡ false
other_conversation cs ts k j t before f u was h hb live ab off hj a =
    elim (Bool-cases (k.0 == j.0)) [
      | inl same ↦
          let e : k ≡ j = was.single k j t before h hb live ab ((text_eq_iff k.0 j.0).0 same) in
          let at = lookup-update_at k j f ts in
          let here = (pair_eq.same_iff k j).1 e in
          let hit : lookup j ts ≡ some t = rw (← e) h in
          let is : f t ≡ u = ground (arith, at, hit, here, hj) in
          absurd (ground (arith, ap is_active is, off, a))
      | inr apart ↦ apart
    ]

-- An open row is closed and becomes the last turn of its conversation.
pub IsLinear-completes :
    (cs : Conversations) (ts : Turns) (k : String × String) (t : Turn) (f : Turn → Turn)
    (c' : Conversation)
    → IsLinear cs ts
    → lookup k ts ≡ some t
    → is_active t ≡ true
    → is_active (f t) ≡ false
    → (f t).lease_token ≡ none
    → IsLinear (insert k.0 c' cs) (update_at k f ts)
IsLinear-completes cs ts k t f c' was h live off no_lease =
    let closes : (j : String × String) (u : Turn)
        → lookup j (update_at k f ts) ≡ some u
        → Row ts j u =
      (Kept-update_at cs ts k f (λ t' h'.
        let e : t ≡ t' = ground (arith, h, h') in
        shut (sym (ap (λ x. is_active (f x)) e) ∙ off)
          (sym (ap (λ x. (f x).lease_token) e) ∙ no_lease))).rows in
    record {
      parents = λ j u hj a.
          let (before, hb, ab, parent) = was_open ts j u (closes j u hj) a in
          let (c, hc, e) = was.parents j before hb ab in
          let apart : (k.0 == j.0) ≡ false =
            other_conversation cs ts k j t before f u was h hb live ab off hj a in
          (c, ground (arith, lookup-insert k.0 j.0 c' cs, hc, apart), parent ∙ e);
      single = λ j j' u u' hj hj' a a' e.
          let (b, hb, ab, _) = was_open ts j u (closes j u hj) a in
          let (b', hb', ab', _) = was_open ts j' u' (closes j' u' hj') a' in
          was.single j j' b b' hb hb' ab ab' e;
      closed = λ j u hj off'. lease_kept cs ts j u was (closes j u hj) off';
    }
