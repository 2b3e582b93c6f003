-- ===== src/Pending/Keys.antt =====
-- The keys `f"{scope_key}\x1f{turn_id}\x1f{lease_token}"` and their prefixes.
use Prim.Native.Char.{Char, code}
use Prim.Native.String.{◌++◌ as append}
use text.Mathlib.Text.{starts_with}
use text.Mathlib.TextEquality.{starts_with_iff}
use text.Mathlib.TextLemmas.{
  nil-append, cons-append, append_assoc, cons-eq-cons, append_cancel_left,
}
use raguardian.Prelude.{
  String, ◌≡◌, refl, sym, ap, ◌∙◌, ◌≢◌, ◌↔◌, true, nat_eq, string_eq, option_eq, pair_eq,
}

-- `"\x1f"`
abbrev pub separator : Char
separator = "\u{1f}"

abbrev pub sep : String
sep = "\u{1f}"

-- `_turn_prefix`
unfoldable pub turn_prefix : String → String → String
turn_prefix scope_key turn_id = append scope_key (append sep (append turn_id sep))

-- `_key`
unfoldable pub key_of : String → String → String → String
unfolding turn_prefix
key_of scope_key turn_id lease_token = append (turn_prefix scope_key turn_id) lease_token

-- `f"{scope_key}\x1f"`
unfoldable pub scope_prefix : String → String
scope_prefix scope_key = append scope_key sep

-- A text without the separator.
abbrev pub IsPlain : String → Type 0
IsPlain String.[] = Unit
IsPlain (String.◌∷◌ c s) = (code c ≢ 0x1f) × IsPlain s

-- Two texts that go on after their first separator are equal part by part.
pub split_unique :
    (s t u v : String)
    → IsPlain s
    → IsPlain t
    → append s (String.◌∷◌ separator u) ≡ append t (String.◌∷◌ separator v)
    → (s ≡ t) × (u ≡ v)
split_unique String.[] String.[] u v hs ht e =
    (refl, (cons-eq-cons.0 (sym (nil-append _) ∙ e ∙ nil-append _)).1)
split_unique String.[] (String.◌∷◌ d t) u v hs ht e =
    absurd (ht.0 (ap code (sym (cons-eq-cons.0 (sym (nil-append _) ∙ e ∙ cons-append d t _)).0)))
split_unique (String.◌∷◌ c s) String.[] u v hs ht e =
    absurd (hs.0 (ap code (cons-eq-cons.0 (sym (cons-append c s _) ∙ e ∙ nil-append _)).0))
split_unique (String.◌∷◌ c s) (String.◌∷◌ d t) u v hs ht e =
    let (here, there) = cons-eq-cons.0 (sym (cons-append c s _) ∙ e ∙ cons-append d t _) in
    let (p, q) = split_unique s t u v hs.1 ht.1 there in (cons-eq-cons.1 (here, p), q)

append-sep : (s : String) → append sep s ≡ String.◌∷◌ separator s
append-sep s = cons-append separator String.[] s ∙ ap (String.◌∷◌ separator) (nil-append s)

key_of_shape :
    (s t l : String)
    → key_of s t l ≡ append s (String.◌∷◌ separator (append t (String.◌∷◌ separator l)))
unfolding key_of
key_of_shape s t l = simp (append_assoc, cons-append, append-sep)

turn_prefix_shape :
    (s t u : String)
    → append (turn_prefix s t) u
      ≡ append s (String.◌∷◌ separator (append t (String.◌∷◌ separator u)))
unfolding turn_prefix
turn_prefix_shape s t u = simp (append_assoc, cons-append, append-sep)

scope_prefix_shape : (s u : String) → append (scope_prefix s) u ≡ append s (String.◌∷◌ separator u)
unfolding scope_prefix
scope_prefix_shape s u = simp (append_assoc, cons-append, append-sep)

module _ (s t s' t' l : String) (hs : IsPlain s) (hs' : IsPlain s') where
  -- A key has the prefix of a turn exactly if it is a key of that turn.
  pub starts_with-turn_prefix :
      IsPlain t
      → IsPlain t'
      → (starts_with (key_of s' t' l) (turn_prefix s t) ≡ true) ↔ ((s ≡ s') × (t ≡ t'))
  starts_with-turn_prefix ht ht' = (
    λ h.
        let (u, e) = (starts_with_iff (key_of s' t' l) (turn_prefix s t)).0 h in
        let (p, rest) =
          split_unique s s' _ _ hs hs' (sym (turn_prefix_shape s t u) ∙ e ∙ key_of_shape s' t' l) in
        (p, (split_unique t t' u l ht ht' rest).0),
    λ h.
        (starts_with_iff (key_of s' t' l) (turn_prefix s t)).1
          (l, turn_prefix_shape s t l ∙ rw (h.0, h.1) (sym (key_of_shape s' t' l))),
  )

  -- A key has the prefix of a scope exactly if it is a key of that scope.
  pub starts_with-scope_prefix : (starts_with (key_of s' t' l) (scope_prefix s) ≡ true) ↔ (s ≡ s')
  starts_with-scope_prefix = (
    λ h.
        let (u, e) = (starts_with_iff (key_of s' t' l) (scope_prefix s)).0 h in
        (split_unique s s' _ _ hs hs' (sym (scope_prefix_shape s u) ∙ e ∙ key_of_shape s' t' l)).0,
    λ h. (starts_with_iff (key_of s' t' l) (scope_prefix s)).1 (
      append t' (String.◌∷◌ separator l),
      scope_prefix_shape s _ ∙ rw h (sym (key_of_shape s' t' l)),
    ),
  )

-- Within one turn the keys of two leases differ, whatever the texts are.
pub key_of-injective : (s t l l' : String) → key_of s t l ≡ key_of s t l' → l ≡ l'
unfolding key_of
key_of-injective s t l l' e = append_cancel_left (turn_prefix s t) l l' e
