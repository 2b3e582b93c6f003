-- ===== src/Pending/Turns.antt =====
-- What the deletion of a turn and of a scope removes: no more and no less.
use text.Mathlib.Text.{starts_with}
use raguardian.Prelude.{
  ℕ, String, ◌≡◌, refl, ap, ◌∙◌, ◌↔◌, Bool, true, false, ◌&&◌, none, arith, leb, if◌then◌else◌,
  text_eq_iff, ◌==◌, nat_eq, string_eq, option_eq, pair_eq,
}
use raguardian.Dict.{keys_where, lookup, Distinct}
use raguardian.Dict.Laws.{erase_all-Distinct, erase_all-keys_where, lookup-without}
use raguardian.Pending.Keys.{
  turn_prefix, key_of, scope_prefix, IsPlain, starts_with-turn_prefix, starts_with-scope_prefix,
}
use raguardian.Pending.{Entry, Store, remove_all, purge_expired, delete, clear_scope}
use raguardian.Pending.Leases.{entries-remove_all}

-- The removal of the entries whose key passes a test.
lookup-remove_where :
    (test : String → Bool) (j : String) (s : Store)
    → Distinct s.entries
    → lookup j (remove_all (keys_where (λ key _. test key) s.entries) s).entries
      ≡ (if test j then none else lookup j s.entries)
lookup-remove_where test j s distinct =
    let p : String → Entry → Bool = λ key _. test key in
    ap (lookup j) (entries-remove_all (keys_where p s.entries) s)
    ∙ ap (lookup j) (erase_all-keys_where p s.entries distinct)
    ∙ lookup-without p j s.entries distinct
    ∙ ground arith

purge_expired-Distinct :
    (now : ℕ) (s : Store) → Distinct s.entries → Distinct (purge_expired now s).entries
unfolding purge_expired
purge_expired-Distinct now s distinct =
    let keys = keys_where (λ key entry. leb entry.expires_at now) s.entries in
    rw (entries-remove_all keys s) (erase_all-Distinct keys s.entries distinct)

-- A test that decides two equations is the conjunction of the two comparisons.
same_test :
    (b : Bool) (s t u v : String) → (b ≡ true) ↔ ((s ≡ t) × (u ≡ v)) → b ≡ (s == t && u == v)
same_test b s t u v iff = ground (arith, text_eq_iff s t, text_eq_iff u v)

same_scope : (b : Bool) (s t : String) → (b ≡ true) ↔ (s ≡ t) → b ≡ (s == t)
same_scope b s t iff = ground (arith, text_eq_iff s t)

module _ (scope_key turn_id scope_key' turn_id' lease_token : String) (s : Store)
    (distinct : Distinct s.entries) (given : (scope_key == "") ≡ false) (plain : IsPlain scope_key)
    (plain' : IsPlain scope_key') where
  -- In a store with no key twice, for a non-empty scope and turn and for scopes and turns without
  -- the separator, the deletion of a turn removes every lease of that turn and leaves every other
  -- turn as it is.
  pub lookup-delete :
      (turn_id == "") ≡ false
      → IsPlain turn_id
      → IsPlain turn_id'
      → lookup (key_of scope_key' turn_id' lease_token) (delete scope_key turn_id s).1.entries ≡ (
          if scope_key == scope_key' && turn_id == turn_id'
          then none
          else lookup (key_of scope_key' turn_id' lease_token) s.entries)
  unfolding delete
  lookup-delete given_turn plain_turn plain_turn' =
      let key = key_of scope_key' turn_id' lease_token in
      let test : String → Bool = λ k. starts_with k (turn_prefix scope_key turn_id) in
      let iff =
        starts_with-turn_prefix scope_key turn_id scope_key' turn_id' lease_token plain plain'
          plain_turn plain_turn' in
      let agree : test key ≡ (scope_key == scope_key' && turn_id == turn_id') =
        same_test (test key) scope_key scope_key' turn_id turn_id' iff in
      rw (given, given_turn) (lookup-remove_where test key s distinct ∙ rw agree refl)

  -- In a store with no key twice, for a non-empty scope and for scopes without the separator,
  -- `clear_scope` removes every live entry of that scope and
  -- leaves the live entries of every other scope as they are.
  pub lookup-clear_scope :
      (now : ℕ)
      → lookup (key_of scope_key' turn_id' lease_token) (clear_scope now scope_key s).1.entries ≡ (
          if scope_key == scope_key'
          then none
          else lookup (key_of scope_key' turn_id' lease_token) (purge_expired now s).entries)
  unfolding clear_scope
  lookup-clear_scope now =
      let key = key_of scope_key' turn_id' lease_token in
      let test : String → Bool = λ k. starts_with k (scope_prefix scope_key) in
      let iff =
        starts_with-scope_prefix scope_key turn_id scope_key' turn_id' lease_token plain plain' in
      let agree : test key ≡ (scope_key == scope_key') =
        same_scope (test key) scope_key scope_key' iff in
      rw given (
        lookup-remove_where test key (purge_expired now s) (purge_expired-Distinct now s distinct)
        ∙ rw agree refl)
