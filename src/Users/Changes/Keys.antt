-- ===== src/Users/Changes/Keys.antt =====
-- Every change of the keys keeps the invariants, and so does every change.
use raguardian.Prelude.{
  String, ◌≡◌, refl, sym, ap, ◌∙◌, inl, inr, Bool, false, not, ◌&&◌, ◌||◌, some, arith, Bool-cases,
  Option-cases, text_eq_iff, ◌==◌, nat_eq, string_eq, option_eq, pair_eq,
}
use raguardian.Dict.{map_values, lookup, insert, erase}
use raguardian.Dict.Laws.{lookup-insert, lookup-erase, insert-Distinct, erase-Distinct}
use raguardian.Dict.Tables.{lookup-map_values, any-lookup, map_values-Distinct}
use raguardian.Users.{User, ApiKey, Accounts}
use raguardian.Users.Changes.{
  IsSound, Change, stays, user_set, user_added, user_dropped, keys_mapped, key_set, key_kept,
  key_added, key_dropped, both,
}
use raguardian.Users.Changes.Keeps.{
  keys-IsSound, user_set-IsSound, user_added-IsSound, user_dropped-IsSound,
}

keys_mapped-IsSound :
    {late : Bool} (f : String → ApiKey → ApiKey) (db : Accounts)
    → ((id : String) (k : ApiKey) → (f id k).user_id ≡ k.user_id)
    → ((id : String) (k : ApiKey) → (f id k).name ≡ k.name)
    → IsSound late db
    → IsSound late (record db { api_keys = map_values f db.api_keys })
keys_mapped-IsSound f db account name was =
    keys-IsSound db (map_values f db.api_keys)
      (λ j m h.
        let at = lookup-map_values f j db.api_keys in
        elim (Option-cases (lookup j db.api_keys)) [
          | inl miss ↦ absurd (ground (arith, at, miss, h))
          | inr (k, hit) ↦
              let is : f j k ≡ m = ground (arith, at, hit, h) in
              (
                k,
                hit,
                sym (ap (λ x. x.user_id) is) ∙ account j k,
                sym (ap (λ x. x.name) is) ∙ name j k,
              )
        ])
      (map_values-Distinct f db.api_keys was.distinct) was

key_kept-IsSound :
    {late : Bool} (id : String) (k k' : ApiKey) (db : Accounts)
    → lookup id db.api_keys ≡ some k
    → k'.user_id ≡ k.user_id
    → k'.name ≡ k.name
    → IsSound late db
    → IsSound late (record db { api_keys = insert id k' db.api_keys })
key_kept-IsSound id k k' db stored account name was =
    keys-IsSound db (insert id k' db.api_keys)
      (λ j m h.
        let at = lookup-insert id j k' db.api_keys in
        elim (Bool-cases (id == j)) [
          | inl here ↦
              let is : k' ≡ m = ground (arith, at, here, h) in
              (
                k,
                sym (ap (λ i. lookup i db.api_keys) ((text_eq_iff id j).0 here)) ∙ stored,
                sym (ap (λ x. x.user_id) is) ∙ account,
                sym (ap (λ x. x.name) is) ∙ name,
              )
          | inr there ↦ (m, ground (arith, at, there, h), refl, refl)
        ])
      (insert-Distinct id k' db.api_keys was.distinct) was

key_dropped-IsSound :
    {late : Bool} (id : String) (db : Accounts)
    → IsSound late db
    → IsSound late (record db { api_keys = erase id db.api_keys })
key_dropped-IsSound id db was =
    keys-IsSound db (erase id db.api_keys)
      (λ j m h. (m, ground (arith, lookup-erase id j db.api_keys, h), refl, refl))
      (erase-Distinct id db.api_keys was.distinct) was

-- A key comes or is renamed, whose name no other key of its account has.
key_placed-IsSound :
    {late : Bool} (id : String) (k : ApiKey) (u : User) (db : Accounts)
    → lookup k.user_id db.users ≡ some u
    → ((j : String) (m : ApiKey)
        → lookup j db.api_keys ≡ some m
        → (id == j) ≡ false
        → m.user_id ≡ k.user_id
        → m.name ≡ k.name
        → ⊥)
    → IsSound late db
    → IsSound late (record db { api_keys = insert id k db.api_keys })
key_placed-IsSound id k u db stored free was =
    let at = λ (j : String). lookup-insert id j k db.api_keys in
    record {
      disabled = was.disabled;
      emails = was.emails;
      owned = λ j m h. elim (Bool-cases (id == j)) [
        | inl here ↦
            let is : k ≡ m = ground (arith, at j, here, h) in
            (u, sym (ap (λ x. lookup x.user_id db.users) is) ∙ stored)
        | inr there ↦ was.owned j m (ground (arith, at j, there, h))
      ];
      names = λ i j m n h h' account name. elim (Bool-cases (id == i)) [
        | inl here ↦ elim (Bool-cases (id == j)) [
          | inl here' ↦ sym ((text_eq_iff id i).0 here) ∙ (text_eq_iff id j).0 here'
          | inr there ↦
              let is : k ≡ m = ground (arith, at i, here, h) in
              absurd (
                free j n (ground (arith, at j, there, h')) there
                  (sym account ∙ sym (ap (λ x. x.user_id) is))
                  (sym name ∙ sym (ap (λ x. x.name) is)))
        ]
        | inr there ↦ elim (Bool-cases (id == j)) [
          | inl here' ↦
              let is : k ≡ n = ground (arith, at j, here', h') in
              absurd (
                free i m (ground (arith, at i, there, h)) there
                  (account ∙ sym (ap (λ x. x.user_id) is)) (name ∙ sym (ap (λ x. x.name) is)))
          | inr there' ↦
              was.names i j m n (ground (arith, at i, there, h)) (ground (arith, at j, there', h'))
                account name
        ]
      ];
      distinct = insert-Distinct id k db.api_keys was.distinct;
      distinct_users = was.distinct_users;
    }

pub Change-IsSound :
    {late : Bool} (a b : Accounts) → Change late a b → IsSound late a → IsSound late b
Change-IsSound _ _ (stays db) was = was
Change-IsSound _ _ (user_set id f db same off) was = user_set-IsSound id f db same off was
Change-IsSound _ _ (user_added id u db free fresh active) was =
    user_added-IsSound id u db free fresh active was
Change-IsSound _ _ (user_dropped id db) was = user_dropped-IsSound id db was
Change-IsSound _ _ (keys_mapped f db account name) was = keys_mapped-IsSound f db account name was
Change-IsSound _ _ (key_kept id k k' db stored account name) was =
    key_kept-IsSound id k k' db stored account name was
Change-IsSound _ _ (key_set id k k' db stored account free) was =
    let (u, hit) = was.owned id k stored in
    key_placed-IsSound id k' u db (ap (λ i. lookup i db.users) account ∙ hit)
      (λ j m h apart same name. ground (
        arith,
        any-lookup
            (λ row. row.1.user_id == k'.user_id && row.1.name == k'.name && not (row.0 == id)) j m
            db.api_keys free h,
        text_eq_iff m.user_id k'.user_id,
        text_eq_iff m.name k'.name,
        text_eq_iff j id,
        text_eq_iff id j,
        same,
        name,
        apart,
      ))
      was
Change-IsSound _ _ (key_added id k u db stored free) was =
    key_placed-IsSound id k u db stored
      (λ j m h apart same name. ground (
        arith,
        any-lookup (λ row. row.1.user_id == k.user_id && row.1.name == k.name || row.0 == id) j m
            db.api_keys free h,
        text_eq_iff m.user_id k.user_id,
        text_eq_iff m.name k.name,
        same,
        name,
      ))
      was
Change-IsSound _ _ (key_dropped id db) was = key_dropped-IsSound id db was
Change-IsSound a c (both first next) was = Change-IsSound _ c next (Change-IsSound a _ first was)
