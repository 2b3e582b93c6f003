-- ===== src/Users/Changes/Keeps.antt =====
-- Every change keeps the invariants.
use raguardian.Prelude.{
  String, ◌≡◌, refl, sym, ap, ◌∙◌, inl, inr, Bool, true, false, some, arith, Bool-cases,
  Option-cases, text_eq_iff, ◌==◌, any, nat_eq, string_eq, option_eq, pair_eq,
}
use raguardian.Dict.{Dict, without, lookup, insert, update_at, Distinct}
use raguardian.Dict.Laws.{
  lookup-insert, lookup-erase, insert-Distinct, erase-Distinct, lookup-without, without-Distinct,
}
use raguardian.Dict.Tables.{lookup-update_at, any-lookup, update_at-Distinct}
use raguardian.Users.{User, ApiKey, Accounts, is_deleting, set_user, delete_row}
use raguardian.Users.Changes.{IsSound}

-- The keys change, each with its account and its name.
pub keys-IsSound :
    {late : Bool} (db : Accounts) (keys : Dict String ApiKey)
    → ((j : String) (m : ApiKey)
        → lookup j keys ≡ some m
        → (k : ApiKey) × (lookup j db.api_keys ≡ some k)
          × (m.user_id ≡ k.user_id)
          × (m.name ≡ k.name))
    → Distinct keys
    → IsSound late db
    → IsSound late (record db { api_keys = keys })
keys-IsSound db keys old distinct was = record {
  disabled = was.disabled;
  emails = was.emails;
  owned = λ j m h.
      let (k, hit, account, _) = old j m h in
      let (u, e) = was.owned j k hit in (u, ap (λ i. lookup i db.users) account ∙ e);
  names = λ i j k m h h' account name.
      let (k0, hit, a, n) = old i k h in
      let (m0, hit', a', n') = old j m h' in
      was.names i j k0 m0 hit hit' (sym a ∙ account ∙ a') (sym n ∙ name ∙ n');
  distinct = distinct;
  distinct_users = was.distinct_users;
}

-- The accounts change, each with its email, and none of them goes.
users-IsSound :
    {late : Bool} (db : Accounts) (users : Dict String User)
    → ((j : String) (v : User)
        → lookup j users ≡ some v
        → (u : User) × (lookup j db.users ≡ some u) × (v.email ≡ u.email))
    → (late ≡ false
        → (j : String) (v : User) → lookup j users ≡ some v
        → is_deleting v ≡ true
        → v.enabled ≡ false)
    → ((j : String) (u : User)
        → lookup j db.users ≡ some u
        → (v : User) × (lookup j users ≡ some v))
    → Distinct users
    → IsSound late db
    → IsSound late (record db { users = users })
users-IsSound db users old off stay distinct was = record {
  disabled = off;
  emails = λ i j u v h h' same.
      let (u0, hit, e) = old i u h in
      let (v0, hit', e') = old j v h' in was.emails i j u0 v0 hit hit' (sym e ∙ same ∙ e');
  owned = λ j k h. let (u, hit) = was.owned j k h in stay k.user_id u hit;
  names = was.names;
  distinct = was.distinct;
  distinct_users = distinct;
}

pub user_set-IsSound :
    {late : Bool} (id : String) (f : User → User) (db : Accounts)
    → ((u : User) → lookup id db.users ≡ some u → (f u).email ≡ u.email)
    → (late ≡ false
        → (u : User) → lookup id db.users ≡ some u
        → (is_deleting u ≡ true → u.enabled ≡ false)
        → is_deleting (f u) ≡ true
        → (f u).enabled ≡ false)
    → IsSound late db
    → IsSound late (set_user id f db)
unfolding set_user
user_set-IsSound id f db same off was =
    users-IsSound db (update_at id f db.users)
      (λ j v h.
        let at = lookup-update_at id j f db.users in
        elim (Option-cases (lookup j db.users)) [
          | inl miss ↦ absurd (ground (arith, at, miss, h))
          | inr (u, hit) ↦ elim (Bool-cases (id == j)) [
            | inl here ↦
                let is : f u ≡ v = ground (arith, at, hit, here, h) in
                let at_id : lookup id db.users ≡ some u =
                  ap (λ i. lookup i db.users) ((text_eq_iff id j).0 here) ∙ hit in
                (u, hit, sym (ap (λ x. x.email) is) ∙ same u at_id)
            | inr there ↦ (v, ground (arith, at, there, h), refl)
          ]
        ])
      (λ on_time j v h deleting.
        let at = lookup-update_at id j f db.users in
        elim (Option-cases (lookup j db.users)) [
          | inl miss ↦ absurd (ground (arith, at, miss, h))
          | inr (u, hit) ↦ elim (Bool-cases (id == j)) [
            | inl here ↦
                let is : f u ≡ v = ground (arith, at, hit, here, h) in
                let at_id : lookup id db.users ≡ some u =
                  ap (λ i. lookup i db.users) ((text_eq_iff id j).0 here) ∙ hit in
                sym (ap (λ x. x.enabled) is)
                ∙ off on_time u at_id (was.disabled on_time id u at_id)
                    (ap is_deleting is ∙ deleting)
            | inr there ↦ was.disabled on_time j v (ground (arith, at, there, h)) deleting
          ]
        ])
      (λ j u h.
        let at = lookup-update_at id j f db.users in
        elim (Bool-cases (id == j)) [
          | inl here ↦ (f u, ground (arith, at, here, h))
          | inr there ↦ (u, ground (arith, at, there, h))
        ])
      (update_at-Distinct id f db.users was.distinct_users) was

pub user_added-IsSound :
    {late : Bool} (id : String) (u : User) (db : Accounts)
    → any (λ row. row.1.email == u.email) db.users ≡ false
    → any (λ row. row.0 == id) db.users ≡ false
    → is_deleting u ≡ false
    → IsSound late db
    → IsSound late (record db { users = insert id u db.users })
user_added-IsSound id u db free fresh active was =
    let at = λ (j : String). lookup-insert id j u db.users in
    let other : (j : String) (v : User) → lookup j db.users ≡ some v → v.email ≡ u.email → ⊥ =
      λ j v h e. ground (
        arith,
        any-lookup (λ row. row.1.email == u.email) j v db.users free h,
        text_eq_iff v.email u.email,
        e,
      ) in
    record {
      disabled = λ on_time j v h deleting. elim (Bool-cases (id == j)) [
        | inl here ↦
            let is : u ≡ v = ground (arith, at j, here, h) in
            absurd (ground (arith, ap is_deleting is, active, deleting))
        | inr there ↦ was.disabled on_time j v (ground (arith, at j, there, h)) deleting
      ];
      emails = λ i j v w h h' same. elim (Bool-cases (id == i)) [
        | inl here ↦ elim (Bool-cases (id == j)) [
          | inl here' ↦ sym ((text_eq_iff id i).0 here) ∙ (text_eq_iff id j).0 here'
          | inr there ↦
              let is : u ≡ v = ground (arith, at i, here, h) in
              absurd (
                other j w (ground (arith, at j, there, h')) (sym same ∙ sym (ap (λ x. x.email) is)))
        ]
        | inr there ↦ elim (Bool-cases (id == j)) [
          | inl here' ↦
              let is : u ≡ w = ground (arith, at j, here', h') in
              absurd
                (other i v (ground (arith, at i, there, h)) (same ∙ sym (ap (λ x. x.email) is)))
          | inr there' ↦
              was.emails i j v w (ground (arith, at i, there, h)) (ground (arith, at j, there', h'))
                same
        ]
      ];
      owned = λ j k h.
          let (v, hit) = was.owned j k h in
          elim (Bool-cases (id == k.user_id)) [
            | inl here ↦ (u, ground (arith, at k.user_id, here))
            | inr there ↦ (v, ground (arith, at k.user_id, there, hit))
          ];
      names = was.names;
      distinct = was.distinct;
      distinct_users = insert-Distinct id u db.users was.distinct_users;
    }

pub user_dropped-IsSound :
    {late : Bool} (id : String) (db : Accounts) → IsSound late db → IsSound late (delete_row id db)
unfolding delete_row
user_dropped-IsSound id db was =
    let gone = λ (j : String). lookup-erase id j db.users in
    let left = λ (j : String).
      lookup-without (λ (_ : String) (k : ApiKey). k.user_id == id) j db.api_keys was.distinct in
    let key_left : (j : String) (k : ApiKey)
        → lookup j (without (λ _ k. k.user_id == id) db.api_keys) ≡ some k
        → (lookup j db.api_keys ≡ some k) × ((k.user_id == id) ≡ false) =
      λ j k h. elim (Option-cases (lookup j db.api_keys)) [
        | inl miss ↦ absurd (ground (arith, left j, miss, h))
        | inr (m, hit) ↦ (ground (arith, left j, hit, h), ground (arith, left j, hit, h))
      ] in
    record {
      disabled = λ on_time j v h. was.disabled on_time j v (ground (arith, gone j, h));
      emails = λ i j u v h h'.
          was.emails i j u v (ground (arith, gone i, h)) (ground (arith, gone j, h'));
      owned = λ j k h.
          let (hit, apart) = key_left j k h in
          let (u, e) = was.owned j k hit in
          (
            u,
            ground (
              arith,
              gone k.user_id,
              e,
              apart,
              text_eq_iff id k.user_id,
              text_eq_iff k.user_id id,
            ),
          );
      names = λ i j k m h h'. was.names i j k m (key_left i k h).0 (key_left j m h').0;
      distinct = without-Distinct _ db.api_keys was.distinct;
      distinct_users = erase-Distinct id db.users was.distinct_users;
    }
