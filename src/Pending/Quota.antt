-- ===== src/Pending/Quota.antt =====
-- The accounting of the staged bytes: exact, and within both limits, after any operations.
use native.Mathlib.Decide.{dec_lt}
use text.Mathlib.Text.{starts_with}
use raguardian.Pending.Keys.{turn_prefix, key_of, scope_prefix}
use raguardian.Prelude.{
  ℕ, ◌+◌, ◌-◌, ◌≤◌, String, ◌≡◌, refl, ap, inl, inr, Bool, ◌||◌, Option, none, some, List, [], ◌∷◌,
  arith, leb, Bool-cases, Option-cases, ◌==◌, lt→ltb, le→ltb, length, All, nat_eq, string_eq,
  option_eq, pair_eq,
}
use raguardian.Prelude.Int.{ℤ}
use raguardian.Dict.{total, keys_where, lookup, insert, Distinct}
use raguardian.Dict.Laws.{insert-Distinct, erase-Distinct}
use raguardian.Dict.Sums.{weight, total-insert, total-erase, All-erase, All-insert}
use raguardian.Pending.{
  Json, Entry, Store, init, remove_locked, remove_all, purge_expired, size, put_locked,
  select_entry, encode_payload, decode_pending_result, put, read_entry, get, delete,
  delete_if_lease, before_separator, clear_where, clear_by_prefix, clear_scope, clear_all,
}

-- An entry records its own size, which is within the limit of one payload.
abbrev pub Fits : ℕ → String × Entry → Type 0
Fits n item = (item.1.size_bytes ≡ length item.1.payload) × (item.1.size_bytes ≤ n)

pub record IsValid (s : Store) : Type 0 where
  pub distinct : Distinct s.entries
  pub counted : s.total_bytes ≡ total size s.entries
  pub within : s.total_bytes ≤ s.max_total_bytes
  pub sized : All (Fits s.max_payload_bytes) s.entries

pub remove_locked-IsValid : (key : String) (s : Store) → IsValid s → IsValid (remove_locked key s)
unfolding remove_locked
remove_locked-IsValid key s v = elim (Option-cases (lookup key s.entries)) [
  | inl miss ↦ rw (miss, remove_locked) v
  | inr (entry, hit) ↦
      rw (hit, remove_locked)
        (record {
          distinct = erase-Distinct key s.entries v.distinct;
          counted =
              omega
                (arith, total-erase size key s.entries v.distinct, ap (weight size) hit, v.counted);
          within = omega (arith, v.within);
          sized = All-erase (Fits s.max_payload_bytes) key s.entries v.sized;
        })
]

pub remove_all-IsValid : (keys : List String) (s : Store) → IsValid s → IsValid (remove_all keys s)
unfolding remove_all
remove_all-IsValid [] s v = v
remove_all-IsValid (key ∷ keys) s v =
    remove_all-IsValid keys (remove_locked key s) (remove_locked-IsValid key s v)

pub purge_expired-IsValid : (now : ℕ) (s : Store) → IsValid s → IsValid (purge_expired now s)
unfolding purge_expired
purge_expired-IsValid now s v =
    remove_all-IsValid (keys_where (λ key entry. leb entry.expires_at now) s.entries) s v

-- No operation changes the limits.
limits-remove_locked :
    (key : String) (s : Store)
    → ((remove_locked key s).max_payload_bytes ≡ s.max_payload_bytes)
      × ((remove_locked key s).max_total_bytes ≡ s.max_total_bytes)
unfolding remove_locked
limits-remove_locked key s = ground arith

limits-remove_all :
    (keys : List String) (s : Store)
    → ((remove_all keys s).max_payload_bytes ≡ s.max_payload_bytes)
      × ((remove_all keys s).max_total_bytes ≡ s.max_total_bytes)
unfolding remove_all
limits-remove_all [] s = (refl, refl)
limits-remove_all (key ∷ keys) s =
    ground (arith, limits-remove_locked key s, limits-remove_all keys (remove_locked key s))

pub limits-purge_expired :
    (now : ℕ) (s : Store)
    → ((purge_expired now s).max_payload_bytes ≡ s.max_payload_bytes)
      × ((purge_expired now s).max_total_bytes ≡ s.max_total_bytes)
unfolding purge_expired
limits-purge_expired now s =
    limits-remove_all (keys_where (λ key entry. leb entry.expires_at now) s.entries) s

insert-IsValid :
    (key : String) (entry : Entry) (s : Store)
    → IsValid s
    → Fits s.max_payload_bytes (key, entry)
    → s.total_bytes + entry.size_bytes - weight size (lookup key s.entries) ≤ s.max_total_bytes
    → IsValid (record s {
      entries = insert key entry s.entries;
      total_bytes = s.total_bytes + entry.size_bytes - weight size (lookup key s.entries);
    })
insert-IsValid key entry s v fits room = record {
  distinct = insert-Distinct key entry s.entries v.distinct;
  counted = omega (arith, total-insert size key entry s.entries, v.counted);
  within = room;
  sized = All-insert (Fits s.max_payload_bytes) key entry s.entries fits v.sized;
}

put_locked-IsValid :
    (now : ℕ) (key : String) (entry : Entry) (s : Store)
    → IsValid s
    → Fits s.max_payload_bytes (key, entry)
    → IsValid (put_locked now key entry s).1
unfolding put_locked
put_locked-IsValid now key entry s v fits =
    let s' = purge_expired now s in
    let v' = purge_expired-IsValid now s v in
    let projected = s'.total_bytes + entry.size_bytes - weight size (lookup key s'.entries) in
    elim (dec_lt s'.max_total_bytes projected) [
      | yes over ↦ rw (lt→ltb _ _ over) v'
      | no room ↦
          rw (le→ltb s'.max_total_bytes projected (omega arith))
            (insert-IsValid key entry s' v' (rw (limits-purge_expired now s).0 fits) (omega arith))
    ]

module _ {R : Type 0} (json : Json R) where
  pub put-IsValid :
      (now : ℕ) (scope_key turn_id lease_token result_digest : String) (result : R)
      (ttl_seconds : Option ℤ) (s : Store)
      → IsValid s
      → IsValid (put json now scope_key turn_id lease_token result_digest result ttl_seconds s).1
  unfolding put
  put-IsValid now scope_key turn_id lease_token result_digest result ttl_seconds s v =
      elim (Bool-cases (scope_key == "" || turn_id == "" || lease_token == "")) [
        | inl missing ↦ rw missing v
        | inr given ↦
            elim (Option-cases (encode_payload json lease_token result_digest result now)) [
              | inl failed ↦ rw (given, failed) v
              | inr (encoded, e) ↦ elim (dec_lt s.max_payload_bytes (length encoded)) [
                | yes over ↦ rw (given, e, lt→ltb _ _ over) v
                | no small ↦
                    rw (given, e, le→ltb s.max_payload_bytes (length encoded) (omega arith))
                      (put_locked-IsValid now _ _ s v (refl, omega arith))
              ]
            ]
      ]

  read_entry-IsValid :
      (scope_key turn_id : String) (item : Option (String × Entry)) (s : Store)
      → IsValid s
      → IsValid (read_entry json scope_key turn_id item s).1
  unfolding read_entry
  read_entry-IsValid scope_key turn_id none s v = v
  read_entry-IsValid scope_key turn_id (some (key, entry)) s v =
      elim (Option-cases
        (decode_pending_result json entry.payload scope_key turn_id entry.created_at)) [
          | inl bad ↦ rw (bad, read_entry) (remove_locked-IsValid key s v)
          | inr (pending, e) ↦ rw (e, read_entry) v
        ]

  get-IsValid :
      (now : ℕ) (scope_key turn_id : String) (lease_token : Option String) (s : Store)
      → IsValid s
      → IsValid (get json now scope_key turn_id lease_token s).1
  unfolding get
  get-IsValid now scope_key turn_id lease_token s v =
      elim (Bool-cases (scope_key == "" || turn_id == "")) [
        | inl missing ↦ rw missing v
        | inr given ↦
            let s' = purge_expired now s in
            rw given (
              read_entry-IsValid scope_key turn_id
                (select_entry scope_key turn_id lease_token s'.entries) s'
                (purge_expired-IsValid now s v))
      ]

pub delete-IsValid :
    (scope_key turn_id : String) (s : Store) → IsValid s → IsValid (delete scope_key turn_id s).1
unfolding delete
delete-IsValid scope_key turn_id s v = elim (Bool-cases (scope_key == "" || turn_id == "")) [
  | inl missing ↦ rw missing v
  | inr given ↦ rw given (
      remove_all-IsValid
        (keys_where (λ key _. starts_with key (turn_prefix scope_key turn_id)) s.entries) s v)
]

pub delete_if_lease-IsValid :
    (now : ℕ) (scope_key turn_id lease_token : String) (s : Store)
    → IsValid s
    → IsValid (delete_if_lease now scope_key turn_id lease_token s).1
unfolding delete_if_lease
delete_if_lease-IsValid now scope_key turn_id lease_token s v =
    let key = key_of scope_key turn_id lease_token in
    let s' = purge_expired now s in
    let v' = purge_expired-IsValid now s v in
    elim (Bool-cases (scope_key == "" || turn_id == "" || lease_token == "")) [
      | inl missing ↦ rw missing v
      | inr given ↦ elim (Option-cases (lookup key s'.entries)) [
        | inl miss ↦ rw (given, miss) v'
        | inr (entry, hit) ↦ elim (Bool-cases (entry.lease_token == lease_token)) [
          | inl own ↦ rw (given, hit, own) (remove_locked-IsValid key s' v')
          | inr stale ↦ rw (given, hit, stale) v'
        ]
      ]
    ]

clear_where-IsValid :
    (now : ℕ) (test : String → Bool) (s : Store) → IsValid s → IsValid (clear_where now test s).1
unfolding clear_where
clear_where-IsValid now test s v =
    let s' = purge_expired now s in
    remove_all-IsValid (keys_where (λ key _. test key) s'.entries) s'
      (purge_expired-IsValid now s v)

clear_by_prefix-IsValid :
    (now : ℕ) (prefix : String) (s : Store) → IsValid s → IsValid (clear_by_prefix now prefix s).1
unfolding clear_by_prefix
clear_by_prefix-IsValid now prefix s v = elim (Bool-cases (prefix == "")) [
  | inl missing ↦ rw missing v
  | inr given ↦
      rw given (clear_where-IsValid now (λ key. starts_with (before_separator key) prefix) s v)
]

pub clear_scope-IsValid :
    (now : ℕ) (scope_key : String) (s : Store) → IsValid s → IsValid (clear_scope now scope_key s).1
unfolding clear_scope
clear_scope-IsValid now scope_key s v = elim (Bool-cases (scope_key == "")) [
  | inl missing ↦ rw missing v
  | inr given ↦
      rw given (clear_where-IsValid now (λ key. starts_with key (scope_prefix scope_key)) s v)
]

clear_all-IsValid : (s : Store) → IsValid (clear_all s)
unfolding clear_all total
clear_all-IsValid s = record { distinct = tt; counted = refl; within = omega arith; sized = tt }

pub init-IsValid : (ttl payload total_limit : ℤ) → IsValid (init ttl payload total_limit)
unfolding init total
init-IsValid ttl payload total_limit = record {
  distinct = tt;
  counted = refl;
  within = omega arith;
  sized = tt;
}

-- The calls of the clients, each at its time.
pub data Call (R : Type 0) : Type 0 where
  put_at : ℕ → String → String → String → String → R → Option ℤ → Call R
  get_at : ℕ → String → String → Option String → Call R
  delete_turn : String → String → Call R
  delete_lease_at : ℕ → String → String → String → Call R
  clear_prefix_at : ℕ → String → Call R
  clear_scope_at : ℕ → String → Call R
  clear_every : Call R

module _ {R : Type 0} (json : Json R) where
  unfoldable pub perform : Call R → Store → Store
  unfolding put get delete delete_if_lease clear_by_prefix clear_scope clear_all
  perform (put_at now scope turn lease digest result ttl) s =
      (put json now scope turn lease digest result ttl s).1
  perform (get_at now scope turn lease) s = (get json now scope turn lease s).1
  perform (delete_turn scope turn) s = (delete scope turn s).1
  perform (delete_lease_at now scope turn lease) s = (delete_if_lease now scope turn lease s).1
  perform (clear_prefix_at now prefix) s = (clear_by_prefix now prefix s).1
  perform (clear_scope_at now scope) s = (clear_scope now scope s).1
  perform clear_every s = clear_all s

  unfoldable pub run : List (Call R) → Store → Store
  unfolding perform
  run [] s = s
  run (call ∷ calls) s = run calls (perform call s)

  perform-IsValid : (call : Call R) (s : Store) → IsValid s → IsValid (perform call s)
  perform-IsValid (put_at now scope turn lease digest result ttl) s v =
      unfold perform in put-IsValid json now scope turn lease digest result ttl s v
  perform-IsValid (get_at now scope turn lease) s v =
      unfold perform in get-IsValid json now scope turn lease s v
  perform-IsValid (delete_turn scope turn) s v = unfold perform in delete-IsValid scope turn s v
  perform-IsValid (delete_lease_at now scope turn lease) s v =
      unfold perform in delete_if_lease-IsValid now scope turn lease s v
  perform-IsValid (clear_prefix_at now prefix) s v =
      unfold perform in clear_by_prefix-IsValid now prefix s v
  perform-IsValid (clear_scope_at now scope) s v =
      unfold perform in clear_scope-IsValid now scope s v
  perform-IsValid clear_every s v = unfold perform in clear_all-IsValid s

  run-IsValid : (calls : List (Call R)) (s : Store) → IsValid s → IsValid (run calls s)
  unfolding run
  run-IsValid [] s v = v
  run-IsValid (call ∷ calls) s v = run-IsValid calls (perform call s) (perform-IsValid call s v)

  -- After any calls on a new store, for any limits: the running total is the sum of the sizes of
  -- the staged payloads and within the total limit, each payload is within the payload limit and
  -- recorded with its true size, and no key stands twice.
  pub run-quota :
      (ttl payload total_limit : ℤ) (calls : List (Call R))
      → IsValid (run calls (init ttl payload total_limit))
  run-quota ttl payload total_limit calls =
      run-IsValid calls (init ttl payload total_limit) (init-IsValid ttl payload total_limit)
