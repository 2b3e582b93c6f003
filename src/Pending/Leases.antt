-- ===== src/Pending/Leases.antt =====
-- What a worker that holds a lease can rely on: its result is read back until it expires, and
-- another lease cannot remove it.
use native.Mathlib.Decide.{dec_lt}
use raguardian.Prelude.{
  ℕ, zero, suc, ◌+◌, ◌≤◌, ◌<◌, String, ◌≡◌, refl, sym, ap, ◌∙◌, ◌≢◌, ◌⊎◌, inl, inr, Bool, true,
  false, ◌||◌, Option, none, some, List, [], ◌∷◌, arith, leb, if◌then◌else◌, Bool-cases,
  Option-cases, ◌==◌, ==_refl, ==_ne, le→ltb, length, nat_eq, string_eq, option_eq, pair_eq,
}
use raguardian.Prelude.Int.{ℤ}
use raguardian.Clock.{seconds}
use raguardian.Dict.{Dict, keys_where, lookup, insert, erase, erase_all, Distinct}
use raguardian.Dict.Laws.{
  lookup-insert, lookup-erase, erase_absent, erase_all-keys_where, lookup-without,
}
use raguardian.Pending.Keys.{key_of, key_of-injective}
use raguardian.Pending.{
  Json, RoundTrips, PendingTurnResult, Entry, Store, effective_ttl, created_or, text_or_empty,
  remove_locked, remove_all, purge_expired, put_locked, select_entry, encode_payload,
  decode_pending_result, put, read_entry, get, delete_if_lease,
}
use raguardian.Pending.Quota.{IsValid, put-IsValid, delete_if_lease-IsValid}

pub entries-remove_locked :
    (key : String) (s : Store) → (remove_locked key s).entries ≡ erase key s.entries
unfolding remove_locked
entries-remove_locked key s = elim (Option-cases (lookup key s.entries)) [
  | inl miss ↦ rw (miss, remove_locked) (sym (erase_absent key s.entries miss))
  | inr (entry, hit) ↦ rw (hit, remove_locked) refl
]

pub entries-remove_all :
    (keys : List String) (s : Store) → (remove_all keys s).entries ≡ erase_all keys s.entries
unfolding remove_all erase_all
entries-remove_all [] s = refl
entries-remove_all (key ∷ keys) s =
    entries-remove_all keys (remove_locked key s)
    ∙ ap (erase_all keys) (entries-remove_locked key s)

-- The purge removes exactly the entries that have expired.
pub lookup-purge_expired :
    (now : ℕ) (j : String) (s : Store)
    → Distinct s.entries
    → lookup j (purge_expired now s).entries ≡ elim (lookup j s.entries) [
      | none ↦ none
      | some entry ↦ (if leb entry.expires_at now then none else some entry)
    ]
unfolding purge_expired
lookup-purge_expired now j s distinct =
    let test : String → Entry → Bool = λ key entry. leb entry.expires_at now in
    ap (lookup j) (entries-remove_all (keys_where test s.entries) s)
    ∙ ap (lookup j) (erase_all-keys_where test s.entries distinct)
    ∙ lookup-without test j s.entries distinct

-- To have purged earlier makes no difference to a later purge.
purge_again :
    (now later : ℕ) (key : String) (s' s : Store)
    → Distinct s'.entries
    → Distinct s.entries
    → now ≤ later
    → (lookup key s'.entries ≡ lookup key s.entries)
      ⊎ (lookup key s'.entries ≡ lookup key (purge_expired now s).entries)
    → lookup key (purge_expired later s').entries ≡ lookup key (purge_expired later s).entries
purge_again now later key s' s d' d order h = ground (
  arith,
  lookup-purge_expired later key s' d',
  lookup-purge_expired later key s d,
  lookup-purge_expired now key s d,
)

module _ {R : Type 0} (json : Json R) (scope_key turn_id : String) where
  -- What a lease reads: the entry under its key, decoded.
  abbrev decoded : Option Entry → Option (PendingTurnResult R)
  decoded none = none
  decoded (some entry) = decode_pending_result json entry.payload scope_key turn_id entry.created_at

  abbrev IsGiven : String → Type 0
  IsGiven lease_token = (scope_key == "" || turn_id == "" || lease_token == "") ≡ false

  read_entry-decoded :
      (key : String) (o : Option Entry) (s : Store)
      → (read_entry json scope_key turn_id
          (elim o [ none ↦ none | some entry ↦ some (key, entry) ])
          s).0
        ≡ decoded o
  unfolding read_entry
  read_entry-decoded key none s = refl
  read_entry-decoded key (some entry) s =
      elim (Option-cases
        (decode_pending_result json entry.payload scope_key turn_id entry.created_at)) [
          | inl bad ↦ rw (bad, read_entry)
          | inr (pending, e) ↦ rw (e, read_entry)
        ]

  select_entry-lease :
      (lease_token : String) (d : Dict String Entry)
      → (lease_token == "") ≡ false
      → select_entry scope_key turn_id (some lease_token) d
        ≡ elim (lookup (key_of scope_key turn_id lease_token) d) [
          | none ↦ none
          | some entry ↦ some (key_of scope_key turn_id lease_token, entry)
        ]
  unfolding select_entry
  select_entry-lease lease_token d given = rw given

  get-decoded :
      (now : ℕ) (lease_token : String) (s : Store)
      → IsGiven lease_token
      → (get json now scope_key turn_id (some lease_token) s).0
        ≡ decoded (lookup (key_of scope_key turn_id lease_token) (purge_expired now s).entries)
  unfolding get
  get-decoded now lease_token s given =
      let key = key_of scope_key turn_id lease_token in
      let s' = purge_expired now s in
      let ids : (scope_key == "" || turn_id == "") ≡ false = ground arith in
      let token : (lease_token == "") ≡ false = ground arith in
      rw (ids, select_entry-lease lease_token s'.entries token)
        (read_entry-decoded key (lookup key s'.entries) s')

  abbrev entry_of : ℕ → String → List ℕ → ℕ → Entry
  entry_of now lease_token encoded ttl = record {
    lease_token = lease_token;
    payload = encoded;
    created_at = now;
    expires_at = now + seconds ttl;
    size_bytes = length encoded;
  }

  put_locked-stored :
      (now : ℕ) (key : String) (entry : Entry) (s : Store)
      → (put_locked now key entry s).0 ≡ true
      → (put_locked now key entry s).1.entries ≡ insert key entry (purge_expired now s).entries
  unfolding put_locked
  put_locked-stored now key entry s h = ground arith

  -- A `put` that reports success has encoded the result and has stored it under its lease.
  put-stored :
      (now : ℕ) (lease_token result_digest : String) (result : R) (ttl : Option ℤ) (s : Store)
      → (put json now scope_key turn_id lease_token result_digest result ttl s).0 ≡ true
      → IsGiven lease_token
        × ((encoded : List ℕ) × (encode_payload json lease_token result_digest result now
              ≡ some encoded)
            × ((put json now scope_key turn_id lease_token result_digest result ttl s).1.entries
                ≡ insert
                    (key_of scope_key turn_id lease_token)
                    (entry_of now lease_token encoded (effective_ttl s ttl))
                    (purge_expired now s).entries))
  unfolding put
  put-stored now lease_token result_digest result ttl s h =
      elim (Bool-cases (scope_key == "" || turn_id == "" || lease_token == "")) [
        | inl missing ↦ absurd (ground arith)
        | inr given ↦
            elim (Option-cases (encode_payload json lease_token result_digest result now)) [
              | inl failed ↦ absurd (ground arith)
              | inr (encoded, e) ↦ elim (dec_lt s.max_payload_bytes (length encoded)) [
                | yes over ↦ absurd (ground arith)
                | no small ↦
                    let entry = entry_of now lease_token encoded (effective_ttl s ttl) in
                    let key = key_of scope_key turn_id lease_token in
                    let same : put json now scope_key turn_id lease_token result_digest result ttl s
                        ≡ put_locked now key entry s =
                      rw (given, e, le→ltb s.max_payload_bytes (length encoded) (omega arith)) in
                    (
                      given,
                      (
                        encoded,
                        e,
                        ap (λ r. r.1.entries) same
                            ∙ put_locked-stored now key entry s (ap (λ r. r.0) (sym same) ∙ h),
                      ),
                    )
              ]
            ]
      ]

  created_or_self : (n : ℕ) → created_or (some n) n ≡ n
  unfolding created_or
  created_or_self zero = refl
  created_or_self (suc n) = refl

  decode-encode :
      RoundTrips json
      → (now : ℕ) (lease_token result_digest : String) (result : R) (raw : List ℕ)
      → encode_payload json lease_token result_digest result now ≡ some raw
      → decode_pending_result json raw scope_key turn_id now
        ≡ some (record {
          scope_key = scope_key;
          turn_id = turn_id;
          lease_token = lease_token;
          result_digest = result_digest;
          result = some result;
          created_at = now;
        })
  unfolding encode_payload decode_pending_result text_or_empty
  decode-encode back now lease_token result_digest result raw e =
      rw (back _ raw e, decode_pending_result, created_or_self now)

  -- In a valid store, a result that `put` has accepted is read back unchanged by its lease until its
  -- lifetime ends, for any JSON codec that reads back what it writes.
  pub get-put :
      RoundTrips json
      → (now : ℕ) (lease_token result_digest : String) (result : R) (ttl : Option ℤ) (s : Store)
        (later : ℕ)
      → IsValid s
      → (put json now scope_key turn_id lease_token result_digest result ttl s).0 ≡ true
      → later < now + seconds (effective_ttl s ttl)
      → (get json later scope_key turn_id
          (some lease_token)
          (put json now scope_key turn_id lease_token result_digest result ttl s).1).0
        ≡ some (record {
          scope_key = scope_key;
          turn_id = turn_id;
          lease_token = lease_token;
          result_digest = result_digest;
          result = some result;
          created_at = now;
        })
  get-put back now lease_token result_digest result ttl s later v stored alive =
      let (given, (encoded, e, entries)) =
        put-stored now lease_token result_digest result ttl s stored in
      let key = key_of scope_key turn_id lease_token in
      let entry = entry_of now lease_token encoded (effective_ttl s ttl) in
      let s' = (put json now scope_key turn_id lease_token result_digest result ttl s).1 in
      let v' = put-IsValid json now scope_key turn_id lease_token result_digest result ttl s v in
      let at : lookup key s'.entries ≡ some entry = rw (entries, lookup-insert, ==_refl key) in
      let kept : lookup key (purge_expired later s').entries ≡ some entry =
        lookup-purge_expired later key s' v'.distinct ∙ rw at (ground arith) in
      get-decoded later lease_token s' given
      ∙ rw kept (decode-encode back now lease_token result_digest result encoded e)

  lookup-delete_if_lease_other :
      (now : ℕ) (mine other : String) (s : Store)
      → mine ≢ other
      → lookup
            (key_of scope_key turn_id mine)
            (delete_if_lease now scope_key turn_id other s).1.entries
          ≡ lookup (key_of scope_key turn_id mine) s.entries
        ⊎ (lookup
              (key_of scope_key turn_id mine)
              (delete_if_lease now scope_key turn_id other s).1.entries
            ≡ lookup (key_of scope_key turn_id mine) (purge_expired now s).entries)
  unfolding delete_if_lease
  lookup-delete_if_lease_other now mine other s ne =
      let key = key_of scope_key turn_id other in
      let s' = purge_expired now s in
      let differ : (key == key_of scope_key turn_id mine) ≡ false =
        ==_ne _ _ (λ e. ne (sym (key_of-injective scope_key turn_id other mine e))) in
      elim (Bool-cases (scope_key == "" || turn_id == "" || other == "")) [
        | inl missing ↦ inl (rw missing)
        | inr given ↦ elim (Option-cases (lookup key s'.entries)) [
          | inl miss ↦ inr (rw (given, miss))
          | inr (entry, hit) ↦ elim (Bool-cases (entry.lease_token == other)) [
            | inl own ↦
                inr (rw (given, hit, own) (rw (entries-remove_locked, lookup-erase, differ)))
            | inr stale ↦ inr (rw (given, hit, stale))
          ]
        ]
      ]

  -- A worker whose lease was taken over cannot remove its successor's result: whatever another
  -- lease deletes, a lease with a scope, a turn and a token that are not empty reads from then on
  -- what it would have read in a valid store.
  pub get-delete_if_lease_other :
      (now later : ℕ) (mine other : String) (s : Store)
      → IsValid s
      → now ≤ later
      → (scope_key == "" || turn_id == "" || mine == "") ≡ false
      → mine ≢ other
      → (get json later scope_key turn_id
          (some mine)
          (delete_if_lease now scope_key turn_id other s).1).0
        ≡ (get json later scope_key turn_id (some mine) s).0
  get-delete_if_lease_other now later mine other s v order given ne =
      let key = key_of scope_key turn_id mine in
      let s' = (delete_if_lease now scope_key turn_id other s).1 in
      let v' = delete_if_lease-IsValid now scope_key turn_id other s v in
      get-decoded later mine s' given
      ∙ ap decoded (
          purge_again now later key s' s v'.distinct v.distinct order
            (lookup-delete_if_lease_other now mine other s ne))
      ∙ sym (get-decoded later mine s given)
