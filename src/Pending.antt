-- ===== src/Pending.antt =====
-- `PendingTurnResultStore` of app/utils/pending_turn_store.py, its in-process backend: results of
-- turns that are staged until they are committed, keyed by scope, turn and lease. The clock is an
-- argument; the standard library's JSON codec is a parameter.
pub mod Keys
pub mod Quota
pub mod Leases
pub mod Turns
mod Tests
use text.Mathlib.Text.{starts_with}
use Prim.Native.Char.{code}
use raguardian.Prelude.{
  ℕ, zero, suc, ◌+◌, ◌-◌, max, String, ◌≡◌, Bool, true, false, ◌||◌, Option, none, some, List, [],
  ◌∷◌, ltb, leb, if◌then◌else◌, ◌==◌, length, filter, nat_eq, string_eq, option_eq, pair_eq,
}
use raguardian.Prelude.Int.{ℤ, pos, negsuc}
use raguardian.Clock.{seconds}
use raguardian.Dict.Sums.{weight}
use raguardian.Dict.{Dict, keys_where, lookup, insert, erase}
use Keys.{turn_prefix, key_of, scope_prefix, separator}

abbrev pub schema_version : ℕ
schema_version = 1

-- The object that `_encode_payload` writes. A field is `none` where a decoded object lacks it.
pub record Payload (R : Type 0) : Type 0 where
  pub version : Option ℕ
  pub lease_token : Option String
  pub result_digest : Option String
  pub result : Option R
  pub created_at : Option ℕ

-- `json.dumps(...).encode("utf-8")` and `json.loads(raw.decode("utf-8"))`, over the values `R` that
-- a result may be; `none` is one of the exceptions that the callers catch.
pub record Json (R : Type 0) : Type 0 where
  pub dumps : Payload R → Option (List ℕ)
  pub loads : List ℕ → Option (Payload R)

-- What was written is read back.
abbrev pub RoundTrips : {R : Type 0} → Json R → Type 0
RoundTrips {R} json =
    (p : Payload R) (raw : List ℕ) → json.dumps p ≡ some raw → json.loads raw ≡ some p

pub record PendingTurnResult (R : Type 0) : Type 0 where
  pub scope_key : String
  pub turn_id : String
  pub lease_token : String
  pub result_digest : String
  pub result : Option R
  pub created_at : ℕ

pub record Entry : Type 0 where
  pub lease_token : String
  pub payload : List ℕ
  pub created_at : ℕ
  pub expires_at : ℕ
  pub size_bytes : ℕ

pub record Store : Type 0 where
  pub ttl_seconds : ℕ
  pub max_payload_bytes : ℕ
  pub max_total_bytes : ℕ
  pub entries : Dict String Entry
  pub total_bytes : ℕ

-- `max(1, int(n))`
unfoldable pub at_least_one : ℤ → ℕ
at_least_one (pos n) = max 1 n
at_least_one (negsuc n) = 1

unfoldable pub init : ℤ → ℤ → ℤ → Store
unfolding at_least_one
init ttl_seconds max_payload_bytes max_total_bytes = record {
  ttl_seconds = at_least_one ttl_seconds;
  max_payload_bytes = at_least_one max_payload_bytes;
  max_total_bytes = at_least_one max_total_bytes;
  entries = [];
  total_bytes = 0;
}

-- `max(1, int(ttl_seconds or self.ttl_seconds))`
unfoldable pub effective_ttl : Store → Option ℤ → ℕ
unfolding at_least_one
effective_ttl s none = max 1 s.ttl_seconds
effective_ttl s (some (pos zero)) = max 1 s.ttl_seconds
effective_ttl s (some (pos (suc n))) = suc n
effective_ttl s (some (negsuc n)) = 1

-- `payload.get("created_at") or fallback_created_at`
unfoldable pub created_or : Option ℕ → ℕ → ℕ
created_or none fallback = fallback
created_or (some zero) fallback = fallback
created_or (some (suc n)) fallback = suc n

unfoldable pub text_or_empty : Option String → String
text_or_empty none = ""
text_or_empty (some s) = s

unfoldable pub remove_locked : String → Store → Store
unfolding lookup erase
remove_locked key s = elim (lookup key s.entries) [
  | none ↦ s
  | some entry ↦ record s {
    entries = erase key s.entries;
    total_bytes = s.total_bytes - entry.size_bytes;
  }
]

-- `for key in keys: self._remove_locked(key)`
unfoldable pub remove_all : List String → Store → Store
unfolding remove_locked
remove_all [] s = s
remove_all (key ∷ keys) s = remove_all keys (remove_locked key s)

unfoldable pub purge_expired : ℕ → Store → Store
unfolding keys_where remove_all
purge_expired now s = remove_all (keys_where (λ key entry. leb entry.expires_at now) s.entries) s

abbrev pub size : Entry → ℕ
size entry = entry.size_bytes

-- The part of `put` that runs under the lock.
unfoldable pub put_locked : ℕ → String → Entry → Store → Bool × Store
unfolding purge_expired lookup insert
put_locked now key entry s =
    let s' = purge_expired now s in
    let previous_size = weight size (lookup key s'.entries) in
    let projected_total = s'.total_bytes + entry.size_bytes - previous_size in
    if ltb s'.max_total_bytes projected_total
    then (false, s')
    else (true, record s' { entries = insert key entry s'.entries; total_bytes = projected_total })

-- The first of the latest, as `max(..., key=created_at)` picks it.
unfoldable pub latest : List (String × Entry) → Option (String × Entry)
latest [] = none
latest (item ∷ items) = elim (latest items) [
  | none ↦ some item
  | some best ↦ if ltb item.1.created_at best.1.created_at then some best else some item
]

-- `candidates`: the entries whose key has the prefix of the turn
unfoldable pub with_prefix : String → Dict String Entry → List (String × Entry)
unfolding filter
with_prefix prefix d = filter (λ item. starts_with item.0 prefix) d

unfoldable pub select_entry :
    String → String → Option String → Dict String Entry → Option (String × Entry)
unfolding lookup key_of turn_prefix latest with_prefix
select_entry scope_key turn_id lease_token d =
    let of_turn = latest (with_prefix (turn_prefix scope_key turn_id) d) in
    elim lease_token [
      | none ↦ of_turn
      | some token ↦
          if token == ""
          then of_turn
          else let key = key_of scope_key turn_id token in
            elim (lookup key d) [ none ↦ none | some entry ↦ some (key, entry) ]
    ]

module _ {R : Type 0} (json : Json R) where
  unfoldable pub encode_payload : String → String → R → ℕ → Option (List ℕ)
  encode_payload lease_token result_digest result created_at = json.dumps (record {
    version = some schema_version;
    lease_token = some lease_token;
    result_digest = some result_digest;
    result = some result;
    created_at = some created_at;
  })

  unfoldable pub decode_pending_result : List ℕ → String → String → ℕ → Option (PendingTurnResult R)
  unfolding created_or text_or_empty
  decode_pending_result raw scope_key turn_id fallback_created_at = elim (json.loads raw) [
    | none ↦ none
    | some payload ↦
        if payload.version == some schema_version
        then some (record {
          scope_key = scope_key;
          turn_id = turn_id;
          lease_token = text_or_empty payload.lease_token;
          result_digest = text_or_empty payload.result_digest;
          result = payload.result;
          created_at = created_or payload.created_at fallback_created_at;
        })
        else none
  ]

  unfoldable pub put : ℕ → String → String → String → String → R → Option ℤ → Store → Bool × Store
  unfolding key_of effective_ttl encode_payload put_locked
  put now scope_key turn_id lease_token result_digest result ttl_seconds s =
      if scope_key == "" || turn_id == "" || lease_token == ""
      then (false, s)
      else elim (encode_payload lease_token result_digest result now) [
        | none ↦ (false, s)
        | some encoded ↦
            if ltb s.max_payload_bytes (length encoded)
            then (false, s)
            else put_locked now (key_of scope_key turn_id lease_token)
                (record {
                  lease_token = lease_token;
                  payload = encoded;
                  created_at = now;
                  expires_at = now + seconds (effective_ttl s ttl_seconds);
                  size_bytes = length encoded;
                })
                s
      ]

  -- A payload that cannot be decoded is dropped.
  unfoldable pub read_entry :
      String → String → Option (String × Entry) → Store → Option (PendingTurnResult R) × Store
  unfolding decode_pending_result remove_locked
  read_entry scope_key turn_id none s = (none, s)
  read_entry scope_key turn_id (some (key, entry)) s =
      elim (decode_pending_result entry.payload scope_key turn_id entry.created_at) [
        | none ↦ (none, remove_locked key s)
        | some pending ↦ (some pending, s)
      ]

  unfoldable pub get :
      ℕ → String → String → Option String → Store → Option (PendingTurnResult R) × Store
  unfolding purge_expired select_entry read_entry
  get now scope_key turn_id lease_token s =
      if scope_key == "" || turn_id == ""
      then (none, s)
      else let s' = purge_expired now s in
        read_entry scope_key turn_id (select_entry scope_key turn_id lease_token s'.entries) s'

-- `bool(to_remove)`
unfoldable pub nonempty {ℓ} : {A : Type ℓ} → List A → Bool
nonempty [] = false
nonempty (x ∷ xs) = true

unfoldable pub delete : String → String → Store → Bool × Store
unfolding keys_where turn_prefix remove_all nonempty
delete scope_key turn_id s =
    if scope_key == "" || turn_id == ""
    then (false, s)
    else let to_remove =
        keys_where (λ key _. starts_with key (turn_prefix scope_key turn_id)) s.entries in
      (nonempty to_remove, remove_all to_remove s)

unfoldable pub delete_if_lease : ℕ → String → String → String → Store → Bool × Store
unfolding purge_expired lookup key_of remove_locked
delete_if_lease now scope_key turn_id lease_token s =
    if scope_key == "" || turn_id == "" || lease_token == ""
    then (false, s)
    else let key = key_of scope_key turn_id lease_token in
      let s' = purge_expired now s in
      elim (lookup key s'.entries) [
        | none ↦ (false, s')
        | some entry ↦
            if entry.lease_token == lease_token then (true, remove_locked key s') else (false, s')
      ]

-- `key.partition("\x1f")[0]`
unfoldable pub before_separator : String → String
before_separator String.[] = ""
before_separator (String.◌∷◌ c s) =
    let rest = String.◌∷◌ c (before_separator s) in if code c == code separator then "" else rest

-- The two operations that clear the entries whose key passes a test.
unfoldable pub clear_where : ℕ → (String → Bool) → Store → ℕ × Store
unfolding purge_expired keys_where remove_all
clear_where now test s =
    let s' = purge_expired now s in
    let to_remove = keys_where (λ key _. test key) s'.entries in
    (length to_remove, remove_all to_remove s')

unfoldable pub clear_by_prefix : ℕ → String → Store → ℕ × Store
unfolding clear_where before_separator
clear_by_prefix now prefix s =
    if prefix == ""
    then (0, s)
    else clear_where now (λ key. starts_with (before_separator key) prefix) s

unfoldable pub clear_scope : ℕ → String → Store → ℕ × Store
unfolding clear_where scope_prefix
clear_scope now scope_key s =
    if scope_key == ""
    then (0, s)
    else clear_where now (λ key. starts_with key (scope_prefix scope_key)) s

unfoldable pub clear_all : Store → Store
clear_all s = record s { entries = []; total_bytes = 0 }
