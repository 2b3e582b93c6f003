-- ===== src/Pending/Tests.antt =====
-- Runs of the store over a codec of one byte per field, and its theorems at two leases of a turn.
use raguardian.Prelude.{
  ℕ, String, ◌≡◌, refl, ◌≢◌, Bool, true, false, ◌&&◌, ◌||◌, Option, none, some, List, [], ◌∷◌,
  arith, if◌then◌else◌, text_eq, text_eq_iff, ◌==◌, nat_eq, string_eq, option_eq, pair_eq,
}
use raguardian.Prelude.Int.{pos}
use raguardian.Dict.{lookup}
use raguardian.Pending.Keys.{key_of}
use raguardian.Pending.{
  Payload, Json, RoundTrips, Store, init, effective_ttl, purge_expired, put, get, delete,
  delete_if_lease, clear_by_prefix, clear_scope,
}
use raguardian.Pending.Quota.{
  IsValid, init-IsValid, Call, put_at, get_at, delete_lease_at, run, run-quota,
}
use raguardian.Pending.Quota
use raguardian.Pending.Leases
use raguardian.Pending.Turns

-- A codec for the results of one lease: the number and the time are written.
abbrev dumps_fields : Option ℕ → Option ℕ → Option (List ℕ)
dumps_fields (some r) (some t) = some (r ∷ t ∷ [])
dumps_fields _ _ = none

abbrev dumps_one : Payload ℕ → Option (List ℕ)
dumps_one p =
    if p.version == some 1 && p.lease_token == some "l1" && p.result_digest == some "d"
    then dumps_fields p.result p.created_at
    else none

abbrev loads_one : List ℕ → Option (Payload ℕ)
loads_one (r ∷ t ∷ []) = some (record {
  version = some 1;
  lease_token = some "l1";
  result_digest = some "d";
  result = some r;
  created_at = some t;
})
loads_one _ = none

abbrev codec : Json ℕ
codec = record { dumps = dumps_one; loads = loads_one }

program : Unit {0}
unfolding text_eq init put get delete delete_if_lease clear_scope clear_by_prefix Quota.run
program = tt

abbrev put_one : Bool × Store
put_one = put codec 5 "scope" "turn" "l1" "d" 42 none (init (pos 60) (pos 100) (pos 3))

stored : put_one.0 ≡ true
unfolding program
stored = refl

-- A second payload would pass the total limit of three bytes.
over_quota : (put codec 6 "scope" "turn" "l2" "d" 42 none put_one.1).0 ≡ false
unfolding program
over_quota = refl

read_back :
    (get codec 7 "scope" "turn" none put_one.1).0
    ≡ some (record {
      scope_key = "scope";
      turn_id = "turn";
      lease_token = "l1";
      result_digest = "d";
      result = some 42;
      created_at = 5;
    })
unfolding program
read_back = refl

expired_run : (get codec 60000005 "scope" "turn" (some "l1") put_one.1).0 ≡ none
unfolding program
expired_run = refl

deleted_run : (delete "scope" "turn" put_one.1).1.total_bytes ≡ 0
unfolding program
deleted_run = refl

abbrev calls : List (Call ℕ)
calls =
    put_at 5 "scope" "turn" "l1" "d" 42 none
    ∷ put_at 6 "scope" "turn" "l2" "d" 43 none
    ∷ delete_lease_at 7 "scope" "turn" "l2"
    ∷ get_at 8 "scope" "turn" none
    ∷ []

run-quota_example : IsValid (Quota.run codec calls (init (pos 60) (pos 100) (pos 3)))
run-quota_example = Quota.run-quota codec (pos 60) (pos 100) (pos 3) calls

put_one-IsValid : IsValid put_one.1
unfolding program
put_one-IsValid =
    Quota.run-quota codec (pos 60) (pos 100) (pos 3) (put_at 5 "scope" "turn" "l1" "d" 42 none ∷ [])

abbrev scope : String
scope = "scope"

abbrev turn : String
turn = "turn"

abbrev l1 : String
l1 = "l1"

other_lease : (scope == "" || turn == "" || l1 == "") ≡ false
unfolding program
other_lease = refl

l1-ne-l2 : ◌≢◌ {A = String} "l1" "l2"
unfolding program
l1-ne-l2 e = cc ((text_eq_iff "l1" "l2").1 e)

get-delete_if_lease_other_example :
    (get codec 9 "scope" "turn" (some "l1") (delete_if_lease 7 "scope" "turn" "l2" put_one.1).1).0
    ≡ (get codec 9 "scope" "turn" (some "l1") put_one.1).0
get-delete_if_lease_other_example =
    Leases.get-delete_if_lease_other codec "scope" "turn" 7 9 "l1" "l2" put_one.1 put_one-IsValid
      (omega arith) other_lease l1-ne-l2

scope-ne : (scope == "") ≡ false
unfolding program
scope-ne = refl

turn-ne : (turn == "") ≡ false
unfolding program
turn-ne = refl

lookup-delete_example : lookup (key_of scope "other" l1) (delete scope turn put_one.1).1.entries ≡ (
    if scope == scope && turn == "other"
    then none
    else lookup (key_of scope "other" l1) put_one.1.entries)
lookup-delete_example =
    Turns.lookup-delete scope turn scope "other" l1 put_one.1 put_one-IsValid.distinct scope-ne
      (omega arith) (omega arith) turn-ne (omega arith) (omega arith)

lookup-clear_scope_example :
    lookup (key_of "other" turn l1) (clear_scope 9 scope put_one.1).1.entries ≡ (
      if scope == "other"
      then none
      else lookup (key_of "other" turn l1) (purge_expired 9 put_one.1).entries)
lookup-clear_scope_example =
    Turns.lookup-clear_scope scope turn "other" turn l1 put_one.1 put_one-IsValid.distinct scope-ne
      (omega arith) (omega arith) 9

codec-fields :
    (version : Option ℕ) (token digest : Option String) (result created : Option ℕ) (raw : List ℕ)
    → dumps_one (record {
      version = version;
      lease_token = token;
      result_digest = digest;
      result = result;
      created_at = created;
    })
      ≡ some raw
    → loads_one raw
      ≡ some (record {
        version = version;
        lease_token = token;
        result_digest = digest;
        result = result;
        created_at = created;
      })
codec-fields (some v) (some token) (some digest) (some r) (some t) raw h =
    ground (arith, text_eq_iff token "l1", text_eq_iff digest "d")
codec-fields _ _ _ _ _ raw h = ground arith

codec-RoundTrips : RoundTrips codec
codec-RoundTrips p raw h =
    codec-fields p.version p.lease_token p.result_digest p.result p.created_at raw h

get-put_example :
    (get codec 59000000 scope turn (some "l1") put_one.1).0
    ≡ some (record {
      scope_key = scope;
      turn_id = turn;
      lease_token = "l1";
      result_digest = "d";
      result = some 42;
      created_at = 5;
    })
unfolding init effective_ttl
get-put_example =
    Leases.get-put codec scope turn codec-RoundTrips 5 "l1" "d" 42 none
      (init (pos 60) (pos 100) (pos 3)) 59000000 (Quota.init-IsValid (pos 60) (pos 100) (pos 3))
      stored (omega arith)
