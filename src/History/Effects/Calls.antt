-- ===== src/History/Effects/Calls.antt =====
-- Every call of the store is made of the steps of Effects.
use raguardian.Prelude.{
  ℕ, ◌≤◌, String, ◌≡◌, refl, sym, ap, ◌∙◌, inl, inr, Bool, true, not, ◌&&◌, some, List, [], ◌∷◌,
  arith, ltb, Bool-cases, Option-cases, Eq, ◌==◌, length, filter, nat_eq, string_eq, option_eq,
  pair_eq,
}
use raguardian.Prelude.Results.{Ensures}
use raguardian.Dict.{Dict, total, map_values, lookup, update_at, erase, erase_all}
use raguardian.Dict.Sums.{total-insert}
use raguardian.History.{
  complete, Turn, Db, Limits, is_status, get_turn_for_update, delete_conversation,
  delete_conversations,
}
use raguardian.History.Cleanup.{
  has_expired, fail_lease, expire_leases, retain_conversations, retain_turns, retain_stubs,
  cleanup_expired_locked,
}
use raguardian.History.Turns.Held.{by_holder}
use raguardian.History.Turns.{set_turn}
use raguardian.History.Linear.Keeps.Later.{get_turn_for_update-lookup}
use raguardian.History.Effects.{unfinished, pending, Effect, stays, drops, turned, both}

-- The turns do not become more.
pub total-map_values-le {ℓ κ} :
    {K : Type ℓ} {V : Type κ} (f : V → ℕ) (g : K → V → V) (d : List (K × V))
    → ((k : K) (v : V) → f (g k v) ≤ f v)
    → total f (map_values g d) ≤ total f d
unfolding total map_values
total-map_values-le f g [] h = omega arith
total-map_values-le f g ((k, v) ∷ d) h = omega (arith, h k v, total-map_values-le f g d h)

pub total-erase-le {ℓ} :
    {K V : Type ℓ} ⦃e : Eq K⦄ (f : V → ℕ) (k : K) (d : Dict K V) → total f (erase k d) ≤ total f d
unfolding total erase
total-erase-le f k [] = omega arith
total-erase-le f k ((j, v) ∷ d) = ground (arith, total-erase-le f k d)

pub total-erase_all-le {ℓ} :
    {K V : Type ℓ} ⦃e : Eq K⦄ (f : V → ℕ) (ks : List K) (d : Dict K V)
    → total f (erase_all ks d) ≤ total f d
unfolding erase_all
total-erase_all-le f [] d = omega arith
total-erase_all-le f (k ∷ ks) d =
    omega (arith, total-erase-le f k d, total-erase_all-le f ks (erase k d))

pub total-update_at-le {ℓ} :
    {K V : Type ℓ} ⦃e : Eq K⦄ (f : V → ℕ) (k : K) (g : V → V) (d : Dict K V)
    → ((v : V) → lookup k d ≡ some v → f (g v) ≤ f v)
    → total f (update_at k g d) ≤ total f d
unfolding update_at
total-update_at-le f k g d h = elim (Option-cases (lookup k d)) [
  | inl miss ↦ rw (miss, update_at) (omega arith)
  | inr (v, hit) ↦ rw (hit, update_at) (ground (arith, total-insert f k (g v) d, hit, h v hit))
]

-- The count that the quota reads.
pub pending-count :
    (ts : Dict (String × String) Turn)
    → length (filter (λ row. not (is_status row.1.status complete)) ts) ≡ pending ts
unfolding filter total
pending-count [] = refl
pending-count ((k, t) ∷ ts) = ground (arith, pending-count ts)

module _ (collapse : String → String) (l : Limits) where
  -- The turns change, and the unfinished ones are not more than before.
  pub turns_change :
      (ts : Dict (String × String) Turn) (db : Db)
      → pending ts ≤ pending db.turns
      → Effect collapse l db (record db { turns = ts })
  turns_change ts db h = turned db.knowledge_bases ts db (λ on. omega (arith, h))

  pub set_turn-Effect :
      (k : String × String) (f : Turn → Turn) (db : Db)
      → ((t : Turn) → lookup k db.turns ≡ some t → unfinished (f t) ≤ unfinished t)
      → Effect collapse l db (set_turn k f db)
  unfolding set_turn
  set_turn-Effect k f db h = turns_change _ db (total-update_at-le unfinished k f db.turns h)

  pub delete_conversations-Effect :
      (ids : List String) (db : Db) → Effect collapse l db (delete_conversations ids db)
  unfolding delete_conversations
  delete_conversations-Effect [] db = stays db
  delete_conversations-Effect (id ∷ ids) db =
      both (drops id db) (delete_conversations-Effect ids (delete_conversation id db))

  expire_leases-Effect : (now : ℕ) (db : Db) → Effect collapse l db (expire_leases now db)
  unfolding expire_leases has_expired fail_lease
  expire_leases-Effect now db =
      turns_change _ db (total-map_values-le unfinished _ db.turns (λ k t. ground arith))

  retain_conversations-Effect :
      (n now : ℕ) (db : Db) → Effect collapse l db (retain_conversations n now db).1
  unfolding retain_conversations
  retain_conversations-Effect n now db = elim (Bool-cases (ltb 0 n)) [
    | inl on ↦ rw on (delete_conversations-Effect _ db)
    | inr off ↦ rw off (stays db)
  ]

  retain_stubs-Effect : (n now : ℕ) (db : Db) → Effect collapse l db (retain_stubs n now db).1
  unfolding retain_stubs
  retain_stubs-Effect n now db = elim (Bool-cases (ltb 0 n)) [
    | inl on ↦ rw on (delete_conversations-Effect _ db)
    | inr off ↦ rw off (stays db)
  ]

  retain_turns-Effect : (n now : ℕ) (db : Db) → Effect collapse l db (retain_turns n now db).1
  unfolding retain_turns
  retain_turns-Effect n now db = elim (Bool-cases (ltb 0 n)) [
    | inl on ↦ rw on (turns_change _ db (total-erase_all-le unfinished _ db.turns))
    | inr off ↦ rw off (stays db)
  ]

  pub cleanup-Effect :
      (now : ℕ) (db : Db) → Effect collapse l db (cleanup_expired_locked l now db).1
  unfolding cleanup_expired_locked
  cleanup-Effect now db =
      let db0 = expire_leases now db in
      let db1 = (retain_conversations l.retention_days now db0).1 in
      let db2 = (retain_turns l.incomplete_turn_retention_days now db1).1 in
      both (expire_leases-Effect now db) (
        both (retain_conversations-Effect l.retention_days now db0) (
          both (retain_turns-Effect l.incomplete_turn_retention_days now db1)
            (retain_stubs-Effect l.incomplete_turn_retention_days now db2)))

  pub by_holder-Effect :
      (s turn_id token : String) (allowed : Turn → Bool) (change : Turn → Turn) (db : Db)
      → ((t : Turn) → allowed t ≡ true → unfinished (change t) ≤ unfinished t)
      → Ensures (λ x. Effect collapse l db x.1) (by_holder s turn_id token allowed change db)
  unfolding by_holder
  by_holder-Effect s turn_id token allowed change db h =
      elim (Option-cases (get_turn_for_update s turn_id db)) [
        | inl miss ↦ rw (miss, by_holder) (stays db)
        | inr ((k, t), found) ↦ elim (Bool-cases (t.lease_token == some token && allowed t)) [
          | inl held ↦
              rw (found, held, by_holder)
                (set_turn-Effect k change db (λ t' h'.
                  let (hit, _) = get_turn_for_update-lookup s turn_id db k t found in
                  let e : t ≡ t' = ground (arith, hit, h') in
                  h t' (sym (ap allowed e) ∙ ground (arith, held))))
          | inr refused ↦ rw (found, refused, by_holder) (stays db)
        ]
      ]
