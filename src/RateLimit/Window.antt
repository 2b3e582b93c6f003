-- ===== src/RateLimit/Window.antt =====
-- The limiter against an ideal one that forgets nothing.
use raguardian.Prelude.{
  ℕ, suc, ◌≤◌, ◌<◌, String, ◌≡◌, refl, sym, ap, ◌∙◌, ◌⊎◌, inl, inr, Bool, true, false, ◌&&◌, List,
  [], ◌∷◌, ◌++◌, arith, ltb, if◌then◌else◌, Bool-cases, text_eq_iff, ◌==◌, ==_refl, length, filter,
  All, length-append, length-filter-le, filter-append, filter-filter, nat_eq, string_eq, option_eq,
  pair_eq,
}
use raguardian.Dict.{insert}
use raguardian.Dict.Laws.{lookup-insert}
use raguardian.RateLimit.{
  Limiter, init, Verdict, allowed, stored, is_fresh, decide, is_allowed_memory,
}
use mathlib.Core.List.{append_assoc, append-nil}
use native.Mathlib.Decide.{dec_lt}

abbrev is_granted : Verdict → Bool
is_granted allowed = true
is_granted _ = false

-- The times at which requests of one client are granted, over a sequence of requests of any
-- clients, each with the time of its call.
unfoldable pub granted : String → List (ℕ × String) → Limiter → List ℕ
granted c [] l = []
granted c ((now, client) ∷ calls) l =
    let outcome = is_allowed_memory now client l in
    let rest = granted c calls outcome.1 in
    if client == c && is_granted outcome.0 then now ∷ rest else rest

-- The specification: a request is granted if fewer than `max_requests` of all the requests
-- granted to the client ever before lie in the window that ends now.
unfoldable pub ideal : ℕ → ℕ → String → List ℕ → List (ℕ × String) → List ℕ
unfolding filter
ideal max_requests window c history [] = []
ideal max_requests window c history ((now, client) ∷ calls) =
    let grant = now ∷ ideal max_requests window c (history ++ now ∷ []) calls in
    let refuse = ideal max_requests window c history calls in
    if client == c && ltb (length (filter (is_fresh window now) history)) max_requests
    then grant
    else refuse

-- The clock does not run backwards.
abbrev pub Ordered : ℕ → List (ℕ × String) → Type 0
Ordered now [] = Unit
Ordered now ((t, client) ∷ calls) = (now ≤ t) × Ordered t calls

-- What is stored for a client agrees with its history wherever a later call looks.
record Tracks (m w : ℕ) (c : String) (now : ℕ) (history : List ℕ) (l : Limiter) : Type 0 where
  pub limit : l.max_requests ≡ m
  pub window : l.window_seconds ≡ w
  pub bounded : length (stored l c) ≤ m
  pub agrees :
      (t : ℕ) → now ≤ t → filter (is_fresh w t) history ≡ filter (is_fresh w t) (stored l c)

fresh_later : (w s t x : ℕ) → s ≤ t → is_fresh w t x ≡ true → is_fresh w s x ≡ true
unfolding is_fresh
fresh_later w s t x h f = ground arith

pub stored-insert :
    (l : Limiter) (client c : String) (kept : List ℕ)
    → stored (record l { requests = insert client kept l.requests }) c
      ≡ (if client == c then kept else stored l c)
unfolding stored
stored-insert l client c kept = ground (arith, lookup-insert client c kept l.requests)

module _ (now : ℕ) (client : String) (l : Limiter) where
  abbrev live : List ℕ
  live = filter (is_fresh l.window_seconds now) (stored l client)

  is_allowed_memory-granted :
      length live < l.max_requests
      → is_allowed_memory now client l
        ≡ (allowed, record l { requests = insert client (live ++ now ∷ []) l.requests })
  unfolding is_allowed_memory
  is_allowed_memory-granted h = ground arith

  is_allowed_memory-refused :
      l.max_requests ≤ length live
      → (is_granted (is_allowed_memory now client l).0 ≡ false)
        × ((is_allowed_memory now client l).1
            ≡ record l { requests = insert client live l.requests })
  unfolding is_allowed_memory
  is_allowed_memory-refused h = ground arith

Tracks-init : (m w : ℕ) (c : String) → Tracks m w c 0 [] (init m w)
unfolding init stored filter
Tracks-init m w c = record {
  limit = refl;
  window = refl;
  bounded = omega arith;
  agrees = λ t h. refl;
}

module _ {m w : ℕ} {c : String} {before : ℕ} {history : List ℕ} {l : Limiter} (now : ℕ)
    (tracks : Tracks m w c before history l) (later : before ≤ now) where
  live-eq : live now c l ≡ filter (is_fresh w now) history
  live-eq = simp tracks.window (sym (tracks.agrees now later))

  -- A request of another client leaves what is stored for `c`.
  Tracks-other :
      (client : String) (kept : List ℕ)
      → (client == c) ≡ false
      → Tracks m w c now history (record l { requests = insert client kept l.requests })
  Tracks-other client kept ne =
      let same : stored (record l { requests = insert client kept l.requests }) c ≡ stored l c =
        stored-insert l client c kept ∙ ground arith in
      record {
        limit = tracks.limit;
        window = tracks.window;
        bounded = rw same tracks.bounded;
        agrees = λ t h. rw same (tracks.agrees t (omega arith));
      }

  stored_self : (kept : List ℕ) → stored (record l { requests = insert c kept l.requests }) c ≡ kept
  stored_self kept = stored-insert l c c kept ∙ ground (arith, ==_refl c)

  live_agrees :
      (t : ℕ) → now ≤ t → filter (is_fresh w t) history ≡ filter (is_fresh w t) (live now c l)
  live_agrees t h = simp tracks.window (
      tracks.agrees t (omega arith)
      ∙ sym (
          filter-filter (is_fresh w t) (is_fresh w now) (λ x. fresh_later w now t x h)
            (stored l c)))

  Tracks-refused :
      Tracks m w c now history (record l { requests = insert c (live now c l) l.requests })
  Tracks-refused = record {
    limit = tracks.limit;
    window = tracks.window;
    bounded = rw (stored_self (live now c l)) (
        omega
          (arith, tracks.bounded, length-filter-le (is_fresh l.window_seconds now) (stored l c)));
    agrees = λ t h. rw (stored_self (live now c l)) (live_agrees t h);
  }

  Tracks-granted :
      length (live now c l) < m
      → Tracks m w c now
          (history ++ now ∷ [])
          (record l { requests = insert c (live now c l ++ now ∷ []) l.requests })
  Tracks-granted room = record {
    limit = tracks.limit;
    window = tracks.window;
    bounded =
        rw (stored_self (live now c l ++ now ∷ []))
          (omega (arith, length-append (live now c l) (now ∷ [])));
    agrees = λ t h.
        rw
          (
            stored_self (live now c l ++ now ∷ []),
            filter-append _ history,
            filter-append _ (live now c l),
            live_agrees t h,
          )
          refl;
  }

other_state :
    (now : ℕ) (client : String) (l : Limiter)
    → (kept : List ℕ) × ((is_allowed_memory now client l).1
        ≡ record l { requests = insert client kept l.requests })
unfolding is_allowed_memory
other_state now client l =
    ((decide l.max_requests l.window_seconds now (live now client l)).1, refl)

-- One request at a time, of the client in question and of another.
module _ (now : ℕ) (client c : String) (calls : List (ℕ × String)) (l : Limiter) where
  granted-allowed :
      {l' : Limiter}
      → client ≡ c
      → is_allowed_memory now client l ≡ (allowed, l')
      → granted c ((now, client) ∷ calls) l ≡ now ∷ granted c calls l'
  unfolding granted
  granted-allowed same e = rw (e, (text_eq_iff client c).1 same)

  granted-passed :
      {l' : Limiter}
      → (client == c && is_granted (is_allowed_memory now client l).0) ≡ false
      → (is_allowed_memory now client l).1 ≡ l'
      → granted c ((now, client) ∷ calls) l ≡ granted c calls l'
  unfolding granted
  granted-passed no_grant e = rw (no_grant, e)

module _ (m w now : ℕ) (client c : String) (history : List ℕ) (calls : List (ℕ × String)) where
  ideal-allowed :
      client ≡ c
      → length (filter (is_fresh w now) history) < m
      → ideal m w c history ((now, client) ∷ calls) ≡ now ∷ ideal m w c (history ++ now ∷ []) calls
  unfolding ideal
  ideal-allowed same room = ground (arith, text_eq_iff client c)

  ideal-passed :
      (client == c) ≡ false ⊎ (m ≤ length (filter (is_fresh w now) history))
      → ideal m w c history ((now, client) ∷ calls) ≡ ideal m w c history calls
  unfolding ideal
  ideal-passed h = ground arith

granted-nil :
    (m w : ℕ) (c : String) (history : List ℕ) (l : Limiter)
    → granted c [] l ≡ ideal m w c history []
unfolding granted ideal
granted-nil m w c history l = refl

granted-eq-ideal :
    {m w : ℕ} {c : String} (calls : List (ℕ × String)) (l : Limiter) (before : ℕ) (history : List ℕ)
    → Tracks m w c before history l
    → Ordered before calls
    → granted c calls l ≡ ideal m w c history calls
granted-eq-ideal {m} {w} {c} [] l before history tracks o = granted-nil m w c history l
granted-eq-ideal {m} {w} {c} ((now, client) ∷ calls) l before history tracks (later, o) =
    elim (Bool-cases (client == c)) [
      | inl same ↦ rw ((text_eq_iff client c).0 same) (elim (dec_lt (length (live now c l)) m) [
        | yes room ↦
            granted-allowed now c c calls l refl
              (is_allowed_memory-granted now c l (omega (arith, tracks.limit)))
            ∙ ap (◌∷◌ now) (granted-eq-ideal calls _ now _ (Tracks-granted now tracks later room) o)
            ∙ sym (
                ideal-allowed m w now c c history calls refl (rw (← live-eq now tracks later) room))
        | no full ↦
            let (refused, e) = is_allowed_memory-refused now c l (omega (arith, tracks.limit)) in
            granted-passed now c c calls l (ground arith) e
            ∙ granted-eq-ideal calls _ now _ (Tracks-refused now tracks later) o
            ∙ sym (
                ideal-passed m w now c c history calls
                  (inr (rw (← live-eq now tracks later) (omega arith))))
      ])
      | inr other ↦
          let (kept, e) = other_state now client l in
          granted-passed now client c calls l (ground arith) e
          ∙ granted-eq-ideal calls _ now _ (Tracks-other now tracks later client kept other) o
          ∙ sym (ideal-passed m w now client c history calls (inl other))
    ]

-- For requests of any clients in the order of the clock, the limiter grants exactly those that
-- the ideal limiter grants, which remembers every grant.
pub granted-ideal :
    (m w : ℕ) (c : String) (calls : List (ℕ × String))
    → Ordered 0 calls
    → granted c calls (init m w) ≡ ideal m w c [] calls
granted-ideal m w c calls o = granted-eq-ideal calls (init m w) 0 [] (Tracks-init m w c) o

length-filter-fresh :
    (w s t : ℕ)
    → s ≤ t
    → (xs : List ℕ) → length (filter (is_fresh w t) xs) ≤ length (filter (is_fresh w s) xs)
unfolding filter
length-filter-fresh w s t h [] = omega arith
length-filter-fresh w s t h (x ∷ xs) =
    ground (arith, fresh_later w s t x h, length-filter-fresh w s t h xs)

length-filter-snoc :
    (w t now : ℕ) (xs : List ℕ)
    → length (filter (is_fresh w t) (xs ++ now ∷ [])) ≤ suc (length (filter (is_fresh w t) xs))
unfolding filter
length-filter-snoc w t now xs =
    rw filter-append
      (ground (arith, length-append (filter (is_fresh w t) xs) (filter (is_fresh w t) (now ∷ []))))

ideal_bounded :
    (m w : ℕ) (c : String) (t : ℕ) (calls : List (ℕ × String)) (history : List ℕ)
    → All (λ call. call.0 ≤ t) calls
    → length (filter (is_fresh w t) history) ≤ m
    → length (filter (is_fresh w t) (history ++ ideal m w c history calls)) ≤ m
ideal_bounded m w c t [] history h k = unfold ideal in rw append-nil k
ideal_bounded m w c t ((now, client) ∷ calls) history (le, h) k = elim (Bool-cases (client == c)) [
  | inl same ↦ elim (dec_lt (length (filter (is_fresh w now) history)) m) [
    | yes room ↦
        rw (ideal-allowed m w now client c history calls ((text_eq_iff client c).0 same) room) (
          rw (← append_assoc history (now ∷ []) (ideal m w c (history ++ now ∷ []) calls)) (
            ideal_bounded m w c t calls (history ++ now ∷ []) h (
              omega (
                arith,
                length-filter-snoc w t now history,
                length-filter-fresh w now t le history,
              ))))
    | no full ↦
        rw (ideal-passed m w now client c history calls (inr (omega arith)))
          (ideal_bounded m w c t calls history h k)
  ]
  | inr other ↦
      rw (ideal-passed m w now client c history calls (inl other))
        (ideal_bounded m w c t calls history h k)
]

-- Safety of the sliding window: at no time do more than `max_requests` of the requests granted to
-- one client lie in the window that ends then, for requests in the order of the clock.
pub granted_in_window :
    (m w : ℕ) (c : String) (calls : List (ℕ × String)) (t : ℕ)
    → Ordered 0 calls
    → All (λ call. call.0 ≤ t) calls
    → length (filter (is_fresh w t) (granted c calls (init m w))) ≤ m
granted_in_window m w c calls t o h =
    rw (granted-ideal m w c calls o)
      (ideal_bounded m w c t calls [] h (unfold filter in omega arith))
