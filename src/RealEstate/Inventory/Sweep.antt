-- ===== src/RealEstate/Inventory/Sweep.antt =====
-- What the sweep of stale listings leaves (missions/real_estate/inventory.py, `expire_stale`).
use ai_factory.Base.{
  ℕ, String, Bool, true, false, ◌≡◌, ◌≢◌, refl, ap, sym, subst, ◌∙◌, none, some, List, ◌∷◌, arith,
  Option-cases, Bool-cases, ◌⊎◌, inl, inr, Among, eq_iff, ◌==◌,
}
use ai_factory.Base.Dict.{lookup, insert, lookup-insert}
use ai_factory.Base.Result.{ok, Result-cases}
use ai_factory.RealEstate.Listing.{Timestamp, expired, freshness_score, transition_listing_state}
use ai_factory.RealEstate.Inventory.{
  CanonicalListing, SourceRecord, Inventory, canonical_row, source_record, append_event, transition,
}
use ai_factory.RealEstate.Inventory.Calls.{candidate_from_source, is_live, expire_if_stale}
use ai_factory.RealEstate.Inventory.Keys.{IsKeyed, lookup-IsKeyed}
use ai_factory.RealEstate.Inventory.Steps.{transition-Step, Step-IsKeyed}

-- What an expiry that returns leaves.
pub record IsExpired (id : String) (s t : Inventory) : Type 0 where
  pub same_sources : t.sources ≡ s.sources
  pub row : CanonicalListing
  pub found : lookup id t.listings ≡ some row
  pub gone : row.state ≡ expired
  pub others : (j : String) → (id == j) ≡ false → lookup j t.listings ≡ lookup j s.listings

transition_expired :
    (id reason actor_id now : String) (s t : Inventory) (row : CanonicalListing)
    → lookup id s.listings ≡ some row
    → transition id expired reason actor_id now s ≡ (ok tt, t)
    → ((row.state ≡ expired) × (t ≡ s))
      ⊎ ((t.sources ≡ s.sources)
          × (t.listings ≡ insert id (record row { state = expired; updated_at = now }) s.listings))
unfolding transition canonical_row append_event transition_listing_state
transition_expired id reason actor_id now s t row e h = ground arith

transition_unknown :
    (id reason actor_id now : String) (s t : Inventory)
    → lookup id s.listings ≡ none
    → transition id expired reason actor_id now s ≡ (ok tt, t)
    → ⊥
unfolding transition canonical_row
transition_unknown id reason actor_id now s t e h = ground arith

transition-IsExpired :
    (id reason actor_id now : String) (s t : Inventory)
    → transition id expired reason actor_id now s ≡ (ok tt, t)
    → IsExpired id s t
transition-IsExpired id reason actor_id now s t h = elim (Option-cases (lookup id s.listings)) [
  | inl e ↦ absurd (transition_unknown id reason actor_id now s t e h)
  | inr (row, e) ↦ elim (transition_expired id reason actor_id now s t row e h) [
    | inl (gone, same) ↦ record {
      same_sources = ap (λ s. s.sources) same;
      row = row;
      found = ap (λ s. lookup id s.listings) same ∙ e;
      gone = gone;
      others = λ j _. ap (λ s. lookup j s.listings) same;
    }
    | inr (sources, rows) ↦ record {
      same_sources = sources;
      row = record row { state = expired; updated_at = now };
      found = rw rows (
          ground (
            arith,
            eq_iff id id,
            lookup-insert id id (record row { state = expired; updated_at = now }) s.listings,
          ));
      gone = refl;
      others = λ j other. rw rows (
          ground (
            arith,
            lookup-insert id j (record row { state = expired; updated_at = now }) s.listings,
          ));
    }
  ]
]

module _ (max_age_days : ℕ) (at : Timestamp) where
  -- The listing's active source has a score, which is not zero.
  pub record IsFresh (row : CanonicalListing) (s : Inventory) : Type 0 where
    pub source : SourceRecord
    pub found : lookup row.active_source_version_id s.sources ≡ some source
    pub score : ℕ
    pub scored :
        freshness_score max_age_days (some at) at (candidate_from_source source row.state)
        ≡ ok score
    pub positive : score ≢ 0

  module _ (actor_id now : String) where
    -- The parts of a round that returns.
    round_parts :
        (row : CanonicalListing) (s t : Inventory) {b : Bool}
        → expire_if_stale max_age_days at actor_id now row s ≡ (ok b, t)
        → (source : SourceRecord) × (score : ℕ) × (lookup row.active_source_version_id s.sources
            ≡ some source)
          × (freshness_score max_age_days (some at) at (candidate_from_source source row.state)
              ≡ ok score)
    unfolding expire_if_stale source_record
    round_parts row s t {b} h =
        elim (Option-cases (lookup row.active_source_version_id s.sources)) [
          | inl e ↦ absurd (ground arith)
          | inr (source, e) ↦
              elim (Result-cases (
                freshness_score max_age_days (some at) at
                  (candidate_from_source source row.state))) [
                    | inl (score, g) ↦ (source, score, e, g)
                    | inr (x, g) ↦ absurd (ground arith)
                  ]
        ]

    round_cases :
        (row : CanonicalListing) (s t : Inventory) {b : Bool} (source : SourceRecord) (score : ℕ)
        → lookup row.active_source_version_id s.sources ≡ some source
        → freshness_score max_age_days (some at) at (candidate_from_source source row.state)
          ≡ ok score
        → expire_if_stale max_age_days at actor_id now row s ≡ (ok b, t)
        → ((b ≡ false) × (t ≡ s) × (score ≢ 0))
          ⊎ ((b ≡ true)
              × (transition row.canonical_id expired "FRESHNESS_EXPIRED" actor_id now s
                  ≡ (ok tt, t)))
    unfolding expire_if_stale source_record
    round_cases row s t {b} source score e g h = ground arith

    -- A round that returns found the listing fresh, or has expired it.
    pub expire_if_stale-cases :
        (row : CanonicalListing) (s t : Inventory) {b : Bool}
        → expire_if_stale max_age_days at actor_id now row s ≡ (ok b, t)
        → ((b ≡ false) × (t ≡ s) × IsFresh row s) ⊎ ((b ≡ true) × IsExpired row.canonical_id s t)
    expire_if_stale-cases row s t {b} h =
        let (source, score, e, g) = round_parts row s t h in
        elim (round_cases row s t source score e g h) [
          | inl (answer, same, positive) ↦ inl (
            answer,
            same,
            record { source = source; found = e; score = score; scored = g; positive = positive },
          )
          | inr (answer, gone) ↦ inr (
            answer,
            transition-IsExpired row.canonical_id "FRESHNESS_EXPIRED" actor_id now s t gone,
          )
        ]

    pub expire_if_stale-IsKeyed :
        (row : CanonicalListing) (s t : Inventory) {b : Bool}
        → expire_if_stale max_age_days at actor_id now row s ≡ (ok b, t)
        → IsKeyed s.listings
        → IsKeyed t.listings
    expire_if_stale-IsKeyed row s t {b} h keyed =
        let (source, score, e, g) = round_parts row s t h in
        elim (round_cases row s t source score e g h) [
          | inl (answer, same, positive) ↦
              subst (λ (s : Inventory). IsKeyed s.listings) (sym same) keyed
          | inr (answer, gone) ↦
              subst (λ (s : Inventory). IsKeyed s.listings) (ap (λ x. x.1) gone)
                (Step-IsKeyed
                  (transition-Step row.canonical_id expired "FRESHNESS_EXPIRED" actor_id now s)
                  keyed)
        ]

  -- Every live listing is still among the rows to look at, or is known to be fresh.
  abbrev pub IsPending : List CanonicalListing → Inventory → Type 0
  IsPending rows s =
      (id : String) (row : CanonicalListing)
      → lookup id s.listings ≡ some row
      → is_live row ≡ true
      → Among row rows ⊎ IsFresh row s

  -- All that is live is fresh.
  abbrev pub IsSwept : Inventory → Type 0
  IsSwept s =
      (id : String) (row : CanonicalListing)
      → lookup id s.listings ≡ some row
      → is_live row ≡ true
      → IsFresh row s

  IsFresh-sources :
      (row : CanonicalListing) (s t : Inventory)
      → t.sources ≡ s.sources
      → IsFresh row s
      → IsFresh row t
  IsFresh-sources row s t e h = record {
    source = h.source;
    found = ap (λ l. lookup row.active_source_version_id l) e ∙ h.found;
    score = h.score;
    scored = h.scored;
    positive = h.positive;
  }

  expired-not-live : (row : CanonicalListing) → row.state ≡ expired → is_live row ≡ true → ⊥
  expired-not-live row e h = ground arith

  -- After a round, what was pending is pending among the other rows.
  pub fresh-IsPending :
      (row : CanonicalListing) (rows : List CanonicalListing) (s : Inventory)
      → IsFresh row s
      → IsPending (row ∷ rows) s
      → IsPending rows s
  fresh-IsPending row rows s fresh p id r found live = elim (p id r found live) [
    | inl (inl same) ↦ inr (subst (λ r. IsFresh r s) (sym same) fresh)
    | inl (inr later) ↦ inl later
    | inr h ↦ inr h
  ]

  pub expired-IsPending :
      (row : CanonicalListing) (rows : List CanonicalListing) (s t : Inventory)
      → IsKeyed s.listings
      → IsExpired row.canonical_id s t
      → IsPending (row ∷ rows) s
      → IsPending rows t
  expired-IsPending row rows s t keyed x p id r found live =
      elim (Bool-cases (row.canonical_id == id)) [
        | inl same ↦
            let here : r ≡ x.row = ground (arith, eq_iff row.canonical_id id, x.found, found) in
            absurd (expired-not-live r (ap (λ r. r.state) here ∙ x.gone) live)
        | inr other ↦
            let before : lookup id s.listings ≡ some r = sym (x.others id other) ∙ found in
            elim (p id r before live) [
              | inl (inl at_hand) ↦
                  let named = lookup-IsKeyed id s.listings keyed before in
                  absurd (
                    ground (
                      arith,
                      eq_iff row.canonical_id id,
                      ap (λ (r : CanonicalListing). r.canonical_id) at_hand,
                    ))
              | inl (inr later) ↦ inl later
              | inr h ↦ inr (IsFresh-sources r s t x.same_sources h)
            ]
      ]
