-- ===== src/RealEstate/Inventory/Refines.antt =====
-- Every public method of the inventory is a sequence of steps (missions/real_estate/inventory.py).
use ai_factory.Base.{
  ℕ, String, true, false, ◌≡◌, refl, ap, sym, subst, ◌∙◌, none, some, List, [], ◌∷◌, ◌++◌, arith,
  Option-cases, Bool-cases, ◌⊎◌, inl, inr, is_some, eqb, select, if◌then◌else◌, text_prefix,
}
use Prim.Native.String.{◌++◌ as concat}
use ai_factory.Base.Dict.{lookup, insert, values}
use ai_factory.Base.Result.{ok, map_err}
use ai_factory.Base.Action.{
  IsKept, IsKept-bind, IsKept-pure, IsKept-lift, IsKept-gets, IsKept-if,
  IsKept-transaction_of_Returns, Returns, Returns-bind, Returns-lift, Returns-pure, pure, ◌>>=◌,
  ◌>>◌,
}
use ai_factory.RealEstate.Listing.{
  ListingState, ListingCandidate, Timestamp, expired, earlier, ensure_ingestion_allowed,
  duplicate_fingerprint, freshness_score,
}
use ai_factory.RealEstate.Inventory.{
  CanonicalListing, Inventory, Method, listing, append_event, create_listing, refresh_listing,
  refreshed, new_listing, add_member, join_listing, ingest, transition, with_fingerprint,
  source_record, PublisherTrustEvidence, new_source,
}
use ai_factory.RealEstate.Inventory.Calls.{
  add_source, expire_if_stale, expire_each, expire_stale, record_publisher_trust, source_version_id,
  candidate_from_source, is_live,
}
use ai_factory.RealEstate.Inventory.Keys.{IsKeyed, lookup-with_fingerprint}
use ai_factory.RealEstate.Inventory.Steps.{
  Step, done, quiet, created, updated, From, From-Step, transition-Step, new_event,
}
use ai_factory.RealEstate.Inventory.Runs.{
  Command, add_call, transition_call, expire_call, trust_call, after, run,
}

create_listing-cases :
    (id fingerprint version actor_id now : String) (c : ListingCandidate) (s : Inventory)
    {a : String} {t : Inventory}
    → create_listing id fingerprint version actor_id now c s ≡ (ok a, t)
    → (lookup id s.listings ≡ none)
      × (t ≡ record s {
        listings = insert id (new_listing id fingerprint version now c) s.listings;
        events = s.events ++ new_event id none c.state "CANONICAL_CREATED" actor_id now ∷ [];
      })
unfolding create_listing append_event
create_listing-cases id fingerprint version actor_id now c s {a} {t} h =
    elim (Option-cases (lookup id s.listings)) [
      | inl e ↦ (e, ground arith)
      | inr (row, e) ↦ ground arith
    ]

create_listing-Step :
    (id fingerprint version actor_id now : String) (c : ListingCandidate) (s : Inventory)
    (a : String) (t : Inventory)
    → create_listing id fingerprint version actor_id now c s ≡ (ok a, t)
    → Step s t
create_listing-Step id fingerprint version actor_id now c s a t h =
    let (free, there) = create_listing-cases id fingerprint version actor_id now c s h in
    created id (new_listing id fingerprint version now c) "CANONICAL_CREATED" actor_id now free refl
      (ap (λ s. s.listings) there) (ap (λ s. s.events) there)

refresh_listing-cases :
    (version now : String) (c : ListingCandidate) (row : CanonicalListing) (s : Inventory)
    → let t = (refresh_listing version now c row s).1 in
      (t ≡ s)
      ⊎ (t ≡ record s {
        listings = insert row.canonical_id (refreshed version now c row) s.listings;
      })
unfolding refresh_listing earlier
refresh_listing-cases version now c row s = ground arith

refresh_listing-Step :
    (version now : String) (c : ListingCandidate) (row : CanonicalListing) (s : Inventory)
    → lookup row.canonical_id s.listings ≡ some row
    → Step s (refresh_listing version now c row s).1
refresh_listing-Step version now c row s found = elim (refresh_listing-cases version now c row s) [
  | inl e ↦ quiet (ap (λ s. s.listings) e) (ap (λ s. s.events) e)
  | inr e ↦
      updated row.canonical_id row (refreshed version now c row) found refl refl
        (ap (λ s. s.listings) e) (ap (λ s. s.events) e)
]

add_member-quiet :
    (id version now : String) (s : Inventory)
    → ((add_member id version now s).1.listings ≡ s.listings)
      × ((add_member id version now s).1.events ≡ s.events)
unfolding add_member
add_member-quiet id version now s = (ground arith, ground arith)

join_listing_found :
    (id fingerprint version actor_id now : String) (c : ListingCandidate) (s : Inventory)
    {row : CanonicalListing}
    → with_fingerprint fingerprint (values s.listings) ≡ some row
    → join_listing id fingerprint version actor_id now c s ≡ refresh_listing version now c row s
unfolding join_listing
join_listing_found id fingerprint version actor_id now c s e = ground arith

join_listing_missing :
    (id fingerprint version actor_id now : String) (c : ListingCandidate) (s : Inventory)
    → with_fingerprint fingerprint (values s.listings) ≡ none
    → join_listing id fingerprint version actor_id now c s
      ≡ create_listing id fingerprint version actor_id now c s
unfolding join_listing
join_listing_missing id fingerprint version actor_id now c s e = ground arith

join_listing-Step :
    (id fingerprint version actor_id now : String) (c : ListingCandidate) (s : Inventory)
    → IsKeyed s.listings
    → (a : String) (t : Inventory)
    → join_listing id fingerprint version actor_id now c s ≡ (ok a, t)
    → Step s t
join_listing-Step id fingerprint version actor_id now c s keyed a t h =
    elim (Option-cases (with_fingerprint fingerprint (values s.listings))) [
      | inl e ↦
          create_listing-Step id fingerprint version actor_id now c s a t
            (sym (join_listing_missing id fingerprint version actor_id now c s e) ∙ h)
      | inr (row, e) ↦
          subst (λ t. Step s t)
            (ap (λ x. x.1) (sym (join_listing_found id fingerprint version actor_id now c s e) ∙ h))
            (refresh_listing-Step version now c row s
              (lookup-with_fingerprint fingerprint s.listings keyed e))
    ]

ingest_known :
    (id fingerprint version actor_id now : String) (c : ListingCandidate) (s : Inventory)
    → is_some (lookup version s.sources) ≡ true
    → ingest id fingerprint version actor_id now c s ≡ (ok id, s)
unfolding ingest
ingest_known id fingerprint version actor_id now c s e = rw e refl

-- The store once the record of a new source is in it.
abbrev with_source : String → String → String → ListingCandidate → Inventory → Inventory
with_source fingerprint version now c s = record s {
  sources = insert version (new_source fingerprint now c) s.sources;
}

abbrev join_new : String → String → String → String → String → ListingCandidate → Method String
join_new id fingerprint version actor_id now c = do
  joined_id ← join_listing id fingerprint version actor_id now c
  add_member joined_id version now
  pure joined_id

ingest_new :
    (id fingerprint version actor_id now : String) (c : ListingCandidate) (s : Inventory)
    → is_some (lookup version s.sources) ≡ false
    → ingest id fingerprint version actor_id now c s
      ≡ join_new id fingerprint version actor_id now c (with_source fingerprint version now c s)
unfolding ingest
ingest_new id fingerprint version actor_id now c s e = rw e refl

module _ (start : Inventory) where
  quiet-From :
      {A : Type 0} (m : Method A)
      → ((s : Inventory) → ((m s).1.listings ≡ s.listings) × ((m s).1.events ≡ s.events))
      → IsKept (From start) m
  quiet-From m same = record { apply = λ s h. From-Step h (quiet (same s).0 (same s).1) }

  join_new-From :
      (id fingerprint version actor_id now : String) (c : ListingCandidate) (s : Inventory)
      → From start s
      → Returns (λ _ t. From start t) (join_new id fingerprint version actor_id now c) s
  join_new-From id fingerprint version actor_id now c s h =
      Returns-bind (join_listing id fingerprint version actor_id now c) λ joined_id t e.
        let there =
          From-Step h
            (join_listing-Step id fingerprint version actor_id now c s h.keyed joined_id t e) in
        Returns-bind (add_member joined_id version now) λ u t' e'. Returns-pure joined_id (
          subst (λ t. From start t) (ap (λ x. x.1) e')
            ((quiet-From (add_member joined_id version now)
                (add_member-quiet joined_id version now)).apply
              t there))

  ingest-From :
      (id fingerprint version actor_id now : String) (c : ListingCandidate) (s : Inventory)
      → From start s
      → Returns (λ _ t. From start t) (ingest id fingerprint version actor_id now c) s
  ingest-From id fingerprint version actor_id now c s h =
      Returns-lift (ingest id fingerprint version actor_id now c) λ a t e.
        elim (Bool-cases (is_some (lookup version s.sources))) [
          | inl known ↦
              subst (λ t. From start t)
                (ap (λ x. x.1)
                  (sym (ingest_known id fingerprint version actor_id now c s known) ∙ e))
                h
          | inr new ↦
              (join_new-From id fingerprint version actor_id now c
                  (with_source fingerprint version now c s) (From-Step h (quiet refl refl))).holds
                (sym (ingest_new id fingerprint version actor_id now c s new) ∙ e)
        ]

  transition-From :
      (id : String) (target : ListingState) (reason actor_id now : String)
      → IsKept (From start) (transition id target reason actor_id now)
  transition-From id target reason actor_id now = record {
    apply = λ s h. From-Step h (transition-Step id target reason actor_id now s);
  }

  expire_if_stale-From :
      (max_age_days : ℕ) (at : Timestamp) (actor_id now : String) (row : CanonicalListing)
      → IsKept (From start) (expire_if_stale max_age_days at actor_id now row)
  unfolding expire_if_stale source_record
  expire_if_stale-From max_age_days at actor_id now row =
      IsKept-bind (From start)
        (quiet-From (source_record row.active_source_version_id) (λ s. ground arith))
        λ source.
          IsKept-bind (From start)
            (IsKept-lift (From start) (
              map_err listing (
                freshness_score max_age_days (some at) at
                  (candidate_from_source source row.state))))
            λ score.
              IsKept-if (From start) (eqb score 0)
                (IsKept-bind (From start)
                  (transition-From row.canonical_id expired "FRESHNESS_EXPIRED" actor_id now)
                  (λ _. IsKept-pure (From start) true))
                (IsKept-pure (From start) false)

  expire_each-From :
      (max_age_days : ℕ) (at : Timestamp) (actor_id now : String) (rows : List CanonicalListing)
      → IsKept (From start) (expire_each max_age_days at actor_id now rows)
  unfolding expire_each
  expire_each-From max_age_days at actor_id now [] = IsKept-pure (From start) []
  expire_each-From max_age_days at actor_id now (row ∷ rows) =
      IsKept-bind (From start) (expire_if_stale-From max_age_days at actor_id now row) λ stale.
        IsKept-bind (From start) (expire_each-From max_age_days at actor_id now rows)
          λ rest. IsKept-pure (From start) (if stale then row.canonical_id ∷ rest else rest)

  expire_stale-From :
      (max_age_days : ℕ) (at : Timestamp) (actor_id now : String)
      → IsKept (From start) (expire_stale max_age_days at actor_id now)
  unfolding expire_stale
  expire_stale-From max_age_days at actor_id now =
      IsKept-bind (From start) (IsKept-gets (From start) (λ s. s))
        λ s. expire_each-From max_age_days at actor_id now (select is_live (values s.listings))

  record_publisher_trust-From :
      (e : PublisherTrustEvidence) → IsKept (From start) (record_publisher_trust e)
  unfolding record_publisher_trust
  record_publisher_trust-From e =
      quiet-From (record_publisher_trust e) (λ s. (ground arith, ground arith))

module _ (normalize sha256 : String → String) (area_text : ℕ → String) where
  add_source-From :
      (start : Inventory) (c : ListingCandidate) (actor_id now : String)
      → IsKept (From start) (add_source normalize sha256 area_text c actor_id now)
  unfolding add_source
  add_source-From start c actor_id now =
      IsKept-bind (From start)
        (IsKept-lift (From start) (map_err listing (ensure_ingestion_allowed c)))
        λ _.
          IsKept-bind (From start)
            (IsKept-lift (From start) (map_err listing (duplicate_fingerprint normalize sha256 c)))
            λ fingerprint. IsKept-transaction_of_Returns (From start) (
              ingest-From start (concat "CAN-" (text_prefix 20 fingerprint)) fingerprint
                (source_version_id normalize sha256 area_text c) actor_id now c)

  after-From :
      (start : Inventory) (c : Command) (s : Inventory)
      → From start s
      → From start (after normalize sha256 area_text c s)
  unfolding after
  after-From start (add_call c actor_id now) s = (add_source-From start c actor_id now).apply s
  after-From start (transition_call id target reason actor_id now) s =
      (transition-From start id target reason actor_id now).apply s
  after-From start (expire_call max_age_days at actor_id now) s =
      (expire_stale-From start max_age_days at actor_id now).apply s
  after-From start (trust_call e) s = (record_publisher_trust-From start e).apply s

  after_all :
      (start : Inventory) (cs : List Command) (s : Inventory)
      → From start s
      → From start (run normalize sha256 area_text cs s)
  unfolding run
  after_all start [] s h = h
  after_all start (c ∷ cs) s h =
      after_all start cs (after normalize sha256 area_text c s) (after-From start c s h)

-- Whatever public methods are called on a store whose listings stand under their identifiers, whether
-- they return or raise, the listings and their events change by steps only: a listing is created, with
-- an event that comes from no state; or its fields are refreshed in its state, with no event; or it moves
-- along the lifecycle, with an event of the two states. And the listings stand under their identifiers
-- still.
pub run-From :
    (normalize sha256 : String → String) (area_text : ℕ → String) (cs : List Command)
    (s : Inventory)
    → IsKeyed s.listings
    → From s (run normalize sha256 area_text cs s)
run-From normalize sha256 area_text cs s keyed =
    after_all normalize sha256 area_text s cs s (record { keyed = keyed; steps = done })
