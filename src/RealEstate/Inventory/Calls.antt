-- ===== src/RealEstate/Inventory/Calls.antt =====
-- missions/real_estate/inventory.py: the store's public methods.
use ai_factory.Base.{
  ℕ, String, Bool, true, false, ◌&&◌, ◌||◌, Option, none, some, List, [], ◌∷◌, ⊤, if◌then◌else◌,
  ltb, leb, eqb, ◌==◌, is_nil, is_blank, select, length, joined, text_prefix,
}
use Prim.Native.String.{◌++◌ as concat}
use ai_factory.Base.Sorting.{text_lt, sort_by}
use ai_factory.Base.Decimal.{numeral}
use ai_factory.Base.Result.{Result, ok, err, map_err}
use ai_factory.Base.Result
use ai_factory.Base.Action.{pure, gets, modify, lift, transaction, ◌>>=◌, ◌>>◌}
use ai_factory.Base.Dict.{Dict, lookup, insert, values}
use ai_factory.RealEstate.Listing.{
  Timestamp, ListingState, draft, active, under_offer, sold, rented, withdrawn, expired,
  ListingCandidate, ensure_ingestion_allowed, freshness_score, count_text, duplicate_fingerprint,
  is_among, one,
}
use ai_factory.RealEstate.Inventory.{
  SourceRecord, CanonicalListing, Membership, LifecycleEvent, PublisherTrustEvidence, Inventory,
  InventoryError, listing, trust_publisher_required, score_out_of_range, trust_requires_evidence,
  verified_by_required, prices_crossed, Method, source_record, ingest, transition,
}

abbrev pub value : ListingState → String
value draft = "DRAFT"
value active = "ACTIVE"
value under_offer = "UNDER_OFFER"
value sold = "SOLD"
value rented = "RENTED"
value withdrawn = "WITHDRAWN"
value expired = "EXPIRED"

module _ (normalize sha256 : String → String) (area_text : ℕ → String) where
  -- `_source_version_id`; `area_text` is `str` of an area.
  unfoldable pub source_version_id : ListingCandidate → String
  source_version_id c = concat "SRC-" (
      text_prefix 24 (
        sha256 (
          joined "|" (
            c.source_ref
            ∷ c.publisher_id
            ∷ c.source_updated_at.isoformat
            ∷ c.last_verified_at.isoformat
            ∷ value c.state
            ∷ numeral c.price_minor
            ∷ area_text c.area_sqm
            ∷ count_text c.bedrooms
            ∷ c.title
            ∷ c.description
            ∷ joined "," c.image_hashes
            ∷ []))))

  unfoldable pub add_source : ListingCandidate → String → String → Method String
  add_source c actor_id now = do
    lift (map_err listing (ensure_ingestion_allowed c))
    fingerprint ← lift (map_err listing (duplicate_fingerprint normalize sha256 c))
    let id = concat "CAN-" (text_prefix 20 fingerprint)
    transaction (ingest id fingerprint (source_version_id c) actor_id now c)

-- `_candidate_from_source`
abbrev pub candidate_from_source : SourceRecord → ListingState → ListingCandidate
candidate_from_source source state = record source.candidate { state = state }

-- One round of the loop of `expire_stale`; the answer is whether the listing expired.
unfoldable pub expire_if_stale : ℕ → Timestamp → String → String → CanonicalListing → Method Bool
expire_if_stale max_age_days at actor_id now row = do
  source ← source_record row.active_source_version_id
  score ← lift (
      map_err listing
        (freshness_score max_age_days (some at) at (candidate_from_source source row.state)))
  if eqb score 0
      then (do transition row.canonical_id expired "FRESHNESS_EXPIRED" actor_id now; pure true)
      else pure false

unfoldable pub expire_each :
    ℕ → Timestamp → String → String → List CanonicalListing → Method (List String)
expire_each max_age_days at actor_id now [] = pure []
expire_each max_age_days at actor_id now (row ∷ rows) = do
  stale ← expire_if_stale max_age_days at actor_id now row
  rest ← expire_each max_age_days at actor_id now rows
  pure (if stale then row.canonical_id ∷ rest else rest)

-- `WHERE state IN ('ACTIVE', 'UNDER_OFFER')`
abbrev pub is_live : CanonicalListing → Bool
is_live row = is_among row.state (active ∷ under_offer ∷ [])

unfoldable pub expire_stale : ℕ → Timestamp → String → String → Method (List String)
expire_stale max_age_days at actor_id now = do
  s ← gets (λ s. s)
  expire_each max_age_days at actor_id now (select is_live (values s.listings))

-- `PublisherTrustEvidence.validate`
unfoldable pub validate_trust : PublisherTrustEvidence → Result InventoryError ⊤
validate_trust e =
    Result.◌>>◌ (Result.raise_if (is_blank e.publisher_id) trust_publisher_required) (
      Result.◌>>◌ (Result.raise_if (ltb one e.score) score_out_of_range) (
        Result.◌>>◌ (Result.raise_if (is_nil e.evidence_refs) trust_requires_evidence)
          (Result.raise_if (is_blank e.verified_by) verified_by_required)))

unfoldable pub record_publisher_trust : PublisherTrustEvidence → Method ⊤
record_publisher_trust e = do
  lift (validate_trust e)
  modify (λ s. record s { trust = insert e.publisher_id e s.trust })

unfoldable pub publisher_trust : String → Inventory → Option PublisherTrustEvidence
publisher_trust id s = lookup id s.trust

pub record InventoryQuery : Type 0 where
  pub transaction_type : Option String
  pub property_type : Option String
  pub city : Option String
  pub locality : Option String
  pub min_price_minor : Option ℕ
  pub max_price_minor : Option ℕ
  pub bedrooms : Option ℕ
  pub states : List ListingState

abbrev pub crossed : Option ℕ → Option ℕ → Bool
crossed (some low) (some high) = ltb high low
crossed _ _ = false

-- `InventoryQuery.validate`
unfoldable pub validate_query : InventoryQuery → Result InventoryError ⊤
validate_query q = Result.raise_if (crossed q.min_price_minor q.max_price_minor) prices_crossed

-- `column = ?`, where the query gives a value.
abbrev pub text_matches : Option String → String → Bool
text_matches none s = true
text_matches (some t) s = s == t

-- `NULL = ?` is not true.
abbrev pub count_matches : Option ℕ → Option ℕ → Bool
count_matches none n = true
count_matches (some m) none = false
count_matches (some m) (some n) = eqb n m

abbrev pub at_least : Option ℕ → ℕ → Bool
at_least none n = true
at_least (some m) n = leb m n

abbrev pub at_most : Option ℕ → ℕ → Bool
at_most none n = true
at_most (some m) n = leb n m

-- The `WHERE` clause that `query` builds.
unfoldable pub matches : InventoryQuery → CanonicalListing → Bool
matches q row =
    (is_nil q.states || is_among row.state q.states)
    && (text_matches q.transaction_type row.transaction_type
        && (text_matches q.property_type row.property_type
            && (text_matches q.city row.city
                && (text_matches q.locality row.locality
                    && (count_matches q.bedrooms row.bedrooms
                        && (at_least q.min_price_minor row.price_minor
                            && at_most q.max_price_minor row.price_minor))))))

-- `ORDER BY last_verified_at DESC, canonical_id ASC`, on the texts in the table.
abbrev pub shown_after : CanonicalListing → CanonicalListing → Bool
shown_after a b =
    text_lt a.last_verified_at.isoformat b.last_verified_at.isoformat
    || (a.last_verified_at.isoformat == b.last_verified_at.isoformat
        && text_lt b.canonical_id a.canonical_id)

unfoldable pub query : InventoryQuery → Inventory → Result InventoryError (List CanonicalListing)
query q s =
    Result.◌>>◌ (validate_query q)
      (ok (sort_by shown_after (select (matches q) (values s.listings))))

-- The sources that the members of a listing name, in the order of the memberships.
unfoldable pub joined_sources : String → Dict SourceRecord → List Membership → Dict SourceRecord
joined_sources id sources [] = []
joined_sources id sources (m ∷ ms) =
    let rest = joined_sources id sources ms in
    if m.canonical_id == id
    then elim (lookup m.source_version_id sources) [
      | none ↦ rest
      | some source ↦ (m.source_version_id, source) ∷ rest
    ]
    else rest

-- `ORDER BY created_at, source_version_id`
abbrev pub joined_after : String × SourceRecord → String × SourceRecord → Bool
joined_after a b =
    text_lt b.1.created_at a.1.created_at || (a.1.created_at == b.1.created_at && text_lt b.0 a.0)

unfoldable pub source_members : String → Inventory → Dict SourceRecord
source_members id s = sort_by joined_after (joined_sources id s.sources s.members)

abbrev pub is_event_of : String → LifecycleEvent → Bool
is_event_of id e = e.canonical_id == id

-- `lifecycle`
unfoldable pub lifecycle : String → Inventory → List LifecycleEvent
lifecycle id s = select (is_event_of id) s.events

pub record Counts : Type 0 where
  pub source_records : ℕ
  pub canonical_listings : ℕ
  pub memberships : ℕ
  pub lifecycle_events : ℕ

unfoldable pub counts : Inventory → Counts
counts s = record {
  source_records = length s.sources;
  canonical_listings = length s.listings;
  memberships = length s.members;
  lifecycle_events = length s.events;
}
