-- ===== src/RealEstate/Inventory.antt =====
-- missions/real_estate/inventory.py: the source records, the canonical listings that duplicates share,
-- and the lifecycle events of a listing. `now` is the clock's reading in a call, `source_digest` the
-- SHA-256 of a source version's text, cut to 24 digits, which `area_text` writes an area into. Trust
-- scores are millionths.
pub mod Calls
pub mod Runs
pub mod Keys
pub mod Steps
pub mod Refines
pub mod Life
pub mod Sweep
pub mod Expiry
use ai_factory.Base.{
  ℕ, ◌+◌, String, Bool, true, false, not, ◌&&◌, ◌||◌, Option, none, some, List, [], ◌∷◌, ◌++◌, ⊤,
  if◌then◌else◌, ltb, leb, eqb, ◌==◌, is_some, is_nil, is_blank, any, select, length, joined,
  text_prefix,
}
use ai_factory.Base.Sorting.{text_lt, sort_by}
use ai_factory.Base.Decimal.{numeral}
use ai_factory.Base.Result.{Result, ok, err, map_err}
use ai_factory.Base.Action.{
  Action, pure, raise, raise_if, gets, modify, lift, or_raise, transaction, ◌>>=◌, ◌>>◌,
}
use ai_factory.Base.Dict.{Dict, lookup, insert, values}
use ai_factory.RealEstate.Listing.{
  Timestamp, ListingState, draft, active, under_offer, sold, rented, withdrawn, expired,
  ListingCandidate, ListingError, earlier, ensure_ingestion_allowed, transition_listing_state,
  same_state, is_among, freshness_score, count_text, duplicate_fingerprint,
}

pub record SourceRecord : Type 0 where
  pub candidate : ListingCandidate
  pub duplicate_fingerprint : String
  pub created_at : String

pub record CanonicalListing : Type 0 where
  pub canonical_id : String
  pub duplicate_fingerprint : String
  pub active_source_version_id : String
  pub state : ListingState
  pub transaction_type : String
  pub property_type : String
  pub city : String
  pub locality : String
  pub geo_cell : String
  pub price_minor : ℕ
  pub area_sqm : ℕ
  pub bedrooms : Option ℕ
  pub title : String
  pub description : String
  pub last_verified_at : Timestamp
  pub updated_at : String

pub record Membership : Type 0 where
  pub canonical_id : String
  pub source_version_id : String
  pub joined_at : String

pub record LifecycleEvent : Type 0 where
  pub canonical_id : String
  pub from_state : Option ListingState
  pub to_state : ListingState
  pub reason : String
  pub actor_id : String
  pub occurred_at : String

pub record PublisherTrustEvidence : Type 0 where
  pub publisher_id : String
  pub score : ℕ
  pub evidence_refs : List String
  pub verified_by : String

pub record Inventory : Type 0 where
  pub sources : Dict SourceRecord
  pub listings : Dict CanonicalListing
  pub members : List Membership
  pub events : List LifecycleEvent
  pub trust : Dict PublisherTrustEvidence

-- `duplicate_row` is the database's `IntegrityError`, `unknown` the `KeyError`.
pub data InventoryError : Type 0 where
  listing : ListingError → InventoryError
  unknown : String → InventoryError
  reason_and_actor_required duplicate_row : InventoryError
  trust_publisher_required score_out_of_range trust_requires_evidence : InventoryError
  verified_by_required prices_crossed : InventoryError

abbrev pub Method : Type 0 → Type 0
Method A = Action Inventory InventoryError A

-- `_canonical_row`
unfoldable pub canonical_row : String → Method CanonicalListing
canonical_row id = do s ← gets (λ s. s); or_raise (lookup id s.listings) (unknown id)

unfoldable pub source_record : String → Method SourceRecord
source_record id = do s ← gets (λ s. s); or_raise (lookup id s.sources) (unknown id)

-- `_append_event`
unfoldable pub append_event :
    String → Option ListingState → ListingState → String → String → String → Method ⊤
append_event id from_state to_state reason actor_id occurred_at = do
  raise_if (is_blank reason || is_blank actor_id) reason_and_actor_required
  let event : LifecycleEvent = record {
    canonical_id = id;
    from_state = from_state;
    to_state = to_state;
    reason = reason;
    actor_id = actor_id;
    occurred_at = occurred_at;
  }
  modify (λ s. record s { events = s.events ++ event ∷ [] })

abbrev pub put_listing : String → CanonicalListing → Method ⊤
put_listing id row = modify (λ s. record s { listings = insert id row s.listings })

-- The row of `SELECT … WHERE duplicate_fingerprint = ?`.
unfoldable pub with_fingerprint : String → List CanonicalListing → Option CanonicalListing
with_fingerprint fingerprint [] = none
with_fingerprint fingerprint (row ∷ rows) =
    if row.duplicate_fingerprint == fingerprint then some row else with_fingerprint fingerprint rows

-- What a new listing shows of its first source.
abbrev pub new_listing : String → String → String → String → ListingCandidate → CanonicalListing
new_listing id fingerprint version now c = record {
  canonical_id = id;
  duplicate_fingerprint = fingerprint;
  active_source_version_id = version;
  state = c.state;
  transaction_type = c.transaction_type;
  property_type = c.property_type;
  city = c.city;
  locality = c.locality;
  geo_cell = c.geo_cell;
  price_minor = c.price_minor;
  area_sqm = c.area_sqm;
  bedrooms = c.bedrooms;
  title = c.title;
  description = c.description;
  last_verified_at = c.last_verified_at;
  updated_at = now;
}

-- What a listing shows once a source that was verified later has joined it.
abbrev pub refreshed : String → String → ListingCandidate → CanonicalListing → CanonicalListing
refreshed version now c row = record row {
  active_source_version_id = version;
  transaction_type = c.transaction_type;
  property_type = c.property_type;
  city = c.city;
  locality = c.locality;
  geo_cell = c.geo_cell;
  price_minor = c.price_minor;
  area_sqm = c.area_sqm;
  bedrooms = c.bedrooms;
  title = c.title;
  description = c.description;
  last_verified_at = c.last_verified_at;
  updated_at = now;
}

-- The branch of `add_source` for a fingerprint that no listing has.
unfoldable pub create_listing :
    String → String → String → String → String → ListingCandidate → Method String
create_listing id fingerprint version actor_id now c = do
  s ← gets (λ s. s)
  raise_if (is_some (lookup id s.listings)) duplicate_row
  put_listing id (new_listing id fingerprint version now c)
  append_event id none c.state "CANONICAL_CREATED" actor_id now
  pure id

-- The branch for a listing that is there.
unfoldable pub refresh_listing :
    String → String → ListingCandidate → CanonicalListing → Method String
refresh_listing version now c row = do
  newer ← lift (map_err listing (earlier row.last_verified_at c.last_verified_at))
  if newer then put_listing row.canonical_id (refreshed version now c row) else pure tt
  pure row.canonical_id

-- A source record does not hold the coordinates.
abbrev pub new_source : String → String → ListingCandidate → SourceRecord
new_source fingerprint now c = record {
  candidate = record c { latitude = none; longitude = none };
  duplicate_fingerprint = fingerprint;
  created_at = now;
}

abbrev pub is_member : String → Membership → Bool
is_member version m = m.source_version_id == version

unfoldable pub add_member : String → String → String → Method ⊤
add_member id version now = do
  s ← gets (λ s. s)
  raise_if (any (is_member version) s.members) duplicate_row
  let member : Membership = record {
    canonical_id = id;
    source_version_id = version;
    joined_at = now;
  }
  modify (λ s. record s { members = s.members ++ member ∷ [] })

-- The listing that a new source joins.
unfoldable pub join_listing :
    String → String → String → String → String → ListingCandidate → Method String
join_listing id fingerprint version actor_id now c = do
  s ← gets (λ s. s)
  elim (with_fingerprint fingerprint (values s.listings)) [
    | none ↦ create_listing id fingerprint version actor_id now c
    | some row ↦ refresh_listing version now c row
  ]

-- The transaction of `add_source`.
unfoldable pub ingest :
    String → String → String → String → String → ListingCandidate → Method String
ingest id fingerprint version actor_id now c = do
  s ← gets (λ s. s)
  if is_some (lookup version s.sources) then pure id else (do
    modify (λ s. record s { sources = insert version (new_source fingerprint now c) s.sources })
    joined_id ← join_listing id fingerprint version actor_id now c
    add_member joined_id version now
    pure joined_id)

unfoldable pub transition : String → ListingState → String → String → String → Method ⊤
transition id target reason actor_id now = do
  row ← canonical_row id
  resolved ← lift (map_err listing (transition_listing_state row.state target))
  if same_state resolved row.state
      then pure tt
      else transaction (do
        put_listing id (record row { state = resolved; updated_at = now })
        append_event id (some row.state) resolved reason actor_id now)
