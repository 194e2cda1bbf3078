-- ===== src/RealEstate/Listing.antt =====
-- missions/real_estate/contracts.py and integrity.py: what a source submits, when it may be ingested,
-- the lifecycle of a listing, and the scores and the fingerprint of a listing. Prices, areas and ages
-- are natural numbers: minor units, thousandths of a square metre, and microseconds. A coordinate is
-- an integer number of millionths of a degree, and a score a number of millionths.
use ai_factory.Base.{
  ℕ, ◌+◌, ◌-◌, ◌*◌, ◌/◌, ◌%◌, String, Bool, true, false, not, ◌||◌, Option, none, some, List, [],
  ◌∷◌, ⊤, if◌then◌else◌, ltb, leb, eqb, is_some, is_blank, length, joined,
}
use ai_factory.Base.Decimal.{numeral}
use ai_factory.Base.Sorting.{text_le}
use ai_factory.Base.Int.{ℤ, pos, negsuc}
use ai_factory.Base.Result.{Result, ok, err, raise_if, ◌>>=◌, ◌>>◌}

-- A `datetime`: whether it has a time zone, its instant (of its wall clock if it has none), and what
-- `isoformat` writes of it.
pub record Timestamp : Type 0 where
  pub aware : Bool
  pub instant : ℕ
  pub isoformat : String

pub data RightsBasis : Type 0 where
  owner_submitted partner_feed licensed_data unauthorized_scrape : RightsBasis

pub data ListingState : Type 0 where
  draft active under_offer sold rented withdrawn expired : ListingState

pub record ListingCandidate : Type 0 where
  pub listing_id : String
  pub source_ref : String
  pub publisher_id : String
  pub rights_basis : RightsBasis
  pub transaction_type : String
  pub property_type : String
  pub city : String
  pub locality : String
  pub geo_cell : String
  pub price_minor : ℕ
  pub area_sqm : ℕ
  pub bedrooms : Option ℕ
  pub title : String
  pub description : String
  pub image_hashes : List String
  pub source_updated_at : Timestamp
  pub last_verified_at : Timestamp
  pub latitude : Option ℤ
  pub longitude : Option ℤ
  pub state : ListingState

-- One constructor for each `raise`; `naive_and_aware` is Python's `TypeError` on a comparison.
pub data ListingError : Type 0 where
  listing_id_required source_ref_required publisher_id_required : ListingError
  area_not_positive verified_before_update coordinates_apart : ListingError
  latitude_out_of_range longitude_out_of_range naive_and_aware : ListingError
  rights_not_allowed : RightsBasis → ListingError
  invalid_transition : ListingState → ListingState → ListingError
  max_age_not_positive timezone_required : ListingError

abbrev pub beq : Bool → Bool → Bool
beq true b = b
beq false b = not b

-- `a < b` on two times.
unfoldable pub earlier : Timestamp → Timestamp → Result ListingError Bool
earlier a b = if beq a.aware b.aware then ok (ltb a.instant b.instant) else err naive_and_aware

-- `-bound <= x <= bound`
abbrev pub is_within : ℕ → Option ℤ → Bool
is_within bound none = true
is_within bound (some (pos n)) = leb n bound
is_within bound (some (negsuc n)) = ltb n bound

-- `ListingCandidate.validate`
unfoldable pub validate : ListingCandidate → Result ListingError ⊤
unfolding earlier
validate c = do
  raise_if (is_blank c.listing_id) listing_id_required
  raise_if (is_blank c.source_ref) source_ref_required
  raise_if (is_blank c.publisher_id) publisher_id_required
  raise_if (eqb c.area_sqm 0) area_not_positive
  too_early ← earlier c.last_verified_at c.source_updated_at
  raise_if too_early verified_before_update
  raise_if (not (beq (is_some c.latitude) (is_some c.longitude))) coordinates_apart
  raise_if (not (is_within 90000000 c.latitude)) latitude_out_of_range
  raise_if (not (is_within 180000000 c.longitude)) longitude_out_of_range

-- `basis in _ALLOWED_RIGHTS`
abbrev pub is_allowed : RightsBasis → Bool
is_allowed unauthorized_scrape = false
is_allowed _ = true

unfoldable pub ensure_ingestion_allowed : ListingCandidate → Result ListingError ⊤
unfolding validate
ensure_ingestion_allowed c = do
  validate c
  raise_if (not (is_allowed c.rights_basis)) (rights_not_allowed c.rights_basis)

-- `_ALLOWED_TRANSITIONS[current]`, sorted by the states' values as `allowed_listing_transitions` is.
unfoldable pub allowed_listing_transitions : ListingState → List ListingState
allowed_listing_transitions draft = active ∷ withdrawn ∷ []
allowed_listing_transitions active = expired ∷ rented ∷ sold ∷ under_offer ∷ withdrawn ∷ []
allowed_listing_transitions under_offer = active ∷ expired ∷ rented ∷ sold ∷ withdrawn ∷ []
allowed_listing_transitions expired = active ∷ withdrawn ∷ []
allowed_listing_transitions _ = []

abbrev pub same_state : ListingState → ListingState → Bool
same_state draft draft = true
same_state active active = true
same_state under_offer under_offer = true
same_state sold sold = true
same_state rented rented = true
same_state withdrawn withdrawn = true
same_state expired expired = true
same_state _ _ = false

abbrev pub is_among : ListingState → List ListingState → Bool
is_among x [] = false
is_among x (y ∷ ys) = same_state x y || is_among x ys

unfoldable pub transition_listing_state :
    ListingState → ListingState → Result ListingError ListingState
unfolding allowed_listing_transitions
transition_listing_state current target =
    if same_state target current
    then ok current
    else if not (is_among target (allowed_listing_transitions current))
    then err (invalid_transition current target)
    else ok target

-- `round` of a fraction to a whole number, ties to even.
unfoldable pub round_half_even : ℕ → ℕ → ℕ
round_half_even n d =
    let q = n / d in
    let r = n % d in if ltb (2 * r) d then q else if ltb d (2 * r) then q + 1 else q + q % 2

-- A day, and a score of one.
abbrev pub day : ℕ
day = 86400000000

abbrev pub one : ℕ
one = 1000000

abbrev pub or_clock : Option Timestamp → Timestamp → Timestamp
or_clock none clock = clock
or_clock (some t) clock = t

unfoldable pub freshness_score :
    ℕ → Option Timestamp → Timestamp → ListingCandidate → Result ListingError ℕ
unfolding ensure_ingestion_allowed round_half_even
freshness_score max_age_days now clock c = do
  raise_if (eqb max_age_days 0) max_age_not_positive
  ensure_ingestion_allowed c
  let at = or_clock now clock
  raise_if (not at.aware || not c.last_verified_at.aware) timezone_required
  let age = at.instant - c.last_verified_at.instant
  let limit = max_age_days * day
  if leb limit age then ok 0 else ok (round_half_even ((limit - age) * one) limit)

abbrev pub count_true : List Bool → ℕ
count_true [] = 0
count_true (true ∷ bs) = count_true bs + 1
count_true (false ∷ bs) = count_true bs

unfoldable pub completeness_score : ListingCandidate → Result ListingError ℕ
unfolding ensure_ingestion_allowed round_half_even
completeness_score c = do
  ensure_ingestion_allowed c
  let checks =
      not (is_blank c.title)
      ∷ not (is_blank c.description)
      ∷ not (is_blank c.city)
      ∷ not (is_blank c.locality)
      ∷ not (is_blank c.geo_cell)
      ∷ ltb 0 c.price_minor
      ∷ ltb 0 c.area_sqm
      ∷ is_some c.bedrooms
      ∷ leb 3 (length c.image_hashes)
      ∷ []
  ok (round_half_even (count_true checks * one) (length checks))

-- `str` of an optional count.
abbrev pub count_text : Option ℕ → String
count_text none = "None"
count_text (some n) = numeral n

-- `min` of a tuple that is not empty.
unfoldable pub least : String → List String → String
least x [] = x
least x (y ∷ ys) = least (if text_le x y then x else y) ys

abbrev pub least_or : String → List String → String
least_or other [] = other
least_or other (x ∷ xs) = least x xs

-- The digest of the fields by which two sources may describe one object: `normalize` stands for
-- `_normalize_text`, which is Python's `casefold`, `strip` and `re`, and `sha256` for the hash.
module _ (normalize sha256 : String → String) where
  abbrev pub fingerprint_parts : ListingCandidate → List String
  fingerprint_parts c =
      normalize c.transaction_type
      ∷ normalize c.property_type
      ∷ normalize c.city
      ∷ normalize c.locality
      ∷ normalize c.geo_cell
      ∷ numeral (round_half_even c.area_sqm 5000 * 5)
      ∷ count_text c.bedrooms
      ∷ least_or "no-image" c.image_hashes
      ∷ []

  unfoldable pub duplicate_fingerprint : ListingCandidate → Result ListingError String
  unfolding ensure_ingestion_allowed
  duplicate_fingerprint c = do
    ensure_ingestion_allowed c
    ok (sha256 (joined "|" (fingerprint_parts c)))
