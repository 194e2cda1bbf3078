-- ===== src/RealEstate/Tests.antt =====
-- The listings, the inventory, the detector and the review queue on concrete inputs, where the hash of
-- a text is the text.
use ai_factory.Base.{ℕ, String, true, ◌≡◌, refl, none, some, List, [], ◌∷◌}
use ai_factory.Base.Text.{is_blank, joined, text_prefix}
use ai_factory.Base.Int.{pos}
use ai_factory.Base.Decimal.{numeral}
use ai_factory.Base.Dict.{lookup, insert, values}
use ai_factory.Base.Result.{ok, err}
use ai_factory.RealEstate.Listing.{
  Timestamp, owner_submitted, active, sold, expired, ListingCandidate, earlier, validate,
  freshness_score, completeness_score, transition_listing_state, duplicate_fingerprint,
  coordinates_apart, least, round_half_even,
}
use ai_factory.RealEstate.Inventory.{
  CanonicalListing, Inventory, new_source, new_listing, transition, ingest, join_listing,
  create_listing, refresh_listing, add_member, append_event, with_fingerprint, source_record,
  canonical_row,
}
use ai_factory.RealEstate.Inventory.Calls.{
  add_source, expire_stale, expire_each, expire_if_stale, source_version_id,
}
use ai_factory.RealEstate.Inventory.Keys.{IsKeyed}
use ai_factory.RealEstate.Inventory.Steps.{From, new_event}
use ai_factory.RealEstate.Inventory.Refines.{run-From}
use ai_factory.RealEstate.Inventory.Life.{IsTold, state_of, run-IsTold, run_final}
use ai_factory.RealEstate.Inventory.Sweep.{IsSwept}
use ai_factory.RealEstate.Inventory.Expiry.{Untouched, expire_stale-IsSwept}
use ai_factory.RealEstate.Anomalies.{latest_from, keep_latest}
use ai_factory.RealEstate.Inventory.Runs.{
  Command, add_call, transition_call, expire_call, empty_inventory, run, after,
}

abbrev pub same : String → String
same s = s

abbrev pub day_one : Timestamp
day_one = record { aware = true; instant = 86400000000; isoformat = "1970-01-02T00:00:00+00:00" }

abbrev pub day_two : Timestamp
day_two = record { aware = true; instant = 172800000000; isoformat = "1970-01-03T00:00:00+00:00" }

-- Forty days on.
abbrev day_forty : Timestamp
day_forty = record {
  aware = true;
  instant = 3542400000000;
  isoformat = "1970-02-11T00:00:00+00:00";
}

abbrev pub flat : String → ℕ → Timestamp → ListingCandidate
flat publisher price at = record {
  listing_id = "L1";
  source_ref = "S1";
  publisher_id = publisher;
  rights_basis = owner_submitted;
  transaction_type = "SALE";
  property_type = "FLAT";
  city = "Berlin";
  locality = "Mitte";
  geo_cell = "u33d";
  price_minor = price;
  area_sqm = 70000;
  bedrooms = some 2;
  title = "Flat";
  description = "Two rooms";
  image_hashes = "b" ∷ "a" ∷ [];
  source_updated_at = day_one;
  last_verified_at = at;
  latitude = none;
  longitude = none;
  state = active;
}

flat_validates : validate (flat "P1" 100 day_one) ≡ ok tt
unfolding validate is_blank
flat_validates = refl

half_a_coordinate :
    validate (record (flat "P1" 100 day_one) { latitude = some (pos 52000000) })
    ≡ err coordinates_apart
unfolding validate is_blank
half_a_coordinate = refl

fingerprint_of_flat :
    duplicate_fingerprint same same (flat "P1" 100 day_one)
    ≡ ok "SALE|FLAT|Berlin|Mitte|u33d|70|2|a"
unfolding duplicate_fingerprint is_blank joined numeral round_half_even least
fingerprint_of_flat = refl

-- Eight of nine checks.
completeness_of_flat : completeness_score (flat "P1" 100 day_one) ≡ ok 888889
unfolding completeness_score is_blank
completeness_of_flat = refl

fresh_flat : freshness_score 30 (some day_two) day_two (flat "P1" 100 day_one) ≡ ok 966667
unfolding freshness_score is_blank
fresh_flat = refl

-- Two sources of one flat, in one listing.
abbrev pub two_flats : Inventory
two_flats = record {
  sources =
      ("V1", new_source "F" "t1" (flat "P1" 100 day_one))
      ∷ ("V2", new_source "F" "t2" (flat "P2" 250 day_two))
      ∷ [];
  listings = ("CAN-F", new_listing "CAN-F" "F" "V2" "t2" (flat "P2" 250 day_two)) ∷ [];
  members =
      record { canonical_id = "CAN-F"; source_version_id = "V1"; joined_at = "t1" }
      ∷ record { canonical_id = "CAN-F"; source_version_id = "V2"; joined_at = "t2" }
      ∷ [];
  events = [];
  trust = [];
}

two_flats-IsKeyed : IsKeyed two_flats.listings
unfolding lookup
two_flats-IsKeyed = (refl, refl, tt)

abbrev swept_flats : Inventory
swept_flats = record two_flats {
  listings =
      (
        "CAN-F",
        record (new_listing "CAN-F" "F" "V2" "t2" (flat "P2" 250 day_two)) {
          state = expired;
          updated_at = "t3";
        },
      )
      ∷ [];
  events = new_event "CAN-F" (some active) expired "FRESHNESS_EXPIRED" "SWEEPER" "t3" ∷ [];
}

sweep_of_two_flats :
    expire_stale 30 day_forty "SWEEPER" "t3" two_flats ≡ (ok ("CAN-F" ∷ []), swept_flats)
unfolding expire_stale expire_each expire_if_stale values source_record lookup freshness_score
    is_blank transition canonical_row transition_listing_state append_event insert
sweep_of_two_flats = refl

expire_stale-IsSwept_example :
    IsSwept 30 day_forty swept_flats × Untouched ("CAN-F" ∷ []) two_flats swept_flats
expire_stale-IsSwept_example =
    expire_stale-IsSwept 30 day_forty "SWEEPER" "t3" two_flats swept_flats two_flats-IsKeyed
      sweep_of_two_flats

abbrev selling : List Command
selling =
    add_call (flat "P1" 100 day_one) "INGESTION" "t1"
    ∷ transition_call "CAN-SALE|FLAT|Berlin|Mit" sold "SOLD_BY_OWNER" "AGENT" "t2"
    ∷ expire_call 30 day_forty "SWEEPER" "t3"
    ∷ []

run-From_example : From two_flats (run same same numeral selling two_flats)
run-From_example = run-From same same numeral selling two_flats two_flats-IsKeyed

run-IsTold_example : IsTold (run same same numeral selling empty_inventory)
run-IsTold_example = run-IsTold same same numeral selling

abbrev sold_flat : CanonicalListing
sold_flat = record (new_listing "CAN-F" "F" "V2" "t2" (flat "P2" 250 day_two)) { state = sold }

abbrev sold_flats : Inventory
sold_flats = record two_flats { listings = ("CAN-F", sold_flat) ∷ [] }

run_final_example :
    state_of (lookup "CAN-F" (run same same numeral selling sold_flats).listings) ≡ some sold
unfolding lookup
run_final_example =
    run_final same same numeral selling "CAN-F" sold_flats (refl, refl, tt) refl refl

-- A correction of the city alone is not a new source version: it is dropped, and the answer names a
-- listing that does not exist.
abbrev first_flat : Inventory
first_flat =
    run same same numeral (add_call (flat "P1" 100 day_one) "INGESTION" "t1" ∷ []) empty_inventory

correction_is_lost :
    add_source same same numeral
      (record (flat "P1" 100 day_one) { city = "Potsdam" })
      "INGESTION"
      "t2"
      first_flat
    ≡ (ok "CAN-SALE|FLAT|Potsdam|Mi", first_flat)
unfolding run add_source ingest join_listing create_listing refresh_listing add_member append_event
    source_version_id duplicate_fingerprint is_blank joined text_prefix numeral round_half_even
    least lookup insert values with_fingerprint after
correction_is_lost = refl

no_such_listing : lookup "CAN-SALE|FLAT|Potsdam|Mi" first_flat.listings ≡ none
unfolding run add_source ingest join_listing create_listing refresh_listing add_member append_event
    source_version_id duplicate_fingerprint is_blank joined text_prefix numeral round_half_even
    least lookup insert values with_fingerprint after
no_such_listing = refl

-- Half past nine in Greenwich is later than ten o'clock in a zone five hours ahead, but the detector
-- keeps the latter, whose text is the greater.
abbrev in_greenwich : Timestamp
in_greenwich = record {
  aware = true;
  instant = 1772357400000000;
  isoformat = "2026-03-01T09:30:00+00:00";
}

abbrev in_tashkent : Timestamp
in_tashkent = record {
  aware = true;
  instant = 1772341200000000;
  isoformat = "2026-03-01T10:00:00+05:00";
}

tashkent_first : earlier in_tashkent in_greenwich ≡ ok true
unfolding earlier
tashkent_first = refl

keeps_the_older_record :
    latest_from [] (
      ("V1", new_source "F" "t1" (flat "P1" 100 in_tashkent))
      ∷ ("V2", new_source "F" "t2" (flat "P1" 250 in_greenwich))
      ∷ [])
    ≡ ("V1", new_source "F" "t1" (flat "P1" 100 in_tashkent)) ∷ []
unfolding latest_from keep_latest
keeps_the_older_record = refl
