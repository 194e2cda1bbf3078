-- ===== src/RealEstate/Inventory/Runs.antt =====
-- Sequences of calls of the inventory's public methods (missions/real_estate/inventory.py).
use ai_factory.Base.{ℕ, String, List, [], ◌∷◌}
use ai_factory.RealEstate.Listing.{Timestamp, ListingState, ListingCandidate}
use ai_factory.RealEstate.Inventory.{Inventory, PublisherTrustEvidence, transition}
use ai_factory.RealEstate.Inventory.Calls.{add_source, expire_stale, record_publisher_trust}

pub data Command : Type 0 where
  add_call : ListingCandidate → String → String → Command
  transition_call : String → ListingState → String → String → String → Command
  expire_call : ℕ → Timestamp → String → String → Command
  trust_call : PublisherTrustEvidence → Command

abbrev pub empty_inventory : Inventory
empty_inventory = record { sources = []; listings = []; members = []; events = []; trust = [] }

module _ (normalize sha256 : String → String) (area_text : ℕ → String) where
  unfoldable pub after : Command → Inventory → Inventory
  after (add_call c actor_id now) s = (add_source normalize sha256 area_text c actor_id now s).1
  after (transition_call id target reason actor_id now) s =
      (transition id target reason actor_id now s).1
  after (expire_call max_age_days at actor_id now) s =
      (expire_stale max_age_days at actor_id now s).1
  after (trust_call e) s = (record_publisher_trust e s).1

  unfoldable pub run : List Command → Inventory → Inventory
  run [] s = s
  run (c ∷ cs) s = run cs (after c s)
