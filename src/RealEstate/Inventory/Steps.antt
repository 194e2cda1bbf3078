-- ===== src/RealEstate/Inventory/Steps.antt =====
-- What a call may do to the listings and to their lifecycle events, as a step relation
-- (missions/real_estate/inventory.py).
use ai_factory.Base.{
  String, true, ◌≡◌, refl, ap, sym, subst, ◌∙◌, Option, none, some, [], ◌∷◌, ◌++◌, arith,
  Option-cases, ◌⊎◌, inl, inr,
}
use ai_factory.Base.Dict.{lookup, insert}
use ai_factory.RealEstate.Listing.{
  ListingState, allowed_listing_transitions, is_among, transition_listing_state,
}
use ai_factory.RealEstate.Inventory.{
  CanonicalListing, LifecycleEvent, Inventory, canonical_row, append_event, transition,
}
use ai_factory.RealEstate.Inventory.Keys.{IsKeyed, insert-IsKeyed, lookup-IsKeyed}

abbrev pub new_event :
    String → Option ListingState → ListingState → String → String → String → LifecycleEvent
new_event id from_state to_state reason actor_id at = record {
  canonical_id = id;
  from_state = from_state;
  to_state = to_state;
  reason = reason;
  actor_id = actor_id;
  occurred_at = at;
}

-- A listing is created with an event that comes from no state, its fields are refreshed in its state,
-- or it moves along the lifecycle with an event that says so. Nothing else happens to the two tables.
pub data Step (s t : Inventory) : Type 0 where
  quiet : t.listings ≡ s.listings → t.events ≡ s.events → Step s t
  created :
      (id : String) (row : CanonicalListing) (reason actor_id at : String)
      → lookup id s.listings ≡ none
      → row.canonical_id ≡ id
      → t.listings ≡ insert id row s.listings
      → t.events ≡ s.events ++ new_event id none row.state reason actor_id at ∷ []
      → Step s t
  updated :
      (id : String) (row row' : CanonicalListing)
      → lookup id s.listings ≡ some row
      → row'.canonical_id ≡ row.canonical_id
      → row'.state ≡ row.state
      → t.listings ≡ insert id row' s.listings
      → t.events ≡ s.events
      → Step s t
  moved :
      (id : String) (row row' : CanonicalListing) (reason actor_id at : String)
      → lookup id s.listings ≡ some row
      → row'.canonical_id ≡ row.canonical_id
      → is_among row'.state (allowed_listing_transitions row.state) ≡ true
      → t.listings ≡ insert id row' s.listings
      → t.events ≡ s.events ++ new_event id (some row.state) row'.state reason actor_id at ∷ []
      → Step s t

pub data Steps (s : Inventory) : Inventory → Type 0 where
  done : Steps s s
  more : {t u : Inventory} → Steps s t → Step t u → Steps s u

pub Step-IsKeyed : {s t : Inventory} → Step s t → IsKeyed s.listings → IsKeyed t.listings
Step-IsKeyed (quiet e f) k = subst (λ l. IsKeyed l) (sym e) k
Step-IsKeyed {s} (created id row reason actor_id at free named e f) k =
    subst (λ l. IsKeyed l) (sym e) (insert-IsKeyed id row s.listings named k)
Step-IsKeyed {s} (updated id row row' found named same e f) k =
    subst (λ l. IsKeyed l) (sym e)
      (insert-IsKeyed id row' s.listings (named ∙ lookup-IsKeyed id s.listings k found) k)
Step-IsKeyed {s} (moved id row row' reason actor_id at found named ok e f) k =
    subst (λ l. IsKeyed l) (sym e)
      (insert-IsKeyed id row' s.listings (named ∙ lookup-IsKeyed id s.listings k found) k)

-- What has been reached from a store in steps.
pub record From (s t : Inventory) : Type 0 where
  pub keyed : IsKeyed t.listings
  pub steps : Steps s t

pub From-Step : {s t u : Inventory} → From s t → Step t u → From s u
From-Step h st = record { keyed = Step-IsKeyed st h.keyed; steps = more h.steps st }

transition-cases :
    (id : String) (target : ListingState) (reason actor_id now : String) (s : Inventory)
    (row : CanonicalListing)
    → lookup id s.listings ≡ some row
    → let t = (transition id target reason actor_id now s).1 in
      (t ≡ s)
      ⊎ ((is_among target (allowed_listing_transitions row.state) ≡ true)
          × (t ≡ record s {
            listings = insert id (record row { state = target; updated_at = now }) s.listings;
            events = s.events ++ new_event id (some row.state) target reason actor_id now ∷ [];
          }))
unfolding transition canonical_row append_event transition_listing_state
transition-cases id target reason actor_id now s row e = ground arith

transition_unknown :
    (id : String) (target : ListingState) (reason actor_id now : String) (s : Inventory)
    → lookup id s.listings ≡ none
    → (transition id target reason actor_id now s).1 ≡ s
unfolding transition canonical_row
transition_unknown id target reason actor_id now s e = ground arith

unchanged : {s t : Inventory} → t ≡ s → Step s t
unchanged e = quiet (ap (λ s. s.listings) e) (ap (λ s. s.events) e)

-- A move that is asked for leaves the store, or is one step.
pub transition-Step :
    (id : String) (target : ListingState) (reason actor_id now : String) (s : Inventory)
    → Step s (transition id target reason actor_id now s).1
transition-Step id target reason actor_id now s = elim (Option-cases (lookup id s.listings)) [
  | inl e ↦ unchanged (transition_unknown id target reason actor_id now s e)
  | inr (row, e) ↦ elim (transition-cases id target reason actor_id now s row e) [
    | inl same ↦ unchanged same
    | inr (ok, there) ↦
        moved id row (record row { state = target; updated_at = now }) reason actor_id now e refl ok
          (ap (λ s. s.listings) there) (ap (λ s. s.events) there)
  ]
]
