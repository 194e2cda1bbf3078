-- ===== src/RealEstate/Inventory/Life.antt =====
-- What holds of listings and of their lifecycle events after any steps
-- (missions/real_estate/inventory.py).
use ai_factory.Base.{
  ℕ, String, Bool, true, false, ◌≡◌, refl, ap, sym, subst, ◌∙◌, Option, none, some, List, [], ◌∷◌,
  ◌++◌, ⊤, arith, Bool-cases, inl, inr, eq_iff, ◌==◌, select, select-append, if◌then◌else◌,
}
use mathlib.Core.List.{append-nil}
use ai_factory.Base.Dict.{lookup, insert, lookup-insert}
use ai_factory.RealEstate.Listing.{
  ListingState, allowed_listing_transitions, is_among, draft, active, under_offer, sold, rented,
  withdrawn, expired,
}
use ai_factory.RealEstate.Inventory.{CanonicalListing, LifecycleEvent, Inventory}
use ai_factory.RealEstate.Inventory.Calls.{lifecycle, is_event_of}
use ai_factory.RealEstate.Inventory.Keys.{IsKeyed}
use ai_factory.RealEstate.Inventory.Steps.{
  Step, quiet, created, updated, moved, Steps, done, more, new_event,
}
use ai_factory.RealEstate.Inventory.Runs.{Command, empty_inventory, run}
use ai_factory.RealEstate.Inventory.Refines.{run-From}

-- A listing may come to be in any state, and goes on along the lifecycle.
abbrev pub MayEnter : Option ListingState → ListingState → Type 0
MayEnter none b = ⊤
MayEnter (some a) b = is_among b (allowed_listing_transitions a) ≡ true

-- Events that lead from one state to another, each from where the one before it led.
abbrev pub Leads : Option ListingState → List LifecycleEvent → Option ListingState → Type 0
Leads a [] b = a ≡ b
Leads a (e ∷ es) b = (e.from_state ≡ a) × MayEnter a e.to_state × Leads (some e.to_state) es b

Leads-append :
    (a : Option ListingState) (es : List LifecycleEvent) (b : Option ListingState)
    (e : LifecycleEvent)
    → Leads a es b
    → e.from_state ≡ b
    → MayEnter b e.to_state
    → Leads a (es ++ e ∷ []) (some e.to_state)
Leads-append a [] b e h from may =
    (from ∙ sym h, subst (λ x. MayEnter x e.to_state) (sym h) may, refl)
Leads-append a (x ∷ es) b e (here, entered, rest) from may =
    (here, entered, Leads-append (some x.to_state) es b e rest from may)

abbrev pub state_of : Option CanonicalListing → Option ListingState
state_of none = none
state_of (some row) = some row.state

-- The events of every listing lead from nothing to its state; no events are of any other.
abbrev pub IsTold : Inventory → Type 0
IsTold s = (id : String) → Leads none (lifecycle id s) (state_of (lookup id s.listings))

lifecycle-same :
    (j : String) (e : LifecycleEvent) (s t : Inventory)
    → t.events ≡ s.events ++ e ∷ []
    → (e.canonical_id == j) ≡ true
    → lifecycle j t ≡ lifecycle j s ++ e ∷ []
unfolding lifecycle
lifecycle-same j e s t events same =
    ap (λ es. select (is_event_of j) es) events
    ∙ select-append (is_event_of j) s.events (e ∷ [])
    ∙ ap (λ b. select (is_event_of j) s.events ++ (if b then e ∷ [] else [])) same

lifecycle-other :
    (j : String) (e : LifecycleEvent) (s t : Inventory)
    → t.events ≡ s.events ++ e ∷ []
    → (e.canonical_id == j) ≡ false
    → lifecycle j t ≡ lifecycle j s
unfolding lifecycle
lifecycle-other j e s t events other =
    ap (λ es. select (is_event_of j) es) events
    ∙ select-append (is_event_of j) s.events (e ∷ [])
    ∙ ap (λ b. select (is_event_of j) s.events ++ (if b then e ∷ [] else [])) other
    ∙ append-nil (select (is_event_of j) s.events)

-- One more event, which leads to the state of the new row.
module _ (id : String) (row : CanonicalListing) (e : LifecycleEvent) (s t : Inventory)
    (named : e.canonical_id ≡ id) (to : e.to_state ≡ row.state)
    (from : e.from_state ≡ state_of (lookup id s.listings))
    (may : MayEnter (state_of (lookup id s.listings)) e.to_state)
    (rows : t.listings ≡ insert id row s.listings) (events : t.events ≡ s.events ++ e ∷ []) where
  by_event : IsTold s → IsTold t
  by_event told j = elim (Bool-cases (e.canonical_id == j)) [
    | inl same ↦
        let at : j ≡ id = sym ((eq_iff e.canonical_id j).0 same) ∙ named in
        let shown : some e.to_state ≡ state_of (lookup j t.listings) =
          rw rows (ground (arith, lookup-insert id j row s.listings, eq_iff id j)) in
        let before : state_of (lookup id s.listings) ≡ state_of (lookup j s.listings) =
          ap (λ k. state_of (lookup k s.listings)) (sym at) in
        subst (λ es. Leads none es (state_of (lookup j t.listings)))
          (sym (lifecycle-same j e s t events same))
          (subst (λ x. Leads none (lifecycle j s ++ e ∷ []) x) shown
            (Leads-append none (lifecycle j s) (state_of (lookup j s.listings)) e (told j)
              (from ∙ before) (subst (λ x. MayEnter x e.to_state) before may)))
    | inr other ↦
        let shown : state_of (lookup j s.listings) ≡ state_of (lookup j t.listings) = rw rows (
          ground
            (arith, lookup-insert id j row s.listings, eq_iff id j, eq_iff e.canonical_id j)) in
        subst (λ es. Leads none es (state_of (lookup j t.listings)))
          (sym (lifecycle-other j e s t events other))
          (subst (λ x. Leads none (lifecycle j s) x) shown (told j))
  ]

without_event :
    (s t : Inventory)
    → ((j : String) → state_of (lookup j t.listings) ≡ state_of (lookup j s.listings))
    → t.events ≡ s.events
    → IsTold s
    → IsTold t
unfolding lifecycle
without_event s t rows events told j =
    subst (λ es. Leads none (select (is_event_of j) es) (state_of (lookup j t.listings)))
      (sym events) (subst (λ x. Leads none (lifecycle j s) x) (sym (rows j)) (told j))

Step-IsTold : {s t : Inventory} → Step s t → IsTold s → IsTold t
Step-IsTold {s} {t} (quiet rows events) =
    without_event s t (λ j. ap (λ l. state_of (lookup j l)) rows) events
Step-IsTold {s} {t} (created id row reason actor_id at free named rows events) =
    by_event id row (new_event id none row.state reason actor_id at) s t refl refl
      (ap state_of (sym free)) (subst (λ o. MayEnter (state_of o) row.state) (sym free) tt) rows
      events
Step-IsTold {s} {t} (updated id row row' found named same rows events) =
    without_event s t
      (λ j. rw rows (ground (arith, lookup-insert id j row' s.listings, eq_iff id j))) events
Step-IsTold {s} {t} (moved id row row' reason actor_id at found named ok rows events) =
    by_event id row' (new_event id (some row.state) row'.state reason actor_id at) s t refl refl
      (ap state_of (sym found)) (subst (λ o. MayEnter (state_of o) row'.state) (sym found) ok) rows
      events

Steps-IsTold : {s t : Inventory} → Steps s t → IsTold s → IsTold t
Steps-IsTold done h = h
Steps-IsTold (more r st) h = Step-IsTold st (Steps-IsTold r h)

empty-IsTold : IsTold empty_inventory
unfolding lifecycle lookup
empty-IsTold id = refl

-- In a store that only the public methods have written, by whatever calls, the lifecycle events of
-- every listing start from nothing, each starts from where the one before it led and goes along the
-- lifecycle, and the last leads to the listing's state; an identifier with no listing has no events.
pub run-IsTold :
    (normalize sha256 : String → String) (area_text : ℕ → String) (cs : List Command)
    → IsTold (run normalize sha256 area_text cs empty_inventory)
run-IsTold normalize sha256 area_text cs =
    Steps-IsTold (run-From normalize sha256 area_text cs empty_inventory tt).steps empty-IsTold

-- Sold, rented and withdrawn are final.
abbrev pub is_final : ListingState → Bool
is_final sold = true
is_final rented = true
is_final withdrawn = true
is_final _ = false

final_stays :
    (a b : ListingState) → is_final a ≡ true → is_among b (allowed_listing_transitions a) ≡ true → ⊥
unfolding allowed_listing_transitions
final_stays sold b h k = cc
final_stays rented b h k = cc
final_stays withdrawn b h k = cc
final_stays draft b h k = cc
final_stays active b h k = cc
final_stays under_offer b h k = cc
final_stays expired b h k = cc

Step-final :
    {s t : Inventory} (j : String) (a : ListingState)
    → Step s t
    → is_final a ≡ true
    → state_of (lookup j s.listings) ≡ some a
    → state_of (lookup j t.listings) ≡ some a
Step-final {s} {t} j a (quiet rows events) f h = ap (λ l. state_of (lookup j l)) rows ∙ h
Step-final {s} {t} j a (created id row reason actor_id at free named rows events) f h =
    rw rows (ground (arith, lookup-insert id j row s.listings, eq_iff id j))
Step-final {s} {t} j a (updated id row row' found named same rows events) f h =
    rw rows (ground (arith, lookup-insert id j row' s.listings, eq_iff id j))
Step-final {s} {t} j a (moved id row row' reason actor_id at found named ok rows events) f h =
    rw rows (
      ground
        (arith, lookup-insert id j row' s.listings, eq_iff id j, final_stays row.state row'.state))

Steps-final :
    {s t : Inventory} (j : String) (a : ListingState)
    → Steps s t
    → is_final a ≡ true
    → state_of (lookup j s.listings) ≡ some a
    → state_of (lookup j t.listings) ≡ some a
Steps-final j a done f h = h
Steps-final j a (more r st) f h = Step-final j a st f (Steps-final j a r f h)

-- A listing that is sold, rented or withdrawn is so after whatever calls: no later source and no sweep
-- brings it back.
pub run_final :
    (normalize sha256 : String → String) (area_text : ℕ → String) (cs : List Command) (id : String)
    (s : Inventory) {row : CanonicalListing}
    → IsKeyed s.listings
    → lookup id s.listings ≡ some row
    → is_final row.state ≡ true
    → state_of (lookup id (run normalize sha256 area_text cs s).listings) ≡ some row.state
run_final normalize sha256 area_text cs id s {row} keyed found final =
    Steps-final id row.state (run-From normalize sha256 area_text cs s keyed).steps final
      (ap state_of found)
