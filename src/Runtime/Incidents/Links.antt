-- ===== src/Runtime/Incidents/Links.antt =====
-- The hash chain of an incident's history (factory/runtime/incidents.py, `_append_event` and
-- `verify_history`).
use ai_factory.Base.{
  ℕ, ◌+◌, String, Bool, true, false, ◌≡◌, refl, none, some, List, [], ◌∷◌, ◌++◌, if◌then◌else◌,
  ◌==◌, arith, eq_iff, eq_refl, select-append, ◌⊎◌, inl, inr, subst,
}
use mathlib.Core.List.{append-nil}
use ai_factory.Base.Result.{Result, ok, err}
use ai_factory.Base.Action.{IsKept}
use ai_factory.Runtime.Incidents.{
  Unsigned, IncidentEvent, IncidentStore, IncidentError, IncidentAction, Happening, Method, rows_of,
  is_of, next_link, incident_of, duplicate_row, Approvals, may_execute,
}
use ai_factory.Runtime.Incidents.Calls.{
  next_event, append_event, verify_row, verify_rows, as_duplicate,
}

-- Where a history ends: the sequence and the previous hash of what follows.
abbrev end_link : ℕ → String → List IncidentEvent → ℕ × String
end_link n previous [] = (n, previous)
end_link n previous (e ∷ es) = end_link (e.unsigned.sequence + 1) e.event_hash es

next_link-end_link : (rows : List IncidentEvent) → next_link rows ≡ end_link 1 "GENESIS" rows
next_link-end_link [] = refl
next_link-end_link (x ∷ []) = refl
next_link-end_link (x ∷ y ∷ es) = next_link-end_link (y ∷ es)

pub as_duplicate-state :
    {A : Type 0} (m : Method A) (s : IncidentStore) → (as_duplicate m s).1 ≡ (m s).1
as_duplicate-state m s = same_state (m s)
  where
    same_state :
        {A : Type 0} (x : Result IncidentError A × IncidentStore)
        → (as_duplicate (λ _. x) x.1).1 ≡ x.1
    same_state x = ground arith

pub may_execute-quiet :
    (approvals : Approvals) (mission_id : String) (a : IncidentAction) (s : IncidentStore)
    → (may_execute approvals mission_id a s).1.events ≡ s.events
may_execute-quiet none mission_id a s = ground arith
may_execute-quiet (some status) mission_id a s = ground arith

module _ (digest : Unsigned → String) where
  verify_rows-cons :
      (id : String) (n : ℕ) (previous : String) (e : IncidentEvent) (es : List IncidentEvent)
      → verify_rows digest id n previous (e ∷ es) ≡ ok tt
      → (verify_row digest id n previous e ≡ ok tt)
        × (e.unsigned.sequence ≡ n)
        × (verify_rows digest id (n + 1) e.event_hash es ≡ ok tt)
  unfolding verify_rows verify_row
  verify_rows-cons id n previous e es h = ground arith

  verify_rows-append :
      (id : String) (n : ℕ) (previous : String) (es : List IncidentEvent) (e : IncidentEvent)
      → verify_rows digest id n previous es ≡ ok tt
      → verify_row digest id (end_link n previous es).0 (end_link n previous es).1 e ≡ ok tt
      → verify_rows digest id n previous (es ++ e ∷ []) ≡ ok tt
  unfolding verify_rows
  verify_rows-append id n previous [] e h k = rw k refl
  verify_rows-append id n previous (x ∷ es) e h k =
      let (first, same, rest) = verify_rows-cons id n previous x es h in
      rw first (verify_rows-append id (n + 1) x.event_hash es e rest (rw same at k))

  next_event-verifies :
      (id actor_id : String) (happening : Happening) (now : String) (events : List IncidentEvent)
      → let (n, previous) = next_link (rows_of id events) in
        verify_row digest id n previous (next_event digest id actor_id happening now events) ≡ ok tt
  unfolding verify_row
  next_event-verifies id actor_id happening now events =
      let (n, previous) = next_link (rows_of id events) in
      ground (
        arith,
        eq_refl previous,
        eq_refl (next_event digest id actor_id happening now events).event_hash,
      )

  abbrev pub Chained : IncidentStore → Type 0
  Chained s = (id : String) → verify_rows digest id 1 "GENESIS" (rows_of id s.events) ≡ ok tt

  rows_of-append :
      (id : String) (e : IncidentEvent) (events : List IncidentEvent)
      → rows_of id (events ++ e ∷ [])
        ≡ rows_of id events ++ (if e.unsigned.incident_id == id then e ∷ [] else [])
  rows_of-append id e events = ground (arith, select-append (is_of id) events (e ∷ []))

  extended :
      (j : String) (b : Bool) (rows : List IncidentEvent) (e : IncidentEvent)
      → verify_rows digest j 1 "GENESIS" rows ≡ ok tt
      → (b ≡ true → verify_rows digest j 1 "GENESIS" (rows ++ e ∷ []) ≡ ok tt)
      → verify_rows digest j 1 "GENESIS" (rows ++ (if b then e ∷ [] else [])) ≡ ok tt
  extended j true rows e h k = k refl
  extended j false rows e h k = rw (append-nil rows) h

  module _ (id actor_id : String) (happening : Happening) (now : String) where
    next_event-Chained :
        (s : IncidentStore)
        → Chained s
        → Chained (record s {
          events = s.events ++ next_event digest id actor_id happening now s.events ∷ [];
        })
    next_event-Chained s h j =
        let e = next_event digest id actor_id happening now s.events in
        let rows = rows_of id s.events in
        let linked = verify_rows-append id 1 "GENESIS" rows e (h id) (
          subst (λ l. verify_row digest id l.0 l.1 e ≡ ok tt) (next_link-end_link rows)
            (next_event-verifies id actor_id happening now s.events)) in
        rw (rows_of-append j e s.events) (
          extended j (id == j) (rows_of j s.events) e (h j) λ same.
            subst (λ k. verify_rows digest k 1 "GENESIS" (rows_of k s.events ++ e ∷ []) ≡ ok tt)
              ((eq_iff id j).0 same) linked)

    pub append_event-cases :
        (s : IncidentStore)
        → (append_event digest id actor_id happening now s ≡ (err duplicate_row, s))
          ⊎ (append_event digest id actor_id happening now s ≡ (
            ok tt,
            record s {
              events = s.events ++ next_event digest id actor_id happening now s.events ∷ [];
            },
          ))
    unfolding append_event
    append_event-cases s = ground arith

    pub append_event-Chained : IsKept Chained (append_event digest id actor_id happening now)
    append_event-Chained = record {
      apply = λ s h. elim (append_event-cases s) [
        | inl e ↦ rw e h
        | inr e ↦ rw e (next_event-Chained s h)
      ];
    }

  pub incident_of-Chained : (id mission_id : String) → IsKept Chained (incident_of id mission_id)
  unfolding incident_of
  incident_of-Chained id mission_id = record { apply = λ s h. ground arith }

  pub quiet-Chained :
      {A : Type 0} (m : Method A)
      → ((s : IncidentStore) → (m s).1.events ≡ s.events)
      → IsKept Chained m
  quiet-Chained m same = record { apply = λ s h. rw (same s) h }
