-- ===== src/RealEstate/Review/Chain.antt =====
-- The history of every case verifies (missions/real_estate/review_queue.py, `verify_audit_chain`).
use ai_factory.Base.{
  String, true, false, ◌≡◌, refl, ap, sym, subst, ◌∙◌, some, List, [], ◌∷◌, ◌++◌, arith, Bool-cases,
  inl, inr, eq_iff, ◌==◌, if◌then◌else◌, select-append,
}
use mathlib.Core.List.{append-nil}
use ai_factory.Base.Dict.{lookup}
use ai_factory.Base.Result.{ok}
use ai_factory.RealEstate.Anomalies.{Detector, Evidence}
use ai_factory.RealEstate.Review.{
  ReviewCase, Unsigned, ReviewEvent, ReviewStore, case_row, is_of, rows_of, last_hash, next_event,
}
use ai_factory.RealEstate.Review.Calls.{verify_from, events, verify_audit_chain}
use ai_factory.RealEstate.Review.Calls.{new_case, queued_event, started_event, decided_event}
use ai_factory.RealEstate.Review.Runs.{Command, empty_store, run}
use ai_factory.RealEstate.Review.Steps.{
  Step, Steps, done, more, quiet, queued, review_started, review_decided, written, started, decided,
}
use ai_factory.RealEstate.Review.Refines.{run-Steps}

-- What one more event is in the history of its case, and in the history of another.
pub rows_of-same :
    (j : String) (e : ReviewEvent) (es : List ReviewEvent)
    → is_of j e ≡ true
    → rows_of j (es ++ e ∷ []) ≡ rows_of j es ++ e ∷ []
rows_of-same j e es h =
    select-append (is_of j) es (e ∷ []) ∙ ap (λ b. rows_of j es ++ (if b then e ∷ [] else [])) h

pub rows_of-other :
    (j : String) (e : ReviewEvent) (es : List ReviewEvent)
    → is_of j e ≡ false
    → rows_of j (es ++ e ∷ []) ≡ rows_of j es
rows_of-other j e es h =
    select-append (is_of j) es (e ∷ [])
    ∙ ap (λ b. rows_of j es ++ (if b then e ∷ [] else [])) h
    ∙ append-nil (rows_of j es)

-- The hash that the verifier holds after some events.
abbrev end_hash : String → List ReviewEvent → String
end_hash previous [] = previous
end_hash previous (e ∷ es) = end_hash e.event_hash es

last_hash-end_hash : (es : List ReviewEvent) → last_hash es ≡ end_hash "GENESIS" es
last_hash-end_hash [] = refl
last_hash-end_hash (x ∷ []) = refl
last_hash-end_hash (x ∷ y ∷ es) = last_hash-end_hash (y ∷ es)

module _ (digest : Unsigned → String) where
  verify_from-append :
      (previous : String) (es : List ReviewEvent) (e : ReviewEvent)
      → verify_from digest previous es ≡ true
      → e.unsigned.previous_hash ≡ end_hash previous es
      → digest e.unsigned ≡ e.event_hash
      → verify_from digest previous (es ++ e ∷ []) ≡ true
  unfolding verify_from
  verify_from-append previous [] e h chained sealed =
      ground
        (arith, eq_iff e.unsigned.previous_hash previous, eq_iff (digest e.unsigned) e.event_hash)
  verify_from-append previous (x ∷ es) e h chained sealed =
      ground (arith, verify_from-append x.event_hash es e)

  -- The history of every case verifies.
  abbrev pub IsChained : ReviewStore → Type 0
  IsChained s = (id : String) → verify_from digest "GENESIS" (rows_of id s.events) ≡ true

  written-IsChained :
      (id : String) (row : ReviewCase) (u : Unsigned) (s : ReviewStore)
      → IsChained s
      → IsChained (written digest id row u s)
  written-IsChained id row u s h j =
      let e = next_event digest u s.events in
      elim (Bool-cases (u.case_id == j)) [
        | inr other ↦ rw (rows_of-other j e s.events other) (h j)
        | inl same ↦ rw (rows_of-same j e s.events same) (
            verify_from-append "GENESIS" (rows_of j s.events) e (h j)
              (ap (λ k. last_hash (rows_of k s.events)) ((eq_iff u.case_id j).0 same)
                ∙ last_hash-end_hash (rows_of j s.events))
              refl)
      ]

  Step-IsChained : {s t : ReviewStore} → Step digest s t → IsChained s → IsChained t
  Step-IsChained (quiet e) h = subst (λ t. IsChained t) (sym e) h
  Step-IsChained {s} (queued id f now free new valid e) h =
      subst (λ t. IsChained t) (sym e)
        (written-IsChained id (new_case id f now) (queued_event id f now) s h)
  Step-IsChained {s} (review_started id row reviewer_id now found status named apart e) h =
      subst (λ t. IsChained t) (sym e)
        (written-IsChained id (started reviewer_id now row) (started_event id reviewer_id now) s h)
  Step-IsChained {s}
        (review_decided id row reviewer_id outcome refs note now found status assigned evident noted
          e)
        h =
      subst (λ t. IsChained t) (sym e)
        (written-IsChained id (decided outcome now row)
          (decided_event id reviewer_id outcome refs note now) s h)

  Steps-IsChained : {s t : ReviewStore} → Steps digest s t → IsChained s → IsChained t
  Steps-IsChained done h = h
  Steps-IsChained (more r st) h = Step-IsChained st (Steps-IsChained r h)

-- In a queue that only the public methods have written, by whatever calls, the audit chain of every case
-- verifies.
pub run-verifies_chain :
    (sha256 : String → String) (evidence_digest : List Evidence → String) (d : Detector)
    (digest : Unsigned → String) (cs : List Command) (id : String) {row : ReviewCase}
    → let s = run sha256 evidence_digest d digest cs empty_store in
      lookup id s.cases ≡ some row → verify_audit_chain digest id s ≡ (ok true, s)
unfolding verify_audit_chain events case_row verify_from
run-verifies_chain sha256 evidence_digest d digest cs id {row} found =
    let chained : IsChained digest (run sha256 evidence_digest d digest cs empty_store) =
      Steps-IsChained digest (run-Steps sha256 evidence_digest d digest cs empty_store)
        (λ j. refl) in
    ground (arith, chained id)
