-- ===== src/RealEstate/Review/Tests.antt =====
-- The detector and the review queue on the flat of the inventory's tests, where the hash of a text is
-- the text, of an event its note, and of evidence the names of its source versions.
use ai_factory.Base.{String, true, ◌≡◌, refl, ◌⊎◌, some, List, [], ◌∷◌, map}
use ai_factory.Base.Text.{is_blank, joined, text_prefix}
use ai_factory.Base.Dict.{lookup, insert, values}
use ai_factory.Base.Sorting.{sort_by}
use ai_factory.Base.Result.{ok, err}
use ai_factory.RealEstate.Tests.{same, two_flats}
use ai_factory.RealEstate.Inventory.Calls.{source_members, joined_sources}
use ai_factory.RealEstate.Anomalies.{
  AnomalyFinding, critical, Detector, Evidence, latest_sources, evidence, detect, detect_on,
  finding_on, relative_gap, validate,
}
use ai_factory.RealEstate.Inventory.Calls.{source_members}
use ai_factory.RealEstate.Anomalies.Kept.{IsSelection}
use ai_factory.RealEstate.Anomalies.Divergence.{Reports, detect-Reports}
use ai_factory.RealEstate.Review.{
  in_review, resolved, confirmed_anomaly, ReviewCase, Unsigned, ReviewStore, not_independent,
  stale_finding, get, case_row, append_event, with_finding,
}
use ai_factory.RealEstate.Review.Calls.{
  queue, queue_new, start_review, may_start, may_resolve, resolve, resolve_current, new_case,
  verify_audit_chain,
}
use ai_factory.RealEstate.Review.Runs.{
  Command, queue_call, start_call, resolve_current_call, empty_store, after, run,
}
use ai_factory.RealEstate.Review.Steps.{Steps}
use ai_factory.RealEstate.Review.Refines.{run-Steps}
use ai_factory.RealEstate.Review.Chain.{run-verifies_chain}
use ai_factory.RealEstate.Review.Decisions.{AllAccounted, run-AllAccounted}
use ai_factory.RealEstate.Review.Final.{IsStill, run-IsStill}
use ai_factory.RealEstate.Review.Current.{Collision, Holds, resolve_current-evidence}

abbrev note_of : Unsigned → String
note_of u = u.note

abbrev versions_of : List Evidence → String
versions_of es = joined "," (map (λ (e : Evidence). e.source_version_id) es)

abbrev detector : Detector
detector = record {
  medium_threshold = 200000;
  high_threshold = 500000;
  critical_threshold = 1000000;
}

abbrev finding : AnomalyFinding
finding = record {
  finding_id = "FIND-DET-DUPLICATE-PRICE-DIVE";
  anomaly_type = "DUPLICATE_PRICE_DIVERGENCE";
  severity = critical;
  canonical_id = "CAN-F";
  source_version_ids = "V1" ∷ "V2" ∷ [];
  detector_id = "DET-DUPLICATE-PRICE-DIVERGENCE-V1";
  evidence_refs = "SOURCE:V1" ∷ "SOURCE:V2" ∷ [];
  evidence_fingerprint = "V1,V2";
  summary =
      "Independent current source records disagree materially on price; operator review required.";
  observed_value = 1500000;
  threshold = 200000;
}

detected : detect same versions_of detector two_flats "CAN-F" ≡ ok (some finding)
unfolding detect detect_on latest_sources source_members sort_by joined_sources lookup relative_gap
    validate is_blank finding_on text_prefix joined
detected = refl

detect-Reports_example :
    IsSelection (source_members "CAN-F" two_flats) (latest_sources two_flats "CAN-F")
    × Reports detector "CAN-F" (latest_sources two_flats "CAN-F") (some finding)
detect-Reports_example = detect-Reports same versions_of detector two_flats "CAN-F" detected

abbrev case_id : String
case_id = "CASE-FIND-DET-DUPLICATE-PRICE"

abbrev reviewing : List Command
reviewing = queue_call finding "t1" ∷ start_call case_id "OPERATOR" "t2" ∷ []

abbrev deciding : List Command
deciding =
    queue_call finding "t1"
    ∷ start_call case_id "OPERATOR" "t2"
    ∷ resolve_current_call two_flats case_id "OPERATOR" confirmed_anomaly ("CALL-1" ∷ []) "Checked."
        "t3"
    ∷ []

run-Steps_example :
    Steps note_of empty_store (run same versions_of detector note_of deciding empty_store)
run-Steps_example = run-Steps same versions_of detector note_of deciding empty_store

run-AllAccounted_example : AllAccounted (run same versions_of detector note_of deciding empty_store)
run-AllAccounted_example = run-AllAccounted same versions_of detector note_of deciding

abbrev the_case : ReviewCase
the_case = new_case case_id finding "t1"

abbrev in_hand : ReviewCase
in_hand = record the_case {
  status = in_review;
  assigned_reviewer = some "OPERATOR";
  updated_at = "t2";
}

in_hand_found :
    lookup case_id (run same versions_of detector note_of reviewing empty_store).cases
    ≡ some in_hand
unfolding run after queue queue_new get case_row with_finding values insert append_event
    start_review may_start lookup validate is_blank text_prefix
in_hand_found = refl

run-verifies_chain_example :
    let s = run same versions_of detector note_of reviewing empty_store in
    verify_audit_chain note_of case_id s ≡ (ok true, s)
run-verifies_chain_example =
    run-verifies_chain same versions_of detector note_of reviewing case_id in_hand_found

abbrev closed_case : ReviewCase
closed_case = record in_hand { status = resolved; updated_at = "t3" }

abbrev closed_store : ReviewStore
closed_store = record { cases = (case_id, closed_case) ∷ []; events = [] }

run-IsStill_example :
    IsStill case_id closed_case [] (run same versions_of detector note_of deciding closed_store)
unfolding lookup
run-IsStill_example =
    run-IsStill same versions_of detector note_of deciding case_id closed_store refl refl

-- A grave finding is not for its detector to review.
not_for_the_detector :
    (start_review note_of case_id finding.detector_id "t2"
      (record { cases = (case_id, the_case) ∷ []; events = [] })).0
    ≡ err not_independent
unfolding start_review may_start get case_row lookup validate is_blank
not_for_the_detector = refl

abbrev held_store : ReviewStore
held_store = record { cases = (case_id, in_hand) ∷ []; events = [] }

held : Holds case_id finding held_store
unfolding lookup
held = record { row = in_hand; found = refl; about = refl }

abbrev decided_store : ReviewStore
decided_store =
    (resolve note_of case_id "OPERATOR" confirmed_anomaly ("CALL-1" ∷ []) "Checked." "t3"
      held_store).1

resolved_now :
    resolve_current same versions_of detector note_of two_flats case_id "OPERATOR" confirmed_anomaly
      ("CALL-1" ∷ [])
      "Checked."
      "t3"
      (run same versions_of detector note_of [] held_store)
    ≡ (ok closed_case, decided_store)
unfolding run resolve_current resolve may_resolve get case_row append_event insert detect detect_on
    latest_sources source_members sort_by joined_sources lookup relative_gap validate is_blank
    finding_on text_prefix joined
resolved_now = refl

resolve_current-evidence_example :
    (evidence (latest_sources two_flats "CAN-F") ≡ evidence (latest_sources two_flats "CAN-F"))
    ⊎ Collision versions_of
resolve_current-evidence_example =
    resolve_current-evidence same versions_of detector note_of two_flats two_flats "CAN-F" case_id
      "OPERATOR" confirmed_anomaly ("CALL-1" ∷ []) "Checked." "t3" [] held_store decided_store
      detected held resolved_now

-- With no sources left there is no evidence any more, and the case is not resolved.
stale_without_sources :
    (resolve_current same versions_of detector note_of
      (record two_flats { members = [] })
      case_id
      "OPERATOR"
      confirmed_anomaly
      ("CALL-1" ∷ [])
      "Checked."
      "t3"
      held_store).0
    ≡ err stale_finding
unfolding resolve_current get case_row append_event insert detect detect_on latest_sources
    source_members sort_by joined_sources lookup relative_gap validate is_blank finding_on
    text_prefix joined
stale_without_sources = refl
