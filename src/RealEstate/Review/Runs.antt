-- ===== src/RealEstate/Review/Runs.antt =====
-- Sequences of calls of the review queue's public methods (missions/real_estate/review_queue.py).
use ai_factory.Base.{String, List, [], ◌∷◌}
use ai_factory.RealEstate.Anomalies.{AnomalyFinding, Detector, Evidence}
use ai_factory.RealEstate.Inventory.{Inventory}
use ai_factory.RealEstate.Review.{ReviewOutcome, Unsigned, ReviewStore}
use ai_factory.RealEstate.Review.Calls.{
  queue, start_review, resolve, detect_and_queue, resolve_current,
}

-- A call of the coordinator comes with the inventory as it is then.
pub data Command : Type 0 where
  queue_call : AnomalyFinding → String → Command
  start_call : String → String → String → Command
  resolve_call : String → String → ReviewOutcome → List String → String → String → Command
  detect_call : Inventory → String → String → Command
  resolve_current_call :
      Inventory → String → String → ReviewOutcome → List String → String → String → Command

abbrev pub empty_store : ReviewStore
empty_store = record { cases = []; events = [] }

module _ (sha256 : String → String) (evidence_digest : List Evidence → String) (d : Detector)
    (digest : Unsigned → String) where
  unfoldable pub after : Command → ReviewStore → ReviewStore
  after (queue_call f now) s = (queue sha256 digest f now s).1
  after (start_call id reviewer_id now) s = (start_review digest id reviewer_id now s).1
  after (resolve_call id reviewer_id outcome refs note now) s =
      (resolve digest id reviewer_id outcome refs note now s).1
  after (detect_call inventory canonical_id now) s =
      (detect_and_queue sha256 evidence_digest d digest inventory canonical_id now s).1
  after (resolve_current_call inventory id reviewer_id outcome refs note now) s =
      (resolve_current sha256 evidence_digest d digest inventory id reviewer_id outcome refs note
        now s).1

  unfoldable pub run : List Command → ReviewStore → ReviewStore
  run [] s = s
  run (c ∷ cs) s = run cs (after c s)
