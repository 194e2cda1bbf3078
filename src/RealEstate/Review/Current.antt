-- ===== src/RealEstate/Review/Current.antt =====
-- The coordinator decides on current evidence only: the queue, the detector and the inventory together
-- (missions/real_estate/review_queue.py, anomalies.py).
use ai_factory.Base.{
  some-injective, String, true, ◌≡◌, ◌≢◌, ap, sym, subst, ◌∙◌, none, some, List, arith, Bool-cases,
  ◌⊎◌, inl, inr, eq_iff, ◌==◌, ℕ_discrete, String-discrete,
}
use ai_factory.Base.Dict.{lookup, insert, lookup-insert}
use ai_factory.Base.Result.{ok, Result-cases}
use ai_factory.RealEstate.Inventory.{Inventory}
use ai_factory.RealEstate.Anomalies.{
  AnomalyFinding, Detector, Evidence, latest_sources, evidence, finding_on, detect,
}
use ai_factory.RealEstate.Anomalies.Divergence.{detect_on-answered}
use ai_factory.RealEstate.Review.{ReviewOutcome, ReviewCase, Unsigned, ReviewStore}
use ai_factory.RealEstate.Review.Calls.{new_case, resolve_current}
use ai_factory.RealEstate.Review.Runs.{Command, run}
use ai_factory.RealEstate.Review.Steps.{
  Step, Steps, done, more, quiet, queued, review_started, review_decided, started, decided,
  get-cases,
}
use ai_factory.RealEstate.Review.Refines.{run-Steps}

-- Two bodies of evidence with one digest.
pub record Collision (evidence_digest : List Evidence → String) : Type 0 where
  pub this : List Evidence
  pub that : List Evidence
  pub differ : this ≢ that
  pub collide : evidence_digest this ≡ evidence_digest that

-- A case holds this finding.
pub record Holds (id : String) (f : AnomalyFinding) (s : ReviewStore) : Type 0 where
  pub row : ReviewCase
  pub found : lookup id s.cases ≡ some row
  pub about : row.finding ≡ f

module _ (digest : Unsigned → String) (id : String) (f : AnomalyFinding) where
  inserted-Holds :
      (j : String) (other : ReviewCase) (s t : ReviewStore)
      → t.cases ≡ insert j other s.cases
      → ((j == id) ≡ true → other.finding ≡ f)
      → Holds id f s
      → Holds id f t
  inserted-Holds j other s t e about h = elim (Bool-cases (j == id)) [
    | inl same ↦ record {
      row = other;
      found = rw e (ground (arith, lookup-insert j id other s.cases));
      about = about same;
    }
    | inr apart ↦ record {
      row = h.row;
      found = rw e (ground (arith, h.found, lookup-insert j id other s.cases));
      about = h.about;
    }
  ]

  same_row :
      (j : String) (other : ReviewCase) (s : ReviewStore)
      → lookup j s.cases ≡ some other
      → Holds id f s
      → (j == id) ≡ true
      → other.finding ≡ f
  same_row j other s found h same =
      let one : some other ≡ some h.row =
        sym found ∙ ap (λ k. lookup k s.cases) ((eq_iff j id).0 same) ∙ h.found in
      ap (λ (r : ReviewCase). r.finding) (some-injective one) ∙ h.about

  Step-Holds : {s t : ReviewStore} → Step digest s t → Holds id f s → Holds id f t
  Step-Holds (quiet e) h = subst (λ t. Holds id f t) (sym e) h
  Step-Holds {s} {t} (queued j g now free new valid e) h =
      inserted-Holds j (new_case j g now) s t (ap (λ t. t.cases) e)
        (λ same.
          absurd (cc (sym free ∙ ap (λ k. lookup k s.cases) ((eq_iff j id).0 same) ∙ h.found)))
        h
  Step-Holds {s} {t} (review_started j other reviewer_id now found status named apart e) h =
      inserted-Holds j (started reviewer_id now other) s t (ap (λ t. t.cases) e)
        (same_row j other s found h) h
  Step-Holds {s} {t}
        (review_decided j other reviewer_id outcome refs note now found status assigned evident
          noted e)
        h =
      inserted-Holds j (decided outcome now other) s t (ap (λ t. t.cases) e)
        (same_row j other s found h) h

  Steps-Holds : {s t : ReviewStore} → Steps digest s t → Holds id f s → Holds id f t
  Steps-Holds done h = h
  Steps-Holds (more r st) h = Step-Holds st (Steps-Holds r h)

module _ (sha256 : String → String) (evidence_digest : List Evidence → String) (d : Detector) where
  -- The fingerprint of a finding is the digest of the evidence.
  detect-fingerprint :
      (inventory : Inventory) (canonical_id : String) {f : AnomalyFinding}
      → detect sha256 evidence_digest d inventory canonical_id ≡ ok (some f)
      → (f.evidence_fingerprint
          ≡ evidence_digest (evidence (latest_sources inventory canonical_id)))
        × (f.canonical_id ≡ canonical_id)
  unfolding detect finding_on
  detect-fingerprint inventory canonical_id {f} h =
      elim (detect_on-answered sha256 evidence_digest d canonical_id
        (latest_sources inventory canonical_id) h) [
          | inl (why, e) ↦ absurd (cc e)
          | inr (enough, wide, valid, e) ↦
              let made : f
                  ≡ finding_on sha256 evidence_digest d canonical_id
                      (latest_sources inventory canonical_id) =
                cc e in
              (
                ap (λ (f : AnomalyFinding). f.evidence_fingerprint) made,
                ap (λ (f : AnomalyFinding). f.canonical_id) made,
              )
        ]

  module _ (digest : Unsigned → String) where
    -- What the coordinator has found, where it returns.
    resolve_current-fresh :
        (inventory : Inventory) (id reviewer_id : String) (outcome : ReviewOutcome)
        (refs : List String) (note now : String) (s t : ReviewStore) {c : ReviewCase}
        → resolve_current sha256 evidence_digest d digest inventory id reviewer_id outcome refs note
            now s
          ≡ (ok c, t)
        → (row : ReviewCase) × (f : AnomalyFinding) × (lookup id s.cases ≡ some row)
          × (detect sha256 evidence_digest d inventory row.finding.canonical_id ≡ ok (some f))
          × (f.evidence_fingerprint ≡ row.finding.evidence_fingerprint)
    unfolding resolve_current
    resolve_current-fresh inventory id reviewer_id outcome refs note now s t {c} h =
        elim (get-cases id s) [
          | inr (x, e) ↦ absurd (ground arith)
          | inl (row, found, e) ↦
              elim (Result-cases
                (detect sha256 evidence_digest d inventory row.finding.canonical_id)) [
                  | inr (x, g) ↦ absurd (ground arith)
                  | inl (none, g) ↦ absurd (ground arith)
                  | inl (some f, g) ↦
                      elim (Bool-cases
                        (f.evidence_fingerprint == row.finding.evidence_fingerprint)) [
                          | inl same ↦ (
                            row,
                            f,
                            found,
                            g,
                            (eq_iff f.evidence_fingerprint row.finding.evidence_fingerprint).0 same,
                          )
                          | inr other ↦ absurd (ground arith)
                        ]
                ]
        ]

Evidence-discrete : Discrete (List Evidence)
Evidence-discrete = hlevel (ℕ_discrete, String-discrete)

-- A case with a finding that the detector made on an inventory: whatever is called in between, where the
-- coordinator resolves the case on a later inventory, the evidence on the listing is the same there as it
-- was, or two bodies of evidence have one digest.
pub resolve_current-evidence :
    (sha256 : String → String) (evidence_digest : List Evidence → String) (d : Detector)
    (digest : Unsigned → String) (before later : Inventory) (canonical_id id reviewer_id : String)
    (outcome : ReviewOutcome) (refs : List String) (note now : String) (cs : List Command)
    (s t : ReviewStore) {f : AnomalyFinding} {c : ReviewCase}
    → detect sha256 evidence_digest d before canonical_id ≡ ok (some f)
    → Holds id f s
    → resolve_current sha256 evidence_digest d digest later id reviewer_id outcome refs note now
        (run sha256 evidence_digest d digest cs s)
      ≡ (ok c, t)
    → (evidence (latest_sources later canonical_id) ≡ evidence (latest_sources before canonical_id))
      ⊎ Collision evidence_digest
resolve_current-evidence sha256 evidence_digest d digest before later canonical_id id reviewer_id
      outcome refs note now cs s t {f} {c} made held h =
    let kept = Steps-Holds digest id f (run-Steps sha256 evidence_digest d digest cs s) held in
    let (row, g, found, made_now, same) =
      resolve_current-fresh sha256 evidence_digest d digest later id reviewer_id outcome refs note
        now (run sha256 evidence_digest d digest cs s) t h in
    let one : row ≡ kept.row = some-injective (sym found ∙ kept.found) in
    let about : row.finding ≡ f = ap (λ (r : ReviewCase). r.finding) one ∙ kept.about in
    let was = detect-fingerprint sha256 evidence_digest d before canonical_id made in
    let is = detect-fingerprint sha256 evidence_digest d later row.finding.canonical_id made_now in
    let listing : row.finding.canonical_id ≡ canonical_id =
      ap (λ (f : AnomalyFinding). f.canonical_id) about ∙ was.1 in
    let digests : evidence_digest (evidence (latest_sources later canonical_id))
        ≡ evidence_digest (evidence (latest_sources before canonical_id)) =
      ap (λ k. evidence_digest (evidence (latest_sources later k))) (sym listing)
      ∙ sym is.0
      ∙ same
      ∙ ap (λ (f : AnomalyFinding). f.evidence_fingerprint) about
      ∙ was.0 in
    elim (Evidence-discrete (evidence (latest_sources later canonical_id))
      (evidence (latest_sources before canonical_id))) [
        | yes equal ↦ inl equal
        | no differ ↦ inr (record {
          this = evidence (latest_sources later canonical_id);
          that = evidence (latest_sources before canonical_id);
          differ = differ;
          collide = digests;
        })
      ]
