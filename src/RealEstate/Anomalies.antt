-- ===== src/RealEstate/Anomalies.antt =====
-- missions/real_estate/anomalies.py: the detector of diverging prices. `sha256` is the hash, and
-- `evidence_digest` the hash of the canonical JSON of the evidence. A relative gap is kept as a
-- fraction, where the code divides floating-point numbers; thresholds and observed values are millionths.
pub mod Kept
pub mod Divergence
use ai_factory.Base.{
  ℕ, ◌-◌, ◌*◌, String, Bool, true, false, not, ◌&&◌, ◌||◌, Option, none, some, List, [], ◌∷◌, ◌++◌,
  ⊤, map, if◌then◌else◌, ltb, leb, eqb, ◌==◌, is_nil, is_blank, length, joined, text_prefix,
}
use Prim.Native.String.{◌++◌ as concat}
use ai_factory.Base.Sorting.{text_lt, sort_by}
use ai_factory.Base.Result.{Result, ok, err, raise_if, ◌>>=◌, ◌>>◌}
use ai_factory.Base.Dict.{Dict}
use ai_factory.RealEstate.Listing.{one, round_half_even}
use ai_factory.RealEstate.Inventory.{SourceRecord, Inventory}
use ai_factory.RealEstate.Inventory.Calls.{source_members}

pub data FindingSeverity : Type 0 where
  low medium high critical : FindingSeverity

pub record AnomalyFinding : Type 0 where
  pub finding_id : String
  pub anomaly_type : String
  pub severity : FindingSeverity
  pub canonical_id : String
  pub source_version_ids : List String
  pub detector_id : String
  pub evidence_refs : List String
  pub evidence_fingerprint : String
  pub summary : String
  pub observed_value : ℕ
  pub threshold : ℕ

pub data AnomalyError : Type 0 where
  finding_id_required anomaly_type_required canonical_id_required : AnomalyError
  detector_id_required fingerprint_required summary_required : AnomalyError
  source_versions_required evidence_refs_required thresholds_not_increasing : AnomalyError

-- `AnomalyFinding.validate`
unfoldable pub validate : AnomalyFinding → Result AnomalyError ⊤
validate f = do
  raise_if (is_blank f.finding_id) finding_id_required
  raise_if (is_blank f.anomaly_type) anomaly_type_required
  raise_if (is_blank f.canonical_id) canonical_id_required
  raise_if (is_blank f.detector_id) detector_id_required
  raise_if (is_blank f.evidence_fingerprint) fingerprint_required
  raise_if (is_blank f.summary) summary_required
  raise_if (is_nil f.source_version_ids) source_versions_required
  raise_if (is_nil f.evidence_refs) evidence_refs_required

pub record Detector : Type 0 where
  pub medium_threshold : ℕ
  pub high_threshold : ℕ
  pub critical_threshold : ℕ

-- `DuplicatePriceDivergenceDetector.__init__`
unfoldable pub new_detector : ℕ → ℕ → ℕ → Result AnomalyError Detector
new_detector m h c = do
  raise_if (not (ltb 0 m && (ltb m h && ltb h c))) thresholds_not_increasing
  ok (record { medium_threshold = m; high_threshold = h; critical_threshold = c })

abbrev pub detector_name : String
detector_name = "DET-DUPLICATE-PRICE-DIVERGENCE-V1"

-- A source version with its record.
abbrev pub Member : Type 0
Member = String × SourceRecord

abbrev pub same_source : Member → Member → Bool
same_source a b =
    a.1.candidate.publisher_id == b.1.candidate.publisher_id
    && a.1.candidate.source_ref == b.1.candidate.source_ref

abbrev pub verified_text : Member → String
verified_text m = m.1.candidate.last_verified_at.isoformat

-- One round of the loop that fills `latest_by_source`; the times are compared as texts.
unfoldable pub keep_latest : Member → List Member → List Member
keep_latest m [] = m ∷ []
keep_latest m (prior ∷ rest) =
    if same_source m prior
    then (if text_lt (verified_text prior) (verified_text m) then m ∷ rest else prior ∷ rest)
    else prior ∷ keep_latest m rest

unfoldable pub latest_from : List Member → List Member → List Member
latest_from latest [] = latest
latest_from latest (m ∷ ms) = latest_from (keep_latest m latest) ms

abbrev pub price : Member → ℕ
price m = m.1.candidate.price_minor

abbrev pub least_price : ℕ → List Member → ℕ
least_price n [] = n
least_price n (m ∷ ms) = least_price (if ltb (price m) n then price m else n) ms

abbrev pub greatest_price : ℕ → List Member → ℕ
greatest_price n [] = n
greatest_price n (m ∷ ms) = greatest_price (if ltb n (price m) then price m else n) ms

-- A relative gap: `float("inf")`, or a fraction. The code divides to a float, so that its answers can
-- differ from the fraction's at a threshold, for very large prices.
pub data Gap : Type 0 where
  infinite : Gap
  ratio : ℕ → ℕ → Gap

unfoldable pub relative_gap : ℕ → ℕ → Gap
relative_gap minimum maximum = if eqb minimum 0 then infinite else ratio (maximum - minimum) minimum

-- `gap >= threshold`
abbrev pub reaches : Gap → ℕ → Bool
reaches infinite threshold = true
reaches (ratio n d) threshold = leb (threshold * d) (n * one)

unfoldable pub severity_of : Detector → Gap → FindingSeverity
severity_of d gap =
    if reaches gap d.critical_threshold
    then critical
    else if reaches gap d.high_threshold
    then high
    else medium

-- `round(observed, 6)`
unfoldable pub observed : Gap → ℕ
unfolding round_half_even
observed infinite = 999999 * one
observed (ratio n d) = round_half_even (n * one) d

pub record Evidence : Type 0 where
  pub source_version_id : String
  pub publisher_id : String
  pub source_ref : String
  pub price_minor : ℕ
  pub last_verified_at : String

abbrev pub evidence_of : Member → Evidence
evidence_of m = record {
  source_version_id = m.0;
  publisher_id = m.1.candidate.publisher_id;
  source_ref = m.1.candidate.source_ref;
  price_minor = price m;
  last_verified_at = verified_text m;
}

-- `sorted(latest, key=…source_version_id)`
abbrev pub version_after : Member → Member → Bool
version_after a b = text_lt b.0 a.0

-- The record that the loop keeps for each source of a listing; the latest by the texts of the times.
unfoldable pub latest_sources : Inventory → String → List Member
unfolding latest_from keep_latest
latest_sources inventory id = latest_from [] (source_members id inventory)

-- `evidence_payload`
unfoldable pub evidence : List Member → List Evidence
evidence latest = map evidence_of (sort_by version_after latest)

-- The smallest and the largest price of sources that are not empty.
abbrev pub gap_of : List Member → Gap
gap_of [] = infinite
gap_of (m ∷ ms) = relative_gap (least_price (price m) ms) (greatest_price (price m) ms)

module _ (sha256 : String → String) (evidence_digest : List Evidence → String) (d : Detector) where
  -- The finding on the records that were kept for a listing's sources.
  unfoldable pub finding_on : String → List Member → AnomalyFinding
  unfolding severity_of observed evidence
  finding_on id latest =
      let versions = map (λ (m : Member). m.0) (sort_by version_after latest) in
      let fingerprint = evidence_digest (evidence latest) in
      let text = joined "|" (detector_name ∷ id ∷ fingerprint ∷ []) in
      record {
        finding_id = concat "FIND-" (text_prefix 24 (sha256 text));
        anomaly_type = "DUPLICATE_PRICE_DIVERGENCE";
        severity = severity_of d (gap_of latest);
        canonical_id = id;
        source_version_ids = versions;
        detector_id = detector_name;
        evidence_refs = map (λ v. concat "SOURCE:" v) versions;
        evidence_fingerprint = fingerprint;
        summary =
            "Independent current source records disagree materially on price; operator review required.";
        observed_value = observed (gap_of latest);
        threshold = d.medium_threshold;
      }

  -- `detect`, on the records that were kept.
  unfoldable pub detect_on : String → List Member → Result AnomalyError (Option AnomalyFinding)
  detect_on id latest =
      if ltb (length latest) 2 || not (reaches (gap_of latest) d.medium_threshold)
      then ok none
      else (do validate (finding_on id latest); ok (some (finding_on id latest)))

  unfoldable pub detect : Inventory → String → Result AnomalyError (Option AnomalyFinding)
  detect inventory id = detect_on id (latest_sources inventory id)
