-- ===== src/RealEstate/Anomalies/Divergence.antt =====
-- What a finding says of the prices of a listing's sources, and what no finding says
-- (missions/real_estate/anomalies.py).
use native.Mathlib.Nat.{mul-le-mul_left, mul-zero}
use ai_factory.Base.{
  ℕ, zero, suc, ◌+◌, ◌*◌, ◌≤◌, ◌<◌, String, Bool, true, false, ◌≡◌, refl, ap, Option, none, some,
  List, [], ◌∷◌, ⊤, arith, Bool-cases, ◌⊎◌, inl, inr, Among, length, ltb, not, ◌||◌, ltb→lt,
  if◌then◌else◌,
}
use ai_factory.Base.Result
use ai_factory.Base.Result.{Result, ok, err, Result-cases}
use ai_factory.RealEstate.Listing.{one}
use ai_factory.RealEstate.Inventory.{Inventory}
use ai_factory.RealEstate.Inventory.Calls.{source_members}
use ai_factory.RealEstate.Anomalies.Kept.{IsSelection, latest_sources-IsSelection}
use ai_factory.RealEstate.Anomalies.{
  FindingSeverity, low, medium, high, critical, AnomalyFinding, Detector, Member, price,
  least_price, greatest_price, gap_of, reaches, relative_gap, severity_of, latest_sources,
  finding_on, detect_on, detect, Evidence, validate, AnomalyError,
}

-- `a` asks for more than `b` does by the threshold at least, a number of millionths of `b`'s price.
abbrev pub Diverge : ℕ → Member → Member → Type 0
Diverge t a b = t * price b + price b * one ≤ price a * one

-- Some two of the sources diverge.
abbrev pub SomeDiverge : ℕ → List Member → Type 0
SomeDiverge t ms = (a : Member) × (b : Member) × Among a ms × Among b ms × Diverge t a b

abbrev pub NoneDiverge : ℕ → List Member → Type 0
NoneDiverge t ms = (a b : Member) → Among a ms → Among b ms → ¬ Diverge t a b

-- The least price is a price, and no price is below it.
least_price-le : (n : ℕ) (ms : List Member) → least_price n ms ≤ n
least_price-le n [] = omega arith
least_price-le n (m ∷ ms) = ground (arith, least_price-le (price m) ms, least_price-le n ms)

least_price-le_all :
    (n : ℕ) (ms : List Member) (m : Member) → Among m ms → least_price n ms ≤ price m
least_price-le_all n [] m h = absurd h
least_price-le_all n (x ∷ ms) m (inl e) =
    let same : price m ≡ price x = ap price e in
    ground (arith, same, least_price-le (price x) ms, least_price-le n ms)
least_price-le_all n (x ∷ ms) m (inr h) =
    ground (arith, least_price-le_all (price x) ms m h, least_price-le_all n ms m h)

greatest_price-ge : (n : ℕ) (ms : List Member) → n ≤ greatest_price n ms
greatest_price-ge n [] = omega arith
greatest_price-ge n (m ∷ ms) =
    ground (arith, greatest_price-ge (price m) ms, greatest_price-ge n ms)

greatest_price-ge_all :
    (n : ℕ) (ms : List Member) (m : Member) → Among m ms → price m ≤ greatest_price n ms
greatest_price-ge_all n [] m h = absurd h
greatest_price-ge_all n (x ∷ ms) m (inl e) =
    let same : price m ≡ price x = ap price e in
    ground (arith, same, greatest_price-ge (price x) ms, greatest_price-ge n ms)
greatest_price-ge_all n (x ∷ ms) m (inr h) =
    ground (arith, greatest_price-ge_all (price x) ms m h, greatest_price-ge_all n ms m h)

-- The least and the greatest price are prices of sources.
second-Among :
    (m y : Member) (ms : List Member) {a : Member} → Among a (m ∷ ms) → Among a (m ∷ y ∷ ms)
second-Among m y ms (inl e) = inl e
second-Among m y ms (inr h) = inr (inr h)

least_price-Among :
    (m : Member) (ms : List Member)
    → (a : Member) × Among a (m ∷ ms) × (price a ≡ least_price (price m) ms)
least_price-Among m [] = (m, inl refl, refl)
least_price-Among m (y ∷ ms) = elim (Bool-cases (ltb (price y) (price m))) [
  | inl e ↦ let (a, h, same) = least_price-Among y ms in (a, inr h, rw e same)
  | inr e ↦ let (a, h, same) = least_price-Among m ms in (a, second-Among m y ms h, rw e same)
]

greatest_price-Among :
    (m : Member) (ms : List Member)
    → (a : Member) × Among a (m ∷ ms) × (price a ≡ greatest_price (price m) ms)
greatest_price-Among m [] = (m, inl refl, refl)
greatest_price-Among m (y ∷ ms) = elim (Bool-cases (ltb (price m) (price y))) [
  | inl e ↦ let (a, h, same) = greatest_price-Among y ms in (a, inr h, rw e same)
  | inr e ↦ let (a, h, same) = greatest_price-Among m ms in (a, second-Among m y ms h, rw e same)
]

-- The test on the two ends, in the form that needs no division.
reaches-true :
    (t low_end high_end : ℕ)
    → reaches (relative_gap low_end high_end) t ≡ true
    → low_end ≤ high_end
    → t * low_end + low_end * one ≤ high_end * one
unfolding relative_gap
reaches-true t zero high_end h le = omega (arith, mul-zero t)
reaches-true t (suc n) high_end h le = ground arith

reaches-false :
    (t low_end high_end : ℕ)
    → reaches (relative_gap low_end high_end) t ≡ false
    → low_end ≤ high_end
    → high_end * one < t * low_end + low_end * one
unfolding relative_gap
reaches-false t zero high_end h le = absurd (ground arith)
reaches-false t (suc n) high_end h le = ground arith

reaches-SomeDiverge :
    (t : ℕ) (m : Member) (ms : List Member)
    → reaches (gap_of (m ∷ ms)) t ≡ true
    → SomeDiverge t (m ∷ ms)
reaches-SomeDiverge t m ms h =
    let (b, among_b, least) = least_price-Among m ms in
    let (a, among_a, greatest) = greatest_price-Among m ms in
    let wide =
      reaches-true t (least_price (price m) ms) (greatest_price (price m) ms) h
        (omega (arith, least_price-le (price m) ms, greatest_price-ge (price m) ms)) in
    (a, b, among_a, among_b, rw (least, greatest) wide)

ends-le :
    (m : Member) (ms : List Member) (a : Member)
    → Among a (m ∷ ms)
    → (least_price (price m) ms ≤ price a) × (price a ≤ greatest_price (price m) ms)
ends-le m ms a (inl e) =
    let same : price a ≡ price m = ap price e in
    (
      omega (arith, same, least_price-le (price m) ms),
      omega (arith, same, greatest_price-ge (price m) ms),
    )
ends-le m ms a (inr h) =
    (least_price-le_all (price m) ms a h, greatest_price-ge_all (price m) ms a h)

reaches-NoneDiverge :
    (t : ℕ) (m : Member) (ms : List Member)
    → reaches (gap_of (m ∷ ms)) t ≡ false
    → NoneDiverge t (m ∷ ms)
reaches-NoneDiverge t m ms h a b among_a among_b wide =
    let narrow =
      reaches-false t (least_price (price m) ms) (greatest_price (price m) ms) h
        (omega (arith, least_price-le (price m) ms, greatest_price-ge (price m) ms)) in
    omega (
      arith,
      narrow,
      wide,
      ends-le m ms a among_a,
      ends-le m ms b among_b,
      mul-le-mul_left t (ends-le m ms b among_b).0,
    )

-- The grade of a finding, by the pairs that diverge.
abbrev pub IsGraded : Detector → List Member → FindingSeverity → Type 0
IsGraded d ms critical = SomeDiverge d.critical_threshold ms
IsGraded d ms high = SomeDiverge d.high_threshold ms × NoneDiverge d.critical_threshold ms
IsGraded d ms medium = SomeDiverge d.medium_threshold ms × NoneDiverge d.high_threshold ms
IsGraded d ms low = ⊥

severity_of-IsGraded :
    (d : Detector) (m : Member) (ms : List Member)
    → reaches (gap_of (m ∷ ms)) d.medium_threshold ≡ true
    → IsGraded d (m ∷ ms) (severity_of d (gap_of (m ∷ ms)))
unfolding severity_of
severity_of-IsGraded d m ms h = elim (Bool-cases (reaches (gap_of (m ∷ ms)) d.critical_threshold)) [
  | inl e ↦ rw e (reaches-SomeDiverge d.critical_threshold m ms e)
  | inr e ↦ elim (Bool-cases (reaches (gap_of (m ∷ ms)) d.high_threshold)) [
    | inl f ↦
        rw (e, f)
          (
            reaches-SomeDiverge d.high_threshold m ms f,
            reaches-NoneDiverge d.critical_threshold m ms e,
          )
    | inr f ↦
        rw (e, f)
          (
            reaches-SomeDiverge d.medium_threshold m ms h,
            reaches-NoneDiverge d.high_threshold m ms f,
          )
  ]
]

-- What an answer of the detector says of the records that it keeps: no finding, that no two of two or more
-- diverge; a finding, that it is graded by the pairs that do, and is about this listing.
abbrev pub Reports : Detector → String → List Member → Option AnomalyFinding → Type 0
Reports d id ms none = 2 ≤ length ms → NoneDiverge d.medium_threshold ms
Reports d id ms (some f) = IsGraded d ms f.severity × (f.canonical_id ≡ id)

-- The branches of the detector.
answered :
    (few wide : Bool) (r : Result AnomalyError ⊤) (f : AnomalyFinding) {o : Option AnomalyFinding}
    → (if few || not wide then ok none else Result.◌>>◌ r (ok (some f))) ≡ ok o
    → (((few ≡ true) ⊎ (wide ≡ false)) × (o ≡ none))
      ⊎ ((few ≡ false) × (wide ≡ true) × (r ≡ ok tt) × (o ≡ some f))
answered true wide r f h = inl (inl refl, cc)
answered false false r f h = inl (inr refl, cc)
answered false true (ok u) f h = inr (refl, refl, refl, cc)
answered false true (err e) f h = absurd (cc h)

module _ (sha256 : String → String) (evidence_digest : List Evidence → String) (d : Detector)
    (id : String) where
  pub detect_on-answered :
      (ms : List Member) {o : Option AnomalyFinding}
      → detect_on sha256 evidence_digest d id ms ≡ ok o
      → (((ltb (length ms) 2 ≡ true) ⊎ (reaches (gap_of ms) d.medium_threshold ≡ false))
          × (o ≡ none))
        ⊎ ((ltb (length ms) 2 ≡ false)
            × (reaches (gap_of ms) d.medium_threshold ≡ true)
            × (validate (finding_on sha256 evidence_digest d id ms) ≡ ok tt)
            × (o ≡ some (finding_on sha256 evidence_digest d id ms)))
  unfolding detect_on
  detect_on-answered ms =
      answered (ltb (length ms) 2) (reaches (gap_of ms) d.medium_threshold)
        (validate (finding_on sha256 evidence_digest d id ms))
        (finding_on sha256 evidence_digest d id ms)

  detect_on-Reports :
      (ms : List Member) {o : Option AnomalyFinding}
      → detect_on sha256 evidence_digest d id ms ≡ ok o
      → Reports d id ms o
  unfolding finding_on
  detect_on-Reports [] h = elim (detect_on-answered [] h) [
    | inl (why, e) ↦ rw e (λ two. absurd (omega arith))
    | inr (enough, wide, valid, e) ↦ absurd (ground arith)
  ]
  detect_on-Reports (m ∷ ms) h = elim (detect_on-answered (m ∷ ms) h) [
    | inl (inl few, e) ↦ rw e (λ two. absurd (omega (arith, ltb→lt (length (m ∷ ms)) 2 few)))
    | inl (inr narrow, e) ↦ rw e (λ two. reaches-NoneDiverge d.medium_threshold m ms narrow)
    | inr (enough, wide, valid, e) ↦ rw e (severity_of-IsGraded d m ms wide, refl)
  ]

-- The detector looks at one record of each source of the listing, than which no record of the source has
-- a later time of verification, where times are compared as texts. Of these records its answer says: if
-- it is a finding, the finding is about the listing asked for, and its severity is CRITICAL where some two
-- of the records diverge by the critical threshold, HIGH where some two diverge by the high one and none
-- by the critical, and MEDIUM where some two diverge by the medium one and none by the high; if it is no
-- finding, no two of two or more records diverge by the medium one. One price diverges from another by a
-- threshold when it exceeds it by that share of it at least.
pub detect-Reports :
    (sha256 : String → String) (evidence_digest : List Evidence → String) (d : Detector)
    (inventory : Inventory) (id : String) {o : Option AnomalyFinding}
    → detect sha256 evidence_digest d inventory id ≡ ok o
    → IsSelection (source_members id inventory) (latest_sources inventory id)
      × Reports d id (latest_sources inventory id) o
unfolding detect
detect-Reports sha256 evidence_digest d inventory id h = (
  latest_sources-IsSelection inventory id,
  detect_on-Reports sha256 evidence_digest d id (latest_sources inventory id) h,
)
