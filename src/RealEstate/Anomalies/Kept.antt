-- ===== src/RealEstate/Anomalies/Kept.antt =====
-- Which record of each source the detector keeps (missions/real_estate/anomalies.py).
use ai_factory.Base.{
  String, true, false, ◌≡◌, refl, sym, subst, ◌∙◌, ◌⊎◌, inl, inr, List, [], ◌∷◌, arith, eq_iff,
  Among, Bool-cases, any, ⊤, eq_refl,
}
use ai_factory.Base.Sorting.{text_lt}
use ai_factory.Base.TextOrder.{text_lt_trans, text_lt_irrefl}
use ai_factory.RealEstate.Inventory.{Inventory}
use ai_factory.RealEstate.Anomalies.{
  Member, same_source, verified_text, keep_latest, latest_from, latest_sources,
}
use ai_factory.RealEstate.Inventory.Calls.{source_members}

-- The record that is kept for a source: none of the source has a later time, as a text.
pub record IsKeptFor (kept : List Member) (m : Member) : Type 0 where
  pub k : Member
  pub among : Among k kept
  pub source : same_source m k ≡ true
  pub not_later : text_lt (verified_text k) (verified_text m) ≡ false

-- No two records of one source are kept.
abbrev pub OnePerSource : List Member → Type 0
OnePerSource [] = ⊤
OnePerSource (m ∷ ms) = (any (λ k. same_source k m) ms ≡ false) × OnePerSource ms

same_source_refl : (m : Member) → same_source m m ≡ true
same_source_refl m =
    ground (arith, eq_refl m.1.candidate.publisher_id, eq_refl m.1.candidate.source_ref)

same_source_trans :
    (a b c : Member) → same_source a b ≡ true → same_source b c ≡ true → same_source a c ≡ true
same_source_trans a b c h k = ground (
  arith,
  eq_iff a.1.candidate.publisher_id b.1.candidate.publisher_id,
  eq_iff b.1.candidate.publisher_id c.1.candidate.publisher_id,
  eq_iff a.1.candidate.publisher_id c.1.candidate.publisher_id,
  eq_iff a.1.candidate.source_ref b.1.candidate.source_ref,
  eq_iff b.1.candidate.source_ref c.1.candidate.source_ref,
  eq_iff a.1.candidate.source_ref c.1.candidate.source_ref,
)

same_source_sym : (a b : Member) → same_source a b ≡ true → same_source b a ≡ true
same_source_sym a b h = ground (
  arith,
  eq_iff a.1.candidate.publisher_id b.1.candidate.publisher_id,
  eq_iff b.1.candidate.publisher_id a.1.candidate.publisher_id,
  eq_iff a.1.candidate.source_ref b.1.candidate.source_ref,
  eq_iff b.1.candidate.source_ref a.1.candidate.source_ref,
)

-- A round keeps a record for whom one was kept, and for the new record.
keep_latest-IsKeptFor :
    (x : Member) (kept : List Member) (m : Member)
    → IsKeptFor kept m
    → IsKeptFor (keep_latest x kept) m
unfolding keep_latest
keep_latest-IsKeptFor x [] m h = absurd h.among
keep_latest-IsKeptFor x (prior ∷ rest) m h = elim (Bool-cases (same_source x prior)) [
  | inl same ↦ elim (Bool-cases (text_lt (verified_text prior) (verified_text x))) [
    | inr stays ↦ rw (same, stays) h
    | inl later ↦
        rw (same, later)
          (elim h.among [
            | inr old ↦ record {
              k = h.k;
              among = inr old;
              source = h.source;
              not_later = h.not_later;
            }
            | inl here ↦
                let its : same_source m prior ≡ true =
                  subst (λ z. same_source m z ≡ true) here h.source in
                let before : text_lt (verified_text prior) (verified_text m) ≡ false =
                  subst (λ z. text_lt (verified_text z) (verified_text m) ≡ false) here
                    h.not_later in
                record {
                  k = x;
                  among = inl refl;
                  source = same_source_trans m prior x its (same_source_sym x prior same);
                  not_later = elim (Bool-cases (text_lt (verified_text x) (verified_text m))) [
                    | inr stays ↦ stays
                    | inl yet ↦
                        let over =
                          text_lt_trans (verified_text prior) (verified_text x) (verified_text m)
                            later yet in
                        absurd (cc (sym over ∙ before))
                  ];
                }
          ])
  ]
  | inr other ↦ rw other (elim h.among [
    | inl here ↦ record { k = h.k; among = inl here; source = h.source; not_later = h.not_later }
    | inr old ↦
        let r =
          keep_latest-IsKeptFor x rest m
            (record { k = h.k; among = old; source = h.source; not_later = h.not_later }) in
        record { k = r.k; among = inr r.among; source = r.source; not_later = r.not_later }
  ])
]

keep_latest_own : (x : Member) (kept : List Member) → IsKeptFor (keep_latest x kept) x
unfolding keep_latest
keep_latest_own x [] = record {
  k = x;
  among = inl refl;
  source = same_source_refl x;
  not_later = text_lt_irrefl (verified_text x);
}
keep_latest_own x (prior ∷ rest) = elim (Bool-cases (same_source x prior)) [
  | inl same ↦ elim (Bool-cases (text_lt (verified_text prior) (verified_text x))) [
    | inl later ↦
        rw (same, later)
          (record {
            k = x;
            among = inl refl;
            source = same_source_refl x;
            not_later = text_lt_irrefl (verified_text x);
          })
    | inr stays ↦
        rw (same, stays) (record { k = prior; among = inl refl; source = same; not_later = stays })
  ]
  | inr other ↦
      let r = keep_latest_own x rest in
      rw other (record { k = r.k; among = inr r.among; source = r.source; not_later = r.not_later })
]

latest_from-IsKeptFor :
    (kept ms : List Member) (m : Member)
    → Among m ms ⊎ IsKeptFor kept m
    → IsKeptFor (latest_from kept ms) m
unfolding latest_from
latest_from-IsKeptFor kept [] m (inl h) = absurd h
latest_from-IsKeptFor kept [] m (inr h) = h
latest_from-IsKeptFor kept (x ∷ ms) m (inl (inl e)) =
    latest_from-IsKeptFor (keep_latest x kept) ms m
      (inr (subst (λ z. IsKeptFor (keep_latest x kept) z) (sym e) (keep_latest_own x kept)))
latest_from-IsKeptFor kept (x ∷ ms) m (inl (inr h)) =
    latest_from-IsKeptFor (keep_latest x kept) ms m (inl h)
latest_from-IsKeptFor kept (x ∷ ms) m (inr h) =
    latest_from-IsKeptFor (keep_latest x kept) ms m (inr (keep_latest-IsKeptFor x kept m h))

-- What is kept is a record that was seen.
keep_latest-Among :
    (x : Member) (kept : List Member) (k : Member)
    → Among k (keep_latest x kept)
    → (k ≡ x) ⊎ Among k kept
unfolding keep_latest
keep_latest-Among x [] k (inl e) = inl e
keep_latest-Among x [] k (inr h) = absurd h
keep_latest-Among x (prior ∷ rest) k h = elim (Bool-cases (same_source x prior)) [
  | inl same ↦ elim (Bool-cases (text_lt (verified_text prior) (verified_text x))) [
    | inl later ↦ elim (rw (same, later) at h) [ inl e ↦ inl e | inr old ↦ inr (inr old) ]
    | inr stays ↦ inr (rw (same, stays) at h)
  ]
  | inr other ↦ elim (rw other at h) [
    | inl e ↦ inr (inl e)
    | inr old ↦ elim (keep_latest-Among x rest k old) [ inl e ↦ inl e | inr g ↦ inr (inr g) ]
  ]
]

latest_from-Among :
    (kept ms : List Member) (k : Member) → Among k (latest_from kept ms) → Among k kept ⊎ Among k ms
unfolding latest_from
latest_from-Among kept [] k h = inl h
latest_from-Among kept (x ∷ ms) k h = elim (latest_from-Among (keep_latest x kept) ms k h) [
  | inr later ↦ inr (inr later)
  | inl now ↦ elim (keep_latest-Among x kept k now) [ inl e ↦ inr (inl e) | inr old ↦ inl old ]
]

-- No second record of a source comes in.
keep_latest_apart :
    (x p : Member) (kept : List Member)
    → same_source x p ≡ false
    → any (λ k. same_source k p) kept ≡ false
    → any (λ k. same_source k p) (keep_latest x kept) ≡ false
unfolding keep_latest
keep_latest_apart x p [] e h = rw e refl
keep_latest_apart x p (prior ∷ rest) e h = elim (Bool-cases (same_source x prior)) [
  | inl same ↦ elim (Bool-cases (text_lt (verified_text prior) (verified_text x))) [
    | inl later ↦ ground arith
    | inr stays ↦ ground arith
  ]
  | inr other ↦ ground (arith, keep_latest_apart x p rest)
]

none_of_source :
    (x p : Member) (ms : List Member)
    → same_source x p ≡ true
    → any (λ k. same_source k p) ms ≡ false
    → any (λ k. same_source k x) ms ≡ false
none_of_source x p [] e h = refl
none_of_source x p (m ∷ ms) e h = ground (arith, none_of_source x p ms, same_source_trans m x p)

keep_latest-OnePerSource :
    (x : Member) (kept : List Member) → OnePerSource kept → OnePerSource (keep_latest x kept)
unfolding keep_latest
keep_latest-OnePerSource x [] h = (refl, tt)
keep_latest-OnePerSource x (prior ∷ rest) h = elim (Bool-cases (same_source x prior)) [
  | inl same ↦ elim (Bool-cases (text_lt (verified_text prior) (verified_text x))) [
    | inl later ↦ rw (same, later) (none_of_source x prior rest same h.0, h.1)
    | inr stays ↦ rw (same, stays) h
  ]
  | inr other ↦
      rw other (keep_latest_apart x prior rest other h.0, keep_latest-OnePerSource x rest h.1)
]

latest_from-OnePerSource :
    (kept ms : List Member) → OnePerSource kept → OnePerSource (latest_from kept ms)
unfolding latest_from
latest_from-OnePerSource kept [] h = h
latest_from-OnePerSource kept (m ∷ ms) h =
    latest_from-OnePerSource (keep_latest m kept) ms (keep_latest-OnePerSource m kept h)

-- One record is kept for each source of a listing: a record of the listing, than which no record of the
-- source has a later time, as a text.
pub record IsSelection (members kept : List Member) : Type 0 where
  pub from_listing : (k : Member) → Among k kept → Among k members
  pub one_per_source : OnePerSource kept
  pub every_source : (m : Member) → Among m members → IsKeptFor kept m

pub latest_sources-IsSelection :
    (inventory : Inventory) (id : String)
    → IsSelection (source_members id inventory) (latest_sources inventory id)
unfolding latest_sources
latest_sources-IsSelection inventory id = record {
  from_listing = λ k h. elim (latest_from-Among [] (source_members id inventory) k h) [
    | inl none_yet ↦ absurd none_yet
    | inr member ↦ member
  ];
  one_per_source = latest_from-OnePerSource [] (source_members id inventory) tt;
  every_source = λ m h. latest_from-IsKeptFor [] (source_members id inventory) m (inl h);
}
