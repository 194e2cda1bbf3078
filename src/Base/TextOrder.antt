-- ===== src/Base/TextOrder.antt =====
-- The order of Python's texts, by code points, is transitive.
use Prim.Native.Nat.compare as compare_ℕ
use Prim.Native.Nat.{ℕ, zero, suc, Ordering, compare as compare_ℕ}
use Prim.Native.Char.{code}
use Prim.Native.String.compare
use Prim.Native.String.{String, [], ◌∷◌, then, compare}
use mathlib.Core.Path.{◌≡◌, refl, sym, ◌∙◌, subst, ap}
use mathlib.Core.Bool.{true, false}
use mathlib.Core.Logic.{◌⊎◌, inl, inr}
use text.Mathlib.TextEquality.{codes_equal}
use text.Mathlib.TextPositions.{compare_refl}
use ai_factory.Base.Sorting.{text_lt}

compare_ℕ_trans :
    (a b c : ℕ)
    → compare_ℕ a b ≡ Ordering.lt
    → compare_ℕ b c ≡ Ordering.lt
    → compare_ℕ a c ≡ Ordering.lt
compare_ℕ_trans zero zero c h k = absurd (cc (sym compare_ℕ.zero-zero ∙ h))
compare_ℕ_trans zero (suc b) zero h k = absurd (cc (sym (compare_ℕ.suc-zero b) ∙ k))
compare_ℕ_trans zero (suc b) (suc c) h k = compare_ℕ.zero-suc c
compare_ℕ_trans (suc a) zero c h k = absurd (cc (sym (compare_ℕ.suc-zero a) ∙ h))
compare_ℕ_trans (suc a) (suc b) zero h k = absurd (cc (sym (compare_ℕ.suc-zero b) ∙ k))
compare_ℕ_trans (suc a) (suc b) (suc c) h k =
    compare_ℕ.suc-suc a c
    ∙ compare_ℕ_trans a b c (sym (compare_ℕ.suc-suc a b) ∙ h) (sym (compare_ℕ.suc-suc b c) ∙ k)

-- The first of two comparisons decides, or the second does where the first finds equality.
then_lt :
    (o r : Ordering)
    → then o r ≡ Ordering.lt
    → (o ≡ Ordering.lt) ⊎ ((o ≡ Ordering.eq) × (r ≡ Ordering.lt))
then_lt Ordering.lt r h = inl refl
then_lt Ordering.eq r h = inr (refl, h)
then_lt Ordering.gt r h = absurd (cc h)

compare_trans :
    (s t u : String)
    → compare s t ≡ Ordering.lt
    → compare t u ≡ Ordering.lt
    → compare s u ≡ Ordering.lt
compare_trans [] [] u h k = absurd (cc (sym compare.nil-nil ∙ h))
compare_trans [] (d ∷ t) [] h k = absurd (cc (sym (compare.cons-nil d t) ∙ k))
compare_trans [] (d ∷ t) (e ∷ u) h k = compare.nil-cons e u
compare_trans (c ∷ s) [] u h k = absurd (cc (sym (compare.cons-nil c s) ∙ h))
compare_trans (c ∷ s) (d ∷ t) [] h k = absurd (cc (sym (compare.cons-nil d t) ∙ k))
compare_trans (c ∷ s) (d ∷ t) (e ∷ u) h k =
    compare.cons-cons c e s u
    ∙ elim (then_lt (compare_ℕ (code c) (code d)) (compare s t)
        (sym (compare.cons-cons c d s t) ∙ h)) [
          | inl first ↦
              elim (then_lt (compare_ℕ (code d) (code e)) (compare t u)
                (sym (compare.cons-cons d e t u) ∙ k)) [
                  | inl second ↦
                      ap (λ o. then o (compare s u))
                        (compare_ℕ_trans (code c) (code d) (code e) first second)
                  | inr (same, _) ↦
                      ap (λ o. then o (compare s u))
                        (subst (λ x. compare_ℕ (code c) (code x) ≡ Ordering.lt)
                          (codes_equal d e same) first)
                ]
          | inr (same, less) ↦
              elim (then_lt (compare_ℕ (code d) (code e)) (compare t u)
                (sym (compare.cons-cons d e t u) ∙ k)) [
                  | inl second ↦
                      ap (λ o. then o (compare s u))
                        (subst (λ x. compare_ℕ (code x) (code e) ≡ Ordering.lt)
                          (sym (codes_equal c d same)) second)
                  | inr (equal, last) ↦
                      ap (λ o. then o (compare s u))
                        (subst (λ x. compare_ℕ (code c) (code x) ≡ Ordering.eq)
                          (codes_equal d e equal) same)
                      ∙ compare_trans s t u less last
                ]
        ]

text_lt-compare : (s t : String) → text_lt s t ≡ true → compare s t ≡ Ordering.lt
text_lt-compare s t h = by_answer (compare s t) h
  where
    by_answer :
        (o : Ordering) → (elim o [ Ordering.lt ↦ true | _ ↦ false ]) ≡ true → o ≡ Ordering.lt
    by_answer Ordering.lt h = refl
    by_answer Ordering.eq h = absurd (cc h)
    by_answer Ordering.gt h = absurd (cc h)

pub text_lt_trans : (s t u : String) → text_lt s t ≡ true → text_lt t u ≡ true → text_lt s u ≡ true
text_lt_trans s t u h k =
    subst (λ o. (elim o [ Ordering.lt ↦ true | _ ↦ false ]) ≡ true)
      (sym (compare_trans s t u (text_lt-compare s t h) (text_lt-compare t u k))) refl

pub text_lt_irrefl : (s : String) → text_lt s s ≡ false
text_lt_irrefl s =
    subst (λ o. (elim o [ Ordering.lt ↦ true | _ ↦ false ]) ≡ false) (sym (compare_refl s)) refl
