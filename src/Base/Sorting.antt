-- ===== src/Base/Sorting.antt =====
-- Python's `sorted` and `set` on texts: insertion sort by code points, without repetition.
use Prim.Native.String.{String, compare}
use Prim.Native.Nat.{Ordering}
use mathlib.Core.Path.{◌≡◌, refl}
use mathlib.Core.Bool.{Bool, true, false, ◌||◌}
use mathlib.Core.List.{List, [], ◌∷◌}
use native.Mathlib.Omega.{arith}
use text.Mathlib.Text.{◌==◌}
use ai_factory.Base.Tests.{if◌then◌else◌}
use ai_factory.Base.Lists.{contains}

-- `s <= t`.
abbrev pub text_le : String → String → Bool
text_le s t = elim (compare s t) [ Ordering.gt ↦ false | _ ↦ true ]

-- `s < t`.
abbrev pub text_lt : String → String → Bool
text_lt s t = elim (compare s t) [ Ordering.lt ↦ true | _ ↦ false ]

-- Insertion sort that keeps the order of equals, `ORDER BY`: `after x y` says that `x` has to stand
-- behind `y`.
module _ {ℓ} {A : Type ℓ} (after : A → A → Bool) where
  unfoldable pub insert_by : A → List A → List A
  insert_by x [] = x ∷ []
  insert_by x (y ∷ ys) = let rest = insert_by x ys in if after x y then y ∷ rest else x ∷ y ∷ ys

  unfoldable pub sort_by : List A → List A
  unfolding insert_by
  sort_by [] = []
  sort_by (x ∷ xs) = insert_by x (sort_by xs)

unfoldable pub insert_sorted : String → List String → List String
insert_sorted x [] = x ∷ []
insert_sorted x (y ∷ ys) = if text_le x y then x ∷ y ∷ ys else y ∷ insert_sorted x ys

unfoldable pub sorted : List String → List String
unfolding insert_sorted
sorted [] = []
sorted (x ∷ xs) = insert_sorted x (sorted xs)

-- `set(xs)`, as a list without repetition.
unfoldable pub distinct : List String → List String
distinct [] = []
distinct (x ∷ xs) = let rest = distinct xs in if contains x xs then rest else x ∷ rest

contains-insert_sorted :
    (a x : String) (xs : List String) → contains a (insert_sorted x xs) ≡ (a == x || contains a xs)
unfolding insert_sorted
contains-insert_sorted a x [] = refl
contains-insert_sorted a x (y ∷ ys) = ground (arith, contains-insert_sorted a x ys)

-- Sorting keeps the elements.
pub contains-sorted : (a : String) (xs : List String) → contains a (sorted xs) ≡ contains a xs
unfolding sorted
contains-sorted a [] = refl
contains-sorted a (x ∷ xs) =
    ground (arith, contains-insert_sorted a x (sorted xs), contains-sorted a xs)

insert_sorted-ne-nil : (x : String) (xs : List String) → insert_sorted x xs ≡ [] → ⊥
unfolding insert_sorted
insert_sorted-ne-nil x [] h = cc h
insert_sorted-ne-nil x (y ∷ ys) h = ground arith

-- What sorts to nothing is nothing.
pub sorted-nil : (xs : List String) → sorted xs ≡ [] → xs ≡ []
unfolding sorted
sorted-nil [] h = refl
sorted-nil (x ∷ xs) h = absurd (insert_sorted-ne-nil x (sorted xs) h)
