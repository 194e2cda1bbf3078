-- ===== src/Base/Dict.antt =====
-- A Python `dict`, or a database table with a primary key, keyed by texts, in insertion order.
use ai_factory.Base.Tests.{if◌then◌else◌, Bool-cases}
use mathlib.Core.Bool.{false}
use mathlib.Core.Logic.{◌⊎◌, inl, inr}
use Prim.Native.String.{String}
use mathlib.Core.Path.{◌≡◌, refl}
use mathlib.Core.Option.{Option, none, some}
use mathlib.Core.List.{List, [], ◌∷◌}
use native.Mathlib.Omega.{arith}
use text.Mathlib.Text.{◌==◌}
use text.Mathlib.TextEquality.{eq_iff}

abbrev pub Dict {ℓ} : Type ℓ → Type ℓ
Dict V = List (String × V)

module _ {ℓ} {V : Type ℓ} where
  -- `d.get(k)`, or a `SELECT … WHERE key = k`.
  unfoldable pub lookup : String → Dict V → Option V
  lookup k [] = none
  lookup k ((j, v) ∷ d) = if j == k then some v else lookup k d

  -- `d[k] = v`.
  unfoldable pub insert : String → V → Dict V → Dict V
  insert k v [] = (k, v) ∷ []
  insert k v ((j, w) ∷ d) = if j == k then (j, v) ∷ d else (j, w) ∷ insert k v d

  -- `d.values()`.
  unfoldable pub values : Dict V → List V
  values [] = []
  values ((k, v) ∷ d) = v ∷ values d

  -- `list(d)`.
  unfoldable pub keys : Dict V → List String
  keys [] = []
  keys ((k, v) ∷ d) = k ∷ keys d

  pub lookup-insert :
      (k j : String) (v : V) (d : Dict V)
      → lookup j (insert k v d) ≡ (if k == j then some v else lookup j d)
  unfolding lookup insert
  lookup-insert k j v [] = refl
  lookup-insert k j v ((i, w) ∷ d) =
      ground (arith, eq_iff k j, eq_iff i k, eq_iff i j, lookup-insert k j v d)

  pub lookup-insert_self : (k : String) (v : V) (d : Dict V) → lookup k (insert k v d) ≡ some v
  lookup-insert_self k v d = ground (arith, lookup-insert k k v d, eq_iff k k)

  -- What a dictionary with a new entry holds.
  pub lookup-insert-eq-some :
      (k j : String) (v : V) (d : Dict V) (w : V)
      → lookup j (insert k v d) ≡ some w
      → ((k ≡ j) × (v ≡ w)) ⊎ (((k == j) ≡ false) × (lookup j d ≡ some w))
  lookup-insert-eq-some k j v d w h = elim (Bool-cases (k == j)) [
    | inl same ↦ inl ((eq_iff k j).0 same, ground (arith, lookup-insert k j v d))
    | inr other ↦ inr (other, ground (arith, lookup-insert k j v d))
  ]

  pub lookup-insert-eq-none :
      (k j : String) (v : V) (d : Dict V)
      → lookup j (insert k v d) ≡ none
      → ((k == j) ≡ false) × (lookup j d ≡ none)
  lookup-insert-eq-none k j v d h = ground (arith, lookup-insert k j v d)
