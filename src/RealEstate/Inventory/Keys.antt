-- ===== src/RealEstate/Inventory/Keys.antt =====
-- The listings stand under their identifiers, each once (missions/real_estate/inventory.py).
use ai_factory.Base.{String, ◌≡◌, refl, none, some, [], ◌∷◌, ⊤, arith, eq_iff}
use ai_factory.Base.Dict.{Dict, lookup, insert, values, lookup-insert}
use ai_factory.RealEstate.Inventory.{CanonicalListing, with_fingerprint}

-- Every row stands under its own identifier, and no identifier stands twice.
abbrev pub IsKeyed : Dict CanonicalListing → Type 0
IsKeyed [] = ⊤
IsKeyed ((id, row) ∷ rows) = (row.canonical_id ≡ id) × (lookup id rows ≡ none) × IsKeyed rows

pub insert-IsKeyed :
    (id : String) (row : CanonicalListing) (rows : Dict CanonicalListing)
    → row.canonical_id ≡ id
    → IsKeyed rows
    → IsKeyed (insert id row rows)
unfolding insert lookup
insert-IsKeyed id row [] e h = (e, refl, tt)
insert-IsKeyed id row ((j, other) ∷ rows) e h =
    ground (
      arith,
      eq_iff j id,
      eq_iff id j,
      lookup-insert id j row rows,
      insert-IsKeyed id row rows e h.2,
    )

pub lookup-IsKeyed :
    (id : String) (rows : Dict CanonicalListing) {row : CanonicalListing}
    → IsKeyed rows
    → lookup id rows ≡ some row
    → row.canonical_id ≡ id
unfolding lookup
lookup-IsKeyed id [] h e = cc
lookup-IsKeyed id ((j, other) ∷ rows) {row} h e =
    ground (arith, eq_iff j id, lookup-IsKeyed id rows {row = row} h.2)

-- The row that a search by fingerprint finds is the row of its identifier.
pub lookup-with_fingerprint :
    (fingerprint : String) (rows : Dict CanonicalListing) {row : CanonicalListing}
    → IsKeyed rows
    → with_fingerprint fingerprint (values rows) ≡ some row
    → lookup row.canonical_id rows ≡ some row
unfolding lookup with_fingerprint values
lookup-with_fingerprint fingerprint [] h e = cc
lookup-with_fingerprint fingerprint ((j, other) ∷ rows) {row} h e = ground (
  arith,
  eq_iff j row.canonical_id,
  eq_iff j j,
  lookup-with_fingerprint fingerprint rows {row = row} h.2,
)
