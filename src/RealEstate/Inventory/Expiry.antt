-- ===== src/RealEstate/Inventory/Expiry.antt =====
-- The loop of the sweep of stale listings (missions/real_estate/inventory.py, `expire_stale`).
use ai_factory.Base.{
  ℕ, String, Bool, true, false, ◌≡◌, ap, sym, subst, ◌∙◌, Option, some, List, [], ◌∷◌, arith,
  Bool-cases, inl, inr, Among, eq_iff, ◌==◌, select, if◌then◌else◌, contains,
}
use ai_factory.Base.Dict.{Dict, lookup, values}
use ai_factory.Base.Result.{Result, ok}
use ai_factory.Base.Action.{>>=-eq-ok, pure, ◌>>=◌}
use ai_factory.RealEstate.Listing.{Timestamp}
use ai_factory.RealEstate.Inventory.{CanonicalListing, Inventory}
use ai_factory.RealEstate.Inventory.Calls.{is_live, expire_if_stale, expire_each, expire_stale}
use ai_factory.RealEstate.Inventory.Keys.{IsKeyed}
use ai_factory.RealEstate.Inventory.Sweep.{
  IsFresh, IsPending, IsSwept, expire_if_stale-cases, expire_if_stale-IsKeyed, fresh-IsPending,
  expired-IsPending,
}

live-Among :
    (id : String) (rows : Dict CanonicalListing) {row : CanonicalListing}
    → lookup id rows ≡ some row
    → is_live row ≡ true
    → Among row (select is_live (values rows))
unfolding lookup values
live-Among id [] e live = cc
live-Among id ((j, other) ∷ rows) {row} e live = elim (Bool-cases (j == id)) [
  | inl here ↦
      let same : row ≡ other = sym (ground arith) in
      rw (subst (λ r. is_live r ≡ true) same live) (inl same)
  | inr there ↦
      later (is_live other) (select is_live (values rows))
        (live-Among id rows {row = row} (ground arith) live)
]
  where
    later :
        (b : Bool) (others : List CanonicalListing)
        → Among row others
        → Among row (if b then other ∷ others else others)
    later true others h = inr h
    later false others h = h

ok-injective : {E A : Type 0} {a b : A} → ◌≡◌ {A = Result E A} (ok a) (ok b) → a ≡ b
ok-injective e = cc

-- A listing that the answer does not name is as it was.
abbrev pub Untouched : List String → Inventory → Inventory → Type 0
Untouched ids s t =
    (id : String) → contains id ids ≡ false → lookup id t.listings ≡ lookup id s.listings

module _ (max_age_days : ℕ) (at : Timestamp) (actor_id now : String) where
  round-IsPending :
      (row : CanonicalListing) (rows : List CanonicalListing) (s mid : Inventory) {stale : Bool}
      → IsKeyed s.listings
      → expire_if_stale max_age_days at actor_id now row s ≡ (ok stale, mid)
      → IsPending max_age_days at (row ∷ rows) s
      → IsPending max_age_days at rows mid
  round-IsPending row rows s mid keyed first p =
      elim (expire_if_stale-cases max_age_days at actor_id now row s mid first) [
        | inl (answer, same, fresh) ↦
            fresh-IsPending max_age_days at row rows mid
              (subst (λ s. IsFresh max_age_days at row s) (sym same) fresh)
              (subst (λ s. IsPending max_age_days at (row ∷ rows) s) (sym same) p)
        | inr (answer, x) ↦ expired-IsPending max_age_days at row rows s mid keyed x p
      ]

  untouched_round :
      (row : CanonicalListing) (s mid : Inventory) {stale : Bool} {found : Option CanonicalListing}
      → expire_if_stale max_age_days at actor_id now row s ≡ (ok stale, mid)
      → (id : String) (rest : List String)
      → contains id (if stale then row.canonical_id ∷ rest else rest) ≡ false
      → (contains id rest ≡ false → found ≡ lookup id mid.listings)
      → found ≡ lookup id s.listings
  untouched_round row s mid {stale} {found} first id rest out later =
      elim (expire_if_stale-cases max_age_days at actor_id now row s mid first) [
        | inl (answer, same, fresh) ↦ later (ground arith) ∙ ap (λ s. lookup id s.listings) same
        | inr (answer, x) ↦
            later (ground arith)
            ∙ x.others id (ground (arith, eq_iff id row.canonical_id, eq_iff row.canonical_id id))
      ]

  -- A sweep that returns, from a store in which the rows are all that is not known to be fresh.
  expire_each-IsSwept :
      (rows : List CanonicalListing) (s t : Inventory) {ids : List String}
      → expire_each max_age_days at actor_id now rows s ≡ (ok ids, t)
      → IsKeyed s.listings
      → IsPending max_age_days at rows s
      → IsSwept max_age_days at t × Untouched ids s t
  unfolding expire_each
  expire_each-IsSwept [] s t {ids} h keyed p =
      let same : s ≡ t = ap (λ x. x.1) h in
      (
        subst (λ t. IsSwept max_age_days at t) same
            λ id r found live. elim (p id r found live) [
              | inl none_left ↦ absurd none_left
              | inr fresh ↦ fresh
            ],
        λ id _. ap (λ s. lookup id s.listings) (sym same),
      )
  expire_each-IsSwept (row ∷ rows) s t {ids} h keyed p =
      let (stale, mid, first, then_rest) =
        >>=-eq-ok (expire_if_stale max_age_days at actor_id now row)
          (λ stale. expire_each max_age_days at actor_id now rows >>= λ rest.
            pure (if stale then row.canonical_id ∷ rest else rest))
          s h in
      let (rest, last, second, third) =
        >>=-eq-ok (expire_each max_age_days at actor_id now rows)
          (λ rest. pure (if stale then row.canonical_id ∷ rest else rest)) mid then_rest in
      let keyed_mid = expire_if_stale-IsKeyed max_age_days at actor_id now row s mid first keyed in
      let later : IsSwept max_age_days at last × Untouched rest mid last =
        expire_each-IsSwept rows mid last second keyed_mid
          (round-IsPending row rows s mid keyed first p) in
      let end : last ≡ t = ap (λ x. x.1) third in
      (
        subst (λ t. IsSwept max_age_days at t) end later.0,
        λ id out.
            untouched_round row s mid first id rest
              (subst (λ ids. contains id ids ≡ false) (sym (ok-injective (ap (λ x. x.0) third)))
                out)
              (λ left. ap (λ s. lookup id s.listings) (sym end) ∙ later.1 id left),
      )

-- A sweep that returns leaves no stale listing: of every active listing and every one under offer the
-- active source has a score at the given time, which is not zero. The listings whose identifiers it
-- does not return are as they were. (The listings stand under their identifiers.)
pub expire_stale-IsSwept :
    (max_age_days : ℕ) (at : Timestamp) (actor_id now : String) (s t : Inventory)
    {ids : List String}
    → IsKeyed s.listings
    → expire_stale max_age_days at actor_id now s ≡ (ok ids, t)
    → IsSwept max_age_days at t × Untouched ids s t
unfolding expire_stale
expire_stale-IsSwept max_age_days at actor_id now s t keyed h =
    expire_each-IsSwept max_age_days at actor_id now (select is_live (values s.listings)) s t h
      keyed (λ id row found live. inl (live-Among id s.listings found live))
