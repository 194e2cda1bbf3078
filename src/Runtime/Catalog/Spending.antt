-- ===== src/Runtime/Catalog/Spending.antt =====
-- Budgets are never overspent (factory/runtime/catalog.py).
use ai_factory.Base.{
  ℕ, ◌+◌, ◌≤◌, String, Bool, true, false, ◌≡◌, refl, none, some, List, [], ◌∷◌, if◌then◌else◌, ◌==◌,
  arith, eq_iff, Option-cases, Bool-cases, ◌⊎◌, inl, inr, subst, sym, ◌∙◌,
}
use ai_factory.Base.Dict.{lookup, insert, lookup-insert, lookup-insert_self}
use ai_factory.Base.Result.{Result, ok, err}
use ai_factory.Runtime.Catalog.{Catalog, Budget, consume_budget}

-- A call of `consume_budget`.
pub record Spend : Type 0 where
  pub mission_id : String
  pub units : ℕ

abbrev returns : {A E S : Type 0} → Result E A × S → Bool
returns (ok a, s) = true
returns (err e, s) = false

unfoldable pub spend_all : List Spend → Catalog → Catalog
spend_all [] s = s
spend_all (c ∷ cs) s = spend_all cs (consume_budget c.mission_id c.units s).1

-- The units that a mission is granted by a sequence of calls.
unfoldable pub granted : String → List Spend → Catalog → ℕ
granted mission_id [] s = 0
granted mission_id (c ∷ cs) s =
    let answer = consume_budget c.mission_id c.units s in
    (if c.mission_id == mission_id then (if returns answer then c.units else 0) else 0)
    + granted mission_id cs answer.1

-- The budget after calls that were granted so many units.
pub record IsSpent (b c : Budget) (units : ℕ) : Type 0 where
  pub same_limit : c.limit_units ≡ b.limit_units
  pub spent : c.consumed_units ≡ b.consumed_units + units
  pub within : b.consumed_units ≤ b.limit_units → c.consumed_units ≤ c.limit_units

consume-cases :
    (j : String) (units : ℕ) (s : Catalog) {b : Budget}
    → lookup j s.budgets ≡ some b
    → let answer = consume_budget j units s in
      ((returns answer ≡ false) × (answer.1.budgets ≡ s.budgets))
      ⊎ ((returns answer ≡ true)
          × (b.consumed_units + units ≤ b.limit_units)
          × (answer.1.budgets
              ≡ insert j (record b { consumed_units = b.consumed_units + units }) s.budgets))
unfolding consume_budget
consume-cases j units s {b} h = ground arith

consume_unknown :
    (j : String) (units : ℕ) (s : Catalog)
    → lookup j s.budgets ≡ none
    → (consume_budget j units s).1.budgets ≡ s.budgets
unfolding consume_budget
consume_unknown j units s h = ground arith

spend_mine :
    (mission_id : String) (units : ℕ) (s : Catalog) {b : Budget}
    → lookup mission_id s.budgets ≡ some b
    → let answer = consume_budget mission_id units s in
      (d : Budget) × (lookup mission_id answer.1.budgets ≡ some d)
      × IsSpent b d (if returns answer then units else 0)
spend_mine mission_id units s {b} h = elim (consume-cases mission_id units s h) [
  | inl (refused, same) ↦ (
    b,
    rw same h,
    rw refused (record { same_limit = refl; spent = omega arith; within = λ w. w }),
  )
  | inr (given, fits, p) ↦
      let d = record b { consumed_units = b.consumed_units + units } in
      (
        d,
        rw p (lookup-insert_self mission_id d s.budgets),
        rw given (record { same_limit = refl; spent = refl; within = λ _. fits }),
      )
]

spend_other :
    (j mission_id : String) (units : ℕ) (s : Catalog)
    → (j == mission_id) ≡ false
    → lookup mission_id (consume_budget j units s).1.budgets ≡ lookup mission_id s.budgets
spend_other j mission_id units s other = elim (Option-cases (lookup j s.budgets)) [
  | inl missing ↦ rw (consume_unknown j units s missing) refl
  | inr (x, found) ↦ elim (consume-cases j units s found) [
    | inl (refused, same) ↦ rw same refl
    | inr (given, fits, p) ↦
        rw
          (
            p,
            lookup-insert j mission_id (record x { consumed_units = x.consumed_units + units })
                s.budgets,
            other,
          )
          refl
  ]
]

-- What one call grants to a mission.
abbrev grant : String → Spend → Catalog → ℕ
grant mission_id c s =
    if c.mission_id == mission_id
    then (if returns (consume_budget c.mission_id c.units s) then c.units else 0)
    else 0

spend_one :
    (c : Spend) (mission_id : String) (s : Catalog) {b : Budget}
    → lookup mission_id s.budgets ≡ some b
    → (d : Budget) × (lookup mission_id (consume_budget c.mission_id c.units s).1.budgets ≡ some d)
      × IsSpent b d (grant mission_id c s)
spend_one c mission_id s {b} h = elim (Bool-cases (c.mission_id == mission_id)) [
  | inl same ↦ rw same (
      subst
        (λ j.
          (d : Budget) × (lookup mission_id (consume_budget j c.units s).1.budgets ≡ some d)
          × IsSpent b d (if returns (consume_budget j c.units s) then c.units else 0))
        (sym ((eq_iff c.mission_id mission_id).0 same)) (spend_mine mission_id c.units s h))
  | inr other ↦ rw other (
    b,
    spend_other c.mission_id mission_id c.units s other ∙ h,
    record { same_limit = refl; spent = omega arith; within = λ w. w },
  )
]

grown :
    (b d e : Budget) (n g : ℕ)
    → d.consumed_units ≡ b.consumed_units + n
    → e.consumed_units ≡ d.consumed_units + g
    → e.consumed_units ≡ b.consumed_units + (n + g)
grown b d e n g p q = omega arith

-- Over any sequence of calls of `consume_budget`, for whatever missions, a mission's budget grows by
-- just the units that were granted to it; its limit stays, and a budget within its limit stays
-- within it.
pub spend_all-IsSpent :
    (cs : List Spend) (mission_id : String) (s : Catalog) {b : Budget}
    → lookup mission_id s.budgets ≡ some b
    → (d : Budget) × (lookup mission_id (spend_all cs s).budgets ≡ some d)
      × IsSpent b d (granted mission_id cs s)
unfolding spend_all granted
spend_all-IsSpent [] mission_id s {b} h =
    (b, h, record { same_limit = refl; spent = omega arith; within = λ w. w })
spend_all-IsSpent (c ∷ cs) mission_id s {b} h =
    let (d, found, first) = spend_one c mission_id s h in
    let t = (consume_budget c.mission_id c.units s).1 in
    let (e, last, rest) = spend_all-IsSpent cs mission_id t found in
    (
      e,
      last,
      record {
        same_limit = rest.same_limit ∙ first.same_limit;
        spent = grown b d e (grant mission_id c s) (granted mission_id cs t) first.spent rest.spent;
        within = λ w. rest.within (first.within w);
      },
    )
