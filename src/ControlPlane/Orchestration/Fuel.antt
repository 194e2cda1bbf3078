-- ===== src/ControlPlane/Orchestration/Fuel.antt =====
-- The fuel of the search for what a change invalidates (factory/control_plane/orchestration.py).
use ai_factory.Base.{
  ℕ, zero, suc, ◌+◌, ◌≤◌, ◌<◌, String, true, false, not, ◌≡◌, refl, sym, subst, ◌∙◌, inl, inr, some,
  List, [], ◌∷◌, ◌++◌, arith, if◌then◌else◌, ◌==◌, eq_iff, select, contains, length, length-append,
  Bool-cases,
}
use ai_factory.ControlPlane.Graph.{TaskNode}
use ai_factory.ControlPlane.Orchestration.{children, spread, open_dependencies}

abbrev open_in : List String → List String → ℕ
open_in stale ds = length (select (λ d. not (contains d stale)) ds)

-- A task that becomes stale closes its dependency at least.
open_in-cons :
    (x : String) (stale ds : List String)
    → contains x stale ≡ false
    → (if contains x ds then 1 else 0) + open_in (x ∷ stale) ds ≤ open_in stale ds
open_in-cons x stale [] h = omega arith
open_in-cons x stale (d ∷ ds) h = elim (Bool-cases (d == x)) [
  | inl same ↦
      let here : d ≡ x = (eq_iff d x).0 same in
      let out : contains d stale ≡ false = subst (λ z. contains z stale ≡ false) (sym here) h in
      ground (arith, open_in-cons x stale ds h, eq_iff x d)
  | inr other ↦ ground (arith, open_in-cons x stale ds h, eq_iff x d, eq_iff d x)
]

open_dependencies-cons :
    (x : String) (stale : List String) (nodes : List TaskNode)
    → contains x stale ≡ false
    → length (children nodes x) + open_dependencies nodes (x ∷ stale)
      ≤ open_dependencies nodes stale
open_dependencies-cons x stale [] h = omega arith
open_dependencies-cons x stale (n ∷ ns) h =
    let rest = open_dependencies-cons x stale ns h in
    let here = open_in-cons x stale n.dependencies h in
    elim (Bool-cases (contains x n.dependencies)) [
      | inl e ↦ rw e (omega (arith, rest, rw e at here))
      | inr e ↦ rw e (omega (arith, rest, rw e at here))
    ]

-- A round of the loop.
module _ (fuel : ℕ) (nodes : List TaskNode) (x : String) (queue stale : List String) where
  pub spread-stale :
      contains x stale ≡ true
      → spread (suc fuel) nodes (x ∷ queue) stale ≡ spread fuel nodes queue stale
  unfolding spread
  spread-stale e = rw (e, spread) refl

  pub spread-fresh :
      contains x stale ≡ false
      → spread (suc fuel) nodes (x ∷ queue) stale
        ≡ spread fuel nodes (queue ++ children nodes x) (x ∷ stale)
  unfolding spread
  spread-fresh e = rw (e, spread) refl

-- With fuel for the queue and for the open dependencies the loop ends.
pub spread_total :
    (fuel : ℕ) (nodes : List TaskNode) (queue stale : List String)
    → length queue + open_dependencies nodes stale < fuel
    → (r : List String) × (spread fuel nodes queue stale ≡ some r)
unfolding spread
spread_total zero nodes queue stale h = absurd (omega arith)
spread_total (suc fuel) nodes [] stale h = (stale, refl)
spread_total (suc fuel) nodes (x ∷ queue) stale h = elim (Bool-cases (contains x stale)) [
  | inl e ↦
      let (r, done) = spread_total fuel nodes queue stale (omega arith) in
      (r, spread-stale fuel nodes x queue stale e ∙ done)
  | inr e ↦
      let (r, done) = spread_total fuel nodes (queue ++ children nodes x) (x ∷ stale) (
        omega (
          arith,
          length-append queue (children nodes x),
          open_dependencies-cons x stale nodes e,
        )) in
      (r, spread-fresh fuel nodes x queue stale e ∙ done)
]
