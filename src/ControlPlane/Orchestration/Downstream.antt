-- ===== src/ControlPlane/Orchestration/Downstream.antt =====
-- What a change invalidates: just the tasks that depend on it, at whatever distance
-- (factory/control_plane/orchestration.py, `invalidate_downstream`).
use ai_factory.Base.{
  ℕ, zero, suc, ◌+◌, String, true, false, ◌||◌, ◌≡◌, refl, sym, subst, ◌∙◌, ◌↔◌, inl, inr, some,
  List, [], ◌∷◌, ◌++◌, arith, ◌==◌, eq_iff, some-injective, contains, length, Bool-cases,
}
use ai_factory.ControlPlane.Graph.{TaskNode}
use ai_factory.ControlPlane.Orchestration.{
  children, spread, open_dependencies, invalidate_downstream,
}
use ai_factory.ControlPlane.Orchestration.Fuel.{spread-stale, spread-fresh, spread_total}

-- A task that depends on another, directly or through others.
pub data Downstream (nodes : List TaskNode) (changed : String) : String → Type 0 where
  direct : {x : String} → contains x (children nodes changed) ≡ true → Downstream nodes changed x
  further :
      {x y : String}
      → Downstream nodes changed x
      → contains y (children nodes x) ≡ true
      → Downstream nodes changed y

contains-append :
    (x : String) (xs ys : List String) → contains x (xs ++ ys) ≡ (contains x xs || contains x ys)
contains-append x [] ys = refl
contains-append x (y ∷ xs) ys = ground (arith, contains-append x xs ys)

module _ (nodes : List TaskNode) (changed : String) where
  abbrev AllDownstream : List String → Type 0
  AllDownstream xs = (x : String) → contains x xs ≡ true → Downstream nodes changed x

  -- What is queued depends on the change, and so what is found does.
  spread-AllDownstream :
      (fuel : ℕ) (queue stale : List String) {r : List String}
      → spread fuel nodes queue stale ≡ some r
      → AllDownstream queue
      → AllDownstream stale
      → AllDownstream r
  unfolding spread
  spread-AllDownstream zero queue stale h q s = absurd (cc h)
  spread-AllDownstream (suc fuel) [] stale {r} h q s =
      subst (λ r. AllDownstream r) (some-injective h) s
  spread-AllDownstream (suc fuel) (x ∷ queue) stale h q s =
      let first : Downstream nodes changed x = q x (ground (arith, eq_iff x x)) in
      let later : AllDownstream queue = λ y k. q y (ground arith) in
      elim (Bool-cases (contains x stale)) [
        | inl e ↦
            spread-AllDownstream fuel queue stale
              (sym (spread-stale fuel nodes x queue stale e) ∙ h) later s
        | inr e ↦
            spread-AllDownstream fuel (queue ++ children nodes x) (x ∷ stale)
              (sym (spread-fresh fuel nodes x queue stale e) ∙ h)
              (λ y k. elim (Bool-cases (contains y queue)) [
                | inl old ↦ later y old
                | inr new ↦
                    further first (ground (arith, contains-append y queue (children nodes x)))
              ])
              (λ y k. elim (Bool-cases (y == x)) [
                | inl same ↦
                    subst (λ z. Downstream nodes changed z) (sym ((eq_iff y x).0 same)) first
                | inr other ↦ s y (ground arith)
              ])
      ]

  -- The tasks that depend on a stale one are stale, or queued.
  abbrev IsFollowed : List String → List String → Type 0
  IsFollowed queue stale =
      (x y : String)
      → contains x stale ≡ true
      → contains y (children nodes x) ≡ true
      → (contains y stale || contains y queue) ≡ true

  -- What is queued or stale is found, and so is what depends on it.
  spread-IsFollowed :
      (fuel : ℕ) (queue stale : List String) {r : List String}
      → spread fuel nodes queue stale ≡ some r
      → IsFollowed queue stale
      → IsFollowed [] r
        × ((x : String) → (contains x stale || contains x queue) ≡ true → contains x r ≡ true)
  unfolding spread
  spread-IsFollowed zero queue stale h f = absurd (cc h)
  spread-IsFollowed (suc fuel) [] stale {r} h f =
      subst
        (λ r.
          IsFollowed [] r
          × ((x : String) → (contains x stale || false) ≡ true → contains x r ≡ true))
        (some-injective h) (f, λ x k. ground arith)
  spread-IsFollowed (suc fuel) (x ∷ queue) stale {r} h f = elim (Bool-cases (contains x stale)) [
    | inl e ↦
        let (closed, found) =
          spread-IsFollowed fuel queue stale (sym (spread-stale fuel nodes x queue stale e) ∙ h)
            (λ y z k l. elim (Bool-cases (z == x)) [
              | inl same ↦
                  let here : z ≡ x = (eq_iff z x).0 same in
                  rw (subst (λ w. contains w stale ≡ true) (sym here) e) refl
              | inr other ↦ ground (arith, f y z k l)
            ]) in
        (
          closed,
          λ y k. found y (elim (Bool-cases (y == x)) [
            | inl same ↦
                let here : y ≡ x = (eq_iff y x).0 same in
                rw (subst (λ w. contains w stale ≡ true) (sym here) e) refl
            | inr other ↦ ground arith
          ]),
        )
    | inr e ↦
        let (closed, found) =
          spread-IsFollowed fuel (queue ++ children nodes x) (x ∷ stale)
            (sym (spread-fresh fuel nodes x queue stale e) ∙ h)
            (λ y z k l. elim (Bool-cases (y == x)) [
              | inl same ↦
                  let there : contains z (children nodes x) ≡ true =
                    subst (λ w. contains z (children nodes w) ≡ true) ((eq_iff y x).0 same) l in
                  ground (arith, contains-append z queue (children nodes x))
              | inr other ↦
                  let old : contains y stale ≡ true = ground arith in
                  ground (arith, f y z old l, contains-append z queue (children nodes x))
            ]) in
        (closed, λ y k. found y (ground (arith, contains-append y queue (children nodes x))))
  ]

  Downstream-found :
      (r : List String)
      → IsFollowed [] r
      → ((x : String) → contains x (children nodes changed) ≡ true → contains x r ≡ true)
      → {x : String} → Downstream nodes changed x
      → contains x r ≡ true
  Downstream-found r closed start (direct h) = start _ h
  Downstream-found r closed start (further {x = x} {y = y} d h) =
      let known = Downstream-found r closed start d in ground (arith, closed x y known h)

-- The search ends, and finds just the tasks that depend on the changed one, directly or through others.
pub invalidate_downstream_lem :
    (changed : String) (nodes : List TaskNode)
    → (stale : List String) × (invalidate_downstream changed nodes ≡ some stale)
      × ((x : String) → (contains x stale ≡ true) ↔ Downstream nodes changed x)
unfolding invalidate_downstream
invalidate_downstream_lem changed nodes =
    let fuel = suc (length (children nodes changed) + open_dependencies nodes []) in
    let (stale, done) = spread_total fuel nodes (children nodes changed) [] (omega arith) in
    let (closed, found) =
      spread-IsFollowed nodes changed fuel (children nodes changed) [] done
        (λ x y k l. absurd (cc k)) in
    (
      stale,
      done,
      λ x. (
        spread-AllDownstream nodes changed fuel (children nodes changed) [] done (λ y k. direct k)
            (λ y k. absurd (cc k)) x,
        Downstream-found nodes changed stale closed (λ y k. found y k),
      ),
    )
