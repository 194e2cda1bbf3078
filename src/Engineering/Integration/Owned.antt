-- ===== src/Engineering/Integration/Owned.antt =====
-- What goes into an integrated manifest, and who owns it (factory/engineering_pod/integration.py).
use ai_factory.Base.{
  String, Bool, true, false, not, ◌≡◌, refl, ap, sym, subst, inl, inr, Option, none, some, List, [],
  ◌∷◌, arith, ◌==◌, eq_iff, contains, Bool-cases, if◌then◌else◌,
}
use ai_factory.Base.Result.{Result, ok, err, >>=-eq-ok}
use ai_factory.Base.Dict.{Dict, lookup, insert, lookup-insert, lookup-insert_self}
use ai_factory.Engineering.{EngineeringError, path_of_many}
use ai_factory.Engineering.Integration.{own, own_paths}

pub ok-injective :
    {A : Type 0} {a b : A} → ◌≡◌ {A = Result EngineeringError A} (ok a) (ok b) → a ≡ b
ok-injective h = cc

pub not-eq-false : (b : Bool) → not b ≡ false → b ≡ true
not-eq-false true h = refl
not-eq-false false h = cc

module _ (taken : String → EngineeringError) (package_id name : String) where
  -- What is taken belongs to the package, and to no other one before.
  own_lem :
      (owner : Dict String) {owner' : Dict String}
      → own taken package_id name owner ≡ ok owner'
      → (owner' ≡ insert name package_id owner)
        × ((v : String) → lookup name owner ≡ some v → v ≡ package_id)
  unfolding own
  own_lem owner h = by_owner (lookup name owner) h
    where
      by_owner :
          (o : Option String) {owner' : Dict String}
          → ◌≡◌ {A = Result EngineeringError (Dict String)}
              (elim o [
                | none ↦ ok (insert name package_id owner)
                | some previous ↦
                    if previous == package_id
                    then ok (insert name package_id owner)
                    else err (taken previous)
              ])
              (ok owner')
          → (owner' ≡ insert name package_id owner) × ((v : String) → o ≡ some v → v ≡ package_id)
      by_owner none h = (sym (ok-injective h), λ v k. absurd (cc k))
      by_owner (some u) h = elim (Bool-cases (u == package_id)) [
        | inl same ↦
            (sym (ok-injective (ground arith)), λ v k. cc (k, (eq_iff u package_id).0 same))
        | inr other ↦ absurd (ground arith)
      ]

  -- Who owns something keeps it.
  own-keeps :
      (owner : Dict String) {owner' : Dict String} (k v : String)
      → own taken package_id name owner ≡ ok owner'
      → lookup k owner ≡ some v
      → lookup k owner' ≡ some v
  own-keeps owner {owner'} k v h has =
      let (same, only) = own_lem owner h in
      rw (same, lookup-insert name k package_id owner)
        (elim (Bool-cases (name == k)) [
          | inl e ↦
              let here : lookup name owner ≡ some v =
                subst (λ z. lookup z owner ≡ some v) (sym ((eq_iff name k).0 e)) has in
              rw e (ap (λ z. some z) (sym (only v here)))
          | inr e ↦ rw e has
        ])

  own-owned :
      (owner : Dict String) {owner' : Dict String}
      → own taken package_id name owner ≡ ok owner'
      → lookup name owner' ≡ some package_id
  own-owned owner {owner'} h = rw (own_lem owner h).0 (lookup-insert_self name package_id owner)

module _ (package_id : String) where
  pub own_paths-keeps :
      (ps : List String) (owner : Dict String) {owner' : Dict String} (k v : String)
      → own_paths package_id ps owner ≡ ok owner'
      → lookup k owner ≡ some v
      → lookup k owner' ≡ some v
  unfolding own_paths
  own_paths-keeps [] owner k v h has = subst (λ o. lookup k o ≡ some v) (ok-injective h) has
  own_paths-keeps (p ∷ ps) owner k v h has =
      let (o, first, rest) =
        >>=-eq-ok (own (λ previous. path_of_many p previous package_id) package_id p owner)
          (own_paths package_id ps) h in
      own_paths-keeps ps o k v rest (own-keeps _ package_id p owner k v first has)

  pub own_paths-owned :
      (ps : List String) (owner : Dict String) {owner' : Dict String} (k : String)
      → own_paths package_id ps owner ≡ ok owner'
      → contains k ps ≡ true
      → lookup k owner' ≡ some package_id
  unfolding own_paths
  own_paths-owned [] owner k h has = absurd (cc has)
  own_paths-owned (p ∷ ps) owner k h has =
      let (o, first, rest) =
        >>=-eq-ok (own (λ previous. path_of_many p previous package_id) package_id p owner)
          (own_paths package_id ps) h in
      elim (Bool-cases (k == p)) [
        | inl same ↦ own_paths-keeps ps o k package_id rest (
            subst (λ z. lookup z o ≡ some package_id) (sym ((eq_iff k p).0 same))
              (own-owned _ package_id p owner first))
        | inr other ↦ own_paths-owned ps o k rest (ground arith)
      ]
