-- ===== src/ControlPlane/Graph/Depth.antt =====
-- The depth-first search of `validate_graph` never runs out of fuel (factory/control_plane/graph.py).
use ai_factory.Base.{
  ℕ, zero, suc, ◌+◌, ◌≤◌, ◌<◌, String, Bool, true, false, ◌≡◌, refl, none, some, List, [], ◌∷◌, map,
  ⊤, if◌then◌else◌, ◌==◌, ◌≢◌, arith, eq_iff, eq_refl, length, contains, is_unique, is_some, all,
  Bool-cases, Option-cases, inl, inr, ◌∙◌, subst, sym,
}
use ai_factory.Base.Dict.{Dict, lookup}
use ai_factory.Base.Result.{Result, ok, err, ◌>>=◌, for_each}
use ai_factory.ControlPlane.Graph.{
  TaskNode, GraphError, out_of_fuel, dependency_cycle, unknown_task_id, nothing_visited, Visit,
  visit, visit_all, validate_graph, index_by_id, remove, check_node,
}

-- The dictionary without a key.
without : {V : Type 0} → String → Dict V → Dict V
without k [] = []
without k ((j, v) ∷ d) = if j == k then without k d else (j, v) ∷ without k d

module _ {V : Type 0} where
  length-without-leq : (k : String) (d : Dict V) → length (without k d) ≤ length d
  unfolding without
  length-without-leq k [] = omega arith
  length-without-leq k ((j, v) ∷ d) = ground (arith, length-without-leq k d)

  length-without :
      (k : String) (d : Dict V) → is_some (lookup k d) ≡ true → length (without k d) < length d
  unfolding without lookup
  length-without k [] h = absurd (cc h)
  length-without k ((j, v) ∷ d) h = ground (arith, length-without-leq k d, length-without k d)

  lookup-without :
      (k x : String) (d : Dict V) → (k == x) ≡ false → lookup x (without k d) ≡ lookup x d
  unfolding without lookup
  lookup-without k x [] h = refl
  lookup-without k x ((j, v) ∷ d) h =
      ground (arith, lookup-without k x d, eq_iff j k, eq_iff j x, eq_iff k x)

  abbrev all_keys : List String → Dict V → Bool
  all_keys xs d = all (λ x. is_some (lookup x d)) xs

  all_keys-without :
      (k : String) (xs : List String) (d : Dict V)
      → contains k xs ≡ false
      → all_keys xs d ≡ true
      → all_keys xs (without k d) ≡ true
  all_keys-without k [] d h a = refl
  all_keys-without k (x ∷ xs) d h a = ground (arith, all_keys-without k xs d, lookup-without k x d)

  -- Distinct keys are at most as many as the entries.
  length-leq-entries :
      (xs : List String) (d : Dict V)
      → is_unique xs ≡ true
      → all_keys xs d ≡ true
      → length xs ≤ length d
  length-leq-entries [] d u a = omega arith
  length-leq-entries (x ∷ xs) d u a =
      ground
        (arith, length-leq-entries xs (without x d), all_keys-without x xs d, length-without x d)

-- An answer of a visit: the open visits are those before it, or an error of the graph.
abbrev Fine : Visit → Result GraphError Visit → Type 0
Fine v (ok w) = w.visiting ≡ v.visiting
Fine v (err out_of_fuel) = ⊥
Fine v (err _) = ⊤

Fine-same :
    (v w : Visit) (r : Result GraphError Visit) → w.visiting ≡ v.visiting → Fine w r → Fine v r
Fine-same v w (ok x) e h = h ∙ e
Fine-same v w (err out_of_fuel) e h = h
Fine-same v w (err _) e h = tt

Fine-bind :
    (v : Visit) (r : Result GraphError Visit) (next : Visit → Result GraphError Visit)
    → Fine v r
    → ((w : Visit) → w.visiting ≡ v.visiting → Fine v (next w))
    → Fine v (r >>= next)
Fine-bind v (ok w) next h k = k w h
Fine-bind v (err out_of_fuel) next h k = h
Fine-bind v (err _) next h k = tt

visit_all-Fine :
    (f : String → Visit → Result GraphError Visit) (ds : List String) (v : Visit)
    → ((d : String) (w : Visit) → w.visiting ≡ v.visiting → Fine w (f d w))
    → Fine v (visit_all f ds v)
unfolding visit_all
visit_all-Fine f [] v h = refl
visit_all-Fine f (d ∷ ds) v h =
    Fine-bind v (f d v) (visit_all f ds) (h d v refl)
      λ w e. Fine-same v w (visit_all f ds w) e (visit_all-Fine f ds w λ x y same. h x y (same ∙ e))

remove-absent : (x : String) (xs : List String) → contains x xs ≡ false → remove x xs ≡ xs
remove-absent x [] h = refl
remove-absent x (y ∷ ys) h = ground (arith, remove-absent x ys)

-- The open visits are of different nodes of the graph, and leave fuel for all others.
record IsDeep (fuel : ℕ) (by_id : Dict TaskNode) (visiting : List String) : Type 0 where
  pub distinct : is_unique visiting ≡ true
  pub nodes : all_keys visiting by_id ≡ true
  pub fuel_left : length by_id < length visiting + fuel

abbrev opened : String → Visit → Visit
opened task_id v = record v { visiting = task_id ∷ v.visiting }

abbrev closed : String → Visit → Result GraphError Visit
closed task_id w =
    ok (record { visiting = remove task_id w.visiting; visited = task_id ∷ w.visited })

closed-Fine :
    (task_id : String) (v : Visit) (r : Result GraphError Visit)
    → contains task_id v.visiting ≡ false
    → Fine (opened task_id v) r
    → Fine v (r >>= closed task_id)
closed-Fine task_id v (ok w) f h =
    rw h (ground (arith, eq_refl task_id, remove-absent task_id v.visiting f))
closed-Fine task_id v (err out_of_fuel) f h = h
closed-Fine task_id v (err _) f h = tt

module _ (fuel : ℕ) (by_id : Dict TaskNode) (task_id : String) (v : Visit) where
  visit-visited : contains task_id v.visited ≡ true → visit (suc fuel) by_id task_id v ≡ ok v
  unfolding visit
  visit-visited e = rw (visit, e) refl

  visit-visiting :
      contains task_id v.visited ≡ false
      → contains task_id v.visiting ≡ true
      → visit (suc fuel) by_id task_id v ≡ err dependency_cycle
  unfolding visit
  visit-visiting e f = rw (visit, e, f) refl

  visit-unknown :
      contains task_id v.visited ≡ false
      → contains task_id v.visiting ≡ false
      → lookup task_id by_id ≡ none
      → visit (suc fuel) by_id task_id v ≡ err (unknown_task_id task_id)
  unfolding visit
  visit-unknown e f g = rw (visit, e, f, g) refl

  visit-node :
      contains task_id v.visited ≡ false
      → contains task_id v.visiting ≡ false
      → {node : TaskNode} → lookup task_id by_id ≡ some node
      → visit (suc fuel) by_id task_id v
        ≡ (visit_all (visit fuel by_id) node.dependencies (opened task_id v) >>= closed task_id)
  unfolding visit
  visit-node e f g = rw (visit, e, f, g) refl

  IsDeep-opened :
      IsDeep (suc fuel) by_id v.visiting
      → contains task_id v.visiting ≡ false
      → {node : TaskNode} → lookup task_id by_id ≡ some node
      → IsDeep fuel by_id (task_id ∷ v.visiting)
  IsDeep-opened h f g = record {
    distinct = ground (arith, h.distinct);
    nodes = ground (arith, h.nodes);
    fuel_left = ground (arith, h.fuel_left);
  }

visit-Fine :
    (fuel : ℕ) (by_id : Dict TaskNode) (task_id : String) (v : Visit)
    → IsDeep fuel by_id v.visiting
    → Fine v (visit fuel by_id task_id v)
visit-Fine zero by_id task_id v h =
    absurd (ground (arith, length-leq-entries v.visiting by_id h.distinct h.nodes, h.fuel_left))
visit-Fine (suc fuel) by_id task_id v h = elim (Bool-cases (contains task_id v.visited)) [
  | inl e ↦ subst (Fine v) (sym (visit-visited fuel by_id task_id v e)) refl
  | inr e ↦ elim (Bool-cases (contains task_id v.visiting)) [
    | inl f ↦ subst (Fine v) (sym (visit-visiting fuel by_id task_id v e f)) tt
    | inr f ↦ elim (Option-cases (lookup task_id by_id)) [
      | inl g ↦ subst (Fine v) (sym (visit-unknown fuel by_id task_id v e f g)) tt
      | inr (node, g) ↦
          let deep = IsDeep-opened fuel by_id task_id v h f g in
          subst (Fine v) (sym (visit-node fuel by_id task_id v e f g)) (
            closed-Fine task_id v _ f (
              visit_all-Fine (visit fuel by_id) node.dependencies (opened task_id v)
                λ d w same. visit-Fine fuel by_id d w (subst (IsDeep fuel by_id) (sym same) deep)))
    ]
  ]
]

length-index_by_id : (nodes : List TaskNode) → length (index_by_id nodes) ≡ length nodes
length-index_by_id [] = refl
length-index_by_id (n ∷ ns) = ground (arith, length-index_by_id ns)

search-Fine :
    (nodes : List TaskNode)
    → Fine nothing_visited (
        visit_all
          (visit (suc (length nodes)) (index_by_id nodes))
          (map (λ (n : TaskNode). n.task_id) nodes)
          nothing_visited)
search-Fine nodes =
    visit_all-Fine (visit (suc (length nodes)) (index_by_id nodes))
      (map (λ (n : TaskNode). n.task_id) nodes) nothing_visited
      λ d w same. visit-Fine (suc (length nodes)) (index_by_id nodes) d w (
        subst (IsDeep (suc (length nodes)) (index_by_id nodes)) (sym same) (record {
          distinct = refl;
          nodes = refl;
          fuel_left = ground (arith, length-index_by_id nodes);
        }))

Fine-fuel : (v : Visit) (r : Result GraphError Visit) → Fine v r → r ≢ err out_of_fuel
Fine-fuel v r h e = subst (Fine v) e h

check_node-fuel :
    (by_id : Dict TaskNode) (node : TaskNode) → check_node by_id node ≢ err out_of_fuel
unfolding check_node
check_node-fuel by_id node h = ground arith

checks-fuel :
    (by_id : Dict TaskNode) (nodes : List TaskNode)
    → for_each nodes (check_node by_id) ≢ err out_of_fuel
checks-fuel by_id [] h = absurd (ground arith)
checks-fuel by_id (n ∷ ns) h = ground (arith, check_node-fuel by_id n, checks-fuel by_id ns)

-- The search of `validate_graph` ends, on every list of nodes, with or without cycles: the fuel that
-- it is given never runs out.
pub validate_graph-fuel : (nodes : List TaskNode) → validate_graph nodes ≢ err out_of_fuel
unfolding validate_graph
validate_graph-fuel nodes h =
    ground (
      arith,
      checks-fuel (index_by_id nodes) nodes,
      Fine-fuel nothing_visited _ (search-Fine nodes),
    )
