-- ===== src/ControlPlane/Graph.antt =====
-- factory/control_plane/graph.py: the dependency graph of a mission's tasks.
pub mod Depth
use ai_factory.Base.{
  ℕ, zero, suc, String, Bool, true, false, not, ◌&&◌, ◌||◌, none, some, List, [], ◌∷◌, map, ⊤,
  if◌then◌else◌, ◌==◌, length, select, is_nil, contains, is_unique, is_disjoint, same_set, is_some,
  all,
}
use ai_factory.Base.Result.{Result, ok, err, ◌>>=◌, ◌>>◌, raise_if, or_raise, for_each}
use ai_factory.Base.Dict.{Dict, lookup, keys}
use ai_factory.Base.Sorting.{sorted}

pub record TaskNode : Type 0 where
  pub task_id : String
  pub dependencies : List String
  pub write_scopes : List String

-- One constructor for each `raise`; `out_of_fuel` is the model's own.
pub data GraphError : Type 0 where
  duplicate_task_id dependency_cycle states_mismatch out_of_fuel : GraphError
  missing_dependencies : String → List String → GraphError
  self_dependency unknown_task_id : String → GraphError

-- `{node.task_id: node for node in nodes}`, where the ids are unique.
abbrev pub index_by_id : List TaskNode → Dict TaskNode
index_by_id [] = []
index_by_id (n ∷ ns) = (n.task_id, n) ∷ index_by_id ns

abbrev pub missing_from : Dict TaskNode → List String → List String
missing_from by_id = select (λ d. not (is_some (lookup d by_id)))

-- The checks on one node before the search.
unfoldable pub check_node : Dict TaskNode → TaskNode → Result GraphError ⊤
check_node by_id node = do
  let missing = missing_from by_id node.dependencies
  raise_if (not (is_nil missing)) (missing_dependencies node.task_id missing)
  raise_if (contains node.task_id node.dependencies) (self_dependency node.task_id)

-- The sets `visiting` and `visited`, latest first.
pub record Visit : Type 0 where
  pub visiting : List String
  pub visited : List String

abbrev pub remove : String → List String → List String
remove x = select (λ y. not (x == y))

-- `for dep in dependencies: visit(dep)`.
unfoldable pub visit_all :
    (String → Visit → Result GraphError Visit) → List String → Visit → Result GraphError Visit
visit_all visit [] v = ok v
visit_all visit (d ∷ ds) v = visit d v >>= visit_all visit ds

unfoldable pub visit : ℕ → Dict TaskNode → String → Visit → Result GraphError Visit
unfolding visit_all
visit zero by_id task_id v = err out_of_fuel
visit (suc fuel) by_id task_id v = elim (contains task_id v.visited) [
  | true ↦ ok v
  | false ↦ elim (contains task_id v.visiting) [
    | true ↦ err dependency_cycle
    | false ↦ do
      node ← or_raise (lookup task_id by_id) (unknown_task_id task_id)
      v' ←
          visit_all (visit fuel by_id) node.dependencies
            (record v { visiting = task_id ∷ v.visiting })
      ok (record { visiting = remove task_id v'.visiting; visited = task_id ∷ v'.visited })
  ]
]

abbrev pub nothing_visited : Visit
nothing_visited = record { visiting = []; visited = [] }

-- A chain of open visits has distinct ids, so the number of nodes bounds its length.
unfoldable pub validate_graph : List TaskNode → Result GraphError ⊤
unfolding visit check_node
validate_graph nodes = do
  let by_id = index_by_id nodes
  raise_if (not (is_unique (map (λ n. n.task_id) nodes))) duplicate_task_id
  for_each nodes (check_node by_id)
  visit_all (visit (suc (length nodes)) by_id) (map (λ n. n.task_id) nodes) nothing_visited
  ok tt

unfoldable pub can_run_in_parallel : TaskNode → TaskNode → Bool
can_run_in_parallel a b =
    if contains a.task_id b.dependencies || contains b.task_id a.dependencies
    then false
    else is_disjoint a.write_scopes b.write_scopes

-- `states[task_id]`, compared with a text; the keys have been checked.
abbrev pub state_is : Dict String → String → String → Bool
state_is states text task_id = elim (lookup task_id states) [ none ↦ false | some s ↦ s == text ]

abbrev pub is_ready : Dict String → TaskNode → Bool
is_ready states node =
    state_is states "BACKLOG" node.task_id && all (state_is states "DONE") node.dependencies

unfoldable pub ready_tasks : List TaskNode → Dict String → Result GraphError (List String)
unfolding validate_graph sorted keys
ready_tasks nodes states = do
  validate_graph nodes
  raise_if (not (same_set (map (λ n. n.task_id) nodes) (keys states))) states_mismatch
  ok (sorted (map (λ n. n.task_id) (select (is_ready states) nodes)))
