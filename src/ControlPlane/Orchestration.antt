-- ===== src/ControlPlane/Orchestration.antt =====
-- factory/control_plane/orchestration.py: how tasks are spread over workers, what a change invalidates,
-- and what follows a failure. A set is a list; the search takes fuel.
pub mod Downstream
mod Fuel
use ai_factory.Base.{
  ℕ, zero, suc, ◌+◌, String, Bool, true, false, not, ◌&&◌, ◌||◌, Option, none, some, List, [], ◌∷◌,
  ◌++◌, map, if◌then◌else◌, leb, ◌==◌, is_nil, select, contains, length,
}
use ai_factory.ControlPlane.Graph.{TaskNode, can_run_in_parallel}

pub data RetryDecision : Type 0 where
  retry reconcile stop : RetryDecision

pub record FailureContext : Type 0 where
  pub transient : Bool
  pub side_effecting : Bool
  pub outcome_known : Bool
  pub attempts : ℕ
  pub max_retries : ℕ

unfoldable pub choose_execution_mode : ℕ → Bool → ℕ → String
choose_execution_mode task_count independent_review_required specialist_domains =
    if leb task_count 1 && (not independent_review_required && leb specialist_domains 1)
    then "single_worker"
    else "pod"

-- The pairs of a node with the nodes behind it.
abbrev pub pairs_with : TaskNode → List TaskNode → List (String × String)
pairs_with a bs =
    map (λ (b : TaskNode). (a.task_id, b.task_id)) (select (λ b. can_run_in_parallel a b) bs)

unfoldable pub parallel_pairs : List TaskNode → List (String × String)
parallel_pairs [] = []
parallel_pairs (a ∷ rest) = pairs_with a rest ++ parallel_pairs rest

-- `children[task_id]`: the tasks that depend on it.
abbrev pub children : List TaskNode → String → List String
children nodes task_id =
    map (λ (n : TaskNode). n.task_id)
      (select (λ (n : TaskNode). contains task_id n.dependencies) nodes)

-- The loop over the queue; `none` means that the fuel ran out.
unfoldable pub spread : ℕ → List TaskNode → List String → List String → Option (List String)
spread zero nodes queue stale = none
spread (suc fuel) nodes [] stale = some stale
spread (suc fuel) nodes (task_id ∷ queue) stale = elim (contains task_id stale) [
  | true ↦ spread fuel nodes queue stale
  | false ↦ spread fuel nodes (queue ++ children nodes task_id) (task_id ∷ stale)
]

-- The dependencies that lead to tasks which are not stale yet.
abbrev pub open_dependencies : List TaskNode → List String → ℕ
open_dependencies [] stale = 0
open_dependencies (n ∷ ns) stale =
    length (select (λ d. not (contains d stale)) n.dependencies) + open_dependencies ns stale

-- Every dependency is followed once, so this much fuel is enough.
unfoldable pub invalidate_downstream : String → List TaskNode → Option (List String)
invalidate_downstream changed nodes =
    spread (suc (length (children nodes changed) + open_dependencies nodes [])) nodes
      (children nodes changed) []

unfoldable pub retry_decision : FailureContext → RetryDecision
retry_decision ctx =
    if ctx.side_effecting && not ctx.outcome_known
    then reconcile
    else if not ctx.transient || leb ctx.max_retries ctx.attempts
    then stop
    else retry

unfoldable pub protected_ambiguity_requires_human : Bool → Bool → Bool
protected_ambiguity_requires_human protected ambiguity_material = protected && ambiguity_material

unfoldable pub budget_exhausted : ℕ → ℕ → Bool
budget_exhausted used limit = leb limit used

unfoldable pub retrieved_content_can_grant_authority : String → Bool
retrieved_content_can_grant_authority content = false

unfoldable pub completion_claim_supported : List String → Bool → Bool
completion_claim_supported evidence_ids checks_passed = not (is_nil evidence_ids) && checks_passed
