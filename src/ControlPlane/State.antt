-- ===== src/ControlPlane/State.antt =====
-- factory/control_plane/state.py: the canonical task states and the transition gate.
pub mod Gate
use ai_factory.Base.{
  ℕ, String, Bool, true, false, ◌&&◌, not, Option, none, some, List, [], ◌∷◌, map, ⊤, if◌then◌else◌,
  eqb, is_nil, is_absent, is_disjoint, ◌==◌,
}
use ai_factory.Base.Result.{Result, ok, err, ◌>>=◌, ◌>>◌, raise_if}
use ai_factory.Base.Sorting.{sorted}

pub data TaskState : Type 0 where
  backlog ready in_progress blocked ready_for_verification review : TaskState
  changes_requested verified done failed cancelled stale awaiting_human_approval : TaskState

-- The member's value.
abbrev pub value : TaskState → String
value backlog = "BACKLOG"
value ready = "READY"
value in_progress = "IN_PROGRESS"
value blocked = "BLOCKED"
value ready_for_verification = "READY_FOR_VERIFICATION"
value review = "REVIEW"
value changes_requested = "CHANGES_REQUESTED"
value verified = "VERIFIED"
value done = "DONE"
value failed = "FAILED"
value cancelled = "CANCELLED"
value stale = "STALE"
value awaiting_human_approval = "AWAITING_HUMAN_APPROVAL"

-- Members are told apart by their position in the class.
abbrev pub index : TaskState → ℕ
index backlog = 0
index ready = 1
index in_progress = 2
index blocked = 3
index ready_for_verification = 4
index review = 5
index changes_requested = 6
index verified = 7
index done = 8
index failed = 9
index cancelled = 10
index stale = 11
index awaiting_human_approval = 12

-- `a is b`.
abbrev pub same : TaskState → TaskState → Bool
same a b = eqb (index a) (index b)

abbrev members : List TaskState
members =
    backlog ∷ ready ∷ in_progress ∷ blocked ∷ ready_for_verification ∷ review ∷ changes_requested
    ∷ verified ∷ done ∷ failed ∷ cancelled ∷ stale ∷ awaiting_human_approval ∷ []

abbrev find_value : String → List TaskState → Option TaskState
find_value v [] = none
find_value v (s ∷ ss) = if value s == v then some s else find_value v ss

-- `TaskState(v)`; `none` is the `ValueError`.
unfoldable pub of_value : String → Option TaskState
of_value v = find_value v members

-- `_ALLOWED`
unfoldable pub allowed : TaskState → List TaskState
allowed backlog = ready ∷ cancelled ∷ []
allowed ready = in_progress ∷ blocked ∷ cancelled ∷ stale ∷ []
allowed in_progress =
    blocked ∷ ready_for_verification ∷ failed ∷ cancelled ∷ awaiting_human_approval ∷ stale ∷ []
allowed blocked = ready ∷ in_progress ∷ cancelled ∷ failed ∷ stale ∷ []
allowed ready_for_verification = review ∷ changes_requested ∷ failed ∷ stale ∷ []
allowed review = verified ∷ changes_requested ∷ failed ∷ stale ∷ []
allowed changes_requested = in_progress ∷ cancelled ∷ stale ∷ []
allowed verified = done ∷ stale ∷ []
allowed done = stale ∷ []
allowed failed = ready ∷ cancelled ∷ []
allowed cancelled = []
allowed stale = ready ∷ cancelled ∷ []
allowed awaiting_human_approval = in_progress ∷ cancelled ∷ failed ∷ stale ∷ []

abbrev pub member : TaskState → List TaskState → Bool
member s [] = false
member s (t ∷ ts) = if same s t then true else member s ts

-- The values of `_ALLOWED[current]`, sorted; a member equals its value.
abbrev pub allowed_targets : TaskState → List String
unfolding allowed
allowed_targets current = sorted (map value (allowed current))

pub record TransitionContext : Type 0 where
  pub evidence_ids : List String
  pub reviewer_ids : List String
  pub worker_ids : List String
  pub blocking_objections : List String
  pub human_approval_id : Option String

-- One constructor for each `raise ValueError`.
pub data TransitionError : Type 0 where
  illegal_transition : TaskState → TaskState → TransitionError
  review_requires_evidence verified_requires_evidence verified_requires_reviewer : TransitionError
  verified_requires_independence verified_forbidden approval_required : TransitionError

-- The four checks under `if target is TaskState.VERIFIED`.
unfoldable pub validate_verified : TransitionContext → Result TransitionError ⊤
validate_verified ctx = do
  raise_if (is_nil ctx.evidence_ids) verified_requires_evidence
  raise_if (is_nil ctx.reviewer_ids) verified_requires_reviewer
  raise_if (not (is_disjoint ctx.reviewer_ids ctx.worker_ids)) verified_requires_independence
  raise_if (not (is_nil ctx.blocking_objections)) verified_forbidden

unfoldable pub validate_transition :
    TaskState → TaskState → TransitionContext → Result TransitionError ⊤
unfolding validate_verified allowed
validate_transition current target ctx = do
  raise_if (not (member target (allowed current))) (illegal_transition current target)
  raise_if (same target review && is_nil ctx.evidence_ids) review_requires_evidence
  if same target verified then validate_verified ctx else ok tt
  raise_if
      (same current awaiting_human_approval
        && (same target in_progress && is_absent ctx.human_approval_id))
      approval_required
