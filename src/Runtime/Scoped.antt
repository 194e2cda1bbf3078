-- ===== src/Runtime/Scoped.antt =====
-- factory/runtime/mission_scope.py: a catalog that is bound to one mission, and
-- factory/runtime/policy.py: the authorization before work with side effects.
use ai_factory.Base.{
  ℕ, String, Bool, true, false, not, ◌&&◌, Option, none, some, List, ⊤, is_empty, contains, ◌==◌,
  if◌then◌else◌,
}
use ai_factory.Base.Result.{Result, ok, err}
use ai_factory.Base.Action.{Action, raise_if, ◌>>◌}
use ai_factory.Base.Result
use ai_factory.Runtime.Catalog
use ai_factory.Runtime.Catalog.{Catalog, CatalogError, ApprovalStatus, Artifact}

-- The catalog itself is the state of the actions.
pub record MissionScopedCatalog : Type 0 where
  pub mission_id : String

pub data ScopeError : Type 0 where
  mission_id_required proposal_id_required : ScopeError
  catalog_error : CatalogError → ScopeError

abbrev pub on_catalog : {A : Type 0} → Catalog.Method A → Action Catalog ScopeError A
on_catalog m s = let (x, s') = m s in (Result.map_err catalog_error x, s')

-- `__post_init__`
unfoldable pub bind_mission : String → Result ScopeError MissionScopedCatalog
bind_mission mission_id =
    Result.◌>>◌ (Result.raise_if (is_empty mission_id) mission_id_required)
      (ok (record { mission_id = mission_id }))

unfoldable pub add_scoped_artifact :
    (String → String)
    → MissionScopedCatalog
    → String
    → String
    → String
    → String
    → String
    → Action Catalog ScopeError Artifact
add_scoped_artifact digest c artifact_id content created_by media_type now =
    on_catalog
      (Catalog.add_artifact digest c.mission_id artifact_id content created_by media_type now)

unfoldable pub latest_scoped_artifact :
    MissionScopedCatalog → String → Action Catalog ScopeError Artifact
latest_scoped_artifact c artifact_id = on_catalog (Catalog.latest_artifact c.mission_id artifact_id)

unfoldable pub set_scoped_budget : MissionScopedCatalog → ℕ → Action Catalog ScopeError ⊤
set_scoped_budget c limit_units = on_catalog (Catalog.set_budget c.mission_id limit_units)

unfoldable pub consume_scoped_budget : MissionScopedCatalog → ℕ → Action Catalog ScopeError (ℕ × ℕ)
consume_scoped_budget c units = on_catalog (Catalog.consume_budget c.mission_id units)

unfoldable pub propose_scoped_action :
    MissionScopedCatalog → String → String → String → Bool → String → Action Catalog ScopeError ⊤
propose_scoped_action c proposal_id action_type target protected now =
    on_catalog (Catalog.propose_action proposal_id c.mission_id action_type target protected now)

unfoldable pub scoped_approval_status :
    MissionScopedCatalog → String → Action Catalog ScopeError String
scoped_approval_status c proposal_id = do
  raise_if (is_empty proposal_id) proposal_id_required
  on_catalog (Catalog.approval_status proposal_id (some c.mission_id))

unfoldable pub decide_scoped_action :
    MissionScopedCatalog
    → String
    → Bool
    → String
    → String
    → Action Catalog ScopeError ApprovalStatus
decide_scoped_action c proposal_id accept decided_by now = do
  raise_if (is_empty proposal_id) proposal_id_required
  on_catalog (Catalog.decide_action proposal_id accept decided_by (some c.mission_id) now)

-- The reasons of `PolicyDecision`; it is allowed just for the last.
pub data PolicyReason : Type 0 where
  missing_capability budget_exhausted human_approval_required allowed : PolicyReason

pub record PolicyDecision : Type 0 where
  pub is_allowed : Bool
  pub reason : PolicyReason

abbrev is_approved : Option String → Bool
is_approved none = false
is_approved (some status) = status == "APPROVED"

-- `PolicyEngineV0.authorize`
unfoldable pub authorize_work : String → List String → Bool → Option String → Bool → PolicyDecision
authorize_work capability_required agent_capabilities protected approval_status budget_available =
    if not (contains capability_required agent_capabilities)
    then record { is_allowed = false; reason = missing_capability }
    else if not budget_available
    then record { is_allowed = false; reason = budget_exhausted }
    else if protected && not (is_approved approval_status)
    then record { is_allowed = false; reason = human_approval_required }
    else record { is_allowed = true; reason = allowed }
