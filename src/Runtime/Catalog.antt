-- ===== src/Runtime/Catalog.antt =====
-- factory/runtime/catalog.py: agents, versioned artifacts, budgets and approvals, one table to a field.
-- `digest` stands for the SHA-256 of a text, and `now` for the clock's reading in a call; the write-only
-- `updated_at` columns are left out. Units are numbers of zero or more.
pub mod Approving
pub mod Spending
pub mod Versions
use ai_factory.Base.{
  ℕ, ◌+◌, String, Bool, true, false, not, ◌&&◌, ◌||◌, Option, none, some, List, [], ◌∷◌, ◌++◌, ⊤,
  if◌then◌else◌, ltb, eqb, ◌==◌, is_some, is_empty, select, any,
}
use ai_factory.Base.Result.{Result, ok, err}
use ai_factory.Base.Action.{
  Action, pure, raise, raise_if, gets, modify, lift, or_raise, transaction, ◌>>=◌, ◌>>◌,
}
use ai_factory.Base.Dict.{Dict, lookup, insert}
use ai_factory.Base.Sorting.{sorted, distinct}

pub record Agent : Type 0 where
  pub agent_id : String
  pub role : String
  pub capabilities : List String
  pub active : Bool

pub record Artifact : Type 0 where
  pub mission_id : String
  pub artifact_id : String
  pub version : ℕ
  pub media_type : String
  pub content_hash : String
  pub content : String
  pub created_by : String
  pub created_at : String

pub record Budget : Type 0 where
  pub limit_units : ℕ
  pub consumed_units : ℕ

pub data ApprovalStatus : Type 0 where
  pending approved denied : ApprovalStatus

abbrev pub value : ApprovalStatus → String
value pending = "PENDING"
value approved = "APPROVED"
value denied = "DENIED"

abbrev pub is_pending : ApprovalStatus → Bool
is_pending pending = true
is_pending _ = false

pub record Approval : Type 0 where
  pub mission_id : String
  pub action_type : String
  pub target : String
  pub protected : Bool
  pub status : ApprovalStatus
  pub decided_by : Option String
  pub created_at : String
  pub decided_at : Option String

pub record Catalog : Type 0 where
  pub agents : Dict Agent
  pub artifacts : List Artifact
  pub budgets : Dict Budget
  pub approvals : Dict Approval

pub data CatalogError : Type 0 where
  agent_required artifact_required units_required budget_exhausted duplicate_version : CatalogError
  cross_mission already_decided : CatalogError
  unknown_agent unknown_budget unknown_proposal duplicate_proposal : String → CatalogError
  unknown_artifact : String → String → CatalogError

abbrev pub Method : Type 0 → Type 0
Method A = Action Catalog CatalogError A

unfoldable pub register_agent : String → String → List String → Bool → Method ⊤
register_agent agent_id role capabilities active = do
  raise_if (is_empty agent_id || is_empty role) agent_required
  modify (λ s. record s {
    agents =
        insert agent_id
          (record {
            agent_id = agent_id;
            role = role;
            capabilities = sorted (distinct capabilities);
            active = active;
          })
          s.agents;
  })

unfoldable pub get_agent : String → Method Agent
get_agent agent_id = do
  s ← gets (λ s. s)
  or_raise (lookup agent_id s.agents) (unknown_agent agent_id)

abbrev pub is_artifact : String → String → Artifact → Bool
is_artifact mission_id artifact_id a = a.mission_id == mission_id && a.artifact_id == artifact_id

abbrev pub max : ℕ → ℕ → ℕ
max a b = if ltb a b then b else a

-- `SELECT MAX(version)`, which is NULL where there is no row, and versions start at 1.
abbrev pub max_version : List Artifact → ℕ
max_version [] = 0
max_version (a ∷ rest) = max a.version (max_version rest)

abbrev pub versions_of : String → String → List Artifact → List Artifact
versions_of mission_id artifact_id artifacts = select (is_artifact mission_id artifact_id) artifacts

module _ (digest : String → String) where
  abbrev pub new_artifact :
      String → String → String → String → String → String → List Artifact → Artifact
  new_artifact mission_id artifact_id content created_by media_type now artifacts = record {
    mission_id = mission_id;
    artifact_id = artifact_id;
    version = max_version (versions_of mission_id artifact_id artifacts) + 1;
    media_type = media_type;
    content_hash = digest content;
    content = content;
    created_by = created_by;
    created_at = now;
  }

  -- The new version is above all others, so no key is broken.
  unfoldable pub add_artifact :
      String → String → String → String → String → String → Method Artifact
  add_artifact mission_id artifact_id content created_by media_type now = do
    raise_if (is_empty mission_id || (is_empty artifact_id || is_empty created_by))
        artifact_required
    s ← gets (λ s. s)
    let a = new_artifact mission_id artifact_id content created_by media_type now s.artifacts
    modify (λ s. record s { artifacts = s.artifacts ++ a ∷ [] })
    pure a

-- `ORDER BY version DESC LIMIT 1`
abbrev pub latest_of : List Artifact → Option Artifact
latest_of [] = none
latest_of (a ∷ rest) = elim (latest_of rest) [
  | none ↦ some a
  | some b ↦ if ltb a.version b.version then some b else some a
]

unfoldable pub latest_artifact : String → String → Method Artifact
latest_artifact mission_id artifact_id = do
  s ← gets (λ s. s)
  or_raise (latest_of (versions_of mission_id artifact_id s.artifacts))
      (unknown_artifact mission_id artifact_id)

abbrev pub put_budget : String → Budget → Method ⊤
put_budget mission_id b = modify (λ s. record s { budgets = insert mission_id b s.budgets })

-- The units that an upsert keeps.
abbrev pub consumed_in : Option Budget → ℕ
consumed_in none = 0
consumed_in (some b) = b.consumed_units

unfoldable pub set_budget : String → ℕ → Method ⊤
set_budget mission_id limit_units = do
  s ← gets (λ s. s)
  put_budget mission_id (record {
    limit_units = limit_units;
    consumed_units = consumed_in (lookup mission_id s.budgets);
  })

unfoldable pub consume_budget : String → ℕ → Method (ℕ × ℕ)
consume_budget mission_id units = do
  raise_if (eqb units 0) units_required
  s ← gets (λ s. s)
  b ← or_raise (lookup mission_id s.budgets) (unknown_budget mission_id)
  raise_if (ltb b.limit_units (b.consumed_units + units)) budget_exhausted
  put_budget mission_id (record b { consumed_units = b.consumed_units + units })
  pure (b.consumed_units + units, b.limit_units)

abbrev pub put_approval : String → Approval → Method ⊤
put_approval id a = modify (λ s. record s { approvals = insert id a s.approvals })

abbrev pub new_approval : String → String → String → Bool → String → Approval
new_approval mission_id action_type target protected now = record {
  mission_id = mission_id;
  action_type = action_type;
  target = target;
  protected = protected;
  status = pending;
  decided_by = none;
  created_at = now;
  decided_at = none;
}

unfoldable pub propose_action : String → String → String → String → Bool → String → Method ⊤
propose_action proposal_id mission_id action_type target protected now = do
  s ← gets (λ s. s)
  raise_if (is_some (lookup proposal_id s.approvals)) (duplicate_proposal proposal_id)
  put_approval proposal_id (new_approval mission_id action_type target protected now)

-- `mission_id is not None and row["mission_id"] != mission_id`
abbrev pub is_foreign : Option String → Approval → Bool
is_foreign none a = false
is_foreign (some mission_id) a = not (a.mission_id == mission_id)

unfoldable pub approval_record : String → Option String → Method Approval
approval_record proposal_id mission_id = do
  s ← gets (λ s. s)
  a ← or_raise (lookup proposal_id s.approvals) (unknown_proposal proposal_id)
  raise_if (is_foreign mission_id a) cross_mission
  pure a

abbrev pub decision : Bool → ApprovalStatus
decision accept = if accept then approved else denied

abbrev pub decided : Approval → Bool → String → String → Approval
decided a accept decided_by now = record a {
  status = decision accept;
  decided_by = some decided_by;
  decided_at = some now;
}

unfoldable pub decide_action :
    String → Bool → String → Option String → String → Method ApprovalStatus
decide_action proposal_id accept decided_by mission_id now = do
  s ← gets (λ s. s)
  a ← or_raise (lookup proposal_id s.approvals) (unknown_proposal proposal_id)
  raise_if (is_foreign mission_id a) cross_mission
  raise_if (not (is_pending a.status)) already_decided
  put_approval proposal_id (decided a accept decided_by now)
  pure (decision accept)

unfoldable pub approval_status : String → Option String → Method String
approval_status proposal_id mission_id = do
  a ← approval_record proposal_id mission_id
  pure (value a.status)
