-- ===== src/ControlPlane/Policy.antt =====
-- factory/control_plane/policy.py and registry.py: what an agent may do, and which agents there are. The
-- values of a budget are natural numbers, so `Budget.validate`, which refuses negative ones, is left out.
use ai_factory.Base.{
  ℕ, String, Bool, true, false, not, ◌&&◌, List, [], ◌∷◌, ⊤, if◌then◌else◌, is_some, select,
  contains,
}
use ai_factory.Base.Sorting.{text_lt, sort_by}
use ai_factory.Base.Action.{Action, raise_if, gets, modify, or_raise, ◌>>=◌, ◌>>◌}
use ai_factory.Base.Dict.{Dict, lookup, insert, values}

abbrev pub protected_capabilities : List String
protected_capabilities =
    "production.deploy" ∷ "billing.modify" ∷ "finance.transact" ∷ "secrets.rotate"
    ∷ "identity.act_as_owner" ∷ "legal.accept" ∷ "data.production_destructive" ∷ []

pub record CapabilityGrant : Type 0 where
  pub agent_id : String
  pub capabilities : List String

pub record Budget : Type 0 where
  pub max_tokens : ℕ
  pub max_tool_calls : ℕ
  pub max_retries : ℕ
  pub max_parallel_tasks : ℕ

unfoldable pub authorize : CapabilityGrant → String → Bool → Bool
authorize grant capability human_approval =
    if not (contains capability grant.capabilities)
    then false
    else if contains capability protected_capabilities && not human_approval
    then false
    else true

pub record AgentRecord : Type 0 where
  pub agent_id : String
  pub role : String
  pub capabilities : List String
  pub write_scopes : List String
  pub enabled : Bool

abbrev pub AgentRegistry : Type 0
AgentRegistry = Dict AgentRecord

pub data RegistryError : Type 0 where
  duplicate_agent unknown_agent : String → RegistryError

-- `AgentRegistry.__init__`: the last record of an identifier counts.
unfoldable pub new_registry : List AgentRecord → AgentRegistry → AgentRegistry
new_registry [] agents = agents
new_registry (a ∷ rest) agents = new_registry rest (insert a.agent_id a agents)

unfoldable pub register : AgentRecord → Action AgentRegistry RegistryError ⊤
register agent = do
  agents ← gets (λ agents. agents)
  raise_if (is_some (lookup agent.agent_id agents)) (duplicate_agent agent.agent_id)
  modify (λ agents. insert agent.agent_id agent agents)

unfoldable pub get : String → Action AgentRegistry RegistryError AgentRecord
get agent_id = do
  agents ← gets (λ agents. agents)
  or_raise (lookup agent_id agents) (unknown_agent agent_id)

-- `sorted(…, key=lambda a: a.agent_id)`
abbrev pub agent_after : AgentRecord → AgentRecord → Bool
agent_after a b = text_lt b.agent_id a.agent_id

unfoldable pub candidates : String → AgentRegistry → List AgentRecord
candidates capability agents =
    sort_by agent_after (
      select (λ (a : AgentRecord). a.enabled && contains capability a.capabilities) (values agents))
