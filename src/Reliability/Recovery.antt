-- ===== src/Reliability/Recovery.antt =====
-- factory/reliability/recovery.py: what a mission does after a restart, from the durable store, and
-- the release preview's gate.
pub mod Safety
use ai_factory.Base.{
  ℕ, String, Bool, true, false, not, ◌&&◌, ◌||◌, List, [], ◌∷◌, map, ⊤, if◌then◌else◌, ◌==◌, is_nil,
  is_blank, is_unique, contains, all, ◌≡◌, refl, ap, sym, ◌∙◌, ◌≢◌, some, arith, eq_iff, subst,
  Option-cases, inl, inr,
}
use ai_factory.Base.Result.{Result, ok, err, map_err, for_each}
use ai_factory.Base.Result
use ai_factory.Base.Dict.{lookup}
use ai_factory.Base.Action.{Action, pure, raise_if, lift, ◌>>=◌, ◌>>◌}
use ai_factory.Reliability.Contracts.{
  RecoveryAction, complete, retry, reconcile, stop, other_action, RecoveryDecision,
}
use ai_factory.Reliability.Store.{StoreError, Status, op_ready, completed, stopped, OperationRow}
use ai_factory.Reliability.Store

pub record RecoveryItem : Type 0 where
  pub operation_id : String
  pub action : String
  pub reason : String

pub record RecoveryReport : Type 0 where
  pub mission_id : String
  pub items : List RecoveryItem
  pub safe_to_continue : Bool

pub data RecoveryError : Type 0 where
  item_identity unknown_action report_identity duplicate_operation safety_mismatch : RecoveryError
  operations_required other_mission : RecoveryError
  release_identity assurance_required unreviewed_fingerprint approval_required : RecoveryError
  store_failure : StoreError → RecoveryError

abbrev pub Call : Type 0 → Type 0
Call A = Action Store.Store RecoveryError A

abbrev pub action_value : RecoveryAction → String
action_value complete = "COMPLETE"
action_value retry = "RETRY"
action_value reconcile = "RECONCILE"
action_value stop = "STOP"
action_value (other_action text) = text

abbrev known_actions : List String
known_actions = "READY" ∷ "RETRY" ∷ "RECONCILE" ∷ "COMPLETE" ∷ "STOP" ∷ []

unfoldable pub validate_item : RecoveryItem → Result RecoveryError ⊤
validate_item i =
    Result.◌>>◌ (Result.raise_if (is_blank i.operation_id || is_blank i.reason) item_identity)
      (Result.raise_if (not (contains i.action known_actions)) unknown_action)

-- `item.action not in {"RECONCILE", "STOP"}`
abbrev pub is_safe : RecoveryItem → Bool
is_safe i = not (i.action == "RECONCILE" || i.action == "STOP")

abbrev same_bool : Bool → Bool → Bool
same_bool true b = b
same_bool false b = not b

unfoldable pub validate_report : RecoveryReport → Result RecoveryError ⊤
validate_report r =
    Result.◌>>◌ (Result.raise_if (is_blank r.mission_id || is_nil r.items) report_identity) (
      Result.◌>>◌
        (Result.raise_if (not (is_unique (map (λ (i : RecoveryItem). i.operation_id) r.items)))
          duplicate_operation)
        (Result.◌>>◌ (for_each r.items validate_item) (
          Result.raise_if (not (same_bool r.safe_to_continue (all is_safe r.items)))
            safety_mismatch)))

abbrev from_store : {A : Type 0} → Store.Method A → Call A
from_store m s = let (x, t) = m s in (map_err store_failure x, t)

abbrev pub item : String → String → String → RecoveryItem
item operation_id action reason = record {
  operation_id = operation_id;
  action = action;
  reason = reason;
}

-- The branches on the status.
unfoldable pub item_of : String → Status → Call RecoveryItem
item_of id op_ready = pure (item id "READY" "operation_not_started")
item_of id completed = pure (item id "COMPLETE" "operation_already_completed")
item_of id stopped = do d ← from_store (Store.latest_decision id); pure (item id "STOP" d.reason)
item_of id _ = do
  d ← from_store (Store.latest_decision id)
  pure (item id (action_value d.action) d.reason)

-- The loop's body.
unfoldable pub recover_item : String → String → Call RecoveryItem
recover_item mission_id id = do
  row ← from_store (Store.state_of id)
  raise_if (not (row.spec.mission_id == mission_id)) other_mission
  i ← item_of id row.status
  lift (validate_item i)
  pure i

unfoldable pub recover_each : String → List String → Call (List RecoveryItem)
recover_each mission_id [] = pure []
recover_each mission_id (id ∷ ids) = do
  i ← recover_item mission_id id
  rest ← recover_each mission_id ids
  pure (i ∷ rest)

abbrev pub report_of : String → List RecoveryItem → RecoveryReport
report_of mission_id items = record {
  mission_id = mission_id;
  items = items;
  safe_to_continue = all is_safe items;
}

unfoldable pub recover : String → List String → Call RecoveryReport
recover mission_id ids = do
  raise_if (is_nil ids) operations_required
  items ← recover_each mission_id ids
  lift (validate_report (report_of mission_id items))
  pure (report_of mission_id items)

pub record ReleasePreviewPlan : Type 0 where
  pub mission_id : String
  pub candidate_fingerprint : String
  pub reviewed_fingerprint : String
  pub assurance_status : String
  pub rollback_ref : String
  pub environment : String
  pub human_approval_granted : Bool

abbrev pub lacks_identity : ReleasePreviewPlan → Bool
lacks_identity p =
    is_blank p.mission_id
    || is_blank p.candidate_fingerprint
    || is_blank p.reviewed_fingerprint
    || is_blank p.rollback_ref
    || is_blank p.environment

unfoldable pub validate_release : ReleasePreviewPlan → Result RecoveryError ⊤
validate_release p = Result.◌>>◌ (Result.raise_if (lacks_identity p) release_identity) (
    Result.◌>>◌ (Result.raise_if (not (p.assurance_status == "PASS")) assurance_required) (
      Result.◌>>◌
        (Result.raise_if (not (p.candidate_fingerprint == p.reviewed_fingerprint))
          unreviewed_fingerprint)
        (Result.raise_if (p.environment == "PRODUCTION" && not p.human_approval_granted)
          approval_required)))

unfoldable pub may_execute : ReleasePreviewPlan → Result RecoveryError Bool
may_execute p =
    Result.◌>>◌ (validate_release p)
      (ok (not (p.environment == "PRODUCTION") || p.human_approval_granted))
