-- ===== src/Runtime/Incidents.antt =====
-- factory/runtime/incidents.py: incidents, their evidence, their actions and the hash-chained history
-- of each. `digest` stands for the SHA-256 of the canonical JSON of an unsigned event, `approvals` for
-- the runtime catalog's `approval_status`, and `now` for the clock's reading in a call. The rows of one
-- incident's history are inserted in the order of their sequence. Severities are texts.
pub mod Calls
pub mod Runs
pub mod Links
pub mod History
pub mod Effects
pub mod Closing
pub mod Executed
pub mod Execution
use ai_factory.Base.{
  ℕ, ◌+◌, String, Bool, true, false, not, ◌&&◌, ◌||◌, Option, none, some, List, [], ◌∷◌, ◌++◌, ⊤,
  if◌then◌else◌, eqb, ◌==◌, is_some, is_nil, is_blank, is_absent, select, any, all, contains,
  get_last?,
}
use ai_factory.Base.Result.{Result, ok, err}
use ai_factory.Base.Result
use ai_factory.Base.Action.{
  Action, pure, raise, raise_if, gets, modify, lift, or_raise, transaction, ◌>>=◌, ◌>>◌,
}
use ai_factory.Base.Dict.{Dict, lookup, insert}

pub data IncidentStatus : Type 0 where
  declared triaged containing contained recovering monitoring closed : IncidentStatus

abbrev pub value : IncidentStatus → String
value declared = "DECLARED"
value triaged = "TRIAGED"
value containing = "CONTAINING"
value contained = "CONTAINED"
value recovering = "RECOVERING"
value monitoring = "MONITORING"
value closed = "CLOSED"

-- The member of `INCIDENT_STATUSES`.
unfoldable pub of_value : String → Option IncidentStatus
of_value v =
    if v == "DECLARED"
    then some declared
    else if v == "TRIAGED"
    then some triaged
    else if v == "CONTAINING"
    then some containing
    else if v == "CONTAINED"
    then some contained
    else if v == "RECOVERING"
    then some recovering
    else if v == "MONITORING"
    then some monitoring
    else if v == "CLOSED"
    then some closed
    else none

-- `new_status in ALLOWED_TRANSITIONS[current]`
unfoldable pub may_follow : IncidentStatus → IncidentStatus → Bool
may_follow declared triaged = true
may_follow triaged containing = true
may_follow containing contained = true
may_follow contained recovering = true
may_follow recovering monitoring = true
may_follow monitoring closed = true
may_follow monitoring recovering = true
may_follow _ _ = false

abbrev pub is_closed : IncidentStatus → Bool
is_closed closed = true
is_closed _ = false

abbrev pub is_recovering : IncidentStatus → Bool
is_recovering recovering = true
is_recovering monitoring = true
is_recovering _ = false

abbrev severities : List String
severities = "SEV1" ∷ "SEV2" ∷ "SEV3" ∷ "SEV4" ∷ []

pub record IncidentRecord : Type 0 where
  pub incident_id : String
  pub mission_id : String
  pub severity : String
  pub title : String
  pub status : IncidentStatus
  pub declared_by : String
  pub affected_scope : List String
  pub recovery_verified : Bool
  pub created_at : String
  pub updated_at : String

pub record Evidence : Type 0 where
  pub incident_id : String
  pub evidence_id : String
  pub kind : String
  pub reference : String
  pub recorded_by : String
  pub created_at : String

-- The table also allows FAILED, which nothing writes.
pub data ActionStatus : Type 0 where
  planned executed : ActionStatus

abbrev pub is_planned : ActionStatus → Bool
is_planned planned = true
is_planned executed = false

pub record IncidentAction : Type 0 where
  pub incident_id : String
  pub action_id : String
  pub action_type : String
  pub target : String
  pub protected : Bool
  pub proposal_id : Option String
  pub status : ActionStatus
  pub actor_id : String
  pub created_at : String
  pub executed_at : Option String

-- The payload of an event, by the event's type.
pub data Happening : Type 0 where
  incident_declared : String → List String → Happening
  status_changed : IncidentStatus → IncidentStatus → Happening
  evidence_recorded : String → String → String → Happening
  action_planned : String → String → String → Bool → Option String → Happening
  action_executed recovery_verified_by : String → Happening

pub record Unsigned : Type 0 where
  pub incident_id : String
  pub sequence : ℕ
  pub actor_id : String
  pub happening : Happening
  pub created_at : String
  pub previous_hash : String

pub record IncidentEvent : Type 0 where
  pub unsigned : Unsigned
  pub event_hash : String

pub record IncidentStore : Type 0 where
  pub incidents : Dict IncidentRecord
  pub evidence : List Evidence
  pub actions : List IncidentAction
  pub events : List IncidentEvent

-- One constructor for each `raise`; `duplicate_row` is the database's `IntegrityError`.
pub data IncidentError : Type 0 where
  invalid_severity identity_required scope_required duplicate_incident : IncidentError
  unknown_incident unknown_action : String → IncidentError
  cross_mission invalid_status recovery_not_verified closure_requires_evidence : IncidentError
  illegal_transition : IncidentStatus → IncidentStatus → IncidentError
  proposal_required already_decided catalog_required approval_required : IncidentError
  approval_unavailable not_recovering unrecorded_evidence duplicate_row : IncidentError
  sequence_gap chain_break mutation_detected : IncidentError

abbrev pub Method : Type 0 → Type 0
Method A = Action IncidentStore IncidentError A

abbrev pub is_of : String → IncidentEvent → Bool
is_of id e = e.unsigned.incident_id == id

-- The history of an incident.
abbrev pub rows_of : String → List IncidentEvent → List IncidentEvent
rows_of id events = select (is_of id) events

-- The sequence and the previous hash of an incident's next event.
abbrev pub next_link : List IncidentEvent → ℕ × String
next_link rows = elim (get_last? rows) [
  | none ↦ (1, "GENESIS")
  | some e ↦ (e.unsigned.sequence + 1, e.event_hash)
]

-- The row of an incident, for a caller who names its mission.
unfoldable pub incident_of : String → String → Method IncidentRecord
incident_of id mission_id = do
  s ← gets (λ s. s)
  row ← or_raise (lookup id s.incidents) (unknown_incident id)
  raise_if (not (row.mission_id == mission_id)) cross_mission
  pure row

abbrev pub put_incident : String → IncidentRecord → Method ⊤
put_incident id row = modify (λ s. record s { incidents = insert id row s.incidents })

abbrev pub is_evidence : String → String → Evidence → Bool
is_evidence id evidence_id e = e.incident_id == id && e.evidence_id == evidence_id

abbrev pub is_action : String → String → IncidentAction → Bool
is_action id action_id a = a.incident_id == id && a.action_id == action_id

-- `SELECT … WHERE incident_id=? AND action_id=?`, a primary key.
unfoldable pub find_action : String → String → List IncidentAction → Option IncidentAction
find_action id action_id [] = none
find_action id action_id (a ∷ rest) =
    if is_action id action_id a then some a else find_action id action_id rest

-- `UPDATE incident_actions SET status='EXECUTED',executed_at=? WHERE …`
unfoldable pub mark_executed : String → String → String → List IncidentAction → List IncidentAction
mark_executed now id action_id [] = []
mark_executed now id action_id (a ∷ rest) =
    (if is_action id action_id a then record a { status = executed; executed_at = some now } else a)
    ∷ mark_executed now id action_id rest

-- The checks on a transition to CLOSED.
abbrev pub may_close : String → IncidentRecord → IncidentStatus → Method ⊤
may_close id row target = do
  s ← gets (λ s. s)
  raise_if (is_closed target && not row.recovery_verified) recovery_not_verified
  raise_if (is_closed target && not (any (λ (e : Evidence). e.incident_id == id) s.evidence))
      closure_requires_evidence

abbrev pub all_named : String → String → String → String → Bool
all_named a b c d = not (is_blank a || (is_blank b || (is_blank c || is_blank d)))

abbrev pub proposal_text : Option String → String
proposal_text none = "None"
proposal_text (some p) = p

-- What `approval_status` answers on a proposal and a mission, where there is a catalog; `none` inside
-- is an error of the catalog.
abbrev pub Approvals : Type 0
Approvals = Option (String → String → Option String)

abbrev pub may_execute : Approvals → String → IncidentAction → Method ⊤
may_execute none mission_id a = raise_if a.protected catalog_required
may_execute (some status) mission_id a =
    if a.protected
    then (do
      answer ← or_raise (status (proposal_text a.proposal_id) mission_id) approval_unavailable
      raise_if (not (answer == "APPROVED")) approval_required)
    else pure tt
