-- ===== src/RealEstate/Review.antt =====
-- missions/real_estate/review_queue.py: the queue in which an operator reviews the detector's findings,
-- with a hash-chained history of each case. `sha256` is the hash of a text, `digest` the SHA-256 of the
-- canonical JSON of an unsigned event, and `now` the clock's reading in a call. JSON round trips are
-- identities, so a row holds the finding itself.
pub mod Calls
pub mod Runs
pub mod Steps
pub mod Refines
pub mod Chain
pub mod Decisions
pub mod Final
pub mod Current
pub mod Tests
use ai_factory.Base.{
  String, Bool, true, false, not, ◌&&◌, ◌||◌, Option, none, some, List, [], ◌∷◌, ◌++◌, ⊤,
  if◌then◌else◌, ◌==◌, is_some, select, get_last?, text_prefix,
}
use Prim.Native.String.{◌++◌ as concat}
use ai_factory.Base.Action.{
  Action, pure, raise, raise_if, gets, modify, lift, or_raise, transaction, ◌>>=◌, ◌>>◌,
}
use ai_factory.Base.Result.{Result, ok, err, map_err}
use ai_factory.Base.Dict.{Dict, lookup, insert, values}
use ai_factory.RealEstate.Anomalies.{
  AnomalyFinding, AnomalyError, FindingSeverity, low, medium, high, critical, validate,
}

pub data ReviewStatus : Type 0 where
  opened in_review resolved dismissed : ReviewStatus

pub data ReviewOutcome : Type 0 where
  confirmed_anomaly false_positive insufficient_evidence : ReviewOutcome

-- A row of `review_cases`, and what `get` returns of it.
pub record ReviewCase : Type 0 where
  pub case_id : String
  pub finding : AnomalyFinding
  pub status : ReviewStatus
  pub assigned_reviewer : Option String
  pub created_at : String
  pub updated_at : String

-- What an event's hash is taken of.
pub record Unsigned : Type 0 where
  pub case_id : String
  pub event_type : String
  pub actor_id : String
  pub from_status : Option ReviewStatus
  pub to_status : ReviewStatus
  pub outcome : Option ReviewOutcome
  pub evidence_refs : List String
  pub note : String
  pub occurred_at : String
  pub previous_hash : String

-- The rows stand in the order of their numbers.
pub record ReviewEvent : Type 0 where
  pub unsigned : Unsigned
  pub event_hash : String

pub record ReviewStore : Type 0 where
  pub cases : Dict ReviewCase
  pub events : List ReviewEvent

-- `duplicate_row` is the database's `IntegrityError`, `unknown_case` the `KeyError`.
pub data ReviewError : Type 0 where
  anomaly : AnomalyError → ReviewError
  unknown_case : String → ReviewError
  reviewer_required not_independent not_assigned : ReviewError
  not_open not_in_review : ReviewStatus → ReviewError
  evidence_required note_required duplicate_row stale_finding : ReviewError

abbrev pub Method : Type 0 → Type 0
Method A = Action ReviewStore ReviewError A

abbrev pub is_open : ReviewStatus → Bool
is_open opened = true
is_open _ = false

abbrev pub is_in_review : ReviewStatus → Bool
is_in_review in_review = true
is_in_review _ = false

-- `finding.severity in {HIGH, CRITICAL}`
abbrev pub is_grave : FindingSeverity → Bool
is_grave high = true
is_grave critical = true
is_grave _ = false

-- `_case_row`
unfoldable pub case_row : String → Method ReviewCase
case_row id = do s ← gets (λ s. s); or_raise (lookup id s.cases) (unknown_case id)

-- `get`; the finding is validated when it is read.
unfoldable pub get : String → Method ReviewCase
unfolding case_row
get id = do row ← case_row id; lift (map_err anomaly (validate row.finding)); pure row

abbrev pub is_of : String → ReviewEvent → Bool
is_of id e = e.unsigned.case_id == id

-- The events of a case, in order.
abbrev pub rows_of : String → List ReviewEvent → List ReviewEvent
rows_of id events = select (is_of id) events

abbrev pub last_hash : List ReviewEvent → String
last_hash rows = elim (get_last? rows) [ none ↦ "GENESIS" | some e ↦ e.event_hash ]

abbrev pub put_case : String → ReviewCase → Method ⊤
put_case id row = modify (λ s. record s { cases = insert id row s.cases })

-- The row of `SELECT … WHERE finding_id = ?`, a unique column.
unfoldable pub with_finding : String → List ReviewCase → Option ReviewCase
with_finding finding_id [] = none
with_finding finding_id (row ∷ rows) =
    if row.finding.finding_id == finding_id then some row else with_finding finding_id rows

-- The status in which a decision leaves a case.
abbrev pub decided_status : ReviewOutcome → ReviewStatus
decided_status false_positive = dismissed
decided_status _ = resolved

module _ (digest : Unsigned → String) where
  -- The event that `_append_event` inserts: the given fields, chained to the case's last event.
  abbrev pub next_event : Unsigned → List ReviewEvent → ReviewEvent
  next_event u events =
      let chained : Unsigned = record u { previous_hash = last_hash (rows_of u.case_id events) } in
      record { unsigned = chained; event_hash = digest chained }

  -- `_append_event`; the previous hash of the argument is not looked at.
  unfoldable pub append_event : Unsigned → Method ⊤
  append_event u = modify (λ s. record s { events = s.events ++ next_event u s.events ∷ [] })
