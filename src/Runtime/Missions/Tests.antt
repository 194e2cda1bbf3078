-- ===== src/Runtime/Missions/Tests.antt =====
-- The database of missions and of the audit ledger on concrete missions.
use ai_factory.Base.{ℕ, String, ◌≡◌, ◌≢◌, refl, ◌⊎◌, none, some, List, [], ◌∷◌}
use ai_factory.Base.Result.{ok, err}
use ai_factory.Base.Dict.{lookup, insert}
use ai_factory.Base.Sorting.{sort_by}
use ai_factory.ControlPlane.State.{in_progress}
use ai_factory.ControlPlane.Graph.{TaskNode, validate_graph}
use ai_factory.ControlPlane.Ledger.{
  Unsigned, AuditEvent, append, next_event, verify_integrity, verify_event,
}
use ai_factory.ControlPlane.Ledger.Integrity.{Collision}
use ai_factory.ControlPlane.Runner.{Payload, MissionRunner, Request, new, started}
use ai_factory.ControlPlane.Runner.Run.{Command, move, release, run}
use ai_factory.Runtime.Audit.{append_stored, fields_required}
use ai_factory.Runtime.Audit.Refines.{forget_error, append_refines}
use ai_factory.Runtime.Missions.{
  MissionDatabase, create_runner, load_nodes, restore_runner, insert_mission, insert_tasks,
  mission_exists,
}
use ai_factory.Runtime.Missions.Created.{IsReferenced}
use ai_factory.Runtime.Missions.Restored.{in_order, load_nodes-create_runner, restore_runner-run}

abbrev digest : Unsigned Payload → String
digest u = u.event_id

abbrev clock : ℕ → String
clock n = "2026-01-01T00:00:00+00:00"

abbrev later : ℕ → String
later n = "2026-02-01T00:00:00+00:00"

abbrev node : String → List String → TaskNode
node task_id dependencies = record {
  task_id = task_id;
  dependencies = dependencies;
  write_scopes = [];
}

abbrev nodes : List TaskNode
nodes = node "T-1" [] ∷ node "T-2" ("T-1" ∷ []) ∷ []

abbrev ids : List String
ids = "T-1" ∷ "T-2" ∷ []

abbrev no_missions : MissionDatabase
no_missions = record { missions = []; tasks = []; events = [] }

no_missions-IsReferenced : IsReferenced no_missions
unfolding IsReferenced
no_missions-IsReferenced mission_id h = refl

abbrev one_mission : MissionDatabase
one_mission = record {
  missions = ("M-1", "now") ∷ [];
  tasks =
      record { mission_id = "M-1"; node = node "T-1" [] }
      ∷ record { mission_id = "M-1"; node = node "T-2" ("T-1" ∷ []) }
      ∷ [];
  events = [];
}

abbrev mission : MissionRunner
mission = started "M-1" ids (some nodes)

mission_created : create_runner "M-1" nodes "now" no_missions ≡ (ok mission, one_mission)
unfolding create_runner insert_mission insert_tasks validate_graph lookup insert new
mission_created = refl

not_created_twice :
    create_runner "M-1" nodes "now" one_mission ≡ (err (mission_exists "M-1"), one_mission)
unfolding create_runner insert_mission insert_tasks validate_graph lookup insert new
not_created_twice = refl

load_nodes-create_runner_example :
    (load_nodes "M-1" one_mission ≡ ok (in_order nodes "M-1"))
    × ((other : String)
        → other ≢ "M-1"
        → load_nodes other one_mission ≡ load_nodes other no_missions)
    × IsReferenced one_mission
load_nodes-create_runner_example =
    load_nodes-create_runner "M-1" nodes "now" no_missions no_missions-IsReferenced mission_created

nodes_in_order : in_order nodes "M-1" ≡ nodes
unfolding sort_by
nodes_in_order = refl

abbrev ask : Request
ask = record {
  task_id = "T-1";
  target = in_progress;
  actor_id = "builder";
  evidence_ids = [];
  reviewer_ids = [];
  blocking_objections = [];
  human_approval_id = none;
  event_id = none;
}

abbrev working : List Command
working = release "planner" ∷ move ask ∷ []

restore_runner-run_example :
    restore_runner digest later "M-1"
      (record one_mission { events = (run digest clock working mission).ledger })
    ≡ ok (run digest clock working mission)
restore_runner-run_example =
    restore_runner-run digest clock later "M-1" nodes "now" no_missions working
      no_missions-IsReferenced refl nodes_in_order mission_created

abbrev text_digest : Unsigned String → String
text_digest u = u.event_id

abbrev stored : List (AuditEvent String)
stored = next_event text_digest "E-1" "M-1" "builder" "NOTE" "" none "now" [] ∷ []

stored_verifies : verify_integrity text_digest stored ≡ ok tt
unfolding verify_integrity verify_event
stored_verifies = refl

append_refines_example :
    (forget_error (append_stored text_digest "E-2" "M-1" "builder" "NOTE" "" none "now" stored)
      ≡ forget_error (append text_digest "E-2" "M-1" "builder" "NOTE" "" none "now" stored))
    ⊎ Collision text_digest
append_refines_example =
    append_refines text_digest "E-2" "M-1" "builder" "NOTE" "" none "now" stored stored_verifies

-- The fields are checked before the id is.
fields_come_first :
    append_stored text_digest "E-1" "" "builder" "NOTE" "" none "now" stored
    ≡ (err fields_required, stored)
unfolding append_stored
fields_come_first = refl
