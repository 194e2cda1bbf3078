-- ===== src/Runtime/Missions.antt =====
-- factory/runtime/sqlite_store.py, `SQLiteMissionStore`: the missions and their tasks in the database of
-- the audit ledger. `missions` holds when each mission was created; a list of texts stands for its JSON.
pub mod Created
pub mod Restored
mod Tests
use ai_factory.Base.{
  ℕ, String, Bool, true, false, ◌&&◌, ◌||◌, Option, none, some, List, [], ◌∷◌, ◌++◌, ⊤, map, ◌==◌,
  any, is_nil, is_empty, is_some, select, if◌then◌else◌,
}
use ai_factory.Base.Result.{Result, ok, err, map_err, or_raise}
use ai_factory.Base.Result
use ai_factory.Base.Action.{Action, pure, raise_if, gets, modify, lift, transaction, ◌>>=◌, ◌>>◌}
use ai_factory.Base.Dict.{Dict, lookup, insert}
use ai_factory.Base.Sorting.{text_lt, sort_by}
use ai_factory.ControlPlane.Graph.{TaskNode, GraphError, validate_graph}
use ai_factory.ControlPlane.Ledger.{Unsigned, AuditEvent}
use ai_factory.ControlPlane.Runner.{Payload, MissionRunner, RunnerError, new, replay}

pub record TaskRow : Type 0 where
  pub mission_id : String
  pub node : TaskNode

pub record MissionDatabase : Type 0 where
  pub missions : Dict String
  pub tasks : List TaskRow
  pub events : List (AuditEvent Payload)

pub data MissionError : Type 0 where
  invalid_graph : GraphError → MissionError
  mission_and_task_required : MissionError
  mission_exists unknown_mission : String → MissionError
  runner_error : RunnerError → MissionError

abbrev pub has_key : String → TaskNode → TaskRow → Bool
has_key mission_id n row = row.mission_id == mission_id && row.node.task_id == n.task_id

abbrev pub row_of : String → TaskNode → TaskRow
row_of mission_id n = record { mission_id = mission_id; node = n }

-- `executemany`; the primary key is the mission and the task.
unfoldable pub insert_tasks : String → List TaskNode → Action MissionDatabase MissionError ⊤
insert_tasks mission_id [] = pure tt
insert_tasks mission_id (n ∷ ns) = do
  s ← gets (λ s. s)
  raise_if (any (has_key mission_id n) s.tasks) (mission_exists mission_id)
  modify (λ s. record s { tasks = s.tasks ++ row_of mission_id n ∷ [] })
  insert_tasks mission_id ns

-- The two `INSERT`s.
unfoldable pub insert_mission :
    String → List TaskNode → String → Action MissionDatabase MissionError ⊤
unfolding insert_tasks
insert_mission mission_id nodes now = do
  s ← gets (λ s. s)
  raise_if (is_some (lookup mission_id s.missions)) (mission_exists mission_id)
  modify (λ s. record s { missions = insert mission_id now s.missions })
  insert_tasks mission_id nodes

-- The runner that is returned works on the ledger of the database.
unfoldable pub create_runner :
    String → List TaskNode → String → Action MissionDatabase MissionError MissionRunner
unfolding insert_mission
create_runner mission_id nodes now = do
  lift (map_err invalid_graph (validate_graph nodes))
  raise_if (is_empty mission_id || is_nil nodes) mission_and_task_required
  transaction (insert_mission mission_id nodes now)
  s ← gets (λ s. s)
  runner ←
      lift (
        map_err runner_error
          (new mission_id (map (λ (n : TaskNode). n.task_id) nodes) (some nodes)))
  pure (record runner { ledger = s.events })

-- `ORDER BY task_id`
abbrev pub row_after : TaskRow → TaskRow → Bool
row_after x y = text_lt y.node.task_id x.node.task_id

abbrev pub rows_of : String → List TaskRow → List TaskRow
rows_of mission_id = select (λ row. row.mission_id == mission_id)

-- `_load_nodes`
unfoldable pub load_nodes : String → MissionDatabase → Result MissionError (List TaskNode)
load_nodes mission_id s =
    Result.◌>>=◌ (or_raise (lookup mission_id s.missions) (unknown_mission mission_id))
      λ _. ok (map (λ (row : TaskRow). row.node) (sort_by row_after (rows_of mission_id s.tasks)))

unfoldable pub restore_runner :
    (Unsigned Payload → String)
    → (ℕ → String)
    → String
    → MissionDatabase
    → Result MissionError MissionRunner
unfolding load_nodes
restore_runner digest clock mission_id s = Result.◌>>=◌ (load_nodes mission_id s) λ nodes.
    Result.◌>>=◌
      (map_err runner_error (
        replay digest clock mission_id (map (λ (n : TaskNode). n.task_id) nodes) s.events
          (some nodes)))
      λ replayed. ok (record replayed { ledger = s.events })
