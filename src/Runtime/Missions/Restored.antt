-- ===== src/Runtime/Missions/Restored.antt =====
-- What is created can be restored (factory/runtime/sqlite_store.py, `SQLiteMissionStore`).
use ai_factory.Base.{
  ℕ, String, Bool, true, false, ◌≡◌, ◌≢◌, refl, ap, sym, ◌∙◌, some, List, [], map, ◌==◌, eq_iff,
}
use ai_factory.Base.Result.{ok}
use ai_factory.Base.Sorting.{sort_by}
use ai_factory.ControlPlane.Graph.{TaskNode}
use ai_factory.ControlPlane.Ledger.{Unsigned}
use ai_factory.ControlPlane.Runner.{Payload, MissionRunner, new}
use ai_factory.ControlPlane.Runner.Run.{new-IsStarted, Command, run}
use ai_factory.ControlPlane.Runner.Replay.{replay_rebuilds}
use ai_factory.Runtime.Missions.{
  TaskRow, MissionDatabase, row_of, row_after, create_runner, load_nodes, restore_runner,
}
use ai_factory.Runtime.Missions.Created.{
  IsReferenced, ids_of, create_runner-IsCreated, with_mission-IsReferenced, load_nodes_other,
  load_nodes-with_mission,
}

-- The tasks in the order in which the database gives them back.
abbrev pub in_order : List TaskNode → String → List TaskNode
in_order nodes mission_id =
    map (λ (row : TaskRow). row.node) (sort_by row_after (map (row_of mission_id) nodes))

-- Where every stored task belongs to a stored mission, a mission that is created loads with the tasks it
-- was given, sorted by their ids; the other missions load as before; and every stored task still belongs
-- to a stored mission.
pub load_nodes-create_runner :
    (mission_id : String) (nodes : List TaskNode) (now : String) (s : MissionDatabase)
    {m : MissionRunner} {t : MissionDatabase}
    → IsReferenced s
    → create_runner mission_id nodes now s ≡ (ok m, t)
    → (load_nodes mission_id t ≡ ok (in_order nodes mission_id))
      × ((other : String) → other ≢ mission_id → load_nodes other t ≡ load_nodes other s)
      × IsReferenced t
unfolding IsReferenced
load_nodes-create_runner mission_id nodes now s {m} {t} k h =
    let c = create_runner-IsCreated mission_id nodes now s h in
    rw c.stored (
      load_nodes-with_mission mission_id nodes now s (k mission_id c.unknown),
      λ other differ.
          load_nodes_other mission_id other nodes now s
            (other_test (mission_id == other) λ e. differ (sym ((eq_iff mission_id other).0 e))),
      with_mission-IsReferenced mission_id nodes now s k,
    )
  where
    other_test : (b : Bool) → (b ≡ true → ⊥) → b ≡ false
    other_test true h = absurd (h refl)
    other_test false h = refl

-- A mission that is created in a database with no events, where every stored task belongs to a stored
-- mission, with tasks in the order of their ids, is restored, after any run of its runner and under any
-- clock, as just the runner that was lost.
pub restore_runner-run :
    (digest : Unsigned Payload → String) (clock clock' : ℕ → String) (mission_id : String)
    (nodes : List TaskNode) (now : String) (s : MissionDatabase) {m : MissionRunner}
    {t : MissionDatabase} (cs : List Command)
    → IsReferenced s
    → s.events ≡ []
    → in_order nodes mission_id ≡ nodes
    → create_runner mission_id nodes now s ≡ (ok m, t)
    → restore_runner digest clock' mission_id (record t { events = (run digest clock cs m).ledger })
      ≡ ok (run digest clock cs m)
unfolding restore_runner load_nodes
restore_runner-run digest clock clock' mission_id nodes now s {m} {t} cs k empty ordered h =
    let c = create_runner-IsCreated mission_id nodes now s h in
    let (r, made, same) = c.built in
    let built = (new-IsStarted mission_id (ids_of nodes) (some nodes) made).built in
    let start : new mission_id (ids_of nodes) (some nodes) ≡ ok m =
      made ∙ ap (λ r. ok r) (sym (same ∙ rw (empty, built) refl)) in
    let (n, replayed, tasks) =
      replay_rebuilds digest clock clock' mission_id (ids_of nodes) (some nodes) cs start in
    let after = record t { events = (run digest clock cs m).ledger } in
    let loaded : load_nodes mission_id after ≡ ok nodes =
      (load_nodes-create_runner mission_id nodes now s k h).0 ∙ ap (λ ns. ok ns) ordered in
    rw (loaded, replayed) (ap (λ r. ok r) (rw (tasks.missions, tasks.tasks, tasks.nodes) refl))
