-- ===== src/ControlPlane/Runner/Replay.antt =====
-- Replaying the ledger of a run rebuilds its tasks (factory/control_plane/runner.py).
use Prim.Native.String.{◌++◌ as str_append}
use ai_factory.Base.{
  ℕ, ◌+◌, String, false, ◌≡◌, refl, ◌∙◌, ap, inl, inr, Option, none, some, List, [], ◌∷◌, ◌++◌,
  arith, map, ◌==◌, eq_iff, ◌||◌, is_empty, any, length, select-append, Bool-cases,
}
use ai_factory.Base.Result.{ok}
use ai_factory.Base.Decimal.{six_digits}
use text.Mathlib.TextLemmas.{cons-append}
use ai_factory.Base.Action.{>>=-ok, >>=-eq-ok, pure}
use ai_factory.Base.Dict.{insert}
use ai_factory.ControlPlane.State.Gate.{of_value-value}
use ai_factory.ControlPlane.Graph.{TaskNode}
use ai_factory.ControlPlane.Ledger.{Unsigned, AuditEvent, events_of, from_events}
use ai_factory.ControlPlane.Runner.{
  Payload, MissionRunner, Request, TaskRuntimeRecord, committed, next_workers, event_id_or_next,
  transition, replay_transition, replay_event, replay_events, replay, finish, new, started,
}
use ai_factory.ControlPlane.Runner.Commit.{
  IsAccepted, id_for, event_for, commit, transition-cases, transition_of_IsAccepted,
}
use ai_factory.ControlPlane.Runner.Run.{Command, run, run-keeps, run-verifies, new-IsStarted}

abbrev pub event_ids : List (AuditEvent Payload) → List String
event_ids = map (λ e. e.event_id)

-- One runner has the other's mission, tasks and graph, and events with the same ids.
pub record SameTasks (m n : MissionRunner) : Type 0 where
  pub missions : n.mission_id ≡ m.mission_id
  pub tasks : n.tasks ≡ m.tasks
  pub nodes : n.task_nodes ≡ m.task_nodes
  pub ids : event_ids n.ledger ≡ event_ids m.ledger

any-event_ids :
    (x : String) (es : List (AuditEvent Payload))
    → any (λ (e : AuditEvent Payload). e.event_id == x) es ≡ any (λ i. i == x) (event_ids es)
any-event_ids x [] = refl
any-event_ids x (e ∷ es) = ap (λ b. e.event_id == x || b) (any-event_ids x es)

event_ids-append :
    (es : List (AuditEvent Payload)) (e : AuditEvent Payload)
    → event_ids (es ++ e ∷ []) ≡ event_ids es ++ e.event_id ∷ []
event_ids-append [] e = refl
event_ids-append (x ∷ es) e = ap (λ l. x.event_id ∷ l) (event_ids-append es e)

append_evt : (s : String) → is_empty (str_append "EVT-" s) ≡ false
append_evt s = rw (cons-append _ _ s) refl

event_id_or_next-not_empty :
    (given : Option String) (n : ℕ) → is_empty (event_id_or_next given n) ≡ false
unfolding event_id_or_next
event_id_or_next-not_empty none n = append_evt (six_digits (n + 1))
event_id_or_next-not_empty (some id) n = elim (Bool-cases (is_empty id)) [
  | inl e ↦ rw e (append_evt (six_digits (n + 1)))
  | inr e ↦ rw e e
]

event_id_or_next-some :
    (id : String) (n : ℕ) → is_empty id ≡ false → event_id_or_next (some id) n ≡ id
unfolding event_id_or_next
event_id_or_next-some id n h = ground arith

module _ (digest : Unsigned Payload → String) (clock clock' : ℕ → String) where
  -- The request that the replay makes of a request's event.
  abbrev again : Request → MissionRunner → Request
  again q m = record q { event_id = some (id_for q m) }

  again-IsAccepted :
      (q : Request) (m n : MissionRunner) (r : TaskRuntimeRecord)
      → SameTasks m n
      → IsAccepted q m r
      → IsAccepted (again q m) n r
  unfolding next_workers
  again-IsAccepted q m n r s a =
      let same : id_for (again q m) n ≡ id_for q m =
        event_id_or_next-some (id_for q m) (length n.ledger)
          (event_id_or_next-not_empty q.event_id (length m.ledger)) in
      record {
        found = rw s.tasks a.found;
        gated = a.gated;
        new_id =
            rw
              (
                same,
                any-event_ids (id_for q m) n.ledger,
                s.ids,
                ← any-event_ids (id_for q m) m.ledger,
              )
              a.new_id;
        named = rw s.missions a.named;
      }

  replay_event-commit :
      (q : Request) (m n : MissionRunner) (r : TaskRuntimeRecord)
      → SameTasks m n
      → IsAccepted q m r
      → replay_event digest clock' (event_for digest clock q m r) n
        ≡ (ok tt, commit digest clock' (again q m) n r)
  unfolding replay_event replay_transition
  replay_event-commit q m n r s a = rw (of_value-value q.target) (
      >>=-ok (transition digest clock' (again q m)) (λ _. pure tt)
        (transition_of_IsAccepted digest clock' (again q m) n r (again-IsAccepted q m n r s a)))

  commit-SameTasks :
      (q : Request) (m n : MissionRunner) (r : TaskRuntimeRecord)
      → SameTasks m n
      → SameTasks (commit digest clock q m r) (commit digest clock' (again q m) n r)
  unfolding next_workers
  commit-SameTasks q m n r s =
      let same : id_for (again q m) n ≡ id_for q m =
        event_id_or_next-some (id_for q m) (length n.ledger)
          (event_id_or_next-not_empty q.event_id (length m.ledger)) in
      record {
        missions = s.missions;
        tasks = ap (insert q.task_id (committed r q)) s.tasks;
        nodes = s.nodes;
        ids =
            rw
              (
                event_ids-append n.ledger (event_for digest clock' (again q m) n r),
                event_ids-append m.ledger (event_for digest clock q m r),
                s.ids,
                same,
              )
              refl;
      }

  replay_events-append :
      (es : List (AuditEvent Payload)) (e : AuditEvent Payload) (s n n' : MissionRunner)
      → replay_events digest clock' es s ≡ (ok tt, n)
      → replay_event digest clock' e n ≡ (ok tt, n')
      → replay_events digest clock' (es ++ e ∷ []) s ≡ (ok tt, n')
  unfolding replay_events
  replay_events-append [] e s n n' h k =
      let start : s ≡ n = ap (λ z. z.1) h in
      >>=-ok (replay_event digest clock' e) (λ _. pure tt) (rw start k)
  replay_events-append (x ∷ es) e s n n' h k =
      let (_, s', first, rest) =
        >>=-eq-ok (replay_event digest clock' x) (λ _. replay_events digest clock' es) s h in
      >>=-ok (replay_event digest clock' x) (λ _. replay_events digest clock' (es ++ e ∷ [])) first
      ∙ replay_events-append es e s' n n' rest k

  -- The events so far replay, on the new runner, to a runner with the same tasks.
  record IsReplayed (mission_id : String) (start m : MissionRunner) : Type 0 where
    mission : m.mission_id ≡ mission_id
    rebuilt : MissionRunner
    replays :
        replay_events digest clock' (events_of (some mission_id) m.ledger) start ≡ (ok tt, rebuilt)
    same_tasks : SameTasks m rebuilt

  events_of-append :
      (mission_id : String) (es : List (AuditEvent Payload)) (e : AuditEvent Payload)
      → e.mission_id ≡ mission_id
      → events_of (some mission_id) (es ++ e ∷ []) ≡ events_of (some mission_id) es ++ e ∷ []
  unfolding events_of
  events_of-append mission_id es e h =
      rw
        (
          select-append (λ (x : AuditEvent Payload). x.mission_id == mission_id) es (e ∷ []),
          (eq_iff e.mission_id mission_id).1 h,
        )
        refl

  transition-IsReplayed :
      (mission_id : String) (start : MissionRunner) (q : Request) (m : MissionRunner)
      → IsReplayed mission_id start m
      → IsReplayed mission_id start (transition digest clock q m).1
  transition-IsReplayed mission_id start q m h = elim (transition-cases digest clock q m) [
    | inr (x, e) ↦ rw e h
    | inl (r, a) ↦ rw (transition_of_IsAccepted digest clock q m r a) (record {
      mission = h.mission;
      rebuilt = commit digest clock' (again q m) h.rebuilt r;
      replays = rw (events_of-append mission_id m.ledger (event_for digest clock q m r) h.mission) (
          replay_events-append (events_of (some mission_id) m.ledger) (event_for digest clock q m r)
            start h.rebuilt _ h.replays (replay_event-commit q m h.rebuilt r h.same_tasks a));
      same_tasks = commit-SameTasks q m h.rebuilt r h.same_tasks;
    })
  ]

started-IsReplayed :
    (digest : Unsigned Payload → String) (clock clock' : ℕ → String) (mission_id : String)
    (ids : List String) (nodes : Option (List TaskNode))
    → let m = started mission_id ids nodes in IsReplayed digest clock clock' mission_id m m
unfolding replay_events events_of
started-IsReplayed digest clock clock' mission_id ids nodes = record {
  mission = refl;
  rebuilt = started mission_id ids nodes;
  replays = refl;
  same_tasks = record { missions = refl; tasks = refl; nodes = refl; ids = refl };
}

-- Replaying the ledger of any run of a new mission, under any clock, succeeds, and the runner that
-- it builds has the mission, the tasks and the graph of the runner that was lost, and events with
-- the same ids in the same order.
pub replay_rebuilds :
    (digest : Unsigned Payload → String) (clock clock' : ℕ → String) (mission_id : String)
    (ids : List String) (nodes : Option (List TaskNode)) {m : MissionRunner} (cs : List Command)
    → new mission_id ids nodes ≡ ok m
    → (n : MissionRunner) × (replay digest clock' mission_id ids
          (run digest clock cs m).ledger
          nodes
        ≡ ok n)
      × SameTasks (run digest clock cs m) n
unfolding replay from_events
replay_rebuilds digest clock clock' mission_id ids nodes {m} cs h =
    let built = (new-IsStarted mission_id ids nodes h).built in
    let start : IsReplayed digest clock clock' mission_id m m =
      rw built (started-IsReplayed digest clock clock' mission_id ids nodes) in
    let r =
      run-keeps digest clock (IsReplayed digest clock clock' mission_id m)
        (transition-IsReplayed digest clock clock' mission_id m) cs m start in
    (
      r.rebuilt,
      rw (run-verifies digest clock mission_id ids nodes cs h, h)
          (ap (finish digest clock') r.replays),
      r.same_tasks,
    )
