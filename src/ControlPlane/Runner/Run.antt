-- ===== src/ControlPlane/Runner/Run.antt =====
-- Runs of a mission runner (factory/control_plane/runner.py), one public call after another, and
-- what each call keeps.
use ai_factory.Base.{
  ℕ, String, Bool, true, false, ◌≡◌, refl, ap, ◌⊎◌, inl, inr, Option, none, List, [], ◌∷◌, ◌++◌,
  length, map, not, is_empty, is_unique, same_set,
}
use ai_factory.Base.Result.{Result, ok, err, Result-cases, >>=-eq-ok}
use ai_factory.Base.Result
use ai_factory.Base.Dict.{values}
use ai_factory.Base.Result.{map_err}
use ai_factory.Base.Action.{lift, pure, ◌>>◌, >>=-keeps}
use ai_factory.ControlPlane.State.{value}
use ai_factory.ControlPlane.Graph.{TaskNode, validate_graph, ready_tasks}
use ai_factory.ControlPlane.Ledger.{Unsigned, AuditEvent, verify_integrity}
use ai_factory.ControlPlane.Ledger.Integrity.{verify_integrity-next_event}
use ai_factory.ControlPlane.Runner.{
  Payload, MissionRunner, Request, RunnerError, graph_error, transition, release_each,
  release_request, release_ready_tasks, payload_of, transition_type, new, started, nodes_or_default,
  mission_id_required, duplicate_task, nodes_mismatch,
}
use ai_factory.ControlPlane.Runner.Commit.{
  event_for, transition-cases, transition_of_IsAccepted, id_for,
}

-- A public call that changes a runner.
pub data Command : Type 0 where
  move : Request → Command
  release : String → Command

module _ (digest : Unsigned Payload → String) (clock : ℕ → String) where
  -- The runner after a call, whether it returned or raised.
  unfoldable pub after : Command → MissionRunner → MissionRunner
  after (move q) m = (transition digest clock q m).1
  after (release actor_id) m = (release_ready_tasks digest clock actor_id m).1

  unfoldable pub run : List Command → MissionRunner → MissionRunner
  run [] m = m
  run (c ∷ cs) m = run cs (after c m)

  -- A transition that raises has changed nothing, and one that returns has appended its event.
  pub transition_atomic :
      (q : Request) (m : MissionRunner)
      → let (x, m') = transition digest clock q m in
        ((e : RunnerError) × (x ≡ err e) × (m' ≡ m))
        ⊎ ((e : AuditEvent Payload) × (x ≡ ok e) × (m'.ledger ≡ m.ledger ++ e ∷ []))
  transition_atomic q m = elim (transition-cases digest clock q m) [
    | inl (r, a) ↦
        let e = transition_of_IsAccepted digest clock q m r a in
        inr (event_for digest clock q m r, ap (λ z. z.0) e, ap (λ z. z.1.ledger) e)
    | inr (x, e) ↦ inl (x, rw e, rw e)
  ]

  module _ {ℓ} (P : MissionRunner → Type ℓ)
      (keep : (q : Request) (m : MissionRunner) → P m → P (transition digest clock q m).1) where
    release_each-keeps :
        (actor_id : String) (ids : List String) (m : MissionRunner)
        → P m
        → P (release_each digest clock actor_id ids m).1
    unfolding release_each
    release_each-keeps actor_id [] m h = h
    release_each-keeps actor_id (t ∷ ts) m h =
        let q = release_request digest clock actor_id t in
        >>=-keeps P (transition digest clock q) (λ _. release_each digest clock actor_id ts)
          (keep q) (λ _. release_each-keeps actor_id ts) m h

    after-keeps : (c : Command) (m : MissionRunner) → P m → P (after c m)
    unfolding after release_ready_tasks
    after-keeps (move q) m h = keep q m h
    after-keeps (release actor_id) m h =
        >>=-keeps P
          (lift (
            map_err graph_error
              (ready_tasks (values m.task_nodes) (map (λ (k, r). (k, value r.state)) m.tasks))))
          (λ ids. release_each digest clock actor_id ids >> pure ids) (λ s g. g)
          (λ ids.
            >>=-keeps P (release_each digest clock actor_id ids) (λ _. pure ids)
              (release_each-keeps actor_id ids) (λ _ s g. g))
          m h

    -- What every transition keeps, every run keeps.
    pub run-keeps : (cs : List Command) (m : MissionRunner) → P m → P (run cs m)
    unfolding run
    run-keeps [] m h = h
    run-keeps (c ∷ cs) m h = run-keeps cs (after c m) (after-keeps c m h)

  transition-verifies :
      (q : Request) (m : MissionRunner)
      → verify_integrity digest m.ledger ≡ ok tt
      → verify_integrity digest (transition digest clock q m).1.ledger ≡ ok tt
  transition-verifies q m h = elim (transition-cases digest clock q m) [
    | inl (r, a) ↦ rw (transition_of_IsAccepted digest clock q m r a) (
        verify_integrity-next_event digest (id_for q m) m.mission_id q.actor_id transition_type
          (payload_of r q) none (clock (length m.ledger)) m.ledger h)
    | inr (x, e) ↦ rw e h
  ]

-- What `__init__` has checked when it returns.
pub record IsStarted (mission_id : String) (ids : List String) (nodes : Option (List TaskNode))
    (m : MissionRunner) : Type 0 where
  pub built : m ≡ started mission_id ids nodes
  pub named : is_empty mission_id ≡ false
  pub distinct_ids : is_unique ids ≡ true
  pub valid_graph : validate_graph (nodes_or_default nodes ids) ≡ ok tt

map_err-eq-ok :
    {E F A : Type 0} (f : E → F) (r : Result E A) {a : A} → map_err f r ≡ ok a → r ≡ ok a
map_err-eq-ok f (ok a) h = cc
map_err-eq-ok f (err e) h = cc

pub new-IsStarted :
    (mission_id : String) (ids : List String) (nodes : Option (List TaskNode)) {m : MissionRunner}
    → new mission_id ids nodes ≡ ok m
    → IsStarted mission_id ids nodes m
unfolding new
new-IsStarted mission_id ids nodes h =
    let (_, a, h₁) = >>=-eq-ok (Result.raise_if (is_empty mission_id) mission_id_required) _ h in
    let (_, b, h₂) = >>=-eq-ok (Result.raise_if (not (is_unique ids)) duplicate_task) _ h₁ in
    let (_, c, h₃) =
      >>=-eq-ok (map_err graph_error (validate_graph (nodes_or_default nodes ids))) _ h₂ in
    let (_, d, h₄) =
      >>=-eq-ok
        (Result.raise_if
          (not (same_set ids (map (λ (n : TaskNode). n.task_id) (nodes_or_default nodes ids))))
          nodes_mismatch)
        _ h₃ in
    record {
      built = cc;
      named = Result.raise_if-eq-ok (is_empty mission_id) _ a;
      distinct_ids = not-eq-false (is_unique ids) (Result.raise_if-eq-ok (not (is_unique ids)) _ b);
      valid_graph = map_err-eq-ok graph_error (validate_graph (nodes_or_default nodes ids)) c;
    }
  where
    not-eq-false : (b : Bool) → not b ≡ false → b ≡ true
    not-eq-false true h = refl
    not-eq-false false h = cc

-- The ledger of a new mission verifies after every run.
pub run-verifies :
    (digest : Unsigned Payload → String) (clock : ℕ → String) (mission_id : String)
    (ids : List String) (nodes : Option (List TaskNode)) {m : MissionRunner} (cs : List Command)
    → new mission_id ids nodes ≡ ok m
    → verify_integrity digest (run digest clock cs m).ledger ≡ ok tt
unfolding verify_integrity
run-verifies digest clock mission_id ids nodes cs h =
    run-keeps digest clock (λ m. verify_integrity digest m.ledger ≡ ok tt)
      (transition-verifies digest clock) cs _ (rw (new-IsStarted mission_id ids nodes h).built refl)
