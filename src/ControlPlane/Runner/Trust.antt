-- ===== src/ControlPlane/Runner/Trust.antt =====
-- What the state of a task says about its review (factory/control_plane/runner.py).
use ai_factory.Base.{
  ℕ, String, true, false, ◌≡◌, subst, ◌⊎◌, inl, inr, Option, some, List, [], ◌∷◌, ◌++◌, contains,
  arith, map, is_nil, is_disjoint,
}
use ai_factory.Base.Result.{ok}
use ai_factory.Base.Dict.{lookup, lookup-insert-eq-some}
use ai_factory.ControlPlane.State.{
  TaskState, TransitionContext, verified, done, backlog, validate_transition,
}
use ai_factory.ControlPlane.State.Gate.{
  validate_transition-verified, validate_transition-done, IsVerifiable,
}
use ai_factory.ControlPlane.Graph.{TaskNode}
use ai_factory.ControlPlane.Ledger.{Unsigned, AuditEvent}
use ai_factory.ControlPlane.Runner.{
  Payload, MissionRunner, Request, TaskRuntimeRecord, fresh, context_of, committed, transition, new,
  next_workers,
}
use ai_factory.ControlPlane.Runner.Commit.{
  IsAccepted, event_for, commit, transition-cases, transition_of_IsAccepted,
}
use ai_factory.ControlPlane.Runner.Workers.{
  has_worked, IsRemembered, committed-IsRemembered, other-IsRemembered, never_worked,
}
use ai_factory.ControlPlane.Runner.Run.{Command, run, run-keeps, new-IsStarted}

-- A verified task has evidence and independent reviewers, and no objection; a done task has
-- evidence and reviewers; and the record remembers everyone who has worked on the task.
record IsSound (id : String) (ledger : List (AuditEvent Payload)) (r : TaskRuntimeRecord)
    : Type 0 where
  pub remembered : IsRemembered id ledger r.worker_ids
  pub evidence : (r.state ≡ verified) ⊎ (r.state ≡ done) → is_nil r.evidence_ids ≡ false
  pub reviewers : (r.state ≡ verified) ⊎ (r.state ≡ done) → is_nil r.reviewer_ids ≡ false
  pub independent : r.state ≡ verified → is_disjoint r.reviewer_ids r.worker_ids ≡ true
  pub unopposed : r.state ≡ verified → is_nil r.blocking_objections ≡ true

-- What a verified and a done task are, by the record and by the ledger: no reviewer of a verified task has
-- taken it up at any time.
pub record IsTrusted (id : String) (ledger : List (AuditEvent Payload)) (r : TaskRuntimeRecord)
    : Type 0 where
  pub evidence : (r.state ≡ verified) ⊎ (r.state ≡ done) → is_nil r.evidence_ids ≡ false
  pub reviewers : (r.state ≡ verified) ⊎ (r.state ≡ done) → is_nil r.reviewer_ids ≡ false
  pub never_worked :
      r.state ≡ verified
      → (reviewer_id : String) → contains reviewer_id r.reviewer_ids ≡ true
      → has_worked reviewer_id id ledger ≡ false
  pub independent : r.state ≡ verified → is_disjoint r.reviewer_ids r.worker_ids ≡ true
  pub unopposed : r.state ≡ verified → is_nil r.blocking_objections ≡ true

gate-verified :
    (s t : TaskState) (ctx : TransitionContext)
    → validate_transition s t ctx ≡ ok tt
    → t ≡ verified
    → IsVerifiable ctx
gate-verified s t ctx h e = ((validate_transition-verified s ctx).0 (rw e at h)).1

gate-done :
    (s t : TaskState) (ctx : TransitionContext)
    → validate_transition s t ctx ≡ ok tt
    → t ≡ done
    → s ≡ verified
gate-done s t ctx h e = validate_transition-done s ctx (rw e at h)

committed-IsSound :
    (id : String) (ledger ledger' : List (AuditEvent Payload)) (r : TaskRuntimeRecord) (q : Request)
    → IsRemembered id ledger' (next_workers r q)
    → IsSound id ledger r
    → validate_transition r.state q.target (context_of r q) ≡ ok tt
    → IsSound id ledger' (committed r q)
committed-IsSound id ledger ledger' r q k t h =
    let v = gate-verified r.state q.target (context_of r q) h in
    let d = gate-done r.state q.target (context_of r q) h in
    record {
      remembered = k;
      evidence = ground (arith, v, d, t.evidence);
      reviewers = ground (arith, v, d, t.reviewers);
      independent = ground (arith, v);
      unopposed = ground (arith, v);
    }

AllSound : MissionRunner → Type 0
AllSound m =
    (id : String) (r : TaskRuntimeRecord) → lookup id m.tasks ≡ some r → IsSound id m.ledger r

module _ (digest : Unsigned Payload → String) (clock : ℕ → String) where
  -- The record that is written is sound with its event, and the event is of no other task.
  commit-AllSound :
      (q : Request) (m : MissionRunner) (r : TaskRuntimeRecord)
      → IsAccepted q m r
      → AllSound m
      → AllSound (commit digest clock q m r)
  unfolding AllSound
  commit-AllSound q m r a h id r' found =
      let ledger' = m.ledger ++ event_for digest clock q m r ∷ [] in
      let old = h q.task_id r a.found in
      let good : IsSound q.task_id ledger' (committed r q) =
        committed-IsSound q.task_id m.ledger ledger' r q
          (committed-IsRemembered digest clock q m r old.remembered) old a.gated in
      elim (lookup-insert-eq-some q.task_id id (committed r q) m.tasks r' found) [
        | inl (here, same) ↦
            subst (λ (x : TaskRuntimeRecord). IsSound id ledger' x) same
              (subst (λ k. IsSound k ledger' (committed r q)) here good)
        | inr (apart, before) ↦
            let was = h id r' before in
            record {
              remembered =
                  other-IsRemembered digest clock q m r id r'.worker_ids apart was.remembered;
              evidence = was.evidence;
              reviewers = was.reviewers;
              independent = was.independent;
              unopposed = was.unopposed;
            }
      ]

  transition-AllSound :
      (q : Request) (m : MissionRunner) → AllSound m → AllSound (transition digest clock q m).1
  transition-AllSound q m h = elim (transition-cases digest clock q m) [
    | inl (r, a) ↦ rw (transition_of_IsAccepted digest clock q m r a) (commit-AllSound q m r a h)
    | inr (x, e) ↦ rw e h
  ]

lookup-fresh :
    (id : String) (ids : List String) (r : TaskRuntimeRecord)
    → lookup id (map (λ k. (k, fresh k)) ids) ≡ some r
    → r.state ≡ backlog
unfolding lookup
lookup-fresh id [] r h = cc
lookup-fresh id (k ∷ ks) r h = ground (arith, lookup-fresh id ks r)

fresh-IsSound : (id : String) (r : TaskRuntimeRecord) → r.state ≡ backlog → IsSound id [] r
fresh-IsSound id r h = record {
  remembered = λ actor_id k. absurd (cc k);
  evidence = ground arith;
  reviewers = ground arith;
  independent = ground arith;
  unopposed = ground arith;
}

-- In every run of a new mission a task that is VERIFIED has evidence, no blocking objection, and
-- reviewers none of whom has ever worked on it: the ledger has no event by which one of them took it up.
-- A task that is DONE has evidence and reviewers.
pub run-IsTrusted :
    (digest : Unsigned Payload → String) (clock : ℕ → String) (mission_id : String)
    (ids : List String) (nodes : Option (List TaskNode)) {m : MissionRunner} (cs : List Command)
    (id : String) {r : TaskRuntimeRecord}
    → new mission_id ids nodes ≡ ok m
    → lookup id (run digest clock cs m).tasks ≡ some r
    → IsTrusted id (run digest clock cs m).ledger r
unfolding AllSound
run-IsTrusted digest clock mission_id ids nodes {m} cs id {r} h e =
    let sound =
      run-keeps digest clock AllSound (transition-AllSound digest clock) cs m
        (rw (new-IsStarted mission_id ids nodes h).built
          (λ k r f. fresh-IsSound k r (lookup-fresh k ids r f)))
        id r e in
    record {
      evidence = sound.evidence;
      reviewers = sound.reviewers;
      never_worked = λ v.
          never_worked id (run digest clock cs m).ledger r.reviewer_ids r.worker_ids
            sound.remembered (sound.independent v);
      independent = sound.independent;
      unopposed = sound.unopposed;
    }
