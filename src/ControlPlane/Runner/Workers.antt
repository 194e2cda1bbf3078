-- ===== src/ControlPlane/Runner/Workers.antt =====
-- Who has worked on a task, by the ledger and by the task's record (factory/control_plane/runner.py).
use ai_factory.Base.{
  ℕ, String, Bool, true, false, ◌&&◌, ◌||◌, ◌≡◌, refl, ap, subst, sym, ◌∙◌, inl, inr, List, [], ◌∷◌,
  ◌++◌, arith, ◌==◌, eq_iff, any, contains, is_disjoint, Bool-cases,
}
use ai_factory.Base.Sorting.{sorted, distinct, contains-sorted}
use ai_factory.ControlPlane.State.{TaskState, backlog, in_progress, value, same}
use ai_factory.ControlPlane.Ledger.{AuditEvent, Unsigned}
use ai_factory.ControlPlane.Runner.{
  Payload, transition_payload, opaque_payload, MissionRunner, Request, TaskRuntimeRecord,
  next_workers,
}
use ai_factory.ControlPlane.Runner.Commit.{event_for}

-- Whether an event says that the actor has taken the task up.
abbrev pub takes_up : String → String → AuditEvent Payload → Bool
takes_up actor_id id e = elim e.payload [
  | transition_payload p ↦
      p.task_id == id && (p.to_value == "IN_PROGRESS" && e.actor_id == actor_id)
  | opaque_payload _ ↦ false
]

-- Whether an actor has worked on a task at any time, by the ledger.
abbrev pub has_worked : String → String → List (AuditEvent Payload) → Bool
has_worked actor_id id ledger = any (takes_up actor_id id) ledger

has_worked-append :
    (actor_id id : String) (es : List (AuditEvent Payload)) (e : AuditEvent Payload)
    → has_worked actor_id id (es ++ e ∷ []) ≡ (has_worked actor_id id es || takes_up actor_id id e)
has_worked-append actor_id id [] e = ground arith
has_worked-append actor_id id (x ∷ es) e = ground (arith, has_worked-append actor_id id es e)

value-in_progress : (t : TaskState) → (value t == "IN_PROGRESS") ≡ same t in_progress
value-in_progress backlog = refl
value-in_progress _ = refl

contains-distinct : (a : String) (xs : List String) → contains a (distinct xs) ≡ contains a xs
unfolding distinct
contains-distinct a [] = refl
contains-distinct a (x ∷ xs) = elim (Bool-cases (a == x)) [
  | inl e ↦
      let here : a ≡ x = (eq_iff a x).0 e in
      ground (arith, contains-distinct a xs, ap (λ z. contains z xs) here)
  | inr e ↦ ground (arith, contains-distinct a xs)
]

-- The workers after a request: those before, and the actor who takes the task up.
next_workers-contains :
    (a : String) (r : TaskRuntimeRecord) (q : Request)
    → (contains a r.worker_ids || (same q.target in_progress && q.actor_id == a)) ≡ true
    → contains a (next_workers r q) ≡ true
unfolding next_workers
next_workers-contains a r q h =
    let joined : contains a (sorted (distinct (q.actor_id ∷ r.worker_ids)))
        ≡ (a == q.actor_id || contains a r.worker_ids) =
      contains-sorted a (distinct (q.actor_id ∷ r.worker_ids))
      ∙ contains-distinct a (q.actor_id ∷ r.worker_ids) in
    elim (Bool-cases (q.actor_id == a)) [
      | inl e ↦
          let here : q.actor_id ≡ a = (eq_iff q.actor_id a).0 e in
          ground (arith, joined, ap (λ z. contains z r.worker_ids) here, eq_iff a q.actor_id)
      | inr e ↦ ground (arith, joined)
    ]

-- Everyone who has worked on a task is among the workers of its record.
abbrev pub IsRemembered : String → List (AuditEvent Payload) → List String → Type 0
IsRemembered id ledger worker_ids =
    (actor_id : String) → has_worked actor_id id ledger ≡ true → contains actor_id worker_ids ≡ true

module _ (digest : Unsigned Payload → String) (clock : ℕ → String) (q : Request) (m : MissionRunner)
    (r : TaskRuntimeRecord) where
  pub committed-IsRemembered :
      IsRemembered q.task_id m.ledger r.worker_ids
      → IsRemembered q.task_id (m.ledger ++ event_for digest clock q m r ∷ []) (next_workers r q)
  committed-IsRemembered h actor_id k = next_workers-contains actor_id r q (
      ground (
        arith,
        h actor_id,
        has_worked-append actor_id q.task_id m.ledger (event_for digest clock q m r),
        value-in_progress q.target,
      ))

  pub other-IsRemembered :
      (id : String) (worker_ids : List String)
      → (q.task_id == id) ≡ false
      → IsRemembered id m.ledger worker_ids
      → IsRemembered id (m.ledger ++ event_for digest clock q m r ∷ []) worker_ids
  other-IsRemembered id worker_ids apart h actor_id k =
      h actor_id
        (ground (arith, has_worked-append actor_id id m.ledger (event_for digest clock q m r)))

is_disjoint-contains :
    (a : String) (xs ys : List String)
    → is_disjoint xs ys ≡ true
    → contains a xs ≡ true
    → contains a ys ≡ false
is_disjoint-contains a [] ys h k = absurd (cc k)
is_disjoint-contains a (x ∷ xs) ys h k = elim (Bool-cases (a == x)) [
  | inl e ↦
      let apart : contains x ys ≡ false = ground arith in
      subst (λ z. contains z ys ≡ false) (sym ((eq_iff a x).0 e)) apart
  | inr e ↦ is_disjoint-contains a xs ys (ground arith) (ground arith)
]

-- A reviewer who is not among the workers of a record that remembers them has never worked on the task.
pub never_worked :
    (id : String) (ledger : List (AuditEvent Payload)) (reviewer_ids worker_ids : List String)
    → IsRemembered id ledger worker_ids
    → is_disjoint reviewer_ids worker_ids ≡ true
    → (reviewer_id : String) → contains reviewer_id reviewer_ids ≡ true
    → has_worked reviewer_id id ledger ≡ false
never_worked id ledger reviewer_ids worker_ids h apart reviewer_id k =
    elim (Bool-cases (has_worked reviewer_id id ledger)) [
      | inr e ↦ e
      | inl e ↦
          let idle = is_disjoint-contains reviewer_id reviewer_ids worker_ids apart k in
          absurd (cc (sym idle ∙ h reviewer_id e))
    ]
