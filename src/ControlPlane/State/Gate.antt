-- ===== src/ControlPlane/State/Gate.antt =====
-- What the transition gate lets through (factory/control_plane/state.py).
use ai_factory.Base.{true, false, ◌≡◌, refl, ◌≢◌, ◌↔◌, some, [], ◌∷◌, arith, is_nil, is_disjoint}
use ai_factory.Base.Result.{ok}
use ai_factory.ControlPlane.State.{
  TaskState, backlog, ready, in_progress, blocked, ready_for_verification, review,
  changes_requested, verified, done, failed, cancelled, stale, awaiting_human_approval, value,
  of_value, TransitionContext, validate_transition,
}

pub of_value-value : (s : TaskState) → of_value (value s) ≡ some s
unfolding of_value
of_value-value backlog = refl
of_value-value _ = refl

-- What an independent verification is.
pub record IsVerifiable (ctx : TransitionContext) : Type 0 where
  pub evidence : is_nil ctx.evidence_ids ≡ false
  pub reviewers : is_nil ctx.reviewer_ids ≡ false
  pub independent : is_disjoint ctx.reviewer_ids ctx.worker_ids ≡ true
  pub unopposed : is_nil ctx.blocking_objections ≡ true

-- A task enters VERIFIED exactly from REVIEW, with evidence, with reviewers of whom none worked on
-- it, and with no blocking objection.
pub validate_transition-verified :
    (s : TaskState) (ctx : TransitionContext)
    → (validate_transition s verified ctx ≡ ok tt) ↔ ((s ≡ review) × IsVerifiable ctx)
unfolding validate_transition
validate_transition-verified s ctx = (λ h. ground arith, λ h. ground arith)

-- A task enters DONE only from VERIFIED.
pub validate_transition-done :
    (s : TaskState) (ctx : TransitionContext)
    → validate_transition s done ctx ≡ ok tt
    → s ≡ verified
unfolding validate_transition
validate_transition-done s ctx h = ground arith

-- Some context lets the task move on.
pub record Step (s t : TaskState) : Type 0 where
  pub context : TransitionContext
  pub accepted : validate_transition s t context ≡ ok tt

pub data Reach : TaskState → TaskState → Type 0 where
  here : {s : TaskState} → Reach s s
  then : {s t u : TaskState} → Step s t → Reach t u → Reach s u

abbrev pub full_context : TransitionContext
full_context = record {
  evidence_ids = "evidence" ∷ [];
  reviewer_ids = "reviewer" ∷ [];
  worker_ids = "worker" ∷ [];
  blocking_objections = [];
  human_approval_id = some "approval";
}

abbrev with_full : {s t : TaskState} → validate_transition s t full_context ≡ ok tt → Step s t
with_full h = record { context = full_context; accepted = h }

verified_to_done : Reach verified done
unfolding validate_transition
verified_to_done = then (with_full refl) here

in_progress_to_done : Reach in_progress done
unfolding validate_transition
in_progress_to_done =
    then (with_full {t = ready_for_verification} refl)
      (then (with_full {t = review} refl) (then (with_full {t = verified} refl) verified_to_done))

ready_to_done : Reach ready done
unfolding validate_transition
ready_to_done = then (with_full refl) in_progress_to_done

-- From every state but CANCELLED the gate has a way to DONE.
pub Reach-done : (s : TaskState) → s ≢ cancelled → Reach s done
unfolding validate_transition
Reach-done backlog _ = then (with_full refl) ready_to_done
Reach-done ready _ = ready_to_done
Reach-done in_progress _ = in_progress_to_done
Reach-done blocked _ = then (with_full refl) ready_to_done
Reach-done ready_for_verification _ =
    then (with_full {t = review} refl) (then (with_full refl) verified_to_done)
Reach-done review _ = then (with_full refl) verified_to_done
Reach-done changes_requested _ = then (with_full refl) in_progress_to_done
Reach-done verified _ = verified_to_done
Reach-done done _ = here
Reach-done failed _ = then (with_full refl) ready_to_done
Reach-done cancelled h = absurd (h refl)
Reach-done stale _ = then (with_full refl) ready_to_done
Reach-done awaiting_human_approval _ = then (with_full refl) in_progress_to_done
