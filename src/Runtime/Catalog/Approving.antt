-- ===== src/Runtime/Catalog/Approving.antt =====
-- An approval is decided once (factory/runtime/catalog.py).
use ai_factory.Base.{
  ℕ, String, Bool, true, false, ◌≡◌, Option, none, some, List, [], ◌∷◌, arith, eq_iff, Option-cases,
  subst, ◌⊎◌, inl, inr,
}
use ai_factory.Base.Dict.{Dict, lookup, insert, lookup-insert}
use ai_factory.Runtime.Catalog.{
  Catalog, Approval, is_pending, new_approval, decided, propose_action, decide_action,
  register_agent, add_artifact, set_budget, consume_budget,
}

-- A public call that may write. `digest` stands for the SHA-256 of a text.
pub data Command : Type 0 where
  propose_call : String → String → String → String → Bool → String → Command
  decide_call : String → Bool → String → Option String → String → Command
  register_call : String → String → List String → Bool → Command
  artifact_call : String → String → String → String → String → String → Command
  budget_call spend_call : String → ℕ → Command

unfoldable pub after : (String → String) → Command → Catalog → Catalog
after digest (propose_call id mission_id action_type target protected now) s =
    (propose_action id mission_id action_type target protected now s).1
after digest (decide_call id accept decided_by mission_id now) s =
    (decide_action id accept decided_by mission_id now s).1
after digest (register_call agent_id role capabilities active) s =
    (register_agent agent_id role capabilities active s).1
after digest (artifact_call mission_id artifact_id content created_by media_type now) s =
    (add_artifact digest mission_id artifact_id content created_by media_type now s).1
after digest (budget_call mission_id limit_units) s = (set_budget mission_id limit_units s).1
after digest (spend_call mission_id units) s = (consume_budget mission_id units s).1

unfoldable pub run : (String → String) → List Command → Catalog → Catalog
run digest [] s = s
run digest (c ∷ cs) s = run digest cs (after digest c s)

propose-cases :
    (id mission_id action_type target : String) (protected : Bool) (now : String) (s : Catalog)
    → let t = (propose_action id mission_id action_type target protected now s).1 in
      (t.approvals ≡ s.approvals)
      ⊎ ((lookup id s.approvals ≡ none)
          × (t.approvals
              ≡ insert id (new_approval mission_id action_type target protected now) s.approvals))
unfolding propose_action
propose-cases id mission_id action_type target protected now s = ground arith

decided_row :
    (id : String) (accept : Bool) (decided_by : String) (mission_id : Option String) (now : String)
    (s : Catalog) {a : Approval}
    → lookup id s.approvals ≡ some a
    → let t = (decide_action id accept decided_by mission_id now s).1 in
      (t.approvals ≡ s.approvals)
      ⊎ ((is_pending a.status ≡ true)
          × (t.approvals ≡ insert id (decided a accept decided_by now) s.approvals))
unfolding decide_action
decided_row id accept decided_by mission_id now s {a} h = ground arith

decide_unknown :
    (id : String) (accept : Bool) (decided_by : String) (mission_id : Option String) (now : String)
    (s : Catalog)
    → lookup id s.approvals ≡ none
    → (decide_action id accept decided_by mission_id now s).1.approvals ≡ s.approvals
unfolding decide_action
decide_unknown id accept decided_by mission_id now s h = ground arith

-- A row of another proposal, or of one that was not pending.
insert-other :
    (j id : String) (new_row : Approval) (approvals : Dict Approval) {a : Approval}
    → lookup id approvals ≡ some a
    → (j ≡ id → ⊥)
    → lookup id (insert j new_row approvals) ≡ some a
insert-other j id new_row approvals h other =
    ground (arith, lookup-insert j id new_row approvals, eq_iff j id)

-- The other methods leave the approvals alone.
register_quiet :
    (agent_id role : String) (capabilities : List String) (active : Bool) (s : Catalog)
    → (register_agent agent_id role capabilities active s).1.approvals ≡ s.approvals
unfolding register_agent
register_quiet agent_id role capabilities active s = ground arith

artifact_quiet :
    (digest : String → String) (mission_id artifact_id content created_by media_type now : String)
    (s : Catalog)
    → (add_artifact digest mission_id artifact_id content created_by media_type now s).1.approvals
      ≡ s.approvals
unfolding add_artifact
artifact_quiet digest mission_id artifact_id content created_by media_type now s = ground arith

budget_quiet :
    (mission_id : String) (limit_units : ℕ) (s : Catalog)
    → (set_budget mission_id limit_units s).1.approvals ≡ s.approvals
unfolding set_budget
budget_quiet mission_id limit_units s = ground arith

spend_quiet :
    (mission_id : String) (units : ℕ) (s : Catalog)
    → (consume_budget mission_id units s).1.approvals ≡ s.approvals
unfolding consume_budget
spend_quiet mission_id units s = ground arith

after-decided :
    (digest : String → String) (c : Command) (id : String) (s : Catalog) {a : Approval}
    → lookup id s.approvals ≡ some a
    → is_pending a.status ≡ false
    → lookup id (after digest c s).approvals ≡ some a
unfolding after
after-decided digest (propose_call j mission_id action_type target protected now) id s {a} h k =
    elim (propose-cases j mission_id action_type target protected now s) [
      | inl same ↦ rw same h
      | inr (missing, p) ↦ rw p (
          insert-other j id (new_approval mission_id action_type target protected now) s.approvals h
            (λ e. absurd (ground (arith, subst (λ i. lookup i s.approvals ≡ none) e missing))))
    ]
after-decided digest (decide_call j accept decided_by mission_id now) id s {a} h k =
    elim (Option-cases (lookup j s.approvals)) [
      | inl missing ↦ rw (decide_unknown j accept decided_by mission_id now s missing) h
      | inr (b, found) ↦ elim (decided_row j accept decided_by mission_id now s found) [
        | inl same ↦ rw same h
        | inr (is_open, p) ↦ rw p (
            insert-other j id (decided b accept decided_by now) s.approvals h
              (λ e. absurd (ground (arith, subst (λ i. lookup i s.approvals ≡ some b) e found))))
      ]
    ]
after-decided digest (register_call agent_id role capabilities active) id s h k =
    rw (register_quiet agent_id role capabilities active s) h
after-decided digest (artifact_call mission_id artifact_id content created_by media_type now) id s h
      k =
    rw (artifact_quiet digest mission_id artifact_id content created_by media_type now s) h
after-decided digest (budget_call mission_id limit_units) id s h k =
    rw (budget_quiet mission_id limit_units s) h
after-decided digest (spend_call mission_id units) id s h k = rw (spend_quiet mission_id units s) h

-- A proposal that has been approved or denied keeps its decision, whatever public methods of the catalog
-- are called, on agents, artifacts, budgets and approvals.
pub run-decided :
    (digest : String → String) (cs : List Command) (id : String) (s : Catalog) {a : Approval}
    → lookup id s.approvals ≡ some a
    → is_pending a.status ≡ false
    → lookup id (run digest cs s).approvals ≡ some a
unfolding run
run-decided digest [] id s h k = h
run-decided digest (c ∷ cs) id s h k =
    run-decided digest cs id (after digest c s) (after-decided digest c id s h k) k
