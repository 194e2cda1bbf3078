-- ===== src/Reliability/Recovery/Safety.antt =====
-- When a mission may continue after a restart (factory/reliability/recovery.py).
use ai_factory.Base.{
  String, Bool, true, false, List, [], ◌∷◌, map, ⊤, is_nil, all, ◌≡◌, refl, ap, sym, ◌∙◌, ◌≢◌, none,
  some, arith, eq_iff, subst, Option-cases, inl, inr,
}
use ai_factory.Base.Result.{ok}
use ai_factory.Base.Dict.{lookup}
use ai_factory.Base.Action.{pure, raise_if, lift, ◌>>=◌, ◌>>◌, >>=-eq-ok}
use ai_factory.Reliability.Store.{Status, stopped, OperationRow}
use ai_factory.Reliability.Store
use ai_factory.Reliability.Recovery.{
  RecoveryItem, RecoveryReport, Call, recover, recover_each, recover_item, item_of, is_safe,
  report_of, operations_required, validate_report,
}

-- What an item says of its operation.
record IsItem (mission_id id : String) (s : Store.Store) (i : RecoveryItem) : Type 0 where
  pub named : i.operation_id ≡ id
  pub row : OperationRow
  pub found : lookup id s.operations ≡ some row
  pub mine : row.spec.mission_id ≡ mission_id
  pub halted : row.status ≡ stopped → is_safe i ≡ false

stops-is_safe : (i : RecoveryItem) → i.action ≡ "STOP" → is_safe i ≡ false
stops-is_safe i h = ground (arith, eq_iff i.action "STOP")

item_row :
    (mission_id id : String) (s : Store.Store) {i : RecoveryItem} {t : Store.Store}
    {row : OperationRow}
    → lookup id s.operations ≡ some row
    → recover_item mission_id id s ≡ (ok i, t)
    → (t ≡ s)
      × (i.operation_id ≡ id)
      × (row.spec.mission_id ≡ mission_id)
      × (row.status ≡ stopped → is_safe i ≡ false)
unfolding recover_item item_of Store.state_of Store.latest_decision
item_row mission_id id s {i = i} {row = row} f h = (
  ground arith,
  ground arith,
  ground (arith, eq_iff row.spec.mission_id mission_id),
  λ e. stops-is_safe i (ground arith),
)

item_unknown :
    (mission_id id : String) (s : Store.Store) {i : RecoveryItem} {t : Store.Store}
    → lookup id s.operations ≡ none
    → recover_item mission_id id s ≡ (ok i, t)
    → ⊥
unfolding recover_item Store.state_of
item_unknown mission_id id s f h = ground arith

recover_item-IsItem :
    (mission_id id : String) (s : Store.Store) {i : RecoveryItem} {t : Store.Store}
    → recover_item mission_id id s ≡ (ok i, t)
    → (t ≡ s) × IsItem mission_id id s i
recover_item-IsItem mission_id id s h = elim (Option-cases (lookup id s.operations)) [
  | inl f ↦ absurd (item_unknown mission_id id s f h)
  | inr (row, f) ↦
      let (same, named, mine, halted) = item_row mission_id id s f h in
      (same, record { named = named; row = row; found = f; mine = mine; halted = halted })
]

-- The operations are all registered for the mission, and none of them is stopped.
pub data AllLive (mission_id : String) (s : Store.Store) : List String → Type 0 where
  nothing : AllLive mission_id s []
  live :
      {id : String} {ids : List String} (row : OperationRow)
      → lookup id s.operations ≡ some row
      → row.spec.mission_id ≡ mission_id
      → row.status ≢ stopped
      → AllLive mission_id s ids
      → AllLive mission_id s (id ∷ ids)

recover_each-AllLive :
    (mission_id : String) (ids : List String) (s : Store.Store) {items : List RecoveryItem}
    {t : Store.Store}
    → recover_each mission_id ids s ≡ (ok items, t)
    → (t ≡ s)
      × (map (λ (i : RecoveryItem). i.operation_id) items ≡ ids)
      × (all is_safe items ≡ true → AllLive mission_id s ids)
unfolding recover_each
recover_each-AllLive mission_id [] s {items = items} h =
    let none_left : items ≡ [] = cc (ap (λ z. z.0) h) in
    (sym (ap (λ z. z.1) h), rw none_left refl, λ _. nothing)
recover_each-AllLive mission_id (id ∷ ids) s {items = items} {t = t} h =
    let (i, s₁, e₁, h₁) =
      >>=-eq-ok (recover_item mission_id id)
        (λ i. recover_each mission_id ids >>= λ rest. pure (i ∷ rest)) s h in
    let (rest, s₂, e₂, h₂) =
      >>=-eq-ok (recover_each mission_id ids) (λ rest. pure (i ∷ rest)) s₁ h₁ in
    let (same₁, first) = recover_item-IsItem mission_id id s e₁ in
    let (same₂, names, others) = recover_each-AllLive mission_id ids s₁ e₂ in
    let listed : items ≡ i ∷ rest = cc (ap (λ z. z.0) h₂) in
    let back : s₁ ≡ s = same₁ in
    (
      sym (ap (λ z. z.1) h₂) ∙ same₂ ∙ same₁,
      rw listed (ap (λ l. i.operation_id ∷ l) names ∙ ap (λ n. n ∷ ids) first.named),
      λ safe.
          let both : all is_safe (i ∷ rest) ≡ true = rw listed at safe in
          live first.row first.found first.mine (λ e. absurd (ground (arith, first.halted e)))
            (subst (λ x. AllLive mission_id x ids) back (others (ground arith))),
    )

abbrev checked : String → List RecoveryItem → Call RecoveryReport
checked mission_id items =
    lift (validate_report (report_of mission_id items)) >> pure (report_of mission_id items)

checked-eq-ok :
    (mission_id : String) (items : List RecoveryItem) (s : Store.Store) {r : RecoveryReport}
    {t : Store.Store}
    → checked mission_id items s ≡ (ok r, t)
    → (r ≡ report_of mission_id items) × (t ≡ s)
checked-eq-ok mission_id items s h = (ground arith, ground arith)

-- What a report shows of its items.
abbrev Shown : String → List String → Store.Store → Store.Store → RecoveryReport → Type 0
Shown mission_id ids s t r =
    (t ≡ s)
    × (map (λ (i : RecoveryItem). i.operation_id) r.items ≡ ids)
    × (r.safe_to_continue ≡ true → AllLive mission_id s ids)

recovered :
    (mission_id : String) (ids : List String) (s : Store.Store) {r : RecoveryReport}
    {t : Store.Store}
    → (recover_each mission_id ids >>= checked mission_id) s ≡ (ok r, t)
    → Shown mission_id ids s t r
recovered mission_id ids s {r = r} {t = t} h =
    let (items, u, e, h₂) = >>=-eq-ok (recover_each mission_id ids) (checked mission_id) s h in
    let (same, names, safe) = recover_each-AllLive mission_id ids s e in
    let (reported, last) = checked-eq-ok mission_id items u h₂ in
    subst (λ x. Shown mission_id ids s t x) (sym reported) (last ∙ same, names, safe)

-- A report names the operations that were asked for, in their order, and leaves the store as it is;
-- and a report that is safe to continue is on operations that are registered for the mission, and of
-- which none is stopped.
pub recover-AllLive :
    (mission_id : String) (ids : List String) (s : Store.Store) {r : RecoveryReport}
    {t : Store.Store}
    → recover mission_id ids s ≡ (ok r, t)
    → (t ≡ s)
      × (map (λ (i : RecoveryItem). i.operation_id) r.items ≡ ids)
      × (r.safe_to_continue ≡ true → AllLive mission_id s ids)
unfolding recover
recover-AllLive mission_id ids s {r = r} {t = t} h =
    let (_, u, e, rest) =
      >>=-eq-ok (raise_if (is_nil ids) operations_required)
        (λ _. recover_each mission_id ids >>= checked mission_id) s h in
    let same : u ≡ s = guard_state (is_nil ids) e in
    subst (λ x. Shown mission_id ids x t r) same (recovered mission_id ids u rest)
  where
    guard_state :
        (b : Bool) {u : Store.Store} {a : ⊤} → raise_if b operations_required s ≡ (ok a, u) → u ≡ s
    guard_state b e = ground arith
