-- ===== src/Runtime/Missions/Created.antt =====
-- What `create_runner` leaves in the database (factory/runtime/sqlite_store.py).
use mathlib.Core.List.{append-nil, append_assoc}
use ai_factory.Base.{
  String, Bool, true, false, ◌||◌, ◌≡◌, refl, ap, sym, ◌∙◌, inl, inr, Option, none, some, List, [],
  ◌∷◌, ◌++◌, arith, map, ◌==◌, eq_iff, any, Bool-cases, is_some, is_empty, is_nil, select-append, ⊤,
}
use ai_factory.Base.Result.{Result, ok, err, map_err}
use ai_factory.Base.Action.{Action, raise_if, gets, lift, transaction, pure, ◌>>◌, ◌>>=◌}
use ai_factory.Base.Dict.{lookup, insert, lookup-insert, lookup-insert_self}
use ai_factory.Base.Sorting.{sort_by}
use ai_factory.ControlPlane.Graph.{TaskNode, validate_graph}
use ai_factory.ControlPlane.Runner.{MissionRunner, new}
use ai_factory.Runtime.Missions.{
  TaskRow, MissionDatabase, row_of, row_after, rows_of, has_key, insert_tasks, insert_mission,
  invalid_graph, mission_and_task_required, runner_error, create_runner, load_nodes,
}

-- The tasks of a mission that is not there are not there.
unfoldable pub IsReferenced : MissionDatabase → Type 0
IsReferenced s =
    (mission_id : String) → lookup mission_id s.missions ≡ none → rows_of mission_id s.tasks ≡ []

abbrev pub ids_of : List TaskNode → List String
ids_of = map (λ (n : TaskNode). n.task_id)

is_some-eq-false : {A : Type 0} (o : Option A) → is_some o ≡ false → o ≡ none
is_some-eq-false none h = refl
is_some-eq-false (some a) h = cc h

ok-injective : {E A : Type 0} {a b : A} → ◌≡◌ {A = Result E A} (ok a) (ok b) → a ≡ b
ok-injective h = cc

module _ {S E A : Type 0} (made : Result E A) (finish : S → A → A) where
  abbrev answer_of : Action S E A
  answer_of = gets (λ s. s) >>= λ s. lift made >>= λ runner. pure (finish s runner)

  stored_and_answered :
      (x : Result E ⊤ × S) (s : S) {a : A} {t : S}
      → (transaction (λ _. x) >> answer_of) s ≡ (ok a, t)
      → (x ≡ (ok tt, t)) × ((r : A) × (made ≡ ok r) × (a ≡ finish t r))
  stored_and_answered (err e, t) s h = absurd (cc (ap (λ z. z.0) h))
  stored_and_answered (ok u, t) s h =
      let (same, answer) = by_answer made h in (rw same refl, answer)
    where
      by_answer :
          (y : Result E A) {a : A} {t' : S}
          → (lift y >>= λ runner. pure (finish t runner)) t ≡ (ok a, t')
          → (t ≡ t') × ((r : A) × (y ≡ ok r) × (a ≡ finish t' r))
      by_answer (err e) h = absurd (cc (ap (λ z. z.0) h))
      by_answer (ok r) h =
          let same = ap (λ z. z.1) h in
          let value = ap (λ z. z.0) h in
          (same, (r, refl, sym (ok-injective value) ∙ ap (λ t. finish t r) same))

  -- A check, a guard, a transaction, and an answer made from what the transaction has left.
  steps_returned :
      (checked : Result E ⊤) (guard : Bool) (e : E) (m : Action S E ⊤) (s : S) {a : A} {t : S}
      → (lift checked >> (raise_if guard e >> (transaction m >> answer_of))) s ≡ (ok a, t)
      → (guard ≡ false) × (m s ≡ (ok tt, t)) × (r : A) × (made ≡ ok r) × (a ≡ finish t r)
  steps_returned (err e) guard _ m s h = absurd (cc (ap (λ z. z.0) h))
  steps_returned (ok _) true _ m s h = absurd (cc (ap (λ z. z.0) h))
  steps_returned (ok _) false _ m s h =
      let (done, (r, started, same)) = stored_and_answered (m s) s h in
      (refl, done, r, started, same)

map_err-returns :
    {E F A : Type 0} (f : E → F) (r : Result E A) {a : A} → map_err f r ≡ ok a → r ≡ ok a
map_err-returns f (ok a) h = cc h
map_err-returns f (err e) h = cc h

module _ (mission_id : String) where
  insert_tasks_lem :
      (nodes : List TaskNode) (s : MissionDatabase) {t : MissionDatabase}
      → insert_tasks mission_id nodes s ≡ (ok tt, t)
      → t ≡ record s { tasks = s.tasks ++ map (row_of mission_id) nodes }
  unfolding insert_tasks
  insert_tasks_lem [] s h = rw (append-nil s.tasks) (sym (ap (λ z. z.1) h))
  insert_tasks_lem (n ∷ ns) s {t} h = elim (Bool-cases (any (has_key mission_id n) s.tasks)) [
    | inl e ↦ absurd (ground arith)
    | inr e ↦
        let rest : insert_tasks mission_id ns
              (record s { tasks = s.tasks ++ row_of mission_id n ∷ [] })
            ≡ (ok tt, t) =
          ground arith in
        insert_tasks_lem ns (record s { tasks = s.tasks ++ row_of mission_id n ∷ [] }) rest
        ∙ rw (append_assoc s.tasks (row_of mission_id n ∷ []) (map (row_of mission_id) ns)) refl
  ]

  abbrev pub with_mission : List TaskNode → String → MissionDatabase → MissionDatabase
  with_mission nodes now s = record s {
    missions = insert mission_id now s.missions;
    tasks = s.tasks ++ map (row_of mission_id) nodes;
  }

  -- What a call of `create_runner` that returns has done.
  pub record IsCreated (nodes : List TaskNode) (now : String) (s : MissionDatabase)
      (m : MissionRunner) (t : MissionDatabase) : Type 0 where
    pub unknown : lookup mission_id s.missions ≡ none
    pub stored : t ≡ with_mission nodes now s
    pub given_nodes : is_nil nodes ≡ false
    pub built :
        (r : MissionRunner) × (new mission_id (ids_of nodes) (some nodes) ≡ ok r)
        × (m ≡ record r { ledger = s.events })

  insert_mission_lem :
      (nodes : List TaskNode) (now : String) (s : MissionDatabase) {t : MissionDatabase}
      → insert_mission mission_id nodes now s ≡ (ok tt, t)
      → (lookup mission_id s.missions ≡ none) × (t ≡ with_mission nodes now s)
  unfolding insert_mission
  insert_mission_lem nodes now s {t} h =
      elim (Bool-cases (is_some (lookup mission_id s.missions))) [
        | inl e ↦ absurd (ground arith)
        | inr e ↦
            let rest : insert_tasks mission_id nodes
                  (record s { missions = insert mission_id now s.missions })
                ≡ (ok tt, t) =
              ground arith in
            (
              is_some-eq-false (lookup mission_id s.missions) e,
              insert_tasks_lem nodes (record s { missions = insert mission_id now s.missions })
                  rest,
            )
      ]

  pub create_runner-IsCreated :
      (nodes : List TaskNode) (now : String) (s : MissionDatabase) {m : MissionRunner}
      {t : MissionDatabase}
      → create_runner mission_id nodes now s ≡ (ok m, t)
      → IsCreated nodes now s m t
  unfolding create_runner
  create_runner-IsCreated nodes now s {m} {t} h =
      let (given, inserted, r, started, same) =
        steps_returned (map_err runner_error (new mission_id (ids_of nodes) (some nodes)))
          (λ s runner. record runner { ledger = s.events })
          (map_err invalid_graph (validate_graph nodes)) (is_empty mission_id || is_nil nodes)
          mission_and_task_required (insert_mission mission_id nodes now) s h in
      let (unknown, stored) = insert_mission_lem nodes now s inserted in
      record {
        unknown = unknown;
        stored = stored;
        given_nodes = ground arith;
        built = (
          r,
          map_err-returns runner_error (new mission_id (ids_of nodes) (some nodes)) started,
          same ∙ ap (λ (t : MissionDatabase). record r { ledger = t.events }) stored,
        );
      }

  rows_of-row_of :
      (nodes : List TaskNode)
      → rows_of mission_id (map (row_of mission_id) nodes) ≡ map (row_of mission_id) nodes
  rows_of-row_of [] = refl
  rows_of-row_of (n ∷ ns) = rw ((eq_iff mission_id mission_id).1 refl, rows_of-row_of ns) refl

  rows_of_other :
      (other : String) (nodes : List TaskNode)
      → (mission_id == other) ≡ false
      → rows_of other (map (row_of mission_id) nodes) ≡ []
  rows_of_other other [] e = refl
  rows_of_other other (n ∷ ns) e = rw e (rows_of_other other ns e)

  rows_of-with_mission :
      (nodes : List TaskNode) (now : String) (s : MissionDatabase)
      → rows_of mission_id s.tasks ≡ []
      → rows_of mission_id (with_mission nodes now s).tasks ≡ map (row_of mission_id) nodes
  rows_of-with_mission nodes now s h =
      rw
        (
          select-append (λ (row : TaskRow). row.mission_id == mission_id) s.tasks
              (map (row_of mission_id) nodes),
          h,
        )
        (rows_of-row_of nodes)

  rows_of_others-with_mission :
      (other : String) (nodes : List TaskNode) (now : String) (s : MissionDatabase)
      → (mission_id == other) ≡ false
      → rows_of other (with_mission nodes now s).tasks ≡ rows_of other s.tasks
  rows_of_others-with_mission other nodes now s e =
      select-append (λ (row : TaskRow). row.mission_id == other) s.tasks
        (map (row_of mission_id) nodes)
      ∙ rw (rows_of_other other nodes e) (append-nil (rows_of other s.tasks))

  pub with_mission-IsReferenced :
      (nodes : List TaskNode) (now : String) (s : MissionDatabase)
      → IsReferenced s
      → IsReferenced (with_mission nodes now s)
  unfolding IsReferenced
  with_mission-IsReferenced nodes now s k other h = elim (Bool-cases (mission_id == other)) [
    | inl e ↦ absurd (ground (arith, lookup-insert mission_id other now s.missions))
    | inr e ↦
        rows_of_others-with_mission other nodes now s e
        ∙ k other (ground (arith, lookup-insert mission_id other now s.missions))
  ]

  pub load_nodes_other :
      (other : String) (nodes : List TaskNode) (now : String) (s : MissionDatabase)
      → (mission_id == other) ≡ false
      → load_nodes other (with_mission nodes now s) ≡ load_nodes other s
  unfolding load_nodes
  load_nodes_other other nodes now s e =
      rw
        (
          rows_of_others-with_mission other nodes now s e,
          lookup-insert mission_id other now s.missions,
          e,
        )
        refl

  pub load_nodes-with_mission :
      (nodes : List TaskNode) (now : String) (s : MissionDatabase)
      → rows_of mission_id s.tasks ≡ []
      → load_nodes mission_id (with_mission nodes now s)
        ≡ ok (map (λ (row : TaskRow). row.node) (sort_by row_after (map (row_of mission_id) nodes)))
  unfolding load_nodes
  load_nodes-with_mission nodes now s h =
      rw (rows_of-with_mission nodes now s h, lookup-insert_self mission_id now s.missions) refl
