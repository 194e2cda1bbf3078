-- ===== src/Lib.antt =====
-- AI Factory: the control plane, the reliability layer, the runtime, the integration and the assurance
-- gate of an agent factory, and the listings of its real-estate mission.
--
-- The factory runs missions. A mission is a set of tasks with dependencies; agents move the tasks
-- through a fixed set of states, and every move is gated and put on an audit ledger, from which the
-- mission can be rebuilt. Operations with side effects are attempted under a durable journal that
-- decides what follows an outcome. Incidents are handled by a store of their own, which asks the
-- runtime catalog whether a protected action is approved. What the factory builds, in packages with
-- scopes of their own, is integrated into one manifest, and released through an assurance gate, which
-- reviews the manifest in bounded cycles. One mission watches real-estate listings: it keeps the
-- versions of each listing and the events of its lifecycle, detects prices that diverge between
-- duplicates, and puts the findings before a reviewer.
--
-- The parts, and the files that model them:
--
--   factory/control_plane/state.py         ControlPlane/State: `TaskState`, `_ALLOWED` (allowed),
--                                          `TransitionContext`, `validate_transition`
--   factory/control_plane/ledger.py        ControlPlane/Ledger: `AuditLedger` is its list of events
--   factory/control_plane/graph.py         ControlPlane/Graph: `validate_graph`, `ready_tasks`
--   factory/control_plane/runner.py        ControlPlane/Runner: `MissionRunner` is a record; its
--                                          methods are actions on it; ControlPlane/Runner/Run has the
--                                          sequences of public calls
--   factory/control_plane/orchestration.py ControlPlane/Orchestration: the functions on task graphs
--   factory/control_plane/policy.py        ControlPlane/Policy, with `AgentRegistry` of registry.py
--   factory/control_plane/contracts.py     ControlPlane/Records: the records and their `validate`
--   factory/reliability/contracts.py       Reliability/Contracts: the records and their `validate`
--   factory/reliability/engine.py          Reliability/Engine: `ReliabilityDecisionEngine`
--   factory/reliability/store.py           Reliability/Store: `SQLiteReliabilityStore`, one table to a
--                                          field; Store/Journal and Store/Effects say what its methods
--                                          leave
--   factory/reliability/controller.py      Reliability/Controller: `DurableOperationController`;
--                                          Controller/Runs has the sequences of public calls
--   factory/reliability/recovery.py        Reliability/Recovery: `MissionRecoveryCoordinator`
--   factory/runtime/incidents.py           Runtime/Incidents: `IncidentResponseStore`; the methods are in
--                                          Incidents/Calls, the sequences of calls in Incidents/Runs
--   factory/runtime/catalog.py             Runtime/Catalog: `SQLiteRuntimeCatalog`; Runtime/Approved puts
--                                          it under the incident store
--   factory/runtime/sqlite_store.py        Runtime/Audit: `SQLiteAuditLedger`; Runtime/Missions:
--                                          `SQLiteMissionStore`
--   factory/runtime/mission_scope.py       Runtime/Scoped, with `PolicyEngineV0` of policy.py
--   factory/engineering_pod/contracts.py   Engineering: the work packages and their evidence
--   factory/engineering_pod/validator.py   Engineering/Scopes, and Engineering/Evidence for
--                                          `validate_evidence`
--   factory/engineering_pod/integration.py Engineering/Integration: `EngineeringIntegrationValidator`;
--                                          the manifest is in Assurance/Lifecycle
--   factory/assurance_pod/contracts.py     Assurance: the reports and their `validate`
--   factory/assurance_pod/validator.py     Assurance/Validator: `AssuranceValidator.decide`
--   factory/assurance_pod/lifecycle.py     Assurance/Lifecycle: `AssuranceLifecycle`
--   missions/real_estate/contracts.py      RealEstate/Listing: the listings; integrity.py is there too
--   missions/real_estate/inventory.py      RealEstate/Inventory: `SQLiteInventoryStore`;
--                                          Inventory/Calls has the methods, Inventory/Runs the
--                                          sequences of calls
--   missions/real_estate/anomalies.py      RealEstate/Anomalies: `DuplicatePriceDivergenceDetector`
--   missions/real_estate/review_queue.py   RealEstate/Review: `SQLiteTrustReviewStore` and
--                                          `TrustReviewCoordinator`, in Review/Calls; Review/Runs
--                                          has the sequences of calls
--   Base                                   what they share: tests, texts, lists, dictionaries, sorting,
--                                          results and actions
--   Tests.antt in each part                the definitions on concrete inputs
--
-- How the code is modelled. A method on a mutable object takes the object's state and gives back its
-- answer, or its error, and the state (Base/Action); what was written before a raise stays written,
-- and a database transaction undoes its own writes. Errors have one constructor for each `raise`. A
-- database table is a dictionary by its primary key, or a list of rows in the order of insertion; JSON
-- round trips are identities. Texts that range over a fixed set are data types; where the code meets
-- other texts before it has checked them, the type has a constructor for those. Counts are natural
-- numbers, so that the refusals of negative counts are left out; an elapsed time is an integer number
-- of microseconds; a metric is a whole count.
--
-- In the listings, prices and areas are naturals in a small unit, and scores are millionths; a
-- relative gap is compared as a fraction, by multiplication, where the code divides floating-point
-- numbers. A list stands for a set where only membership and emptiness are looked at.
--
-- SHA-256 of a canonical JSON text is a parameter, `digest`, of which nothing is assumed: what depends
-- on it says "or two events with one digest". The clock is a parameter: `clock n` is its reading at
-- the append of event `n + 1` of a runner, and in the incident store and in the catalog each call is
-- given its reading, `now`. A runner owns its ledger, and one of the database starts with the events
-- there. A controller has no trace sink: a sink is called last in a method, and what it returns is not
-- used.
--
-- Fuel: the depth-first search of `validate_graph` runs on one more step of depth than there are
-- nodes, since the visits that are open at once are of different nodes (ControlPlane/Graph/Depth). A
-- decimal numeral runs on one more step than the number, which has no more digits than that
-- (Base/Decimal). The search for what a change invalidates follows every dependency once: its fuel is
-- the number of the first tasks and of all dependencies, and one (ControlPlane/Orchestration/Fuel).
--
-- Not modelled: the design and research pods; the coordinators of the engineering and the assurance
-- pod, and the engineering plan's validator, which reads a design; the memory, interoperability,
-- qualification and evaluation packages; backups, archives, intake, adapters, tracing and reports;
-- search, alerts and presentation of the real-estate mission. The connection handling of SQLite and
-- the queries that only count, `metrics`, are left out of what is modelled.
pub mod Base
pub mod ControlPlane
pub mod Reliability
pub mod Runtime
pub mod RealEstate
pub mod Assurance
pub mod Engineering
