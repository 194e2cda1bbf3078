-- ===== src/Runtime/Audit.antt =====
-- factory/runtime/sqlite_store.py: the audit ledger in a database. The table is the list of its rows in
-- the order of `sequence`; a row's payload stands for its JSON text.
pub mod Refines
use ai_factory.Base.{
  ℕ, ◌+◌, String, Bool, true, false, ◌||◌, Option, none, some, List, [], ◌∷◌, ◌++◌, ⊤, ◌==◌, any,
  is_empty, get_last?, is_some, if◌then◌else◌,
}
use ai_factory.Base.Result.{Result, ok, err, map_err}
use ai_factory.Base.Result
use ai_factory.Base.Action.{Action, pure, raise_if, gets, modify, transaction, ◌>>=◌, ◌>>◌}
use ai_factory.ControlPlane.Ledger.{
  Unsigned, AuditEvent, LedgerError, or_now, genesis, sign, events_of, from_events,
}

-- `integrity_error` is the database's: a unique column has the value already.
pub data AuditError : Type 0 where
  fields_required duplicate_id integrity_error : AuditError
  chain_error : LedgerError → AuditError

module _ {P : Type 0} where
  -- `SELECT sequence, event_hash … ORDER BY sequence DESC LIMIT 1`, and what follows it.
  abbrev pub next_sequence : List (AuditEvent P) → ℕ
  next_sequence rows = elim (get_last? rows) [ none ↦ 1 | some last ↦ last.sequence + 1 ]

  abbrev pub previous_hash_of : List (AuditEvent P) → String
  previous_hash_of rows = elim (get_last? rows) [ none ↦ genesis | some last ↦ last.event_hash ]

  -- `INSERT INTO audit_events`, where `event_id` is known to be new, and `sequence` to be the greatest.
  unfoldable pub insert_event : AuditEvent P → Action (List (AuditEvent P)) AuditError ⊤
  insert_event e = do
    rows ← gets (λ rows. rows)
    raise_if (any (λ r. r.event_hash == e.event_hash) rows) integrity_error
    modify (λ rows. rows ++ e ∷ [])

  -- `events(mission_id)`
  unfoldable pub stored_events : Option String → List (AuditEvent P) → List (AuditEvent P)
  unfolding events_of
  stored_events mission_id rows = events_of mission_id rows

module _ {P : Type 0} (digest : Unsigned P → String) where
  abbrev pub stored_event :
      String → String → String → String → P → String → List (AuditEvent P) → AuditEvent P
  stored_event event_id mission_id actor_id event_type payload timestamp rows =
      sign digest (record {
        sequence = next_sequence rows;
        event_id = event_id;
        mission_id = mission_id;
        actor_id = actor_id;
        event_type = event_type;
        payload = payload;
        created_at = timestamp;
        previous_hash = previous_hash_of rows;
      })

  -- `append`
  unfoldable pub append_stored :
      String
      → String
      → String
      → String
      → P
      → Option String
      → String
      → Action (List (AuditEvent P)) AuditError (AuditEvent P)
  unfolding insert_event
  append_stored event_id mission_id actor_id event_type payload created_at now = do
    raise_if (is_empty mission_id || (is_empty actor_id || is_empty event_type)) fields_required
    let timestamp = or_now created_at now
    transaction do
      rows ← gets (λ rows. rows)
      raise_if (any (λ r. r.event_id == event_id) rows) duplicate_id
      let event = stored_event event_id mission_id actor_id event_type payload timestamp rows
      insert_event event
      pure event

  -- `verify_integrity`
  unfoldable pub verify_stored : List (AuditEvent P) → Result AuditError ⊤
  unfolding from_events stored_events
  verify_stored rows =
      Result.◌>>◌ (map_err chain_error (from_events digest (stored_events none rows))) (ok tt)
