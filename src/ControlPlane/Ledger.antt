-- ===== src/ControlPlane/Ledger.antt =====
-- factory/control_plane/ledger.py: the append-only, hash-chained audit ledger. `digest` stands for
-- the SHA-256 of the canonical JSON of an unsigned event, and `now` for the clock's reading.
pub mod Integrity
use ai_factory.Base.{
  ℕ, suc, ◌+◌, String, Bool, true, false, not, ◌||◌, Option, none, some, List, [], ◌∷◌, ◌++◌, ⊤,
  if◌then◌else◌, eqb, ◌==◌, length, get_last?, select, any, is_empty, is_absent,
}
use ai_factory.Base.Result.{Result, ok, err}
use ai_factory.Base.Result
use ai_factory.Base.Action.{Action, pure, gets, modify, raise_if, ◌>>=◌, ◌>>◌}

-- The event without its hash: what `unsigned_payload` returns.
pub record Unsigned (P : Type 0) : Type 0 where
  pub sequence : ℕ
  pub event_id : String
  pub mission_id : String
  pub actor_id : String
  pub event_type : String
  pub payload : P
  pub created_at : String
  pub previous_hash : String

pub record AuditEvent (P : Type 0) : Type 0 where
  pub unsigned : Unsigned P
  pub open unsigned use *
  pub event_hash : String

pub data LedgerError : Type 0 where
  duplicate_event_id required_missing : LedgerError
  sequence_gap chain_break mutation_detected : LedgerError

abbrev pub genesis : String
genesis = "GENESIS"

abbrev pub or_now : Option String → String → String
or_now created_at now =
    if is_absent created_at then now else elim created_at [ none ↦ now | some t ↦ t ]

module _ {P : Type 0} where
  -- The hash that the next event refers to.
  abbrev pub last_hash : List (AuditEvent P) → String
  last_hash events = elim (get_last? events) [ none ↦ genesis | some e ↦ e.event_hash ]

  -- `events(mission_id)`
  unfoldable pub events_of : Option String → List (AuditEvent P) → List (AuditEvent P)
  events_of none events = events
  events_of (some mission_id) events = select (λ e. e.mission_id == mission_id) events

module _ {P : Type 0} (digest : Unsigned P → String) where
  abbrev pub sign : Unsigned P → AuditEvent P
  sign u = record { unsigned = u; event_hash = digest u }

  -- The event that `append` builds.
  abbrev pub next_event :
      String
      → String
      → String
      → String
      → P
      → Option String
      → String
      → List (AuditEvent P)
      → AuditEvent P
  next_event event_id mission_id actor_id event_type payload created_at now events = sign (record {
    sequence = length events + 1;
    event_id = event_id;
    mission_id = mission_id;
    actor_id = actor_id;
    event_type = event_type;
    payload = payload;
    created_at = or_now created_at now;
    previous_hash = last_hash events;
  })

  unfoldable pub append :
      String
      → String
      → String
      → String
      → P
      → Option String
      → String
      → Action (List (AuditEvent P)) LedgerError (AuditEvent P)
  append event_id mission_id actor_id event_type payload created_at now = do
    events ← gets (λ events. events)
    raise_if (any (λ e. e.event_id == event_id) events) duplicate_event_id
    raise_if (is_empty mission_id || (is_empty actor_id || is_empty event_type)) required_missing
    let event = next_event event_id mission_id actor_id event_type payload created_at now events
    modify (λ events. events ++ event ∷ [])
    pure event

  -- The checks on one event, in the loop's order.
  unfoldable pub verify_event : ℕ → String → AuditEvent P → Result LedgerError ⊤
  verify_event expected previous e =
      if not (eqb e.sequence expected)
      then err sequence_gap
      else if not (e.previous_hash == previous)
      then err chain_break
      else if not (digest e.unsigned == e.event_hash)
      then err mutation_detected
      else ok tt

  -- The loop of `verify_integrity`, from an expected sequence and a previous hash.
  unfoldable pub verify_from : ℕ → String → List (AuditEvent P) → Result LedgerError ⊤
  verify_from expected previous [] = ok tt
  verify_from expected previous (e ∷ es) =
      Result.◌>>◌ (verify_event expected previous e) (verify_from (expected + 1) e.event_hash es)

  unfoldable pub verify_integrity : List (AuditEvent P) → Result LedgerError ⊤
  unfolding verify_from
  verify_integrity events = verify_from 1 genesis events

  unfoldable pub from_events : List (AuditEvent P) → Result LedgerError (List (AuditEvent P))
  unfolding verify_integrity
  from_events events = Result.◌>>◌ (verify_integrity events) (ok events)
