-- ===== src/Runtime/Audit/Refines.antt =====
-- The ledger in the database does what the ledger in memory does (factory/runtime/sqlite_store.py,
-- factory/control_plane/ledger.py).
use ai_factory.Base.{
  ℕ, ◌+◌, String, true, false, ◌≡◌, refl, ap, ◌∙◌, ◌⊎◌, inl, inr, Option, none, some, List, [], ◌∷◌,
  arith, ◌==◌, eq_iff, any, length, Bool-cases,
}
use ai_factory.Base.Result.{Result, ok, err}
use ai_factory.ControlPlane.Ledger.{
  Unsigned, AuditEvent, or_now, genesis, append, next_event, verify_integrity, verify_from,
}
use ai_factory.ControlPlane.Ledger.Integrity.{Collision, verify_from-cons}
use ai_factory.Runtime.Audit.{next_sequence, stored_event, append_stored}

-- The answer, or that there was an error, and what is stored.
abbrev pub forget_error : {E A S : Type 0} → Result E A × S → Option A × S
forget_error (ok a, s) = (some a, s)
forget_error (err _, s) = (none, s)

module _ {P : Type 0} (digest : Unsigned P → String) where
  -- In a chain that verifies the last row counts the rows.
  verify_from-sequence :
      (n : ℕ) (previous : String) (e : AuditEvent P) (es : List (AuditEvent P))
      → verify_from digest n previous (e ∷ es) ≡ ok tt
      → next_sequence (e ∷ es) ≡ n + length (e ∷ es)
  verify_from-sequence n previous e [] h =
      let (linked, rest) = verify_from-cons digest n previous e [] h in
      let here = linked.in_sequence in omega arith
  verify_from-sequence n previous e (x ∷ es) h =
      let (linked, rest) = verify_from-cons digest n previous e (x ∷ es) h in
      let later = verify_from-sequence (n + 1) e.event_hash x es rest in omega arith

  verify_integrity-sequence :
      (es : List (AuditEvent P))
      → verify_integrity digest es ≡ ok tt
      → next_sequence es ≡ length es + 1
  unfolding verify_integrity
  verify_integrity-sequence [] h = refl
  verify_integrity-sequence (e ∷ es) h =
      let counted = verify_from-sequence 1 _ e es h in omega arith

  -- In a chain that verifies an event with another id and the hash of a row shows two events with one
  -- digest.
  verify_from-Collision :
      (n : ℕ) (previous : String) (u : Unsigned P) (es : List (AuditEvent P))
      → verify_from digest n previous es ≡ ok tt
      → any (λ r. r.event_id == u.event_id) es ≡ false
      → any (λ r. r.event_hash == digest u) es ≡ true
      → Collision digest
  verify_from-Collision n previous u [] h new clash = absurd (cc clash)
  verify_from-Collision n previous u (e ∷ es) h new clash =
      let (linked, rest) = verify_from-cons digest n previous e es h in
      elim (Bool-cases (e.event_hash == digest u)) [
        | inl same ↦ record {
          one = e.unsigned;
          other = u;
          differ = λ k.
              let ids : e.event_id ≡ u.event_id = ap (λ (w : Unsigned P). w.event_id) k in
              ground (arith, eq_iff e.event_id u.event_id);
          collide = linked.sealed ∙ (eq_iff e.event_hash (digest u)).0 same;
        }
        | inr other ↦
            verify_from-Collision (n + 1) e.event_hash u es rest (ground arith) (ground arith)
      ]

  module _ (event_id mission_id actor_id event_type : String) (payload : P)
      (created_at : Option String) (now : String) (es : List (AuditEvent P)) where
    -- On a chain that verifies, an append to the database answers what an append in memory answers, and
    -- stores the same, or it shows two events with one digest; which error is raised is left open.
    pub append_refines :
        verify_integrity digest es ≡ ok tt
        → (forget_error (
              append_stored digest event_id mission_id actor_id event_type payload created_at now
                es)
            ≡ forget_error
                (append digest event_id mission_id actor_id event_type payload created_at now es))
          ⊎ Collision digest
    unfolding append_stored append verify_integrity
    append_refines h =
        let unsigned =
          (stored_event digest event_id mission_id actor_id event_type payload
            (or_now created_at now) es).unsigned in
        let same : stored_event digest event_id mission_id actor_id event_type payload
              (or_now created_at now) es
            ≡ next_event digest event_id mission_id actor_id event_type payload created_at now es =
          rw (verify_integrity-sequence es h) refl in
        elim (Bool-cases (any (λ r. r.event_id == event_id) es)) [
          | inl known ↦ inl (ground arith)
          | inr new ↦ elim (Bool-cases (any (λ r. r.event_hash == digest unsigned) es)) [
            | inl clash ↦ inr (verify_from-Collision 1 genesis unsigned es h new clash)
            | inr fresh ↦ inl (ground (arith, same))
          ]
        ]
