-- ===== src/ControlPlane/Ledger/Integrity.antt =====
-- The hash chain of the audit ledger (factory/control_plane/ledger.py): appending keeps it, and it
-- pins the history down.
use ai_factory.Base.{
  ℕ, ◌+◌, String, ◌≡◌, refl, sym, ◌≢◌, ◌⊎◌, inl, inr, Option, List, [], ◌∷◌, ◌++◌, arith,
  ℕ_discrete, String-discrete, eq_iff, length,
}
use ai_factory.Base.Result.{ok, Result-cases}
use ai_factory.ControlPlane.Ledger.{
  Unsigned, AuditEvent, genesis, last_hash, next_event, append, verify_event, verify_from,
  verify_integrity,
}

-- Two unsigned events with one digest.
pub record Collision {P : Type 0} (digest : Unsigned P → String) : Type 0 where
  pub one : Unsigned P
  pub other : Unsigned P
  pub differ : one ≢ other
  pub collide : digest one ≡ digest other

module _ {P : Type 0} (digest : Unsigned P → String) where
  -- The hash that the verifier holds after a list of events.
  abbrev pub final_hash : String → List (AuditEvent P) → String
  final_hash previous [] = previous
  final_hash previous (e ∷ es) = final_hash e.event_hash es

  -- What the three checks on an event accept.
  pub record IsLinked (n : ℕ) (previous : String) (e : AuditEvent P) : Type 0 where
    pub in_sequence : e.sequence ≡ n
    pub chained : e.previous_hash ≡ previous
    pub sealed : digest e.unsigned ≡ e.event_hash

  pub verify_event-IsLinked :
      (n : ℕ) (previous : String) (e : AuditEvent P)
      → verify_event digest n previous e ≡ ok tt
      → IsLinked n previous e
  unfolding verify_event
  verify_event-IsLinked n previous e h =
      ground (arith, eq_iff e.previous_hash previous, eq_iff (digest e.unsigned) e.event_hash)

  verify_event_of_IsLinked :
      (n : ℕ) (previous : String) (e : AuditEvent P)
      → IsLinked n previous e
      → verify_event digest n previous e ≡ ok tt
  unfolding verify_event
  verify_event_of_IsLinked n previous e h =
      ground (arith, eq_iff e.previous_hash previous, eq_iff (digest e.unsigned) e.event_hash)

  pub verify_from-cons :
      (n : ℕ) (previous : String) (e : AuditEvent P) (es : List (AuditEvent P))
      → verify_from digest n previous (e ∷ es) ≡ ok tt
      → IsLinked n previous e × (verify_from digest (n + 1) e.event_hash es ≡ ok tt)
  unfolding verify_from
  verify_from-cons n previous e es h = elim (Result-cases (verify_event digest n previous e)) [
    | inl (u, good) ↦ (verify_event-IsLinked n previous e good, ground arith)
    | inr (x, bad) ↦ absurd (ground arith)
  ]

  verify_from-append :
      (n : ℕ) (previous : String) (es : List (AuditEvent P)) (e : AuditEvent P)
      → verify_from digest n previous es ≡ ok tt
      → IsLinked (n + length es) (final_hash previous es) e
      → verify_from digest n previous (es ++ e ∷ []) ≡ ok tt
  unfolding verify_from
  verify_from-append n previous [] e h k =
      rw (verify_event_of_IsLinked n previous e (ground arith)) refl
  verify_from-append n previous (x ∷ es) e h k =
      let (linked, rest) = verify_from-cons n previous x es h in
      rw (verify_event_of_IsLinked n previous x linked)
        (verify_from-append (n + 1) x.event_hash es e rest (ground arith))

  final_hash-eq-last_hash : (es : List (AuditEvent P)) → final_hash genesis es ≡ last_hash es
  final_hash-eq-last_hash [] = refl
  final_hash-eq-last_hash (x ∷ []) = refl
  final_hash-eq-last_hash (x ∷ y ∷ es) = final_hash-eq-last_hash (y ∷ es)

  module _ (event_id mission_id actor_id event_type : String) (payload : P)
      (created_at : Option String) (now : String) (es : List (AuditEvent P)) where
    pub verify_integrity-next_event :
        verify_integrity digest es ≡ ok tt
        → verify_integrity digest (
            es
            ++ next_event digest event_id mission_id actor_id event_type payload created_at now es
              ∷ [])
          ≡ ok tt
    unfolding verify_integrity
    verify_integrity-next_event h =
        let e =
          next_event digest event_id mission_id actor_id event_type payload created_at now es in
        verify_from-append 1 genesis es e h (record {
          in_sequence = omega arith;
          chained = sym (final_hash-eq-last_hash es);
          sealed = refl;
        })

    -- Whether an append succeeds or raises, a ledger that verifies still verifies.
    pub verify_integrity-append :
        verify_integrity digest es ≡ ok tt
        → verify_integrity digest
            (append digest event_id mission_id actor_id event_type payload created_at now es).1
          ≡ ok tt
    unfolding append
    verify_integrity-append h = ground (arith, verify_integrity-next_event h)

  Unsigned-discrete : Discrete P → Discrete (Unsigned P)
  Unsigned-discrete dec = hlevel (dec, ℕ_discrete, String-discrete)

  -- Two verified runs of a chain that end in one hash have the same start and the same events, or
  -- show two unsigned events with one digest.
  same_or_Collision :
      Discrete P
      → (n : ℕ) (p q : String) (xs ys : List (AuditEvent P)) → verify_from digest n p xs ≡ ok tt
      → verify_from digest n q ys ≡ ok tt
      → length xs ≡ length ys
      → final_hash p xs ≡ final_hash q ys
      → ((p ≡ q) × (xs ≡ ys)) ⊎ Collision digest
  same_or_Collision dec n p q [] [] h k l f = inl (f, refl)
  same_or_Collision dec n p q [] (y ∷ ys) h k l f = absurd (omega arith)
  same_or_Collision dec n p q (x ∷ xs) [] h k l f = absurd (omega arith)
  same_or_Collision dec n p q (x ∷ xs) (y ∷ ys) h k l f =
      let (lx, hx) = verify_from-cons n p x xs h in
      let (ly, hy) = verify_from-cons n q y ys k in
      elim (same_or_Collision dec (n + 1) x.event_hash y.event_hash xs ys hx hy (omega arith) f) [
        | inr c ↦ inr c
        | inl e ↦ elim (Unsigned-discrete dec x.unsigned y.unsigned) [
          | yes s ↦ inl (cc, cc)
          | no d ↦ inr (record { one = x.unsigned; other = y.unsigned; differ = d; collide = cc })
        ]
      ]

-- Two ledgers that verify, hold as many events and end in one hash are equal, or they show two
-- unsigned events with one digest: a history cannot be rewritten under its last hash.
pub verify_integrity_pins :
    {P : Type 0} (dec : Discrete P) (digest : Unsigned P → String) (xs ys : List (AuditEvent P))
    → verify_integrity digest xs ≡ ok tt
    → verify_integrity digest ys ≡ ok tt
    → length xs ≡ length ys
    → last_hash xs ≡ last_hash ys
    → (xs ≡ ys) ⊎ Collision digest
unfolding verify_integrity
verify_integrity_pins dec digest xs ys h k l f =
    elim (same_or_Collision digest dec 1 genesis genesis xs ys h k l
      (cc (final_hash-eq-last_hash digest xs, final_hash-eq-last_hash digest ys))) [
        | inl e ↦ inl e.1
        | inr c ↦ inr c
      ]
