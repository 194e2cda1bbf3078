-- ===== src/Base/Action.antt =====
-- A method call on a mutable object: it takes the object's state, and gives the state back with a
-- result or an error. What was written before a raise stays written; a database transaction undoes
-- its own writes.
use mathlib.Core.Bool.{Bool, true, false}
use mathlib.Core.Option.{Option, none, some}
use mathlib.Core.Path.{◌≡◌, refl, ap, subst}
use ai_factory.Base.Tests.{⊤, if◌then◌else◌}
use ai_factory.Base.Result.{Result, ok, err}

abbrev pub Action : Type 0 → Type 0 → Type 0 → Type 0
Action S E A = S → Result E A × S

module _ {S E : Type 0} where
  abbrev pub pure : {A : Type 0} → A → Action S E A
  pure a s = (ok a, s)

  abbrev pub raise : {A : Type 0} → E → Action S E A
  raise e s = (err e, s)

  abbrev pub raise_if : Bool → E → Action S E ⊤
  raise_if true e s = (err e, s)
  raise_if false e s = (ok tt, s)

  abbrev pub gets : {A : Type 0} → (S → A) → Action S E A
  gets f s = (ok (f s), s)

  abbrev pub modify : (S → S) → Action S E ⊤
  modify f s = (ok tt, f s)

  abbrev pub lift : {A : Type 0} → Result E A → Action S E A
  lift r s = (r, s)

  abbrev pub or_raise : {A : Type 0} → Option A → E → Action S E A
  or_raise none e s = (err e, s)
  or_raise (some a) e s = (ok a, s)

  infixl 5 ◌>>=◌ ◌>>◌
  abbrev pub ◌>>=◌ : {A B : Type 0} → Action S E A → (A → Action S E B) → Action S E B
  ◌>>=◌ m f s = let (r, s') = m s in elim r [ ok a ↦ f a s' | err e ↦ (err e, s') ]

  abbrev pub ◌>>◌ : {A B : Type 0} → Action S E A → Action S E B → Action S E B
  m >> k = m >>= λ _. k

  -- `with connection:` commits on success, and rolls back on an exception.
  abbrev pub transaction : {A : Type 0} → Action S E A → Action S E A
  transaction m s = let (r, s') = m s in elim r [ ok a ↦ (ok a, s') | err e ↦ (err e, s) ]

  -- The rule of an invariant: what both parts keep, the sequence keeps.
  module _ {ℓ} {A B : Type 0} (P : S → Type ℓ) where
    bind_step :
        (f : A → Action S E B) (x : Result E A × S)
        → ((a : A) (s : S) → P s → P (f a s).1)
        → P x.1
        → P (◌>>=◌ (λ _. x) f x.1).1
    bind_step f (ok a, s) keep h = keep a s h
    bind_step f (err e, s) keep h = h

    pub >>=-keeps :
        (m : Action S E A) (f : A → Action S E B)
        → ((s : S) → P s → P (m s).1)
        → ((a : A) (s : S) → P s → P (f a s).1)
        → (s : S) → P s
        → P ((m >>= f) s).1
    >>=-keeps m f first rest s h = bind_step f (m s) rest (first s h)

  -- A sequence whose first part is known.
  module _ {A B : Type 0} (m : Action S E A) (f : A → Action S E B) where
    pub >>=-ok : {a : A} {s s' : S} → m s ≡ (ok a, s') → (m >>= f) s ≡ f a s'
    >>=-ok h = ap (λ x. ◌>>=◌ (λ _. x) f x.1) h

    pub >>=-err : {e : E} {s s' : S} → m s ≡ (err e, s') → (m >>= f) s ≡ (err e, s')
    >>=-err h = ap (λ x. ◌>>=◌ (λ _. x) f x.1) h

    bind-eq-ok :
        (x : Result E A × S) {b : B} {t : S}
        → ◌>>=◌ (λ _. x) f x.1 ≡ (ok b, t)
        → (a : A) × (s' : S) × (x ≡ (ok a, s')) × (f a s' ≡ (ok b, t))
    bind-eq-ok (ok a, s') h = (a, s', refl, h)
    bind-eq-ok (err e, s') h = absurd (cc (ap (λ z. z.0) h))

    -- Inversion of a sequence that returned.
    pub >>=-eq-ok :
        (s : S) {b : B} {t : S}
        → (m >>= f) s ≡ (ok b, t)
        → (a : A) × (s' : S) × (m s ≡ (ok a, s')) × (f a s' ≡ (ok b, t))
    >>=-eq-ok s h = bind-eq-ok (m s) h

  -- To prove a statement on how a sequence ends, prove it where the first part raises, and for the
  -- rest where it returns.
  module _ {ℓ} {A B : Type 0} (Q : Result E B × S → Type ℓ) where
    bind_cases :
        (f : A → Action S E B) (x : Result E A × S)
        → ((a : A) (s' : S) → x ≡ (ok a, s') → Q (f a s'))
        → ((e : E) (s' : S) → x ≡ (err e, s') → Q (err e, s'))
        → Q (◌>>=◌ (λ _. x) f x.1)
    bind_cases f (ok a, s') good bad = good a s' refl
    bind_cases f (err e, s') good bad = bad e s' refl

    pub >>=-elim :
        (m : Action S E A) (f : A → Action S E B) (s : S)
        → ((a : A) (s' : S) → m s ≡ (ok a, s') → Q (f a s'))
        → ((e : E) (s' : S) → m s ≡ (err e, s') → Q (err e, s'))
        → Q ((m >>= f) s)
    >>=-elim m f s = bind_cases f (m s)

  -- A call that keeps an invariant, however it ends, and the rules for the parts of a `do` block.
  pub record IsKept {ℓ} {A : Type 0} (P : S → Type ℓ) (m : Action S E A) : Type ℓ where
    pub apply : (s : S) → P s → P (m s).1

  pub IsKept-raise_if {ℓ} : (P : S → Type ℓ) (b : Bool) (e : E) → IsKept P (raise_if b e)
  IsKept-raise_if P true e = record { apply = λ s h. h }
  IsKept-raise_if P false e = record { apply = λ s h. h }

  module _ {ℓ} (P : S → Type ℓ) {A : Type 0} where
    pub IsKept-lift : (r : Result E A) → IsKept P (lift r)
    IsKept-lift r = record { apply = λ s h. h }

    pub IsKept-pure : (a : A) → IsKept P (pure a)
    IsKept-pure a = record { apply = λ s h. h }

    pub IsKept-raise : (e : E) → IsKept {A = A} P (raise e)
    IsKept-raise e = record { apply = λ s h. h }

    pub IsKept-or_raise : (o : Option A) (e : E) → IsKept P (or_raise o e)
    IsKept-or_raise none e = record { apply = λ s h. h }
    IsKept-or_raise (some a) e = record { apply = λ s h. h }

    pub IsKept-gets : (f : S → A) → IsKept P (gets f)
    IsKept-gets f = record { apply = λ s h. h }

    transaction_step : (x : Result E A × S) (s : S) → P x.1 → P s → P (transaction (λ _. x) s).1
    transaction_step (ok a, t) s h k = h
    transaction_step (err e, t) s h k = k

    -- A rollback restores a state that was right.
    pub IsKept-transaction : {m : Action S E A} → IsKept P m → IsKept P (transaction m)
    IsKept-transaction {m} k = record { apply = λ s h. transaction_step (m s) s (k.apply s h) h }

    pub IsKept-bind :
        {B : Type 0} {m : Action S E A} {f : A → Action S E B}
        → IsKept P m
        → ((a : A) → IsKept P (f a))
        → IsKept P (m >>= f)
    IsKept-bind {m = m} {f = f} first rest = record {
      apply = >>=-keeps P m f first.apply (λ a. (rest a).apply);
    }

    pub IsKept-if :
        (b : Bool) {m n : Action S E A} → IsKept P m → IsKept P n → IsKept P (if b then m else n)
    IsKept-if true h k = h
    IsKept-if false h k = k

  -- What holds of the value and of the state where a call returns, and the rules for a `do` block.
  pub record Returns {ℓ} {A : Type 0} (Q : A → S → Type ℓ) (m : Action S E A) (s : S) : Type ℓ where
    pub holds : {a : A} {t : S} → m s ≡ (ok a, t) → Q a t

  pub Returns-bind {ℓ} :
      {A B : Type 0} {Q : B → S → Type ℓ} (m : Action S E A) {f : A → Action S E B} {s : S}
      → ((a : A) (t : S) → m s ≡ (ok a, t) → Returns Q (f a) t)
      → Returns Q (m >>= f) s
  Returns-bind m {f = f} {s = s} rest = record {
    holds = λ e. let (a, t, first, second) = >>=-eq-ok m f s e in (rest a t first).holds second;
  }

  pub Returns-pure {ℓ} :
      {A : Type 0} {Q : A → S → Type ℓ} (a : A) {s : S} → Q a s → Returns Q (pure a) s
  Returns-pure {Q = Q} a {s} h = record {
    holds = λ {a = b} {t = t} e.
        subst (λ b. Q b t) (ok_injective (ap (λ z. z.0) e))
          (subst (λ t. Q a t) (ap (λ z. z.1) e) h);
  }
    where
      ok_injective : {A : Type 0} {a b : A} → ◌≡◌ {A = Result E A} (ok a) (ok b) → a ≡ b
      ok_injective e = cc

  -- A value or a state that only has to hold where the call returns.
  pub Returns-lift {ℓ} :
      {A : Type 0} {Q : A → S → Type ℓ} (m : Action S E A) {s : S}
      → ((a : A) (t : S) → m s ≡ (ok a, t) → Q a t)
      → Returns Q m s
  Returns-lift m h = record { holds = λ {a = a} {t = t} e. h a t e }

  transaction_kept {ℓ} :
      {A : Type 0} (P : S → Type ℓ) (x : Result E A × S) (s : S)
      → ((a : A) (t : S) → x ≡ (ok a, t) → P t)
      → P s
      → P (transaction (λ _. x) s).1
  transaction_kept P (ok a, t) s h k = h a t refl
  transaction_kept P (err e, t) s h k = k

  -- A transaction keeps what its body establishes where it returns.
  pub IsKept-transaction_of_Returns {ℓ} :
      {A : Type 0} (P : S → Type ℓ) {m : Action S E A}
      → ((s : S) → P s → Returns (λ _ t. P t) m s)
      → IsKept P (transaction m)
  IsKept-transaction_of_Returns P {m} k = record {
    apply = λ s h. transaction_kept P (m s) s (λ a t e. (k s h).holds e) h;
  }
