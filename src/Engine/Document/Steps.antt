-- ===== src/Engine/Document/Steps.antt =====
-- What a sequence of actions says of its parts, when it returns and when the parts keep something.
use den.Base.{◌≡◌, refl, ap, subst, inl, inr, ◌⊎◌, ◌∙◌, Option, none, some}
use den.Base.Errors.{Error, Outcome, returns, fails, panics}
use den.Base.Results.{Result, ok, err}
use den.Engine.Tx.{TxOps, TxLaws, Scope, on_db, on_tx}
use den.Engine.Tx.Atomic.{IsFailure}
use den.Engine.Document.{World, Doc, State, Action}
use den.Engine.Document.Actions.{
  and_then, ◌>>◌, put_back, from_error, from_result, on_scope, in_transaction,
  in_transaction-returns, in_transaction-failure,
}

-- A call either returns or it does not.
pub Outcome-cases :
    {X A : Type 0} (out : Outcome X A) → ((a : A) × (out ≡ returns a)) ⊎ IsFailure out
Outcome-cases (returns a) = inl (a, refl)
Outcome-cases (fails e) = inr tt
Outcome-cases panics = inr tt

module _ {w : World} {D A B : Type 0} where
  -- A sequence that returns: its first part returned, and it is the rest from there.
  pub and_then-returns :
      (m : Outcome w.Failure A × State w D) (rest : A → Action w D B) (b : B)
      → (and_then m rest).0 ≡ returns b
      → (a : A) × (m.0 ≡ returns a) × (and_then m rest ≡ rest a m.1) × ((rest a m.1).0 ≡ returns b)
  and_then-returns (returns a, s) rest b e = (a, refl, refl, e)
  and_then-returns (fails x, s) rest b e = cc
  and_then-returns (panics, s) rest b e = cc

-- The call did not succeed, and the database is that of another state.
abbrev pub Refuses :
    {w : World} {D B : Type 0} → Outcome w.Failure B × State w D → State w D → Type 0
Refuses out s = IsFailure out.0 × (out.1.db ≡ s.db)

module _ {w : World} {D A B : Type 0} where
  -- A sequence whose first part leaves the database and whose rest is refused, is refused.
  pub and_then-Refuses :
      (m : Outcome w.Failure A × State w D) (rest : A → Action w D B) (s : State w D)
      → m.1.db ≡ s.db
      → ((a : A) → m.0 ≡ returns a → Refuses (rest a m.1) s)
      → Refuses (and_then m rest) s
  and_then-Refuses (returns a, t) rest s h go = go a refl
  and_then-Refuses (fails e, t) rest s h go = (tt, h)
  and_then-Refuses (panics, t) rest s h go = (tt, h)

-- The state under an action is what it was. A missing hook is silent.
abbrev pub IsSilent : {w : World} {D A : Type 0} → Action w D A → Type 0
IsSilent act = (s : _) → (act s).1 ≡ s

-- Two states have one database, and their documents one identity and one revision.
abbrev pub SameIdentity : {w : World} → State w (Doc w) → State w (Doc w) → Type 0
SameIdentity t s =
    (t.doc.base.id ≡ s.doc.base.id) × (t.doc.base.rev ≡ s.doc.base.rev) × (t.db ≡ s.db)

abbrev pub Keeps : {w : World} {A : Type 0} → Action w (Doc w) A → Type 0
Keeps act = (s : _) → SameIdentity (act s).1 s

module _ {w : World} where
  SameIdentity-trans :
      (s t u : State w (Doc w)) → SameIdentity u t → SameIdentity t s → SameIdentity u s
  SameIdentity-trans s t u (a, b, c) (a', b', c') = (a ∙ a', b ∙ b', c ∙ c')

  pub >>-Keeps : (a b : Action w (Doc w) (Unit {0})) → Keeps a → Keeps b → Keeps (a >> b)
  >>-Keeps a b ka kb s = step (a s) (ka s)
    where
      step :
          (m : Outcome w.Failure (Unit {0}) × State w (Doc w))
          → SameIdentity m.1 s
          → SameIdentity (and_then m (λ _. b)).1 s
      step (returns _, t) h = SameIdentity-trans s t (b t).1 (kb t) h
      step (fails e, t) h = h
      step (panics, t) h = h

  pub from_error-state :
      {D : Type 0} (failure : Option (Error w.Failure)) (s : State w D)
      → (from_error failure s).1 ≡ s
  from_error-state none s = refl
  from_error-state (some e) s = refl

  pub from_error-Keeps :
      (failure : State w (Doc w) → Option (Error w.Failure)) → Keeps (λ s. from_error (failure s) s)
  from_error-Keeps failure s = step (failure s)
    where
      step : (o : Option (Error w.Failure)) → SameIdentity (from_error o s).1 s
      step none = (refl, refl, refl)
      step (some e) = (refl, refl, refl)

module _ {w : World} {D A : Type 0} (ops : TxOps w.Failure w.Database) (fn : Action w D A)
    (s : State w D) where
  -- A transaction around a refused function is refused.
  pub in_transaction-Refuses : TxLaws ops → IsFailure (fn s).0 → Refuses (in_transaction ops fn s) s
  in_transaction-Refuses laws failed = elim (Outcome-cases (in_transaction ops fn s).0) [
    | inl (a, done) ↦ absurd (subst IsFailure (in_transaction-returns ops fn s a done).0 failed)
    | inr h ↦ (h, in_transaction-failure ops laws fn s h)
  ]

module _ {w : World} {D : Type 0} (place : Doc w → D → D) (whole : D) where
  -- A part that returns was returned by its action, and is put back.
  pub put_back-returns :
      (m : Outcome w.Failure (Unit {0}) × State w (Doc w)) (d : Doc w)
      → (put_back place whole m).0 ≡ returns d
      → (m.0 ≡ returns tt)
        × (m.1.doc ≡ d)
        × ((put_back place whole m).1
            ≡ record { doc = place m.1.doc whole; db = m.1.db; files = m.1.files })
  put_back-returns (returns _, s) d e = (refl, part_inj e, refl)
    where
      part_inj : {x y : Doc w} → Path (Outcome w.Failure (Doc w)) (returns x) (returns y) → x ≡ y
      part_inj e = cc
  put_back-returns (fails x, s) d e = cc
  put_back-returns (panics, s) d e = cc

module _ {w : World} {D A : Type 0} where
  -- On a scope, a function that returns has returned, and what it leaves is left.
  pub on_scope-returns :
      (ops : TxOps w.Failure w.Database) (scope : Scope) (fn : Action w D A) (a : A) (s : State w D)
      → (on_scope ops scope fn s).0 ≡ returns a
      → ((fn s).0 ≡ returns a) × ((on_scope ops scope fn s).1 ≡ (fn s).1)
  unfolding on_scope
  on_scope-returns ops on_tx fn a s e = (e, refl)
  on_scope-returns ops on_db fn a s e = in_transaction-returns ops fn s a e

  pub from_result-returns :
      (r : Result (Error w.Failure) A) (a : A) (s : State w D)
      → (from_result r s).0 ≡ returns a
      → (r ≡ ok a) × ((from_result r s).1 ≡ s)
  from_result-returns (ok b) a s e = (ap (λ x. ok x) (returns_inj e), refl)
    where
      returns_inj : {x y : A} → Path (Outcome w.Failure A) (returns x) (returns y) → x ≡ y
      returns_inj e = cc
  from_result-returns (err x) a s e = cc

  pub >>-IsSilent :
      {B : Type 0} (a : Action w D A) (b : Action w D B)
      → IsSilent a
      → IsSilent b
      → IsSilent (a >> b)
  >>-IsSilent a b qa qb s = step (a s) (qa s)
    where
      step : (m : Outcome w.Failure A × State w D) → m.1 ≡ s → (and_then m (λ _. b)).1 ≡ s
      step (returns _, t) h = qb t ∙ h
      step (fails e, t) h = h
      step (panics, t) h = h
