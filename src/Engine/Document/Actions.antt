-- ===== src/Engine/Document/Actions.antt =====
-- Sequences of actions: `if err := …; err != nil { return err }` between them, and transactions.
use den.Base.{◌≡◌, refl, ◌∙◌, Option, none, some, inl, inr, Option-cases}
use den.Base.Errors.{Error, begin_failed, Outcome, returns, fails, panics, on_error}
use den.Base.Results.{Result, ok, err}
use den.Engine.Tx.{TxOps, TxLaws, committed, aborted, finish, abort, close, Scope, on_db, on_tx}
use den.Engine.Tx.Atomic.{IsFailure, close-returns}
use den.Engine.Document.{World, Doc, State, Action}

abbrev pub answer_with : {X A : Type 0} → A → Outcome X (Unit {0}) → Outcome X A
answer_with a (returns _) = returns a
answer_with a (fails e) = fails e
answer_with a panics = panics

-- An action on one of the caller's documents; what it leaves of the document is put back in its
-- place whatever the outcome, and a return gives the document too.
abbrev pub put_back :
    {w : World} {D : Type 0}
    → (Doc w → D → D)
    → D
    → Outcome w.Failure (Unit {0}) × State w (Doc w)
    → Outcome w.Failure (Doc w) × State w D
put_back place whole (out, s) =
    (answer_with s.doc out, record { doc = place s.doc whole; db = s.db; files = s.files })

unfoldable pub on_part :
    {w : World} {D : Type 0}
    → (Doc w → D → D)
    → Doc w
    → Action w (Doc w) (Unit {0})
    → Action w D (Doc w)
on_part place d act s = put_back place s.doc (act (record { doc = d; db = s.db; files = s.files }))

module _ {w : World} {D : Type 0} where
  -- The rest runs after a return only.
  abbrev pub and_then :
      {A B : Type 0}
      → Outcome w.Failure A × State w D
      → (A → Action w D B)
      → Outcome w.Failure B × State w D
  and_then (returns a, s) rest = rest a s
  and_then (fails e, s) rest = (fails e, s)
  and_then (panics, s) rest = (panics, s)

  infixl 5 ◌>>=◌ ◌>>◌
  abbrev pub ◌>>=◌ : {A B : Type 0} → Action w D A → (A → Action w D B) → Action w D B
  ◌>>=◌ m rest s = and_then (m s) rest

  abbrev pub ◌>>◌ : {A B : Type 0} → Action w D A → Action w D B → Action w D B
  ◌>>◌ m rest s = and_then (m s) (λ _. rest)

  abbrev pub pure : {A : Type 0} → A → Action w D A
  pure a s = (returns a, s)

  abbrev pub raise : {A : Type 0} → Error w.Failure → Action w D A
  raise e s = (fails e, s)

  -- A nil error goes on.
  abbrev pub from_error : Option (Error w.Failure) → Action w D (Unit {0})
  from_error none s = (returns tt, s)
  from_error (some e) s = (fails e, s)

  abbrev pub from_result : {A : Type 0} → Result (Error w.Failure) A → Action w D A
  from_result (ok a) s = (returns a, s)
  from_result (err e) s = (fails e, s)

  -- The error of an action, wrapped.
  abbrev pub wrap_error :
      {A : Type 0}
      → (Error w.Failure → Error w.Failure)
      → Outcome w.Failure A × State w D
      → Outcome w.Failure A × State w D
  wrap_error wrap (returns a, s) = (returns a, s)
  wrap_error wrap (fails e, s) = (fails (wrap e), s)
  wrap_error wrap (panics, s) = (panics, s)

  -- A transaction ends in the database of the state; the documents that the caller holds and the
  -- attachment storage stay as they are.
  abbrev with_left :
      State w D → Option (Error w.Failure × w.Database) → Option (Error w.Failure × State w D)
  with_left after none = none
  with_left after (some (e, left)) = some (e, record after { db = left })

  abbrev pub on_state : TxOps w.Failure w.Database → TxOps w.Failure (State w D)
  on_state ops = record {
    begin = λ s. ops.begin s.db;
    commit = λ s after. with_left after (ops.commit s.db after.db);
    rollback = λ s after. let r = ops.rollback s.db after.db in (r.0, record after { db = r.1 });
  }

  -- `RunInTransaction` and `runInWriteTx`.
  unfoldable pub in_transaction :
      {A : Type 0} → TxOps w.Failure w.Database → Action w D A → Action w D A
  in_transaction ops fn s =
      on_error (ops.begin s.db) (λ e. (fails (begin_failed e), s)) (close (on_state ops) s (fn s))

  -- `runOnScope` and `runOnScopeVoid`.
  unfoldable pub on_scope :
      {A : Type 0} → TxOps w.Failure w.Database → Scope → Action w D A → Action w D A
  on_scope ops on_tx body s = body s
  on_scope ops on_db body s = in_transaction ops body s

  -- What closing does to the database, whatever it leaves of the rest.
  close-database :
      {A : Type 0} (ops : TxOps w.Failure w.Database) (laws : TxLaws ops) (s : State w D)
      (ran : Outcome w.Failure A × State w D)
      → IsFailure (close (on_state ops) s ran).0
      → (close (on_state ops) s ran).1.db ≡ s.db
  unfolding close finish abort committed aborted
  close-database ops laws s (returns a, after) = elim (Option-cases (ops.commit s.db after.db)) [
    | inl done ↦ rw done (λ h. absurd h)
    | inr ((e, left), refused) ↦ rw refused (λ _. laws.commit-restores s.db after.db left e refused)
  ]
  close-database {A} ops laws s (fails e, after) =
      λ h. aborted-state ((on_state ops).rollback s after) ∙ laws.rollback-restores s.db after.db
    where
      aborted-state :
          (r : Option (Error w.Failure) × State w D)
          → (aborted {A = A} (on_state ops) e r).1.db ≡ r.1.db
      aborted-state (none, left) = refl
      aborted-state (some r, left) = refl
  close-database ops laws s (panics, after) = λ _. laws.rollback-restores s.db after.db

  -- A transaction that succeeds leaves the state of its function.
  pub in_transaction-returns :
      {A : Type 0} (ops : TxOps w.Failure w.Database) (fn : Action w D A) (s : State w D) (a : A)
      → (in_transaction ops fn s).0 ≡ returns a
      → ((fn s).0 ≡ returns a) × ((in_transaction ops fn s).1 ≡ (fn s).1)
  unfolding in_transaction
  in_transaction-returns ops fn s a = elim (Option-cases (ops.begin s.db)) [
    | inl begun ↦
        rw begun
          (λ e. let (ran, same, _) = close-returns (on_state ops) s (fn s) a e in (ran, same))
    | inr (r, refused) ↦ rw refused (λ e. cc)
  ]

  -- A transaction that does not succeed gives back the database as it was.
  pub in_transaction-failure :
      {A : Type 0} (ops : TxOps w.Failure w.Database) (laws : TxLaws ops) (fn : Action w D A)
      (s : State w D)
      → IsFailure (in_transaction ops fn s).0
      → (in_transaction ops fn s).1.db ≡ s.db
  unfolding in_transaction
  in_transaction-failure ops laws fn s = elim (Option-cases (ops.begin s.db)) [
    | inl begun ↦ rw begun (close-database ops laws s (fn s))
    | inr (r, refused) ↦ rw refused (λ _. refl)
  ]
