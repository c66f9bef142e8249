-- ===== src/Engine/Tx/Atomic.antt =====
-- All or nothing: what a transaction leaves in the database.
use den.Base.{◌≡◌, refl, inl, inr, ◌∙◌, Option, none, some, Option-cases}
use den.Base.Errors.{Error, Outcome, returns, fails, panics}
use den.Engine.Tx.{TxOps, TxLaws, committed, aborted, finish, abort, close, run_in_transaction}

-- The answer of the call says that it did not succeed.
abbrev pub IsFailure : {X A : Type 0} → Outcome X A → Type 0
IsFailure (returns a) = ⊥
IsFailure _ = Unit

module _ {X S A : Type 0} (ops : TxOps X S) where
  -- What closing a transaction makes of what the function left, on a backend without laws: a success
  -- is that of the function, committed.
  abbrev pub ClosesWith : S → Outcome X A × S → Outcome X A × S → Type 0
  ClosesWith s ran out =
      (a : A)
      → out.0 ≡ returns a
      → (ran.0 ≡ returns a) × (out.1 ≡ ran.1) × (ops.commit s ran.1 ≡ none)

  pub close-returns : (s : S) (ran : Outcome X A × S) → ClosesWith s ran (close ops s ran)
  unfolding close finish abort committed aborted
  close-returns s (returns a, after) = elim (Option-cases (ops.commit s after)) [
    | inl done ↦ rw done (λ b e. (e, refl, refl))
    | inr (r, refused) ↦ rw refused (λ b e. cc)
  ]
  close-returns s (fails e, after) = aborted-fails (ops.rollback s after)
    where
      aborted-fails : (r : Option (Error X) × S) → ClosesWith s (fails e, after) (aborted ops e r)
      aborted-fails (none, left) b h = cc
      aborted-fails (some r, left) b h = cc
  close-returns s (panics, after) = λ b e. cc

  pub close-failure :
      (laws : TxLaws ops) (s : S) (ran : Outcome X A × S)
      → IsFailure (close ops s ran).0
      → (close ops s ran).1 ≡ s
  unfolding close finish abort committed aborted
  close-failure laws s (returns a, after) = elim (Option-cases (ops.commit s after)) [
    | inl done ↦ rw done (λ h. absurd h)
    | inr ((e, left), refused) ↦ rw refused (λ _. laws.commit-restores s after left e refused)
  ]
  close-failure laws s (fails e, after) =
      λ h. aborted-state (ops.rollback s after) ∙ laws.rollback-restores s after
    where
      aborted-state : (r : Option (Error X) × S) → (aborted {A = A} ops e r).1 ≡ r.1
      aborted-state (none, left) = refl
      aborted-state (some r, left) = refl
  close-failure laws s (panics, after) = λ _. laws.rollback-restores s after

module _ {X S A : Type 0} (ops : TxOps X S) (laws : TxLaws ops) (fn : S → Outcome X A × S)
    (s : S) where
  -- On a backend where neither a rollback nor a commit that fails keeps a write: a transaction that
  -- fails or panics leaves the database as it was, whatever the function wrote; one that succeeds
  -- leaves the function's state, and the function itself succeeded with the same result and the
  -- backend began and committed.
  pub run_in_transaction_lem :
      (IsFailure (run_in_transaction ops fn s).0 → (run_in_transaction ops fn s).1 ≡ s)
      × ((a : A)
          → (run_in_transaction ops fn s).0 ≡ returns a
          → ((fn s).0 ≡ returns a)
            × ((run_in_transaction ops fn s).1 ≡ (fn s).1)
            × (ops.begin s ≡ none)
            × (ops.commit s (fn s).1 ≡ none))
  unfolding run_in_transaction
  run_in_transaction_lem = elim (Option-cases (ops.begin s)) [
    | inl begun ↦ rw begun (
      close-failure ops laws s (fn s),
      λ a e. let (ran, same, done) = close-returns ops s (fn s) a e in (ran, same, refl, done),
    )
    | inr (r, refused) ↦ rw refused ((λ _. refl), λ a e. cc)
  ]
