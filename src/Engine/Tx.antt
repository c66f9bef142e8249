-- ===== src/Engine/Tx.antt =====
-- engine/tx.go: running a function in a transaction. The database is a state; the function works on
-- it as the transaction sees it, and a commit or a rollback says what becomes of that.
pub mod Atomic
use den.Base.{◌≡◌, Option, none, some}
use den.Base.Errors.{
  Error, begin_failed, transaction_failed, rollback_failed, Outcome, returns, fails, panics,
  on_error,
}

-- What `Begin`, `Commit` and `Rollback` of the backend answer: nil or an error. A transaction is
-- known by the database as it was when the transaction began, and ends in the state that its
-- operations have led to. A commit without an error makes that state the database's; after one with
-- an error, and after a rollback, the backend leaves the database that it names.
pub record TxOps (X S : Type 0) : Type 0 where
  pub begin : S → Option (Error X)
  pub commit : S → S → Option (Error X × S)
  pub rollback : S → S → Option (Error X) × S

-- A backend that ends transactions: neither a rollback nor a commit that fails keeps a write.
pub record TxLaws {X S : Type 0} (ops : TxOps X S) : Type 0 where
  pub rollback-restores : (begun after : S) → (ops.rollback begun after).1 ≡ begun
  pub commit-restores :
      (begun after left : S) (e : Error X) → ops.commit begun after ≡ some (e, left) → left ≡ begun

module _ {X S A : Type 0} (ops : TxOps X S) where
  unfoldable pub committed : A → S → Option (Error X × S) → Outcome X A × S
  committed a after none = (returns a, after)
  committed a after (some (e, left)) = (fails (transaction_failed e), left)

  -- `btx.Commit()`
  unfoldable pub finish : S → A → S → Outcome X A × S
  unfolding committed
  finish begun a after = committed a after (ops.commit begun after)

  unfoldable pub aborted : Error X → Option (Error X) × S → Outcome X A × S
  aborted e (none, left) = (fails e, left)
  aborted e (some r, left) = (fails (rollback_failed e r), left)

  -- `btx.Rollback()` after an error of the function.
  unfoldable pub abort : S → Error X → S → Outcome X A × S
  unfolding aborted
  abort begun e after = aborted e (ops.rollback begun after)

  -- What the function left: its answer and the transaction's state. A panic is rolled back, whatever
  -- the rollback answers, and goes on.
  unfoldable pub close : S → Outcome X A × S → Outcome X A × S
  unfolding finish abort
  close begun (returns a, after) = finish begun a after
  close begun (fails e, after) = abort begun e after
  close begun (panics, after) = (panics, (ops.rollback begun after).1)

  -- `RunInTransaction` and `runInWriteTx`.
  unfoldable pub run_in_transaction : (S → Outcome X A × S) → S → Outcome X A × S
  run_in_transaction fn s =
      on_error (ops.begin s) (λ e. (fails (begin_failed e), s)) (close s (fn s))

-- A scope: the database, or a transaction that a caller runs in.
pub data Scope : Type 0 where
  on_db on_tx : Scope

module _ {X S A : Type 0} (ops : TxOps X S) where
  -- `runOnScope` and `runOnScopeVoid`.
  unfoldable pub run_on_scope : Scope → (S → Outcome X A × S) → S → Outcome X A × S
  run_on_scope on_tx body s = body s
  run_on_scope on_db body s = run_in_transaction ops body s
