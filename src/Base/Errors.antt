-- ===== src/Base/Errors.antt =====
-- The errors that den's functions return: the sentinels of engine/errors.go, the wrapping that the
-- code does around another error, and errors from outside (a database, a user's hook).
use Prim.Native.Nat.{ℕ}
use mathlib.Core.Bool.{Bool, true, false, ◌||◌}
use mathlib.Core.Option.{Option, none, some}
use Prim.Native.String.{String}

pub data Error (X : Type 0) : Type 0 where
  external : X → Error X
  not_found duplicate no_snapshot locked multiple_matches not_registered : Error X
  revision_conflict lock_requires_transaction incompatible_pagination : Error X
  validation : Error X → Error X
  missing_id no_storage : Error X
  contradicting_locks : Error X
  unknown_field : String → Error X
  dangling_link : String → String → Error X
  save_failed delete_failed : ℕ → Error X → Error X
  encode_failed decode_failed fetch_failed : Error X → Error X
  begin_failed transaction_failed : Error X → Error X
  rollback_failed : Error X → Error X → Error X
  migration_failed : String → Error X → Error X
  not_in_registry no_backward : String → Error X
  at_index : String → Error X → Error X

-- A call that may panic: Go's recover sees the third case.
pub data Outcome (X A : Type 0) : Type 0 where
  returns : A → Outcome X A
  fails : Error X → Outcome X A
  panics : Outcome X A

-- `if err := call; err != nil { … }`, then the rest.
abbrev pub on_error {ℓ} : {X : Type 0} {R : Type ℓ} → Option (Error X) → (Error X → R) → R → R
on_error none handle rest = rest
on_error (some e) handle rest = handle e

-- `errors.Is(err, ErrNotFound)`
unfoldable pub is_not_found : {X : Type 0} → Error X → Bool
is_not_found not_found = true
is_not_found (dangling_link c id) = true
is_not_found (validation e) = is_not_found e
is_not_found (encode_failed e) = is_not_found e
is_not_found (decode_failed e) = is_not_found e
is_not_found (fetch_failed e) = is_not_found e
is_not_found (begin_failed e) = is_not_found e
is_not_found (transaction_failed e) = is_not_found e
is_not_found (rollback_failed e r) = is_not_found e || is_not_found r
is_not_found (migration_failed v e) = is_not_found e
is_not_found (at_index n e) = is_not_found e
is_not_found (save_failed n e) = is_not_found e
is_not_found (delete_failed n e) = is_not_found e
is_not_found e = false
