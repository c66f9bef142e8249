-- ===== src/Migrate.antt =====
-- migrate/migrate.go: the registry of migrations and its runner. The database is a state; the log of
-- applied migrations is one row of it, read and written as bytes. Log messages are left out.
pub mod Runs
pub mod Versions
pub mod Forward
pub mod Up
pub mod Register
pub mod Backward
mod Tests
use Prim.Native.Char.{code}
use Prim.Native.String.{String}
use text.Mathlib.Text.{◌==◌}
use den.Base.{Bool, true, false, Option, none, some, List, [], ◌∷◌, ◌++◌, ltb, if◌then◌else◌}
use den.Base.Results.{Result, ok, err}
use den.Base.Errors.{Error, not_found, migration_failed, Outcome, returns, fails, panics, on_error}
use den.Engine.Tx.{TxOps, run_in_transaction}

-- Go's `<` on strings, by code point, which for UTF-8 is the order of the bytes.
unfoldable pub str_lt : String → String → Bool
str_lt String.[] String.[] = false
str_lt String.[] (String.◌∷◌ d t) = true
str_lt (String.◌∷◌ c s) String.[] = false
str_lt (String.◌∷◌ c s) (String.◌∷◌ d t) =
    let later = str_lt s t in
    if ltb (code c) (code d) then true else if ltb (code d) (code c) then false else later

-- `migrationEntry`
pub record Entry (Time : Type 0) : Type 0 where
  pub version : String
  pub applied_at : Time

-- `registeredMigration`. A function of a migration works in the transaction's state.
pub record Migration (X S : Type 0) : Type 0 where
  pub version : String
  pub forward : S → Outcome X (Unit {0}) × S
  pub backward : Option (S → Outcome X (Unit {0}) × S)

-- `Registry`: `ensured` is the outcome that the sync.Once has kept.
pub record Registry (X S : Type 0) : Type 0 where
  pub migrations : List (Migration X S)
  pub ensured : Option (Option (Error X))

-- What the runner calls of the backend, of JSON and of the clock.
pub record Env (X S Time Bytes : Type 0) : Type 0 where
  pub ops : TxOps X S
  pub ensure_collection : S → Option (Error X) × S
  pub advisory_lock : S → Option (Error X)
  pub get_log : S → Result (Error X) Bytes
  pub put_log : Bytes → S → Option (Error X) × S
  pub marshal : List (Entry Time) → Result (Error X) Bytes
  pub unmarshal : Bytes → Result (Error X) (List (Entry Time))
  pub now : S → Time

module _ {X S : Type 0} where
  -- `sort.Slice` of a list that is sorted but for the last, which `Register` has appended.
  unfoldable pub insert_sorted : Migration X S → List (Migration X S) → List (Migration X S)
  insert_sorted m [] = m ∷ []
  insert_sorted m (n ∷ ns) =
      if str_lt m.version n.version then m ∷ n ∷ ns else n ∷ insert_sorted m ns

  unfoldable pub sort_versions : List (Migration X S) → List (Migration X S)
  sort_versions [] = []
  sort_versions (m ∷ ms) = insert_sorted m (sort_versions ms)

  unfoldable pub register : Registry X S → Migration X S → Registry X S
  unfolding sort_versions insert_sorted
  register r m = record r { migrations = sort_versions (r.migrations ++ m ∷ []) }

  unfoldable pub find_migration : String → List (Migration X S) → Option (Migration X S)
  find_migration version [] = none
  find_migration version (m ∷ ms) =
      if m.version == version then some m else find_migration version ms

module _ {X S Time Bytes : Type 0} (env : Env X S Time Bytes) where
  -- `loadEntriesFromTx`, and what `loadApplied` reads.
  pub read_log : Result (Error X) Bytes → Result (Error X) (List (Entry Time))
  read_log (ok bytes) = env.unmarshal bytes
  read_log (err not_found) = ok []
  read_log (err e) = err e

  unfoldable pub load_entries : S → Result (Error X) (List (Entry Time))
  unfolding read_log
  load_entries s = read_log (env.get_log s)

  pub saved : Option (Error X) × S → Outcome X (Unit {0}) × S
  saved (none, s) = (returns tt, s)
  saved (some e, s) = (fails e, s)

  pub write_log : Result (Error X) Bytes → S → Outcome X (Unit {0}) × S
  write_log (ok bytes) s = saved (env.put_log bytes s)
  write_log (err e) s = (fails e, s)

  -- `saveEntriesToTx`
  unfoldable pub save_entries : List (Entry Time) → S → Outcome X (Unit {0}) × S
  unfolding write_log saved
  save_entries entries s = write_log (env.marshal entries) s

  unfoldable pub has_version : String → List (Entry Time) → Bool
  has_version version [] = false
  has_version version (e ∷ es) = if e.version == version then true else has_version version es

  -- After the migration's own function.
  unfoldable pub record_forward :
      String → List (Entry Time) → Outcome X (Unit {0}) × S → Outcome X (Unit {0}) × S
  record_forward version entries (returns _, s) =
      save_entries (entries ++ record { version = version; applied_at = env.now s } ∷ []) s
  record_forward version entries (fails e, s) = (fails (migration_failed version e), s)
  record_forward version entries (panics, s) = (panics, s)

  unfoldable pub apply_forward :
      Migration X S → Result (Error X) (List (Entry Time)) → S → Outcome X (Unit {0}) × S
  apply_forward m (err e) s = (fails e, s)
  apply_forward m (ok entries) s =
      if has_version m.version entries
      then (returns tt, s)
      else record_forward m.version entries (m.forward s)

  -- The function that `runForward` runs in a transaction.
  unfoldable pub forward_body : Migration X S → S → Outcome X (Unit {0}) × S
  forward_body m s =
      on_error (env.advisory_lock s) (λ e. (fails e, s)) (apply_forward m (load_entries s) s)

  unfoldable pub run_forward : Migration X S → S → Outcome X (Unit {0}) × S
  run_forward m s = run_in_transaction env.ops (forward_body m) s

  unfoldable pub without_version : String → List (Entry Time) → List (Entry Time)
  without_version version [] = []
  without_version version (e ∷ es) =
      let rest = without_version version es in if e.version == version then rest else e ∷ rest

  unfoldable pub record_backward :
      String → List (Entry Time) → Outcome X (Unit {0}) × S → Outcome X (Unit {0}) × S
  record_backward version entries (returns _, s) = save_entries (without_version version entries) s
  record_backward version entries (fails e, s) = (fails (migration_failed version e), s)
  record_backward version entries (panics, s) = (panics, s)

  unfoldable pub apply_backward :
      String
      → (S → Outcome X (Unit {0}) × S)
      → Result (Error X) (List (Entry Time))
      → S
      → Outcome X (Unit {0}) × S
  apply_backward version backward (err e) s = (fails e, s)
  apply_backward version backward (ok entries) s =
      if has_version version entries
      then record_backward version entries (backward s)
      else (returns tt, s)

  -- The function that `runBackward` runs in a transaction.
  unfoldable pub backward_body :
      String → (S → Outcome X (Unit {0}) × S) → S → Outcome X (Unit {0}) × S
  backward_body version backward s =
      on_error (env.advisory_lock s) (λ e. (fails e, s))
        (apply_backward version backward (load_entries s) s)

  unfoldable pub run_backward :
      String → (S → Outcome X (Unit {0}) × S) → S → Outcome X (Unit {0}) × S
  run_backward version backward s = run_in_transaction env.ops (backward_body version backward) s

  -- `if err != nil { return err }` after a call that may also panic.
  unfoldable pub and_then :
      {A : Type 0} → Outcome X (Unit {0}) × S → (S → Outcome X A × S) → Outcome X A × S
  and_then (returns _, s) rest = rest s
  and_then (fails e, s) rest = (fails e, s)
  and_then (panics, s) rest = (panics, s)

  -- `ensureMigrationTable`
  unfoldable pub ensure_table : Registry X S → S → Option (Error X) × Registry X S × S
  ensure_table r s = elim r.ensured [
    | some outcome ↦ (outcome, r, s)
    | none ↦
        let (outcome, s') = env.ensure_collection s in
        (outcome, record r { ensured = some outcome }, s')
  ]

  -- The loop of `Up`.
  unfoldable pub up_all : List (Migration X S) → S → Outcome X (Unit {0}) × S
  up_all [] s = (returns tt, s)
  up_all (m ∷ ms) s = and_then (run_forward m s) (up_all ms)

  unfoldable pub up : Registry X S → S → Outcome X (Unit {0}) × Registry X S × S
  up r s =
      let (outcome, r', s') = ensure_table r s in
      let (ran, s'') = up_all r.migrations s' in
      on_error outcome (λ e. (fails e, r', s')) (ran, r', s'')
