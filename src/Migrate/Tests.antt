-- ===== src/Migrate/Tests.antt =====
-- A database in memory with a log of migrations, and the theorems on it.
use Prim.Native.String.{String}
use mathlib.Core.List.{Perm}
use den.Base.{ℕ, ◌≡◌, refl, sym, Option, none, some, List, [], ◌∷◌}
use den.Base.Results.{Result, ok, err}
use den.Base.Errors.{Error, external, not_found, Outcome, returns, fails}
use den.Engine.Tx.{TxLaws, committed, aborted, finish, abort, close, run_in_transaction}
use den.Engine.Tx.Atomic.{IsFailure, run_in_transaction_lem}
use den.Migrate.{
  Entry, Migration, Registry, Env, read_log, load_entries, forward_body, run_forward, run_backward,
  register, up_all, and_then, apply_forward, backward_body, apply_backward, record_backward,
  has_version, record_forward, save_entries,
}
use den.Migrate.Runs.{contains}
use den.Migrate.Versions.{remove_version}
use den.Migrate.Forward.{Laws, IsLogged}
use den.Migrate.Up.{
  UpResult, here, then, HasDistinctLog, up_all-UpResult, up_all-same, Reaches-HasDistinctLog,
}
use den.Migrate.Register.{IsSorted, register_lem}
use den.Migrate.Backward.{run_backward-IsLogged}

-- The log's row, if there is one, and what the migrations have written.
record Db : Type 0 where
  log : Option (List (Entry ℕ))
  written : List String

read_row : Option (List (Entry ℕ)) → Result (Error String) (List (Entry ℕ))
read_row none = err not_found
read_row (some es) = ok es

abbrev memory : Env String Db ℕ (List (Entry ℕ))
memory = record {
  ops = record { begin = λ s. none; commit = λ s after. none; rollback = λ s after. (none, s) };
  ensure_collection = λ s. (none, s);
  advisory_lock = λ s. none;
  get_log = λ s. read_row s.log;
  put_log = λ b s. (none, record s { log = some b });
  marshal = λ es. ok es;
  unmarshal = λ b. ok b;
  now = λ s. 5;
}

memory_ends : TxLaws memory.ops
memory_ends = record {
  rollback-restores = λ s after. refl;
  commit-restores = λ s after left e h. cc;
}

memory_laws : Laws memory
unfolding read_row
memory_laws = record { ends = memory_ends; reads_back = λ es b e. sym e; get_put = λ b s h. refl }

abbrev write : String → Db → Outcome String (Unit {0}) × Db
write what s = (returns tt, record s { written = what ∷ s.written })

abbrev spoil : Db → Outcome String (Unit {0}) × Db
spoil s = (fails (external "boom"), record s { written = "half" ∷ s.written })

abbrev first : Migration String Db
first = record { version = "001"; forward = write "one"; backward = some (write "back") }

abbrev second : Migration String Db
second = record { version = "002"; forward = write "two"; backward = none }

abbrev broken : Migration String Db
broken = record { version = "003"; forward = spoil; backward = none }

abbrev empty : Db
empty = record { log = none; written = [] }

abbrev one_done : Db
one_done = record {
  log = some (record { version = "001"; applied_at = 4 } ∷ []);
  written = "one" ∷ [];
}

empty-IsLogged : IsLogged memory empty []
unfolding load_entries read_log read_row
empty-IsLogged = record { entries = []; loaded = refl; listed = refl }

one_done-IsLogged : IsLogged memory one_done ("001" ∷ [])
unfolding load_entries read_log read_row
one_done-IsLogged = record {
  entries = record { version = "001"; applied_at = 4 } ∷ [];
  loaded = refl;
  listed = refl;
}

-- A migration that fails after writing is undone, and the earlier ones stay.
broken_stops : (up_all memory (first ∷ broken ∷ second ∷ []) empty).1.written ≡ "one" ∷ []
unfolding up_all and_then run_forward run_in_transaction close finish abort committed aborted
    forward_body apply_forward load_entries read_row has_version record_forward save_entries
broken_stops = refl

run_in_transaction_lem_example :
    (IsFailure (run_in_transaction memory.ops spoil empty).0
      → (run_in_transaction memory.ops spoil empty).1 ≡ empty)
    × ((a : Unit {0})
        → (run_in_transaction memory.ops spoil empty).0 ≡ returns a
        → ((spoil empty).0 ≡ returns a)
          × ((run_in_transaction memory.ops spoil empty).1 ≡ (spoil empty).1)
          × (memory.ops.begin empty ≡ none)
          × (memory.ops.commit empty (spoil empty).1 ≡ none))
run_in_transaction_lem_example = run_in_transaction_lem memory.ops memory_ends spoil empty

up_all-UpResult_example :
    UpResult memory
      (second ∷ broken ∷ [])
      ("001" ∷ [])
      (up_all memory (second ∷ broken ∷ []) one_done)
up_all-UpResult_example =
    up_all-UpResult memory memory_laws (second ∷ broken ∷ []) one_done ("001" ∷ [])
      one_done-IsLogged

up_all-same_example : (up_all memory (first ∷ []) one_done).1 ≡ one_done
unfolding contains
up_all-same_example =
    up_all-same memory memory_laws (first ∷ []) one_done ("001" ∷ []) one_done-IsLogged (refl, tt)

Reaches-HasDistinctLog_example :
    HasDistinctLog memory memory_laws
      (run_forward memory first (run_forward memory first empty).1).1
Reaches-HasDistinctLog_example =
    Reaches-HasDistinctLog memory memory_laws empty _ (then first (then first here))
      (record { applied = []; logged = empty-IsLogged; distinct = tt })

abbrev one_registered : Registry String Db
one_registered = record { migrations = second ∷ []; ensured = none }

register_lem_example :
    IsSorted (register one_registered first).migrations
    × Perm (register one_registered first).migrations (first ∷ second ∷ [])
register_lem_example = register_lem one_registered first

run_backward-IsLogged_example :
    IsLogged memory
      (run_backward memory "001" (write "back") one_done).1
      (remove_version ("001" ∷ []) "001")
unfolding run_backward run_in_transaction close finish abort committed aborted backward_body
    apply_backward load_entries read_row has_version record_backward save_entries
run_backward-IsLogged_example =
    run_backward-IsLogged memory memory_laws "001" (write "back") one_done ("001" ∷ [])
      one_done-IsLogged refl
