-- ===== src/Migrate/Runs.antt =====
-- migrate/migrate.go: `UpOne`, `DownOne` and `Down`.
use mathlib.Core.List.{reverse}
use Prim.Native.String.{String}
use text.Mathlib.Text.{◌==◌}
use den.Base.{Bool, true, false, Option, none, some, List, [], ◌∷◌, map, if◌then◌else◌}
use den.Base.Results.{Result, ok, err}
use den.Base.Errors.{Error, not_in_registry, no_backward, Outcome, returns, fails, on_error}
use den.Migrate.{
  Entry, Migration, Registry, Env, find_migration, load_entries, run_forward, run_backward,
  and_then, ensure_table,
}

-- `slices.Contains`
unfoldable pub contains : List String → String → Bool
contains [] v = false
contains (x ∷ xs) v = if x == v then true else contains xs v

module _ {X S Time Bytes : Type 0} (env : Env X S Time Bytes) where
  versions_of : Result (Error X) (List (Entry Time)) → Result (Error X) (List String)
  versions_of (ok entries) = ok (map (λ e. e.version) entries)
  versions_of (err e) = err e

  unfoldable pub load_applied : Registry X S → S → Result (Error X) (List String) × Registry X S × S
  unfolding versions_of
  load_applied r s =
      let (outcome, r', s') = ensure_table env r s in
      on_error outcome (λ e. (err e, r', s')) (versions_of (load_entries env s'), r', s')

  -- The loop of `UpOne`: the first migration that is not applied.
  unfoldable pub up_next : List String → List (Migration X S) → S → Outcome X (Unit {0}) × S
  up_next applied [] s = (returns tt, s)
  up_next applied (m ∷ ms) s =
      let rest = up_next applied ms s in
      let ran = run_forward env m s in if contains applied m.version then rest else ran

  run_next : List (Migration X S) → Result (Error X) (List String) → S → Outcome X (Unit {0}) × S
  run_next ms (ok applied) s = up_next applied ms s
  run_next ms (err e) s = (fails e, s)

  unfoldable pub up_one : Registry X S → S → Outcome X (Unit {0}) × Registry X S × S
  unfolding run_next
  up_one r s =
      let (outcome, r', s') = ensure_table env r s in
      let (applied, r'', s'') = load_applied r' s' in
      let (ran, s''') = run_next r.migrations applied s'' in
      on_error outcome (λ e. (fails e, r', s')) (ran, r'', s''')

  undo_found : String → Option (S → Outcome X (Unit {0}) × S) → S → Outcome X (Unit {0}) × S
  undo_found version none s = (fails (no_backward version), s)
  undo_found version (some backward) s = run_backward env version backward s

  -- What `DownOne` and each round of `Down` do with one applied version.
  unfoldable pub undo : List (Migration X S) → String → S → Outcome X (Unit {0}) × S
  unfolding undo_found
  undo ms version s = elim (find_migration version ms) [
    | none ↦ (fails (not_in_registry version), s)
    | some m ↦ undo_found version m.backward s
  ]

  -- The loop of `Down`, over the applied versions from the last to the first.
  unfoldable pub undo_all : List (Migration X S) → List String → S → Outcome X (Unit {0}) × S
  undo_all ms [] s = (returns tt, s)
  undo_all ms (version ∷ versions) s = and_then env (undo ms version s) (undo_all ms versions)

  undo_applied :
      List (Migration X S) → Result (Error X) (List String) → S → Outcome X (Unit {0}) × S
  undo_applied ms (ok applied) s = undo_all ms (reverse applied) s
  undo_applied ms (err e) s = (fails e, s)

  unfoldable pub down : Registry X S → S → Outcome X (Unit {0}) × Registry X S × S
  unfolding undo_applied
  down r s =
      let (applied, r', s') = load_applied r s in
      let (ran, s'') = undo_applied r.migrations applied s' in (ran, r', s'')

  -- `applied[len(applied)-1]`, if there is one.
  undo_last : List (Migration X S) → List String → S → Outcome X (Unit {0}) × S
  undo_last ms [] s = (returns tt, s)
  undo_last ms (last ∷ earlier) s = undo ms last s

  undo_last_applied :
      List (Migration X S) → Result (Error X) (List String) → S → Outcome X (Unit {0}) × S
  undo_last_applied ms (ok applied) s = undo_last ms (reverse applied) s
  undo_last_applied ms (err e) s = (fails e, s)

  unfoldable pub down_one : Registry X S → S → Outcome X (Unit {0}) × Registry X S × S
  unfolding undo_last_applied undo_last
  down_one r s =
      let (applied, r', s') = load_applied r s in
      let (ran, s'') = undo_last_applied r.migrations applied s' in (ran, r', s'')
