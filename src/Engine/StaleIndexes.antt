-- ===== src/Engine/StaleIndexes.antt =====
-- engine/stale_indexes.go and maintenance/maintenance.go: dropping the indexes that no registered
-- definition names. The registered collections come in any order, that of Go's map.
pub mod Report
mod Tests
use Prim.Native.String.{String}
use text.Mathlib.Text.{◌==◌}
use den.Base.{Bool, true, false, Option, none, some, List, [], ◌∷◌, ◌++◌, if◌then◌else◌}
use den.Base.Results.{Result, ok, err}
use den.Base.Errors.{Error, at_index, on_error}

-- `IndexDefinition` and `RecordedIndex`, which have the same fields.
pub record Index : Type 0 where
  pub name : String
  pub fields : List String
  pub unique : Bool

-- What `DropStaleIndexes` reads of a registered collection.
pub record CollectionMeta : Type 0 where
  pub name : String
  pub indexes : List Index

pub record StaleIndex : Type 0 where
  pub collection : String
  pub index : Index

pub record DropStaleResult : Type 0 where
  pub dropped : List StaleIndex
  pub kept : List StaleIndex

-- The one function of the type `Option`, and `Config`.
pub data DropOption : Type 0 where
  dry_run : DropOption

pub record Config : Type 0 where
  pub is_dry_run : Bool

unfoldable pub apply_options : List DropOption → Config → Config
apply_options [] c = c
apply_options (dry_run ∷ os) c = apply_options os (record c { is_dry_run = true })

unfoldable pub resolve_options : List DropOption → Config
resolve_options os = apply_options os (record { is_dry_run = false })

-- What the engine calls of the backend.
pub record IndexOps (X S : Type 0) : Type 0 where
  pub list_recorded_indexes : String → S → Result (Error X) (List Index)
  pub drop_index : String → String → S → Option (Error X) × S

-- `_, ok := expected[name]`
unfoldable pub is_expected : String → List Index → Bool
is_expected name [] = false
is_expected name (i ∷ is) = if i.name == name then true else is_expected name is

unfoldable pub add_entry : Bool → StaleIndex → DropStaleResult → DropStaleResult
add_entry true entry r = record r { kept = r.kept ++ entry ∷ [] }
add_entry false entry r = record r { dropped = r.dropped ++ entry ∷ [] }

module _ {X S : Type 0} (ops : IndexOps X S) where
  -- What a round of the inner loop does to the database.
  unfoldable pub drop_one : Bool → Bool → String → Index → S → Option (Error X) × S
  drop_one dry expected collection rec s =
      if expected
      then (none, s)
      else if dry
      then (none, s)
      else ops.drop_index collection rec.name s

  unfoldable pub drop_recorded :
      Bool
      → String
      → List Index
      → List Index
      → DropStaleResult
      → S
      → DropStaleResult × Option (Error X) × S
  drop_recorded dry collection expected [] r s = (r, none, s)
  drop_recorded dry collection expected (rec ∷ recs) r s =
      let known = is_expected rec.name expected in
      let (failure, s') = drop_one dry known collection rec s in
      let entry : StaleIndex = record { collection = collection; index = rec } in
      let rest = drop_recorded dry collection expected recs (add_entry known entry r) s' in
      on_error failure (λ e. (r, some (at_index rec.name e), s')) rest

  -- One collection, after its recorded indexes have been read.
  unfoldable pub drop_listed :
      Bool
      → CollectionMeta
      → Result (Error X) (List Index)
      → DropStaleResult
      → S
      → DropStaleResult × Option (Error X) × S
  drop_listed dry meta (ok recorded) r s = drop_recorded dry meta.name meta.indexes recorded r s
  drop_listed dry meta (err e) r s = (r, some (at_index meta.name e), s)

  unfoldable pub unless_failed :
      DropStaleResult × Option (Error X) × S
      → (DropStaleResult → S → DropStaleResult × Option (Error X) × S)
      → DropStaleResult × Option (Error X) × S
  unless_failed (r, none, s) rest = rest r s
  unless_failed (r, some e, s) rest = (r, some e, s)

  unfoldable pub drop_all :
      Bool → List CollectionMeta → DropStaleResult → S → DropStaleResult × Option (Error X) × S
  drop_all dry [] r s = (r, none, s)
  drop_all dry (meta ∷ metas) r s =
      unless_failed (drop_listed dry meta (ops.list_recorded_indexes meta.name s) r s)
        (drop_all dry metas)

  unfoldable pub drop_stale_indexes :
      List DropOption → List CollectionMeta → S → DropStaleResult × Option (Error X) × S
  drop_stale_indexes options metas s =
      drop_all (resolve_options options).is_dry_run metas (record { dropped = []; kept = [] }) s
