-- ===== src/Engine/Write.antt =====
-- engine/crud.go and engine/revision.go: the body of every write of one document.
pub mod Stores
pub mod Revisions
use Prim.Native.String.{String}
use text.Mathlib.Text.{◌==◌}
use den.Base.{Bool, true, false, Option, none, some, if◌then◌else◌}
use den.Base.Errors.{
  Error, validation, revision_conflict, encode_failed, decode_failed, Outcome, returns,
}
use den.Base.Results.{Result, ok, err}
use den.Base.Text.{is_empty}
use den.Engine.Document.{World, Base, Doc, State, Action, DocType, Db, Draw}
use den.Engine.Document.Actions.{◌>>=◌, ◌>>◌, pure, raise, from_error, from_result}
use den.Engine.Hooks.{
  run_before_insert_hooks, run_before_update_hooks, run_validation_hooks, run_after_insert_hooks,
  run_after_update_hooks,
}

-- `errors` of a result, wrapped.
unfoldable pub wrap_result : {E A : Type 0} → (E → E) → Result E A → Result E A
wrap_result wrap (ok a) = ok a
wrap_result wrap (err e) = err (wrap e)

-- `fmt.Errorf("%w: %w", ErrValidation, err)`
abbrev pub as_validation : {X : Type 0} → Option (Error X) → Option (Error X)
as_validation none = none
as_validation (some e) = some (validation e)

-- `if fv.IsZero() { fv.Set(nowVal) }`
abbrev pub or_now : {T : Type 0} → T → Option T → Option T
or_now now none = some now
or_now now (some t) = some t

module _ {w : World} where
  -- A change of the document in memory.
  abbrev pub modify : (Doc w → Doc w) → Action w (Doc w) (Unit {0})
  modify change s = (returns tt, record s { doc = change s.doc })

  -- The call of the database that writes, or an error.
  abbrev pub write :
      (w.Database → Option (Error w.Failure) × w.Database) → Action w (Doc w) (Unit {0})
  write call s = let (failure, db) = call s.db in from_error failure (record s { db = db })

  -- The constraints of struct tags; a type without any skips them.
  unfoldable pub check_tags : DocType w → Action w (Doc w) (Unit {0})
  check_tags ty s =
      from_error (if ty.has_validate_tags then as_validation (ty.validate_document s.doc) else none)
        s

  unfoldable pub run_pre_persist_hooks : DocType w → Bool → Action w (Doc w) (Unit {0})
  run_pre_persist_hooks ty is_insert = do
    if is_insert then run_before_insert_hooks ty else run_before_update_hooks ty
    check_tags ty
    run_validation_hooks ty

  unfoldable pub set_revision : String → Doc w → Doc w
  set_revision rev d = record d { base = record d.base { rev = rev } }

  -- The stored revision against the one in memory.
  unfoldable pub compare_revisions :
      String → Result (Error w.Failure) String → Action w (Doc w) (Unit {0})
  compare_revisions current (err e) = raise (decode_failed e)
  compare_revisions current (ok stored) =
      if stored == current then pure tt else raise revision_conflict

  -- The read of `checkAndUpdateRevision`.
  unfoldable pub check_revision : Db w → DocType w → Action w (Doc w) (Unit {0})
  unfolding compare_revisions
  check_revision db ty s =
      (do
        bytes ← from_result (db.get ty.name s.doc.base.id s.db)
        compare_revisions s.doc.base.rev (ty.decode_rev bytes))
        s

  unfoldable pub check_and_update_revision :
      Db w → DocType w → Draw w → Bool → Action w (Doc w) (Unit {0})
  check_and_update_revision db ty draw ignore_revision s =
      if ty.uses_revision
      then (do
        (if ignore_revision
            then pure tt
            else if is_empty s.doc.base.id
            then pure tt
            else check_revision db ty)
        modify (set_revision draw.new_revision))
          s
      else pure tt s

  unfoldable pub set_base_fields : Draw w → Bool → Doc w → Doc w
  set_base_fields draw is_insert d = record d {
    base = record d.base {
      id = if is_empty d.base.id then draw.new_id else d.base.id;
      created_at = if is_insert then or_now draw.now d.base.created_at else d.base.created_at;
      updated_at = some draw.now;
    };
  }

  -- `captureSnapshot`
  unfoldable pub capture_snapshot : DocType w → w.Bytes → Doc w → Doc w
  capture_snapshot ty bytes d = if ty.is_tracked then record d { snapshot = some bytes } else d

  -- The encoded document is put under its id and becomes its snapshot.
  unfoldable pub store : Db w → DocType w → Action w (Doc w) (Unit {0})
  store db ty s =
      (do
        bytes ← from_result (wrap_result encode_failed (ty.encode s.doc.base s.doc.body))
        write (db.put ty.name s.doc.base.id bytes)
        modify (capture_snapshot ty bytes))
        s

  unfoldable pub set_or_check_revision :
      Db w → DocType w → Draw w → Bool → Bool → Action w (Doc w) (Unit {0})
  set_or_check_revision db ty draw is_insert ignore_revision =
      if ty.uses_revision
      then if is_insert
        then modify (set_revision draw.new_revision)
        else check_and_update_revision db ty draw ignore_revision
      else pure tt

  unfoldable pub write_doc_core :
      Db w → DocType w → Draw w → Bool → Bool → Action w (Doc w) (Unit {0})
  write_doc_core db ty draw is_insert ignore_revision = do
    run_pre_persist_hooks ty is_insert
    set_or_check_revision db ty draw is_insert ignore_revision
    modify (set_base_fields draw is_insert)
    store db ty
    if is_insert then run_after_insert_hooks ty else run_after_update_hooks ty
