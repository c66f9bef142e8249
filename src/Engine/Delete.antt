-- ===== src/Engine/Delete.antt =====
-- engine/crud_delete.go: deleting one document. The links of the document are in Engine/Links.
use den.Base.{String, not, ◌&&◌, Option, none, some, List, [], ◌∷◌, if◌then◌else◌}
use den.Base.Errors.{validation, no_storage, returns}
use den.Engine.Tx.{Scope}
use den.Engine.Document.{World, Doc, Action, DocType, Db, CrudOpts, Draw}
use den.Engine.Document.Actions.{◌>>◌, pure, raise}
use den.Engine.Hooks.{
  run_after_delete_hooks, run_before_soft_delete_hooks, run_after_soft_delete_hooks,
}
use den.Engine.Write.{write}
use den.Engine.SoftDelete.{soft_delete}

-- `cleanupAttachments`: each failure of the storage is logged and otherwise ignored.
unfoldable pub cleanup_files :
    {Files : Type 0} → Option (String → Files → Files) → List String → Files → Files
cleanup_files none attachments files = files
cleanup_files (some delete) [] files = files
cleanup_files (some delete) (a ∷ rest) files = cleanup_files (some delete) rest (delete a files)

module _ {w : World} where
  -- `preflightAttachments`: with no storage, a document with attachments is not deleted.
  unfoldable pub preflight_attachments :
      Option (String → w.Files → w.Files) → List String → Action w (Doc w) (Unit {0})
  preflight_attachments (some delete) attachments = pure tt
  preflight_attachments none [] = pure tt
  preflight_attachments none (a ∷ rest) = raise (validation no_storage)

  unfoldable pub cleanup_attachments : Db w → DocType w → Action w (Doc w) (Unit {0})
  cleanup_attachments db ty s = (
    returns tt,
    record s { files = cleanup_files db.delete_file (ty.attachments s.doc.body) s.files },
  )

  unfoldable pub hard_delete_body : Db w → DocType w → Action w (Doc w) (Unit {0})
  hard_delete_body db ty = do
    (λ s. preflight_attachments db.delete_file (ty.attachments s.doc.body) s)
    (λ s. write (db.delete ty.name s.doc.base.id) s)
    cleanup_attachments db ty
    run_after_delete_hooks ty

  unfoldable pub delete_doc_core :
      Db w → Scope → DocType w → Draw w → CrudOpts → Action w (Doc w) (Unit {0})
  delete_doc_core db scope ty draw o =
      if ty.has_soft_delete && not o.hard_delete
      then (do
        run_before_soft_delete_hooks ty
        soft_delete db scope ty draw o
        run_after_soft_delete_hooks ty
        run_after_delete_hooks ty)
      else hard_delete_body db ty
