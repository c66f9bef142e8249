-- ===== src/Engine/Replace.antt =====
-- engine/replace.go: replacing the content of a stored document.
pub mod Keeps
use den.Base.{ℕ, true, if◌then◌else◌}
use den.Base.Errors.{validation, missing_id}
use den.Base.Text.{is_empty}
use den.Where.{GoTypes}
use den.Engine.Tx.{Scope, on_tx}
use den.Engine.Document.{World, Doc, Action, DocType, Db, CrudOpts, Draw}
use den.Engine.Document.Actions.{◌>>=◌, ◌>>◌, raise, from_result, on_scope}
use den.Engine.LinkBatch.{QueryOps}
use den.Engine.QuerySet.Run.{find_by_id}
use den.Engine.Write.{modify}
use den.Engine.Save.{save}

module _ {w : World} where
  -- Every type has the fields of `document.Base`; those of `document.SoftDelete` may be missing.
  unfoldable pub preserve_server_fields : DocType w → Doc w → Doc w → Doc w
  preserve_server_fields ty dst src = record dst {
    base = record {
      id = src.base.id;
      created_at = src.base.created_at;
      updated_at = src.base.updated_at;
      rev = src.base.rev;
      deleted_at = if ty.has_soft_delete then src.base.deleted_at else dst.base.deleted_at;
      deleted_by = if ty.has_deleted_by then src.base.deleted_by else dst.base.deleted_by;
      delete_reason =
          if ty.has_delete_reason then src.base.delete_reason else dst.base.delete_reason;
    };
  }

module _ {w : World} {G : GoTypes} (db : Db w) (ops : QueryOps w G) where
  -- The load and the save, in one transaction.
  unfoldable pub replace_body : DocType w → (ℕ → Draw w) → CrudOpts → Action w (Doc w) (Unit {0})
  replace_body ty draws o s =
      (do
        existing ← from_result (
            find_by_id db ops ty on_tx s.doc.base.id (record o { suppress_fetch_links = true })
              s.db)
        modify (λ fresh. preserve_server_fields ty fresh existing)
        save db on_tx ty draws (record o { ignore_revision = true }))
        s

  unfoldable pub replace : Scope → DocType w → (ℕ → Draw w) → CrudOpts → Action w (Doc w) (Unit {0})
  unfolding replace_body
  replace scope ty draws o s =
      (if is_empty s.doc.base.id
          then raise (validation missing_id)
          else on_scope db.tx scope (replace_body ty draws o))
        s
