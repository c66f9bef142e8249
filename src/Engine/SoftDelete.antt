-- ===== src/Engine/SoftDelete.antt =====
-- engine/soft_delete.go: marking a document as deleted.
use Prim.Native.String.{String}
use den.Base.{not, ◌&&◌, some, if◌then◌else◌}
use den.Base.Text.{is_empty}
use den.Engine.Tx.{Scope, on_db, on_tx}
use den.Engine.Document.{World, Doc, Action, DocType, Db, CrudOpts, Draw}
use den.Engine.Document.Actions.{◌>>◌, in_transaction}
use den.Engine.Write.{modify, check_and_update_revision, store}

module _ {w : World} where
  unfoldable pub set_soft_deleted_at : DocType w → w.Time → Doc w → Doc w
  set_soft_deleted_at ty now d =
      if ty.has_soft_delete then record d { base = record d.base { deleted_at = some now } } else d

  unfoldable pub set_soft_delete_audit_fields : DocType w → String → String → Doc w → Doc w
  set_soft_delete_audit_fields ty by reason d = record d {
    base = record d.base {
      deleted_by = if not (is_empty by) && ty.has_deleted_by then by else d.base.deleted_by;
      delete_reason =
          if not (is_empty reason) && ty.has_delete_reason then reason else d.base.delete_reason;
    };
  }

  -- The body of `softDelete`, inside the transaction where it opens one.
  unfoldable pub soft_delete_body :
      Db w → DocType w → Draw w → CrudOpts → Action w (Doc w) (Unit {0})
  soft_delete_body db ty draw o = do
    check_and_update_revision db ty draw o.ignore_revision
    modify (λ d.
        set_soft_delete_audit_fields ty o.soft_delete_by o.soft_delete_reason
          (set_soft_deleted_at ty draw.now d))
    store db ty

  -- On the database itself, a check of revisions opens a transaction.
  unfoldable pub soft_delete :
      Db w → Scope → DocType w → Draw w → CrudOpts → Action w (Doc w) (Unit {0})
  soft_delete db on_tx ty draw o = soft_delete_body db ty draw o
  soft_delete db on_db ty draw o =
      if ty.uses_revision && not o.ignore_revision
      then in_transaction db.tx (soft_delete_body db ty draw o)
      else soft_delete_body db ty draw o
