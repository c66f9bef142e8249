-- ===== src/Engine/Save.antt =====
-- engine/crud_save.go and engine/crud_delete.go: `Save`, `SaveAll`, `Delete` and `DeleteAll` of
-- documents of a registered type. The documents of a batch are distinct.
pub mod Stored
pub mod Conflict
pub mod Reload
pub mod Deleted
pub mod Batch
use den.Base.{ℕ, suc, ◌+◌, Bool, true, false, not, ◌&&◌, List, [], ◌∷◌, ◌++◌, if◌then◌else◌}
use den.Base.Errors.{Error, validation, missing_id, save_failed, delete_failed}
use den.Base.Text.{is_empty}
use den.Engine.Tx.{Scope, on_db, on_tx}
use den.Engine.Document.{
  World, Doc, State, Action, DocType, Db, CrudOpts, LinkRule, link_ignore, link_write, link_delete,
  Draw,
}
use den.Engine.Document.Actions.{
  ◌>>=◌, ◌>>◌, pure, raise, from_error, wrap_error, on_part, in_transaction, on_scope,
}
use den.Engine.Hooks.{run_before_delete_hooks}
use den.Engine.Write.{write_doc_core}
use den.Engine.Delete.{delete_doc_core}
use den.Engine.Links.{cascade_write_links, cascade_delete_links}

unfoldable pub is_link_write : LinkRule → Bool
is_link_write link_write = true
is_link_write _ = false

unfoldable pub is_link_delete : LinkRule → Bool
is_link_delete link_delete = true
is_link_delete _ = false

-- A write of one document draws first for itself, then for each of its links.
module _ {w : World} (db : Db w) where
  -- `if o.linkRule == LinkWrite`
  unfoldable pub cascade_on_write :
      DocType w → (ℕ → Draw w) → CrudOpts → Action w (Doc w) (Unit {0})
  unfolding is_link_write
  cascade_on_write ty draws o =
      if is_link_write o.link_rule then cascade_write_links db ty (λ n. draws (suc n)) else pure tt

  unfoldable pub insert_core : DocType w → (ℕ → Draw w) → CrudOpts → Action w (Doc w) (Unit {0})
  insert_core ty draws o = do cascade_on_write ty draws o; write_doc_core db ty (draws 0) true false

  unfoldable pub require_id : DocType w → Action w (Doc w) (Unit {0})
  require_id ty s = (if is_empty s.doc.base.id then raise (validation missing_id) else pure tt) s

  -- `updateCore` in a transaction, or where no revision is checked.
  unfoldable pub update_body : DocType w → (ℕ → Draw w) → CrudOpts → Action w (Doc w) (Unit {0})
  unfolding require_id
  update_body ty draws o = do
    cascade_on_write ty draws o
    require_id ty
    write_doc_core db ty (draws 0) false o.ignore_revision

  unfoldable pub update_core :
      Scope → DocType w → (ℕ → Draw w) → CrudOpts → Action w (Doc w) (Unit {0})
  unfolding update_body
  update_core on_tx ty draws o = update_body ty draws o
  update_core on_db ty draws o =
      if ty.uses_revision && not o.ignore_revision
      then in_transaction db.tx (update_body ty draws o)
      else update_body ty draws o

  unfoldable pub save : Scope → DocType w → (ℕ → Draw w) → CrudOpts → Action w (Doc w) (Unit {0})
  save scope ty draws o s =
      (if is_empty s.doc.base.id then insert_core ty draws o else update_core scope ty draws o) s

  -- `if o.linkRule == LinkDelete`
  unfoldable pub cascade_on_delete :
      Scope → DocType w → (ℕ → Draw w) → CrudOpts → Action w (Doc w) (Unit {0})
  cascade_on_delete scope ty draws o =
      if is_link_delete o.link_rule
      then cascade_delete_links db scope ty (λ n. draws (suc n)) o
      else pure tt

  unfoldable pub delete_core :
      Scope → DocType w → (ℕ → Draw w) → CrudOpts → Action w (Doc w) (Unit {0})
  delete_core scope ty draws o = do
    require_id ty
    run_before_delete_hooks ty
    cascade_on_delete scope ty draws o
    delete_doc_core db scope ty (draws 0) o

  -- The loop of `SaveAll` and of `DeleteAll`, in a transaction: the documents done, and the rest.
  unfoldable pub each_doc :
      (ℕ → Error w.Failure → Error w.Failure)
      → (ℕ → ℕ → Draw w)
      → (ℕ → Action w (Doc w) (Unit {0}))
      → ℕ
      → List (Doc w)
      → List (Doc w)
      → Action w (List (Doc w)) (Unit {0})
  each_doc wrap draws act i before [] = pure tt
  each_doc wrap draws act i before (d ∷ rest) = do
    (λ s. from_error (draws i 0).ctx_err s)
    d' ← (λ s. wrap_error (wrap i) (on_part (λ x _. before ++ x ∷ rest) d (act i) s))
    each_doc wrap draws act (suc i) (before ++ d' ∷ []) rest

  -- A batch without documents opens no transaction.
  unfoldable pub in_batch :
      Scope
      → (List (Doc w) → Action w (List (Doc w)) (Unit {0}))
      → List (Doc w)
      → Action w (List (Doc w)) (Unit {0})
  in_batch scope body [] = pure tt
  in_batch scope body (d ∷ rest) = on_scope db.tx scope (body (d ∷ rest))

  unfoldable pub save_all :
      Scope → DocType w → (ℕ → ℕ → Draw w) → CrudOpts → Action w (List (Doc w)) (Unit {0})
  unfolding each_doc in_batch
  save_all scope ty draws o s =
      in_batch scope (each_doc save_failed draws (λ i. save on_tx ty (draws i) o) 0 []) s.doc s

  unfoldable pub delete_all :
      Scope → DocType w → (ℕ → ℕ → Draw w) → CrudOpts → Action w (List (Doc w)) (Unit {0})
  delete_all scope ty draws o s =
      in_batch scope (each_doc delete_failed draws (λ i. delete_core on_tx ty (draws i) o) 0 [])
        s.doc s
