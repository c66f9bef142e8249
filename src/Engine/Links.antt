-- ===== src/Engine/Links.antt =====
-- engine/link_cascade.go: writing and deleting the documents that a document links to, one level deep.
-- The walk visits the links of the document as it is when the walk begins.
use den.Base.{ℕ, suc, false, Option, none, some, List, [], ◌∷◌, ◌++◌, if◌then◌else◌}
use den.Base.Errors.{Error, is_not_found, decode_failed}
use den.Base.Results.{Result, ok, err}
use den.Base.Text.{is_empty}
use den.Engine.Tx.{Scope}
use den.Engine.Document.{World, Doc, Action, Link, DocType, Db, CrudOpts, Draw}
use den.Engine.Document.Actions.{◌>>=◌, ◌>>◌, pure, raise, from_error, from_result, on_part}
use den.Engine.Hooks.{run_before_delete_hooks}
use den.Engine.Write.{modify, wrap_result, write_doc_core}
use den.Engine.Delete.{delete_doc_core}

-- `forEachLinkField`: the walk visits the links of the document as they stand when it begins; each target
-- is a document of its own. The context is looked at once before each link.
module _ {w : World} where
  -- The links of the document, replaced.
  unfoldable pub set_links : DocType w → List (Link w) → Doc w → Doc w
  set_links ty links d = record d { body = ty.with_links links d.body }

module _ {w : World} (db : Db w) where
  -- Writes the target in its slot; a target that was inserted leaves its new id there.
  unfoldable pub save_target :
      (Link w → Doc w → Doc w) → Draw w → Link w → Option (Doc w) → Action w (Doc w) (Link w)
  save_target put_slot draw l none = pure l
  save_target put_slot draw l (some child) = do
    ty ← from_result (db.collection_for l.field.target_type)
    let is_insert = is_empty child.base.id
    saved ←
        on_part (λ c. put_slot (record l { value = some c })) child
          (write_doc_core db ty draw is_insert false)
    let slot = record l {
      link_id = if is_insert then saved.base.id else l.link_id;
      value = some saved;
    }
    modify (put_slot slot)
    pure slot

  unfoldable pub save_single_linked_value :
      (Link w → Doc w → Doc w) → Draw w → Link w → Action w (Doc w) (Link w)
  unfolding save_target
  save_single_linked_value put_slot draw l = save_target put_slot draw l l.value

  -- The links before, and those still to write.
  unfoldable pub write_links :
      DocType w → (ℕ → Draw w) → List (Link w) → List (Link w) → Action w (Doc w) (Unit {0})
  write_links ty draws before [] = pure tt
  write_links ty draws before (l ∷ rest) = do
    (λ s. from_error (draws 0).ctx_err s)
    slot ← save_single_linked_value (λ x. set_links ty (before ++ x ∷ rest)) (draws 0) l
    write_links ty (λ n. draws (suc n)) (before ++ slot ∷ []) rest

  unfoldable pub cascade_write_links : DocType w → (ℕ → Draw w) → Action w (Doc w) (Unit {0})
  cascade_write_links ty draws s = write_links ty draws [] (ty.links s.doc.body) s

  -- The target as it is stored; nothing is left to do when it is not found.
  unfoldable pub delete_target :
      Scope
      → DocType w
      → Draw w
      → CrudOpts
      → Result (Error w.Failure) w.Bytes
      → Action w (Doc w) (Unit {0})
  delete_target scope ty draw o (err e) = if is_not_found e then pure tt else raise e
  delete_target scope ty draw o (ok bytes) = do
    decoded ← from_result (wrap_result decode_failed (ty.decode bytes ty.zero_base ty.zero_body))
    let (base, body) = decoded
    _ ←
        on_part (λ _ parent. parent) (record { base = base; body = body; snapshot = none })
          (do run_before_delete_hooks ty; delete_doc_core db scope ty draw o)
    pure tt

  unfoldable pub delete_single_linked_value :
      Scope → Draw w → CrudOpts → Link w → Action w (Doc w) (Unit {0})
  delete_single_linked_value scope draw o l = if is_empty l.link_id then pure tt else (do
    ty ← from_result (db.collection_for l.field.target_type)
    (λ s. delete_target scope ty draw o (db.get ty.name l.link_id s.db) s))

  unfoldable pub delete_links :
      Scope → (ℕ → Draw w) → CrudOpts → List (Link w) → Action w (Doc w) (Unit {0})
  delete_links scope draws o [] = pure tt
  delete_links scope draws o (l ∷ rest) = do
    (λ s. from_error (draws 0).ctx_err s)
    delete_single_linked_value scope (draws 0) o l
    delete_links scope (λ n. draws (suc n)) o rest

  unfoldable pub cascade_delete_links :
      Scope → DocType w → (ℕ → Draw w) → CrudOpts → Action w (Doc w) (Unit {0})
  cascade_delete_links scope ty draws o s = delete_links scope draws o (ty.links s.doc.body) s
