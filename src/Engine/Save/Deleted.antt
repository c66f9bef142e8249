-- ===== src/Engine/Save/Deleted.antt =====
-- What a delete that returns leaves.
use den.Base.{
  ◌≡◌, refl, ap, subst, ◌∙◌, inl, inr, ℕ, String, true, false, not, ◌&&◌, Option, none, some, List,
  [], ◌∷◌, Bool-cases, Option-cases,
}
use den.Base.Errors.{Error, Outcome, returns, not_found}
use den.Base.Results.{err}
use den.Base.Text.{is_empty}
use den.Engine.Tx.{Scope, on_db, on_tx}
use den.Engine.Document.{World, Base, Doc, State, DocType, Db, CrudOpts, Draw}
use den.Engine.Document.Actions.{in_transaction-returns, ◌>>◌, and_then}
use den.Engine.Document.Steps.{and_then-returns, IsSilent, Keeps}
use den.Engine.Hooks.{
  run_before_delete_hooks, run_after_delete_hooks, run_before_soft_delete_hooks,
  run_after_soft_delete_hooks,
}
use den.Engine.Write.{check_and_update_revision, write}
use den.Engine.Write.Stores.{Laws, IsStored, store-IsStored}
use den.Engine.SoftDelete.{
  set_soft_deleted_at, set_soft_delete_audit_fields, soft_delete_body, soft_delete,
}
use den.Engine.Delete.{
  preflight_attachments, cleanup_attachments, hard_delete_body, delete_doc_core,
}
use den.Engine.Save.{is_link_delete, cascade_on_delete, require_id, delete_core}

preflight_attachments-IsSilent :
    {w : World} (delete : Option (String → w.Files → w.Files)) (attachments : List String)
    → IsSilent (preflight_attachments {w = w} delete attachments)
unfolding preflight_attachments
preflight_attachments-IsSilent (some delete) attachments s = refl
preflight_attachments-IsSilent none [] s = refl
preflight_attachments-IsSilent none (a ∷ rest) s = refl

write-returns :
    {w : World} (call : w.Database → Option (Error w.Failure) × w.Database) (s : State w (Doc w))
    → (write call s).0 ≡ returns tt
    → ((call s.db).0 ≡ none) × ((write call s).1 ≡ record s { db = (call s.db).1 })
write-returns call s = elim (Option-cases (call s.db).0) [
  | inl none_left ↦ rw none_left (λ e. (refl, refl))
  | inr (x, failed) ↦ rw failed (λ e. cc)
]

module _ {w : World} (db : Db w) (ty : DocType w) (laws : Laws db) where
  soft_delete_body-IsStored :
      (draw : Draw w) (o : CrudOpts) (s : State w (Doc w))
      → ty.has_soft_delete ≡ true
      → (soft_delete_body db ty draw o s).0 ≡ returns tt
      → IsStored db ty (soft_delete_body db ty draw o s).1
        × ((soft_delete_body db ty draw o s).1.doc.base.deleted_at ≡ some draw.now)
  unfolding soft_delete_body set_soft_deleted_at set_soft_delete_audit_fields
  soft_delete_body-IsStored draw o s soft e =
      let checked = check_and_update_revision db ty draw o.ignore_revision s in
      let (tt, _, same, rest) = and_then-returns checked _ tt e in
      let marked = record checked.1 {
        doc =
            set_soft_delete_audit_fields ty o.soft_delete_by o.soft_delete_reason
              (set_soft_deleted_at ty draw.now checked.1.doc);
      } in
      let (stored, base, _) = store-IsStored db ty laws marked rest in
      rw same (stored, ap (λ (b : Base w). b.deleted_at) base ∙ rw soft refl)

  -- A hard delete that returns: the document is not found any more.
  hard_delete_body-gone :
      (s : State w (Doc w))
      → IsSilent (run_after_delete_hooks ty)
      → (hard_delete_body db ty s).0 ≡ returns tt
      → db.get ty.name s.doc.base.id (hard_delete_body db ty s).1.db ≡ err not_found
  unfolding hard_delete_body cleanup_attachments
  hard_delete_body-gone s silent e =
      let pre = preflight_attachments db.delete_file (ty.attachments s.doc.body) s in
      let same : pre.1 ≡ s =
        preflight_attachments-IsSilent db.delete_file (ty.attachments s.doc.body) s in
      let (tt, _, same1, e1) = and_then-returns pre _ tt e in
      let (tt, deleted, same2, e2) =
        and_then-returns (write (db.delete ty.name pre.1.doc.base.id) pre.1) _ tt e1 in
      let (removed, after) = write-returns (db.delete ty.name pre.1.doc.base.id) pre.1 deleted in
      let (tt, _, same3, _) =
        and_then-returns
          (cleanup_attachments db ty (write (db.delete ty.name pre.1.doc.base.id) pre.1).1)
          (λ _. run_after_delete_hooks ty) tt e2 in
      let left : (hard_delete_body db ty s).1.db
          ≡ (db.delete ty.name pre.1.doc.base.id pre.1.db).1 =
        ap (λ (x : Outcome w.Failure (Unit {0}) × State w (Doc w)). x.1.db) (same1 ∙ same2 ∙ same3)
        ∙ ap (λ (t : State w (Doc w)). t.db)
            (silent _ ∙ ap (λ t. (cleanup_attachments db ty t).1) after) in
      subst
        (λ (t : State w (Doc w)).
          db.get ty.name t.doc.base.id (hard_delete_body db ty s).1.db ≡ err not_found)
        same
        (ap (db.get ty.name pre.1.doc.base.id) left
          ∙ laws.get_delete ty.name pre.1.doc.base.id pre.1.db removed)

  delete_core-plain :
      (scope : Scope) (draws : ℕ → Draw w) (o : CrudOpts) (s : State w (Doc w))
      → is_empty s.doc.base.id ≡ false
      → is_link_delete o.link_rule ≡ false
      → delete_core db scope ty draws o s
        ≡ and_then (run_before_delete_hooks ty s) (λ _. delete_doc_core db scope ty (draws 0) o)
  unfolding delete_core cascade_on_delete require_id
  delete_core-plain scope draws o s has_id plain = rw (has_id, plain) refl

  -- After a hard delete that returns, the document is not found under its id: the hook before it
  -- keeps the identity, the one after it changes nothing, and nothing cascades.
  pub delete_core-gone :
      (keep_before : Keeps (run_before_delete_hooks ty))
      (silent_after : IsSilent (run_after_delete_hooks ty)) (scope : Scope) (draws : ℕ → Draw w)
      (o : CrudOpts) (s : State w (Doc w))
      → is_empty s.doc.base.id ≡ false
      → is_link_delete o.link_rule ≡ false
      → (ty.has_soft_delete && not o.hard_delete) ≡ false
      → (delete_core db scope ty draws o s).0 ≡ returns tt
      → db.get ty.name s.doc.base.id (delete_core db scope ty draws o s).1.db ≡ err not_found
  unfolding delete_doc_core
  delete_core-gone keep_before silent_after scope draws o s has_id plain hard =
      rw (delete_core-plain scope draws o s has_id plain, hard)
        (λ e.
          let (tt, _, same, rest) =
            and_then-returns (run_before_delete_hooks ty s) (λ _. hard_delete_body db ty) tt e in
          let (same_id, _, _) = keep_before s in
          let t = (run_before_delete_hooks ty s).1 in
          rw same (
            subst (λ x. db.get ty.name x (hard_delete_body db ty t).1.db ≡ err not_found) same_id
              (hard_delete_body-gone t silent_after rest)))

  soft_delete-IsStored :
      (scope : Scope) (draw : Draw w) (o : CrudOpts) (s : State w (Doc w))
      → ty.has_soft_delete ≡ true
      → (soft_delete db scope ty draw o s).0 ≡ returns tt
      → IsStored db ty (soft_delete db scope ty draw o s).1
        × ((soft_delete db scope ty draw o s).1.doc.base.deleted_at ≡ some draw.now)
  unfolding soft_delete
  soft_delete-IsStored on_tx draw o s soft = soft_delete_body-IsStored draw o s soft
  soft_delete-IsStored on_db draw o s soft =
      elim (Bool-cases (ty.uses_revision && not o.ignore_revision)) [
        | inl h ↦ rw h (λ e.
            let (done, same) =
              in_transaction-returns db.tx (soft_delete_body db ty draw o) s tt e in
            rw same (soft_delete_body-IsStored draw o s soft done))
        | inr h ↦ rw h (soft_delete_body-IsStored draw o s soft)
      ]

  delete_doc_core-soft :
      (scope : Scope) (draw : Draw w) (o : CrudOpts) (s : State w (Doc w))
      → ty.has_soft_delete ≡ true
      → o.hard_delete ≡ false
      → delete_doc_core db scope ty draw o s
        ≡ and_then (run_before_soft_delete_hooks ty s) (λ _.
          soft_delete db scope ty draw o
          >> (run_after_soft_delete_hooks ty >> run_after_delete_hooks ty))
  unfolding delete_doc_core
  delete_doc_core-soft scope draw o s soft not_hard = rw (soft, not_hard) refl

  delete_doc_core-marked :
      (silent_soft : IsSilent (run_after_soft_delete_hooks ty))
      (silent_after : IsSilent (run_after_delete_hooks ty)) (scope : Scope) (draw : Draw w)
      (o : CrudOpts) (s : State w (Doc w))
      → ty.has_soft_delete ≡ true
      → o.hard_delete ≡ false
      → (delete_doc_core db scope ty draw o s).0 ≡ returns tt
      → IsStored db ty (delete_doc_core db scope ty draw o s).1
        × ((delete_doc_core db scope ty draw o s).1.doc.base.deleted_at ≡ some draw.now)
  delete_doc_core-marked silent_soft silent_after scope draw o s soft not_hard =
      rw (delete_doc_core-soft scope draw o s soft not_hard) (λ e.
        let t = (run_before_soft_delete_hooks ty s).1 in
        let (tt, _, same1, e1) = and_then-returns (run_before_soft_delete_hooks ty s) _ tt e in
        let (tt, done, same2, e2) = and_then-returns (soft_delete db scope ty draw o t) _ tt e1 in
        let (tt, _, same3, _) =
          and_then-returns (run_after_soft_delete_hooks ty (soft_delete db scope ty draw o t).1)
            (λ _. run_after_delete_hooks ty) tt e2 in
        rw (same1 ∙ same2 ∙ same3, silent_after _, silent_soft _)
          (soft_delete-IsStored scope draw o t soft done))

  -- After a soft delete that returns, the document is still stored, as it is in memory, and marked as
  -- deleted now; the hooks after the mark change nothing, and nothing cascades.
  pub delete_core-marked :
      (silent_soft : IsSilent (run_after_soft_delete_hooks ty))
      (silent_after : IsSilent (run_after_delete_hooks ty)) (scope : Scope) (draws : ℕ → Draw w)
      (o : CrudOpts) (s : State w (Doc w))
      → is_empty s.doc.base.id ≡ false
      → is_link_delete o.link_rule ≡ false
      → ty.has_soft_delete ≡ true
      → o.hard_delete ≡ false
      → (delete_core db scope ty draws o s).0 ≡ returns tt
      → IsStored db ty (delete_core db scope ty draws o s).1
        × ((delete_core db scope ty draws o s).1.doc.base.deleted_at ≡ some (draws 0).now)
  delete_core-marked silent_soft silent_after scope draws o s has_id plain soft not_hard =
      rw (delete_core-plain scope draws o s has_id plain) (λ e.
        let (tt, _, same, e1) =
          and_then-returns (run_before_delete_hooks ty s)
            (λ _. delete_doc_core db scope ty (draws 0) o) tt e in
        rw same (
          delete_doc_core-marked silent_soft silent_after scope (draws 0) o
            (run_before_delete_hooks ty s).1 soft not_hard e1))
