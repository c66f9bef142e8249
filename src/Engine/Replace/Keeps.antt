-- ===== src/Engine/Replace/Keeps.antt =====
-- What a replacement keeps of the stored document, and what it takes from the new one.
use den.Base.{
  ◌≡◌, refl, ap, sym, ◌∙◌, ℕ, String, Bool, true, false, none, inl, inr, Bool-cases, if◌then◌else◌,
}
use den.Base.Errors.{Outcome, returns}
use den.Base.Results.{ok}
use den.Base.Text.{is_empty}
use den.Where.{GoTypes}
use den.Engine.Tx.{Scope, on_tx}
use den.Engine.Document.{World, Base, Doc, State, DocType, Db, CrudOpts, Draw}
use den.Engine.Document.Actions.{from_result, ◌>>◌}
use den.Engine.Document.Steps.{
  and_then-returns, on_scope-returns, from_result-returns, from_error-state, >>-IsSilent, IsSilent,
}
use den.Engine.Hooks.{run_before_update_hooks, run_validation_hooks, run_after_update_hooks}
use den.Engine.Write.{
  check_tags, run_pre_persist_hooks, set_revision, set_or_check_revision, set_base_fields,
  as_validation, write_doc_core,
}
use den.Engine.Write.Stores.{
  Laws, IsStored, store-IsStored, write_doc_core-parts, write_doc_core-IsStored,
}
use den.Engine.Write.Revisions.{set_or_check_revision-revised}
use den.Engine.LinkBatch.{QueryOps}
use den.Engine.QuerySet.Run.{find_by_id}
use den.Engine.Save.{is_link_write, save, update_core}
use den.Engine.Save.Conflict.{update_body-plain}
use den.Engine.Replace.{preserve_server_fields, replace_body, replace}

-- The document has the creation and deletion marks and the id of one document, the body of another.
abbrev pub IsReplaced : {w : World} → DocType w → Doc w → Doc w → Doc w → Type 0
IsReplaced ty existing fresh d =
    (d.base.id ≡ existing.base.id)
    × (d.base.created_at ≡ existing.base.created_at)
    × (ty.has_soft_delete ≡ true → d.base.deleted_at ≡ existing.base.deleted_at)
    × (d.body ≡ fresh.body)

module _ {w : World} (db : Db w) (ty : DocType w) (laws : Laws db)
    (silent_before : IsSilent (run_before_update_hooks ty))
    (silent_validate : IsSilent (run_validation_hooks ty))
    (silent_after : IsSilent (run_after_update_hooks ty)) where
  check_tags-IsSilent : IsSilent (check_tags ty)
  unfolding check_tags
  check_tags-IsSilent s =
      from_error-state
        (if ty.has_validate_tags then as_validation (ty.validate_document s.doc) else none) s

  run_pre_persist_hooks-IsSilent : IsSilent (run_pre_persist_hooks ty false)
  unfolding run_pre_persist_hooks
  run_pre_persist_hooks-IsSilent =
      >>-IsSilent (run_before_update_hooks ty) (check_tags ty >> run_validation_hooks ty)
        silent_before
        (>>-IsSilent (check_tags ty) (run_validation_hooks ty) check_tags-IsSilent silent_validate)

  -- The revision is all that the check of revisions changes.
  set_or_check_revision-same :
      (draw : Draw w) (ignore : Bool) (s : State w (Doc w))
      → (set_or_check_revision db ty draw false ignore s).0 ≡ returns tt
      → (rev : String) × ((set_or_check_revision db ty draw false ignore s).1.doc
          ≡ set_revision rev s.doc)
  unfolding set_or_check_revision set_revision
  set_or_check_revision-same draw ignore s = elim (Bool-cases ty.uses_revision) [
    | inl on ↦ λ e. (
      draw.new_revision,
      ap (λ (t : State w (Doc w)). t.doc)
          (set_or_check_revision-revised db ty draw false ignore s on e),
    )
    | inr off ↦ rw off (λ e. (s.doc.base.rev, refl))
  ]

  -- An update that returns keeps the id, the marks and the body.
  write_doc_core-keeps :
      (draw : Draw w) (ignore : Bool) (s : State w (Doc w))
      → is_empty s.doc.base.id ≡ false
      → (write_doc_core db ty draw false ignore s).0 ≡ returns tt
      → IsReplaced ty s.doc s.doc (write_doc_core db ty draw false ignore s).1.doc
  unfolding set_base_fields set_revision
  write_doc_core-keeps draw ignore s has_id e =
      let (_, revised, stored, same) =
        write_doc_core-parts db ty laws false silent_after draw ignore s e in
      let (_, base, body) = store-IsStored db ty laws _ stored in
      let (rev, revised_doc) =
        set_or_check_revision-same draw ignore (run_pre_persist_hooks ty false s).1 revised in
      let full =
        revised_doc
        ∙ ap (λ (t : State w (Doc w)). set_revision rev t.doc) (run_pre_persist_hooks-IsSilent s) in
      let left : (write_doc_core db ty draw false ignore s).1.doc.base
          ≡ (set_base_fields draw false (set_revision rev s.doc)).base =
        ap (λ (t : State w (Doc w)). t.doc.base) same
        ∙ base
        ∙ ap (λ (d : Doc w). (set_base_fields draw false d).base) full in
      (
        ap (λ (b : Base w). b.id) left ∙ rw has_id refl,
        ap (λ (b : Base w). b.created_at) left,
        (λ soft. ap (λ (b : Base w). b.deleted_at) left),
        ap (λ (t : State w (Doc w)). t.doc.body) same ∙ body ∙ ap (λ (d : Doc w). d.body) full,
      )

  module _ {G : GoTypes} (ops : QueryOps w G) where
    replace_body_lem :
        (draws : ℕ → Draw w) (o : CrudOpts) (s : State w (Doc w))
        → is_empty s.doc.base.id ≡ false
        → is_link_write o.link_rule ≡ false
        → ((d : Doc w)
            → find_by_id db ops ty on_tx s.doc.base.id
                (record o { suppress_fetch_links = true })
                s.db
              ≡ ok d
            → d.base.id ≡ s.doc.base.id)
        → (replace_body db ops ty draws o s).0 ≡ returns tt
        → (existing : Doc w) × (find_by_id db ops ty on_tx s.doc.base.id
              (record o { suppress_fetch_links = true })
              s.db
            ≡ ok existing)
          × IsReplaced ty existing s.doc (replace_body db ops ty draws o s).1.doc
          × IsStored db ty (replace_body db ops ty draws o s).1
    unfolding replace_body save update_core preserve_server_fields
    replace_body_lem draws o s has_id plain finds e =
        let reading =
          find_by_id db ops ty on_tx s.doc.base.id (record o { suppress_fetch_links = true })
            s.db in
        let (existing, read, same1, e1) = and_then-returns (from_result reading s) _ tt e in
        let (found, same) = from_result-returns reading existing s read in
        let t = (from_result reading s).1 in
        let u = record t { doc = preserve_server_fields ty t.doc existing } in
        let id : is_empty existing.base.id ≡ false = ap is_empty (finds existing found) ∙ has_id in
        let done : save db on_tx ty draws (record o { ignore_revision = true }) u
            ≡ write_doc_core db ty (draws 0) false true u =
          rw id (update_body-plain db ty draws (record o { ignore_revision = true }) u plain id) in
        let wrote : (write_doc_core db ty (draws 0) false true u).0 ≡ returns tt =
          ap (λ (x : Outcome w.Failure (Unit {0}) × State w (Doc w)). x.0) (sym done) ∙ e1 in
        let out = ap (λ (x : Outcome w.Failure (Unit {0}) × State w (Doc w)). x.1) (same1 ∙ done) in
        let (same_id, created, deleted, body) = write_doc_core-keeps (draws 0) true u id wrote in
        let (stored, _) =
          write_doc_core-IsStored db ty laws false silent_after (draws 0) true u wrote in
        (
          existing,
          found,
          rw out (
            same_id,
            created,
            (λ soft. deleted soft ∙ rw soft refl),
            body ∙ ap (λ (x : State w (Doc w)). x.doc.body) same,
          ),
          rw out stored,
        )

    -- A replacement that returns found the stored document; what it leaves is stored: the body of
    -- the new one under the id and the creation and deletion marks of the old one, so a
    -- soft-deleted document stays deleted. Finding by id gives a document with the id, the hooks
    -- change nothing, and nothing cascades.
    pub replace_lem :
        (scope : Scope) (draws : ℕ → Draw w) (o : CrudOpts) (s : State w (Doc w))
        → is_empty s.doc.base.id ≡ false
        → is_link_write o.link_rule ≡ false
        → ((d : Doc w)
            → find_by_id db ops ty on_tx s.doc.base.id
                (record o { suppress_fetch_links = true })
                s.db
              ≡ ok d
            → d.base.id ≡ s.doc.base.id)
        → (replace db ops scope ty draws o s).0 ≡ returns tt
        → (existing : Doc w) × (find_by_id db ops ty on_tx s.doc.base.id
              (record o { suppress_fetch_links = true })
              s.db
            ≡ ok existing)
          × IsReplaced ty existing s.doc (replace db ops scope ty draws o s).1.doc
          × IsStored db ty (replace db ops scope ty draws o s).1
    unfolding replace
    replace_lem scope draws o s has_id plain finds = rw has_id (λ e.
        let (ran, left) = on_scope-returns db.tx scope (replace_body db ops ty draws o) tt s e in
        let (existing, found, replaced, stored) =
          replace_body_lem draws o s has_id plain finds ran in
        (existing, found, rw left replaced, rw left stored))
