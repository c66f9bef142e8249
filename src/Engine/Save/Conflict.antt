-- ===== src/Engine/Save/Conflict.antt =====
-- Two writers of one document.
use den.Base.{
  ◌≡◌, ◌≢◌, refl, ap, subst, ◌∙◌, inl, inr, ℕ, String, true, false, not, ◌&&◌, Bool-cases,
}
use den.Base.Errors.{returns}
use den.Base.Results.{ok}
use den.Base.Text.{is_empty}
use den.Engine.Tx.{Scope, on_db, on_tx}
use den.Engine.Document.{World, Base, Doc, State, DocType, Db, CrudOpts, Draw}
use den.Engine.Document.Steps.{IsSilent, Keeps, Refuses, in_transaction-Refuses}
use den.Engine.Hooks.{run_before_update_hooks, run_validation_hooks, run_after_update_hooks}
use den.Engine.Write.{write_doc_core}
use den.Engine.Write.Stores.{Laws, write_doc_core-IsStored, write_doc_core-Identity}
use den.Engine.Write.Revisions.{run_pre_persist_hooks-Keeps, write_doc_core-conflict}
use den.Engine.Save.{is_link_write, cascade_on_write, require_id, update_body, update_core, save}
use den.Engine.Save.Stored.{update_core-returns}

module _ {w : World} (db : Db w) (ty : DocType w) where
  -- Without a cascade, the update of a document with an id is its write.
  pub update_body-plain :
      (draws : ℕ → Draw w) (o : CrudOpts) (s : State w (Doc w))
      → is_link_write o.link_rule ≡ false
      → is_empty s.doc.base.id ≡ false
      → update_body db ty draws o s ≡ write_doc_core db ty (draws 0) false o.ignore_revision s
  unfolding update_body require_id cascade_on_write
  update_body-plain draws o s plain has_id = rw (plain, has_id) refl

  update_core-Refuses :
      (laws : Laws db) (scope : Scope) (draws : ℕ → Draw w) (o : CrudOpts) (s : State w (Doc w))
      → Refuses (update_body db ty draws o s) s
      → Refuses (update_core db scope ty draws o s) s
  unfolding update_core
  update_core-Refuses laws on_tx draws o s h = h
  update_core-Refuses laws on_db draws o s h =
      elim (Bool-cases (ty.uses_revision && not o.ignore_revision)) [
        | inl on ↦ rw on (in_transaction-Refuses db.tx (update_body db ty draws o) s laws.ends h.0)
        | inr off ↦ rw off h
      ]

  module _ (laws : Laws db)
      (decode_rev-encode : (b : Base w) (body : w.Body) (bytes : w.Bytes)
        → ty.encode b body ≡ ok bytes
        → ty.decode_rev (db.reads bytes) ≡ ok b.rev)
      (keep_before : Keeps (run_before_update_hooks ty))
      (keep_validate : Keeps (run_validation_hooks ty))
      (silent_after : IsSilent (run_after_update_hooks ty)) (on : ty.uses_revision ≡ true) where
    -- The revision that a save leaves in the database.
    save-revision :
        (scope : Scope) (draws : ℕ → Draw w) (o : CrudOpts) (s : State w (Doc w))
        → is_empty s.doc.base.id ≡ false
        → is_link_write o.link_rule ≡ false
        → (save db scope ty draws o s).0 ≡ returns tt
        → (bytes : w.Bytes) × (db.get ty.name s.doc.base.id (save db scope ty draws o s).1.db
            ≡ ok bytes)
          × (ty.decode_rev bytes ≡ ok (draws 0).new_revision)
    unfolding save
    save-revision scope draws o s has_id plain = rw has_id (λ e.
        let (done, same) = update_core-returns db ty draws o scope s e in
        let body = update_body-plain draws o s plain has_id in
        let wrote : (write_doc_core db ty (draws 0) false o.ignore_revision s).0 ≡ returns tt =
          rw⁻¹ body done in
        let ((bytes, encoded, stored, _), _) =
          write_doc_core-IsStored db ty laws false silent_after (draws 0) o.ignore_revision s
            wrote in
        let (rev, id) =
          write_doc_core-Identity db ty laws false silent_after (draws 0) o.ignore_revision s on
            wrote in
        let (kept_id, _, _) = run_pre_persist_hooks-Keeps db ty keep_before keep_validate s in
        let same_id : (write_doc_core db ty (draws 0) false o.ignore_revision s).1.doc.base.id
            ≡ s.doc.base.id =
          id ∙ rw (kept_id, has_id) refl in
        (
          db.reads bytes,
          rw (same, body)
              (subst
                (λ x.
                  db.get ty.name x (write_doc_core db ty (draws 0) false o.ignore_revision s).1.db
                  ≡ ok (db.reads bytes))
                same_id stored),
          decode_rev-encode _ _ bytes encoded ∙ ap (λ (x : String). ok x) rev,
        ))

    -- The save of a document whose revision is not the stored one.
    save-conflict :
        (scope : Scope) (draws : ℕ → Draw w) (o : CrudOpts) (s : State w (Doc w)) (bytes : w.Bytes)
        (r : String)
        → is_empty s.doc.base.id ≡ false
        → is_link_write o.link_rule ≡ false
        → o.ignore_revision ≡ false
        → db.get ty.name s.doc.base.id s.db ≡ ok bytes
        → ty.decode_rev bytes ≡ ok r
        → r ≢ s.doc.base.rev
        → Refuses (save db scope ty draws o s) s
    unfolding save
    save-conflict scope draws o s bytes r has_id plain checks found decoded stale = rw has_id (
        update_core-Refuses laws scope draws o s (
          rw (update_body-plain draws o s plain has_id, checks)
            (write_doc_core-conflict db ty keep_before keep_validate (draws 0) s bytes r on has_id
              found decoded stale)))

    -- No update is lost: after a save that returned, the save of another copy of the document, under
    -- any scope, is refused and leaves the database as it is, when the copy does not carry the
    -- revision that the first save drew. The type has revisions, which read back from what the
    -- backend gives back of the encoding;
    -- the hooks before a write keep identity, revision and database, those after it change nothing;
    -- neither save cascades, and the second one does not ignore revisions.
    pub no_lost_update :
        (scope : Scope) (draws : ℕ → Draw w) (o : CrudOpts) (s : State w (Doc w))
        → is_empty s.doc.base.id ≡ false
        → is_link_write o.link_rule ≡ false
        → (save db scope ty draws o s).0 ≡ returns tt
        → (scope' : Scope) (draws' : ℕ → Draw w) (o' : CrudOpts) (d : Doc w)
        → d.base.id ≡ s.doc.base.id
        → (draws 0).new_revision ≢ d.base.rev
        → is_link_write o'.link_rule ≡ false
        → o'.ignore_revision ≡ false
        → let after = (save db scope ty draws o s).1 in
          Refuses (save db scope' ty draws' o' (record after { doc = d })) after
    no_lost_update scope draws o s has_id plain e scope' draws' o' d same_id stale plain' checks =
        let after = (save db scope ty draws o s).1 in
        let (bytes, found, decoded) = save-revision scope draws o s has_id plain e in
        save-conflict scope' draws' o' (record after { doc = d }) bytes (draws 0).new_revision
          (rw same_id has_id) plain' checks (rw same_id found) decoded stale
