-- ===== src/Engine/Save/Stored.antt =====
-- What a save that returns has done.
use den.Base.{
  ◌≡◌, refl, ap, ◌∙◌, inl, inr, ℕ, Bool, true, false, some, not, ◌&&◌, Bool-cases, if◌then◌else◌,
}
use den.Base.Errors.{Outcome, returns}
use den.Base.Text.{is_empty}
use den.Engine.Tx.{Scope, on_db, on_tx}
use den.Engine.Document.{World, Doc, State, DocType, Db, CrudOpts, Draw}
use den.Engine.Document.Actions.{in_transaction-returns}
use den.Engine.Document.Steps.{and_then-returns, IsSilent}
use den.Engine.Hooks.{run_after_insert_hooks, run_after_update_hooks}
use den.Engine.Write.{write_doc_core}
use den.Engine.Write.Stores.{Laws, IsStored, write_doc_core-IsStored}
use den.Engine.Save.{cascade_on_write, insert_core, require_id, update_body, update_core, save}

module _ {w : World} (db : Db w) (ty : DocType w) (draws : ℕ → Draw w) (o : CrudOpts) where
  -- The state comes from a write of the document that returned.
  abbrev Wrote : Bool → Outcome w.Failure (Unit {0}) × State w (Doc w) → Type 0
  Wrote is_insert out =
      (ignore : Bool) × (t : State w (Doc w)) × ((write_doc_core db ty (draws 0) is_insert ignore
          t).0
        ≡ returns tt)
      × (out.1 ≡ (write_doc_core db ty (draws 0) is_insert ignore t).1)

  insert_core-Wrote :
      (s : State w (Doc w))
      → (insert_core db ty draws o s).0 ≡ returns tt
      → Wrote true (insert_core db ty draws o s)
  unfolding insert_core
  insert_core-Wrote s e =
      let (tt, _, same, done) = and_then-returns (cascade_on_write db ty draws o s) _ tt e in
      (false, _, done, ap (λ (x : Outcome w.Failure (Unit {0}) × State w (Doc w)). x.1) same)

  update_body-Wrote :
      (s : State w (Doc w))
      → (update_body db ty draws o s).0 ≡ returns tt
      → Wrote false (update_body db ty draws o s)
  unfolding update_body
  update_body-Wrote s e =
      let (tt, _, same, rest) = and_then-returns (cascade_on_write db ty draws o s) _ tt e in
      let (tt, _, same', done) =
        and_then-returns (require_id db ty (cascade_on_write db ty draws o s).1) _ tt rest in
      (
        o.ignore_revision,
        _,
        done,
        ap (λ (x : Outcome w.Failure (Unit {0}) × State w (Doc w)). x.1) (same ∙ same'),
      )

  -- In a transaction or not, an update that returns is its body.
  pub update_core-returns :
      (scope : Scope) (s : State w (Doc w))
      → (update_core db scope ty draws o s).0 ≡ returns tt
      → ((update_body db ty draws o s).0 ≡ returns tt)
        × ((update_core db scope ty draws o s).1 ≡ (update_body db ty draws o s).1)
  unfolding update_core
  update_core-returns on_tx s = λ e. (e, refl)
  update_core-returns on_db s = elim (Bool-cases (ty.uses_revision && not o.ignore_revision)) [
    | inl h ↦ rw h (in_transaction-returns db.tx (update_body db ty draws o) s tt)
    | inr h ↦ rw h (λ e. (e, refl))
  ]

  save-Wrote :
      (scope : Scope) (s : State w (Doc w))
      → (save db scope ty draws o s).0 ≡ returns tt
      → Wrote (is_empty s.doc.base.id) (save db scope ty draws o s)
  unfolding save
  save-Wrote scope s = elim (Bool-cases (is_empty s.doc.base.id)) [
    | inl h ↦ rw h (insert_core-Wrote s)
    | inr h ↦ rw h (λ e.
        let (done, same) = update_core-returns scope s e in
        let (ignore, t, wrote, same') = update_body-Wrote s done in
        (ignore, t, wrote, same ∙ same'))
  ]

  module _ (laws : Laws db) (silent_insert : IsSilent (run_after_insert_hooks ty))
      (silent_update : IsSilent (run_after_update_hooks ty)) where
    silent :
        (b : Bool) → IsSilent (if b then run_after_insert_hooks ty else run_after_update_hooks ty)
    silent true = silent_insert
    silent false = silent_update

    -- The document is stored as of now.
    abbrev pub IsStoredNow : State w (Doc w) → Type 0
    IsStoredNow t = IsStored db ty t × (t.doc.base.updated_at ≡ some (draws 0).now)

    Wrote-IsStoredNow :
        (is_insert : Bool) (out : Outcome w.Failure (Unit {0}) × State w (Doc w))
        → Wrote is_insert out
        → IsStoredNow out.1
    Wrote-IsStoredNow is_insert out (ignore, t, wrote, same) =
        rw same
          (write_doc_core-IsStored db ty laws is_insert (silent is_insert) (draws 0) ignore t wrote)

    pub insert_core-IsStored :
        (s : State w (Doc w))
        → (insert_core db ty draws o s).0 ≡ returns tt
        → IsStoredNow (insert_core db ty draws o s).1
    insert_core-IsStored s e =
        Wrote-IsStoredNow true (insert_core db ty draws o s) (insert_core-Wrote s e)

    pub update_core-IsStored :
        (scope : Scope) (s : State w (Doc w))
        → (update_core db scope ty draws o s).0 ≡ returns tt
        → IsStoredNow (update_core db scope ty draws o s).1
    update_core-IsStored scope s e =
        let (done, same) = update_core-returns scope s e in
        rw same (Wrote-IsStoredNow false (update_body db ty draws o s) (update_body-Wrote s done))

  -- A save that returns leaves the document stored: what Get reads under its id is what the backend
  -- gives back of the encoding of the document in memory, which is dated now and, if tracked, has
  -- this encoding as its snapshot; the hooks that run after the write leave everything as it is.
  pub save-IsStored :
      (laws : Laws db) (silent_insert : IsSilent (run_after_insert_hooks ty))
      (silent_update : IsSilent (run_after_update_hooks ty)) (scope : Scope) (s : State w (Doc w))
      → (save db scope ty draws o s).0 ≡ returns tt
      → IsStored db ty (save db scope ty draws o s).1
        × ((save db scope ty draws o s).1.doc.base.updated_at ≡ some (draws 0).now)
  save-IsStored laws silent_insert silent_update scope s e =
      Wrote-IsStoredNow laws silent_insert silent_update (is_empty s.doc.base.id)
        (save db scope ty draws o s) (save-Wrote scope s e)
