-- ===== src/Engine/Write/Stores.antt =====
-- What a write that returns has left in the database and in the document.
use den.Base.{
  ◌≡◌, refl, ap, sym, ◌∙◌, inl, inr, String, Bool, true, Option, none, some, Bool-cases,
  if◌then◌else◌,
}
use den.Base.Errors.{Error, not_found, Outcome, returns}
use den.Base.Results.{ok, err, Result-cases}
use den.Engine.Tx.{TxLaws}
use den.Engine.Document.{World, Base, Doc, State, DocType, Db, Draw}
use den.Engine.Document.Actions.{and_then, from_error}
use den.Engine.Document.Steps.{and_then-returns, IsSilent}
use den.Engine.Write.Revisions.{set_or_check_revision-revised}
use den.Base.Text.{is_empty}
use den.Engine.Hooks.{run_after_insert_hooks, run_after_update_hooks}
use den.Engine.Write.{
  run_pre_persist_hooks, set_or_check_revision, set_base_fields, set_revision, capture_snapshot,
  store, modify, wrap_result, write_doc_core,
}

-- The database's Get sees its Put and its Delete, and its transactions end.
pub record Laws {w : World} (db : Db w) : Type 0 where
  pub ends : TxLaws db.tx
  pub get_put :
      (name id : String) (bytes : w.Bytes) (s : w.Database)
      → (db.put name id bytes s).0 ≡ none
      → db.get name id (db.put name id bytes s).1 ≡ ok (db.reads bytes)
  pub get_delete :
      (name id : String) (s : w.Database)
      → (db.delete name id s).0 ≡ none
      → db.get name id (db.delete name id s).1 ≡ err not_found

-- The document, as it is in memory, is in the database, and its encoding is its snapshot.
abbrev pub IsStored : {w : World} → Db w → DocType w → State w (Doc w) → Type 0
IsStored {w} db ty s =
    (bytes : w.Bytes) × (ty.encode s.doc.base s.doc.body ≡ ok bytes)
    × (db.get ty.name s.doc.base.id s.db ≡ ok (db.reads bytes))
    × (ty.is_tracked ≡ true → s.doc.snapshot ≡ some bytes)

module _ {w : World} (db : Db w) (ty : DocType w) (laws : Laws db) where
  capture_snapshot_lem :
      (bytes : w.Bytes) (d : Doc w)
      → ((capture_snapshot ty bytes d).base ≡ d.base)
        × ((capture_snapshot ty bytes d).body ≡ d.body)
        × (ty.is_tracked ≡ true → (capture_snapshot ty bytes d).snapshot ≡ some bytes)
  unfolding capture_snapshot
  capture_snapshot_lem bytes d = elim (Bool-cases ty.is_tracked) [
    | inl h ↦ rw h (refl, refl, λ _. refl)
    | inr h ↦ rw h (refl, refl, λ e. cc)
  ]

  -- What the state after a store is, of the state before.
  abbrev Stores : State w (Doc w) → State w (Doc w) → Type 0
  Stores s t = IsStored db ty t × (t.doc.base ≡ s.doc.base) × (t.doc.body ≡ s.doc.body)

  write-Stores :
      (s : State w (Doc w)) (bytes : w.Bytes)
      → ty.encode s.doc.base s.doc.body ≡ ok bytes
      → (put : Option (Error w.Failure) × w.Database)
      → put ≡ db.put ty.name s.doc.base.id bytes s.db
      → let out =
          and_then
            (from_error put.0 (record s { db = put.1 }))
            (λ _. modify (capture_snapshot ty bytes)) in
        out.0 ≡ returns tt → Stores s out.1
  write-Stores s bytes h (some x, db') p e = cc
  write-Stores s bytes h (none, db') p e =
      let (same_base, same_body, snap) = capture_snapshot_lem bytes s.doc in
      let stored =
        laws.get_put ty.name s.doc.base.id bytes s.db
          (sym (ap (λ (r : Option (Error w.Failure) × w.Database). r.0) p)) in
      (
        (
          bytes,
          rw (same_base, same_body) h,
          rw (same_base, ap (λ (r : Option (Error w.Failure) × w.Database). r.1) p) stored,
          snap,
        ),
        same_base,
        same_body,
      )

  pub store-IsStored :
      (s : State w (Doc w))
      → (store db ty s).0 ≡ returns tt
      → IsStored db ty (store db ty s).1
        × ((store db ty s).1.doc.base ≡ s.doc.base)
        × ((store db ty s).1.doc.body ≡ s.doc.body)
  unfolding store wrap_result
  store-IsStored s = elim (Result-cases (ty.encode s.doc.base s.doc.body)) [
    | inl (bytes, h) ↦ rw h (write-Stores s bytes h (db.put ty.name s.doc.base.id bytes s.db) refl)
    | inr (x, h) ↦ rw h (λ e. cc)
  ]

  -- The hooks that run last leave everything as it is.
  module _ (is_insert : Bool)
      (silent : IsSilent
        (if is_insert then run_after_insert_hooks ty else run_after_update_hooks ty)) where
    -- A write that returns: its hooks ran first, then the revision, and what it leaves is what the
    -- store leaves of the stamped document.
    pub write_doc_core-parts :
        (draw : Draw w) (ignore : Bool) (s : State w (Doc w))
        → (write_doc_core db ty draw is_insert ignore s).0 ≡ returns tt
        → let hooked = run_pre_persist_hooks ty is_insert s in
          let revised = set_or_check_revision db ty draw is_insert ignore hooked.1 in
          let stamped = record revised.1 { doc = set_base_fields draw is_insert revised.1.doc } in
          (hooked.0 ≡ returns tt)
          × (revised.0 ≡ returns tt)
          × ((store db ty stamped).0 ≡ returns tt)
          × ((write_doc_core db ty draw is_insert ignore s).1 ≡ (store db ty stamped).1)
    unfolding write_doc_core
    write_doc_core-parts draw ignore s e =
        let (tt, h1, e1, r1) = and_then-returns (run_pre_persist_hooks ty is_insert s) _ tt e in
        let (tt, h2, e2, r2) =
          and_then-returns
            (set_or_check_revision db ty draw is_insert ignore
              (run_pre_persist_hooks ty is_insert s).1)
            _ tt r1 in
        let (tt, h3, e3, r3) = and_then-returns _ _ tt r2 in
        (
          h1,
          h2,
          h3,
          ap (λ (x : Outcome w.Failure (Unit {0}) × State w (Doc w)). x.1) (e1 ∙ e2 ∙ e3)
              ∙ silent _,
        )

    -- A write that returns has stored the document as of now.
    pub write_doc_core-IsStored :
        (draw : Draw w) (ignore : Bool) (s : State w (Doc w))
        → (write_doc_core db ty draw is_insert ignore s).0 ≡ returns tt
        → IsStored db ty (write_doc_core db ty draw is_insert ignore s).1
          × ((write_doc_core db ty draw is_insert ignore s).1.doc.base.updated_at ≡ some draw.now)
    unfolding set_base_fields
    write_doc_core-IsStored draw ignore s e =
        let (_, _, stored, same) = write_doc_core-parts draw ignore s e in
        let (kept, same_base, _) = store-IsStored _ stored in
        rw same (kept, ap (λ (b : Base w). b.updated_at) same_base)

    -- In a type with revisions, a write that returns leaves the new revision in the document; where
    -- the hooks before it keep an identity that is not empty, so does the write.
    pub write_doc_core-Identity :
        (draw : Draw w) (ignore : Bool) (s : State w (Doc w))
        → ty.uses_revision ≡ true
        → (write_doc_core db ty draw is_insert ignore s).0 ≡ returns tt
        → let d = (write_doc_core db ty draw is_insert ignore s).1.doc in
          let hooked = (run_pre_persist_hooks ty is_insert s).1.doc in
          (d.base.rev ≡ draw.new_revision)
          × (d.base.id ≡ (if is_empty hooked.base.id then draw.new_id else hooked.base.id))
    unfolding set_base_fields set_revision
    write_doc_core-Identity draw ignore s on e =
        let hooked = (run_pre_persist_hooks ty is_insert s).1 in
        let (_, revised, stored, same) = write_doc_core-parts draw ignore s e in
        let (_, same_base, _) = store-IsStored _ stored in
        let renewed = set_or_check_revision-revised db ty draw is_insert ignore hooked on revised in
        let base =
          ap (λ (t : State w (Doc w)). t.doc.base) same
          ∙ same_base
          ∙ ap (λ (t : State w (Doc w)). (set_base_fields draw is_insert t.doc).base) renewed in
        (ap (λ (b : Base w). b.rev) base, ap (λ (b : Base w). b.id) base)
