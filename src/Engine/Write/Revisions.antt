-- ===== src/Engine/Write/Revisions.antt =====
-- The check of revisions, when it passes and when it finds a conflict.
use text.Mathlib.Text.{◌==◌}
use text.Mathlib.TextEquality.{eq_iff}
use den.Base.{
  ◌≡◌, ◌≢◌, refl, ap, ◌∙◌, inl, inr, String, Bool, true, false, none, Bool-cases, if◌then◌else◌,
}
use den.Base.Errors.{Error, revision_conflict, Outcome, returns, fails}
use den.Base.Results.{Result, ok, err, Result-cases}
use den.Base.Text.{is_empty}
use den.Engine.Document.{World, Doc, State, DocType, Db, Draw}
use den.Engine.Document.Actions.{and_then, ◌>>◌, pure}
use den.Engine.Document.Steps.{
  and_then-returns, and_then-Refuses, Refuses, IsSilent, Keeps, >>-Keeps, from_error-Keeps,
}
use den.Engine.Hooks.{run_before_update_hooks, run_validation_hooks}
use den.Engine.Write.{
  check_tags, run_pre_persist_hooks, set_or_check_revision, set_revision, modify, as_validation,
  compare_revisions, check_revision, write_doc_core, check_and_update_revision,
}

module _ {w : World} (db : Db w) (ty : DocType w) where
  compare_revisions-IsSilent :
      (current : String) (r : Result (Error w.Failure) String)
      → IsSilent (compare_revisions {w = w} current r)
  unfolding compare_revisions
  compare_revisions-IsSilent current (err e) s = refl
  compare_revisions-IsSilent current (ok stored) s = elim (Bool-cases (stored == current)) [
    | inl h ↦ rw h refl
    | inr h ↦ rw h refl
  ]

  check_revision-IsSilent : IsSilent (check_revision db ty)
  unfolding check_revision
  check_revision-IsSilent s = elim (Result-cases (db.get ty.name s.doc.base.id s.db)) [
    | inl (bytes, h) ↦ rw h (compare_revisions-IsSilent s.doc.base.rev (ty.decode_rev bytes) s)
    | inr (e, h) ↦ rw h refl
  ]

  -- A stored revision other than the one in memory is a conflict, and nothing is written.
  pub check_revision-conflict :
      (s : State w (Doc w)) (bytes : w.Bytes) (r : String)
      → db.get ty.name s.doc.base.id s.db ≡ ok bytes
      → ty.decode_rev bytes ≡ ok r
      → r ≢ s.doc.base.rev
      → check_revision db ty s ≡ (fails revision_conflict, s)
  unfolding check_revision compare_revisions
  check_revision-conflict s bytes r found decoded differs =
      elim (Bool-cases (r == s.doc.base.rev)) [
        | inl same ↦ absurd (differs ((eq_iff r s.doc.base.rev).0 same))
        | inr h ↦ rw (found, decoded, h) refl
      ]

  -- An update of a type with revisions checks the stored one, then draws the new one.
  set_or_check_revision-update :
      (draw : Draw w) (ignore : Bool) (s : State w (Doc w))
      → ty.uses_revision ≡ true
      → set_or_check_revision db ty draw false ignore s
        ≡ and_then
            ((if ignore
                then pure tt
                else if is_empty s.doc.base.id
                then pure tt
                else check_revision db ty)
              s)
            (λ _. modify (set_revision draw.new_revision))
  unfolding set_or_check_revision check_and_update_revision
  set_or_check_revision-update draw ignore s on = rw on refl

  -- Where the type has revisions, what passes the check has the new one.
  pub set_or_check_revision-revised :
      (draw : Draw w) (is_insert ignore : Bool) (s : State w (Doc w))
      → ty.uses_revision ≡ true
      → (set_or_check_revision db ty draw is_insert ignore s).0 ≡ returns tt
      → (set_or_check_revision db ty draw is_insert ignore s).1
        ≡ record s { doc = set_revision draw.new_revision s.doc }
  unfolding set_or_check_revision check_and_update_revision
  set_or_check_revision-revised draw true ignore s on = rw on (λ e. refl)
  set_or_check_revision-revised draw false true s on =
      rw (set_or_check_revision-update draw true s on) (λ e. refl)
  set_or_check_revision-revised draw false false s on =
      rw (set_or_check_revision-update draw false s on)
        (elim (Bool-cases (is_empty s.doc.base.id)) [
          | inl h ↦ rw h (λ e. refl)
          | inr h ↦ rw h (λ e.
              let (tt, _, same, _) =
                and_then-returns (check_revision db ty s)
                  (λ _. modify (set_revision draw.new_revision)) tt e in
              ap (λ (x : Outcome w.Failure (Unit {0}) × State w (Doc w)). x.1) same
              ∙ ap
                  (λ (t : State w (Doc w)). record t { doc = set_revision draw.new_revision t.doc })
                  (check_revision-IsSilent s))
        ])

  set_or_check_revision-conflict :
      (draw : Draw w) (s : State w (Doc w)) (bytes : w.Bytes) (r : String)
      → ty.uses_revision ≡ true
      → is_empty s.doc.base.id ≡ false
      → db.get ty.name s.doc.base.id s.db ≡ ok bytes
      → ty.decode_rev bytes ≡ ok r
      → r ≢ s.doc.base.rev
      → set_or_check_revision db ty draw false false s ≡ (fails revision_conflict, s)
  set_or_check_revision-conflict draw s bytes r on has_id found decoded differs =
      rw
        (
          set_or_check_revision-update draw false s on,
          has_id,
          check_revision-conflict s bytes r found decoded differs,
        )
        refl

  module _ (keep_before : Keeps (run_before_update_hooks ty))
      (keep_validate : Keeps (run_validation_hooks ty)) where
    pub run_pre_persist_hooks-Keeps : Keeps (run_pre_persist_hooks ty false)
    unfolding run_pre_persist_hooks check_tags
    run_pre_persist_hooks-Keeps =
        let tags = from_error-Keeps (λ s.
          if ty.has_validate_tags then as_validation (ty.validate_document s.doc) else none) in
        >>-Keeps (run_before_update_hooks ty) (check_tags ty >> run_validation_hooks ty) keep_before
          (>>-Keeps (check_tags ty) (run_validation_hooks ty) tags keep_validate)

    -- A document under a revision other than the stored one is not written.
    pub write_doc_core-conflict :
        (draw : Draw w) (s : State w (Doc w)) (bytes : w.Bytes) (r : String)
        → ty.uses_revision ≡ true
        → is_empty s.doc.base.id ≡ false
        → db.get ty.name s.doc.base.id s.db ≡ ok bytes
        → ty.decode_rev bytes ≡ ok r
        → r ≢ s.doc.base.rev
        → Refuses (write_doc_core db ty draw false false s) s
    unfolding write_doc_core
    write_doc_core-conflict draw s bytes r on has_id found decoded differs =
        let (same_id, same_rev, same_db) = run_pre_persist_hooks-Keeps s in
        let t = (run_pre_persist_hooks ty false s).1 in
        let conflict =
          set_or_check_revision-conflict draw t bytes r on (rw same_id has_id)
            (rw (same_id, same_db) found) decoded (rw same_rev differs) in
        and_then-Refuses (run_pre_persist_hooks ty false s) _ s same_db
          (λ a _. rw conflict (tt, same_db))
