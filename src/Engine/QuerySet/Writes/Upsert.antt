-- ===== src/Engine/QuerySet/Writes/Upsert.antt =====
-- The two paths of an upsert, and what each leaves.
use den.Base.{◌≡◌, ◌⊎◌, ℕ, some, String, Bool, true, false, List, [], ◌∷◌}
use den.Base.Errors.{Error, is_not_found, returns}
use den.Base.Results.{ok, err, after}
use den.Where.{GoTypes}
use den.Engine.Tx.{on_tx}
use den.Engine.Document.{World, Doc, State, DocType, Db, Draw}
use den.Engine.LinkBatch.{QueryOps}
use den.Engine.QuerySet.{QuerySet}
use den.Engine.QuerySet.Run.{resolve_for, head_or_not_found, find_one_strict}
use den.Engine.QuerySet.Writes.{Setter, apply_set_fields, no_opts}
use den.Engine.Write.Stores.{IsStored}
use den.Engine.Save.{insert_core, update_core}

module _ {w : World} {G : GoTypes} {V : Type 0} (db : Db w) (ops : QueryOps w G) (ty : DocType w)
    (setter : Setter w V) (draws : ℕ → Draw w) (fields : List (String × V))
    (qs : QuerySet w.Failure G) where
  -- The document of the state is in the database, under its id, as it is in memory, dated now, and
  -- the answer is this document with its links resolved.
  abbrev pub Answers : State w (Doc w) → Doc w → Type 0
  Answers u d =
      IsStored db ty u
      × (u.doc.base.updated_at ≡ some (draws 0).now)
      × (after (resolve_for db ops ty qs (u.doc ∷ []) u.db) head_or_not_found ≡ ok d)

  -- The one match was found, its fields were set, and it was updated and stored: the answer is that
  -- document, the database and the storage are those that the update left, and the defaults are as
  -- they were.
  abbrev pub Updates : State w (Doc w) → Doc w → State w (Doc w) → Type 0
  Updates s d t =
      (x changed : Doc w) × (find_one_strict db ops ty on_tx qs.conditions qs.include_deleted s.db
        ≡ ok x)
      × (apply_set_fields setter fields x ≡ ok changed)
      × let ran = update_core db on_tx ty draws no_opts (record s { doc = changed }) in
        (ran.0 ≡ returns tt) × Answers ran.1 d × (t ≡ record ran.1 { doc = s.doc })

  -- The search answered ErrNotFound, the fields of the defaults were set, and they were inserted and
  -- stored: the answer is this document, and the state is the one that the insertion left.
  abbrev pub Inserts : State w (Doc w) → Doc w → State w (Doc w) → Type 0
  Inserts s d t =
      (x : Error w.Failure) × (changed : Doc w) × (find_one_strict db ops ty on_tx qs.conditions
          qs.include_deleted s.db
        ≡ err x)
      × (is_not_found x ≡ true)
      × (apply_set_fields setter fields s.doc ≡ ok changed)
      × let ran = insert_core db ty draws no_opts (record s { doc = changed }) in
        (ran.0 ≡ returns tt) × Answers ran.1 d × (t ≡ ran.1)

  abbrev pub TookOnePath : State w (Doc w) → Doc w → Bool → State w (Doc w) → Type 0
  TookOnePath s d inserted t =
      ((inserted ≡ false) × Updates s d t) ⊎ ((inserted ≡ true) × Inserts s d t)
