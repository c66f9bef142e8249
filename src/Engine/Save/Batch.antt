-- ===== src/Engine/Save/Batch.antt =====
-- Saving several documents: all or none of them.
use den.Base.{◌≡◌, ℕ, suc, some, List, [], ◌∷◌}
use den.Base.Errors.{returns}
use den.Engine.Tx.{on_tx}
use den.Engine.Document.{World, Doc, State, Action, DocType, Db, CrudOpts, Draw}
use den.Engine.Write.Stores.{IsStored}
use den.Engine.Save.{save}

-- Actions on several documents, one after the other: each returned, from the database and the storage
-- that the one before it left, it left the result of its document, and its state has the property
-- of its index; the last one left the final database and storage.
abbrev pub InTurn :
    {w : World}
    → (ℕ → Action w (Doc w) (Unit {0}))
    → (ℕ → State w (Doc w) → Type 0)
    → ℕ
    → w.Database
    → w.Files
    → List (Doc w)
    → List (Doc w)
    → State w (List (Doc w))
    → Type 0
InTurn act P i db files [] [] final = (final.db ≡ db) × (final.files ≡ files)
InTurn act P i db files (d ∷ ds) (r ∷ rs) final =
    let out = act i (record { doc = d; db = db; files = files }) in
    (out.0 ≡ returns tt)
    × (out.1.doc ≡ r)
    × P i out.1
    × InTurn act P (suc i) out.1.db out.1.files ds rs final
InTurn act P i db files [] (r ∷ rs) final = ⊥
InTurn act P i db files (d ∷ ds) [] final = ⊥

module _ {w : World} (db : Db w) (ty : DocType w) (draws : ℕ → ℕ → Draw w) (o : CrudOpts) where
  -- The document is in the database, under its id, as it is in memory, and dated at the time that
  -- was drawn for its index.
  abbrev pub IsSaved : ℕ → State w (Doc w) → Type 0
  IsSaved i t = IsStored db ty t × (t.doc.base.updated_at ≡ some (draws i 0).now)

  -- The documents are saved one after the other.
  abbrev pub SavesInTurn : State w (List (Doc w)) → List (Doc w) → State w (List (Doc w)) → Type 0
  SavesInTurn s docs final =
      InTurn (λ i. save db on_tx ty (draws i) o) IsSaved 0 s.db s.files docs final.doc final
