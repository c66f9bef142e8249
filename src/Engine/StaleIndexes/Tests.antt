-- ===== src/Engine/StaleIndexes/Tests.antt =====
-- Dropping stale indexes in a database that is a function from collections to their indexes, and
-- that, as the backends do, drops an index by its name, whatever the collection.
use Prim.Native.String.{String}
use text.Mathlib.Text.{◌==◌}
use text.Mathlib.TextEquality.{eq_iff}
use den.Base.{
  ◌≡◌, ◌≢◌, ◌⊎◌, ◌∙◌, refl, sym, ap, subst, All, Any, true, false, none, List, [], ◌∷◌, inl, inr,
  Bool-cases, if◌then◌else◌, map,
}
use den.Base.Results.{ok}
use den.Engine.StaleIndexes.{
  Index, CollectionMeta, IndexOps, drop_all, drop_recorded, drop_listed, drop_one, unless_failed,
  is_expected, add_entry, apply_options, resolve_options, drop_stale_indexes,
}
use den.Engine.StaleIndexes.Report.{IsSound, drop_stale_indexes-IsSound}

without : String → List Index → List Index
without name [] = []
without name (i ∷ is) = let rest = without name is in if i.name == name then rest else i ∷ rest

abbrev Db : Type 0
Db = String → List Index

abbrev memory : IndexOps String Db
memory = record {
  list_recorded_indexes = λ c s. ok (s c);
  drop_index = λ c name s. (none, λ d. without name (s d));
}

abbrev old_index : Index
old_index = record { name = "idx_docs_old"; fields = "old" ∷ []; unique = false }

abbrev new_index : Index
new_index = record { name = "idx_docs_new"; fields = "new" ∷ []; unique = true }

abbrev start : Db
start = λ c. if c == "docs" then old_index ∷ new_index ∷ [] else []

abbrev docs : CollectionMeta
docs = record { name = "docs"; indexes = new_index ∷ [] }

drops_old :
    map (λ e. e.index.name) (drop_stale_indexes memory [] (docs ∷ []) start).0.dropped
    ≡ "idx_docs_old" ∷ []
unfolding drop_stale_indexes drop_all unless_failed drop_listed drop_recorded drop_one is_expected
    resolve_options apply_options add_entry
drops_old = refl

-- The index that the documents define is recorded.
abbrev HasNew : Db → Type 0
HasNew s = Any (λ i. i ≡ new_index) (s "docs")

without-new :
    (name : String) (is : List Index)
    → new_index.name ≢ name
    → Any (λ i. i ≡ new_index) is
    → Any (λ i. i ≡ new_index) (without name is)
unfolding without
without-new name [] h m = absurd m
without-new name (i ∷ is) h (inl here) = elim (Bool-cases (i.name == name)) [
  | inl same ↦ absurd (h (ap (λ (x : Index). x.name) (sym here) ∙ (eq_iff i.name name).0 same))
  | inr other ↦ rw other (inl here)
]
without-new name (i ∷ is) h (inr later) = elim (Bool-cases (i.name == name)) [
  | inl same ↦ rw same (without-new name is h later)
  | inr other ↦ rw other (inr (without-new name is h later))
]

start-HasNew : HasNew start
start-HasNew = inr (inl refl)

only_docs :
    (m : CollectionMeta) (name : String) (t : Db)
    → Any (λ z. z ≡ m) (docs ∷ [])
    → All (λ i. i.name ≢ name) m.indexes
    → HasNew t
    → HasNew (memory.drop_index m.name name t).1
only_docs m name t (inl same) apart h =
    without-new name (t "docs")
      (subst (λ (x : CollectionMeta). All (λ i. i.name ≢ name) x.indexes) (sym same) apart).0 h
only_docs m name t (inr later) apart h = absurd later

drop_stale_indexes-IsSound_example :
    let out = drop_stale_indexes memory [] (docs ∷ []) start in
    IsSound (docs ∷ []) out.0
    × HasNew out.2
    × (((resolve_options []).is_dry_run ≡ false) ⊎ (out.2 ≡ start))
drop_stale_indexes-IsSound_example =
    drop_stale_indexes-IsSound memory [] (docs ∷ []) start HasNew only_docs start-HasNew
