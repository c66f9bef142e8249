-- ===== src/Engine/LinkBatch/Dangling.antt =====
-- No link stays dangling without an error.
use Prim.Native.String.{String}
use den.Base.{◌≡◌, refl, subst, inl, inr, true, Option, none, some, List, [], ◌∷◌, map, Bool-cases}
use text.Mathlib.Text.{◌==◌}
use text.Mathlib.TextEquality.{eq_iff}
use den.Base.Errors.{Error}
use den.Base.Results.{Result, ok, after-ok}
use den.Where.{GoTypes}
use den.Engine.Document.{World, Doc, DocType, Db}
use den.Engine.LinkBatch.{
  QueryOps, holds, first_dangling, ids_query, decode_targets, unless_failed, unless_dangling,
  load_targets,
}

module _ {w : World} where
  first_dangling-none :
      (found : List (String × Doc w)) (ids : List String) (id : String)
      → first_dangling found ids ≡ none
      → holds ids id ≡ true
      → holds (map (λ r. r.0) found) id ≡ true
  unfolding first_dangling holds
  first_dangling-none found [] id = λ e h. cc
  first_dangling-none found (x ∷ xs) id = elim (Bool-cases (holds (map (λ r. r.0) found) x)) [
    | inl here ↦ rw here (elim (Bool-cases (x == id)) [
      | inl same ↦ rw same (λ e h.
          subst (λ y. holds (map (λ (r : String × Doc w). r.0) found) y ≡ true)
            ((eq_iff x id).0 same) here)
      | inr other ↦ rw other (λ e h. first_dangling-none found xs id e h)
    ])
    | inr missing ↦ rw missing (λ e h. cc)
  ]

module _ {w : World} {G : GoTypes} (db : Db w) (ops : QueryOps w G) (ty : DocType w) where
  unless_dangling-ok :
      {A : Type 0} (o : Option String) (a b : A)
      → unless_dangling db ops ty o a ≡ ok b
      → (o ≡ none) × (a ≡ b)
  unfolding unless_dangling
  unless_dangling-ok none a b e = (refl, ok_inj e)
    where
      ok_inj : Path (Result (Error w.Failure) _) (ok a) (ok b) → a ≡ b
      ok_inj e = cc
  unless_dangling-ok (some id) a b e = cc

  -- Targets that are loaded without an error are there for every id that was asked for: a link to
  -- a missing document is an error of the whole call.
  pub load_targets_complete :
      (ids : List String) (s : w.Database) (found : List (String × Doc w)) (id : String)
      → load_targets db ops ty ids s ≡ ok found
      → holds ids id ≡ true
      → holds (map (λ r. r.0) found) id ≡ true
  unfolding load_targets
  load_targets_complete ids s found id e held =
      let (read, _, e1) = after-ok (ops.query (ids_query db ops ty ids) s) _ found e in
      let (decoded, _, e2) = after-ok (decode_targets db ops ty ids read.rows) _ found e1 in
      let (kept, _, e3) = after-ok (unless_failed read.failure decoded) _ found e2 in
      let (complete, same) = unless_dangling-ok (first_dangling kept ids) kept found e3 in
      subst (λ f. holds (map (λ (r : String × Doc w). r.0) f) id ≡ true) same
        (first_dangling-none kept ids id complete held)
