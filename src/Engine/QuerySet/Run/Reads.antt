-- ===== src/Engine/QuerySet/Run/Reads.antt =====
-- The two ways in which `All` reads, and the checks that every terminal makes first.
use Prim.Native.String.{String}
use den.Base.{
  ◌≡◌, refl, sym, ◌∙◌, inl, inr, ℕ, zero, suc, Bool, true, false, ◌||◌, Option, none, some, List,
  [], ◌∷◌, Bool-cases, Option-cases,
}
use den.Base.Errors.{Error}
use den.Base.Results.{Result, ok, err, after, Result-cases}
use den.Where.{GoTypes}
use den.Engine.Document.{World, Doc, DocType, LinkField, Db}
use den.Engine.LinkBatch.{
  QueryOps, FetchMode, fetch_default, fetch_all, fetch_none, fetch_named, Resolver, holds,
  is_selected, resolve_fields, resolve_levels, levels, batch_resolve_links, unless_failed,
}
use den.Engine.QuerySet.{
  QuerySet, has_eager, is_some_name, hydrates, should_hydrate, preflight, build_backend_query,
}
use den.Engine.QuerySet.Run.{
  unless_error, collect, decode_row, decode_rows, drain_iter, resolve_for, all_batched, yield_row,
  yields, yields_of, iter_checked, iter, all,
}

module _ {w : World} {G : GoTypes} (db : Db w) (ops : QueryOps w G) (ty : DocType w) where
  -- A field that the mode does not select is left as it is.
  skip_field :
      (nested : Resolver db ops) (mode : FetchMode) (names : List String) (f : LinkField)
      (fs : List LinkField) (s : w.Database) (docs : List (Doc w))
      → is_selected mode names f ≡ false
      → resolve_fields db ops nested mode names fs ty s docs ≡ ok docs
      → resolve_fields db ops nested mode names (f ∷ fs) ty s docs ≡ ok docs
  unfolding resolve_fields
  skip_field nested mode names f fs s docs h rest = rw h rest

  resolve_fields-idle :
      (nested : Resolver db ops) (mode : FetchMode) (names : List String) (fs : List LinkField)
      (s : w.Database) (docs : List (Doc w))
      → hydrates mode names fs ≡ false
      → resolve_fields db ops nested mode names fs ty s docs ≡ ok docs
  unfolding resolve_fields hydrates has_eager is_selected holds is_some_name
  resolve_fields-idle nested mode names [] s docs h = refl
  resolve_fields-idle nested fetch_all names (f ∷ fs) s docs h = cc
  resolve_fields-idle nested fetch_none names (f ∷ fs) s docs h =
      resolve_fields-idle nested fetch_none names fs s docs refl
  resolve_fields-idle nested fetch_named [] (f ∷ fs) s docs h =
      resolve_fields-idle nested fetch_named [] fs s docs refl
  resolve_fields-idle nested fetch_named (n ∷ ns) (f ∷ fs) s docs h = cc
  resolve_fields-idle nested fetch_default names (f ∷ fs) s docs h =
      let (lazy, rest) = neither f.eager (has_eager fs) h in
      skip_field nested fetch_default names f fs s docs lazy
        (resolve_fields-idle nested fetch_default names fs s docs rest)
    where
      neither : (a b : Bool) → (a || b) ≡ false → (a ≡ false) × (b ≡ false)
      neither true b h = cc
      neither false b h = (refl, h)

  -- What hydrates nothing gives the documents back.
  resolve_for-idle :
      (qs : QuerySet w.Failure G) (docs : List (Doc w)) (s : w.Database)
      → should_hydrate ty qs ≡ false
      → resolve_for db ops ty qs docs s ≡ ok docs
  unfolding resolve_for batch_resolve_links resolve_levels should_hydrate
  resolve_for-idle qs docs s h = at_level (levels qs.nest_depth)
    where
      at_level : (n : ℕ) → resolve_levels db ops n qs.fetch_mode qs.fetch_fields s ty docs ≡ ok docs
      at_level zero = refl
      at_level (suc n) =
          resolve_fields-idle (resolve_levels db ops n qs.fetch_mode qs.fetch_fields s)
            qs.fetch_mode qs.fetch_fields ty.link_fields s docs h

  -- A document before the others, and then the error after the last row, or the other way round.
  push :
      (d : Doc w) (decoded : Result (Error w.Failure) (List (Doc w)))
      (failure : Option (Error w.Failure))
      → after (after decoded (unless_failed failure)) (λ rest. ok (d ∷ rest))
        ≡ after (after decoded (λ ds. ok (d ∷ ds))) (unless_failed failure)
  unfolding unless_failed
  push d (err e) failure = refl
  push d (ok ds) none = refl
  push d (ok ds) (some e) = refl

  yield_row-plain :
      (qs : QuerySet w.Failure G) (s : w.Database) (id : String) (bytes : w.Bytes)
      → should_hydrate ty qs ≡ false
      → yield_row db ops ty qs s (id, bytes) ≡ decode_row ty bytes
  unfolding yield_row
  yield_row-plain qs s id bytes h = rw h (elim (Result-cases (decode_row ty bytes)) [
    | inl (d, e) ↦ rw e refl
    | inr (x, e) ↦ rw e refl
  ])

  -- Collecting the rows one by one is draining them.
  collect-yields :
      (qs : QuerySet w.Failure G) (s : w.Database) (rows : List (String × w.Bytes))
      (failure : Option (Error w.Failure))
      → should_hydrate ty qs ≡ false
      → collect (yields db ops ty qs s rows failure)
        ≡ after (decode_rows ty rows) (unless_failed failure)
  unfolding collect yields decode_rows unless_failed
  collect-yields qs s [] none h = refl
  collect-yields qs s [] (some e) h = refl
  collect-yields qs s ((id, bytes) ∷ rest) failure h =
      rw (yield_row-plain qs s id bytes h, collect-yields qs s rest failure h)
        (elim (Result-cases (decode_row ty bytes)) [
          | inl (d, e) ↦ rw e (push d (decode_rows ty rest) failure)
          | inr (x, e) ↦ rw e refl
        ])

  collect-iter :
      (qs : QuerySet w.Failure G) (s : w.Database)
      → should_hydrate ty qs ≡ false
      → preflight qs ≡ none
      → collect (iter db ops ty qs s) ≡ all_batched db ops ty qs s
  unfolding iter iter_checked yields_of all_batched collect drain_iter
  collect-iter qs s h checked =
      rw checked (elim (Result-cases (ops.query (build_backend_query ty qs) s)) [
        | inl (read, e) ↦ rw e (
            collect-yields qs s read.rows read.failure h
            ∙ idle (after (decode_rows ty read.rows) (unless_failed read.failure)))
        | inr (x, e) ↦ rw e refl
      ])
    where
      idle :
          (r : Result (Error w.Failure) (List (Doc w)))
          → r ≡ after r (λ docs. resolve_for db ops ty qs docs s)
      idle (ok docs) = sym (resolve_for-idle qs docs s h)
      idle (err e) = refl

  -- Whichever way `All` reads, row by row or drained first and then resolved, the answer is that of
  -- the batched read, on every query set and database, errors included.
  pub all_lem :
      (qs : QuerySet w.Failure G) (s : w.Database)
      → all db ops ty qs s ≡ unless_error (preflight qs) (all_batched db ops ty qs s)
  unfolding all unless_error
  all_lem qs s = elim (Option-cases (preflight qs)) [
    | inl checked ↦ rw checked (elim (Bool-cases (should_hydrate ty qs)) [
      | inl h ↦ rw h refl
      | inr h ↦ rw h (collect-iter qs s h checked)
    ])
    | inr (e, refused) ↦ rw refused refl
  ]
