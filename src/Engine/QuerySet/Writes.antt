-- ===== src/Engine/QuerySet/Writes.antt =====
-- engine/queryset.go and engine/crud_setfields.go: the terminals that write. The documents that they
-- load are their own; the caller's document is the defaults of an upsert, which here
-- has either all of the fields set or none. The context answers alike before a chunk and before its
-- first row.
pub mod Rounds
pub mod Upsert
use Prim.Native.String.{String}
use den.Base.{
  ℕ, zero, suc, ◌+◌, ◌-◌, leb, ltb, Bool, true, false, Option, none, some, List, [], ◌∷◌,
  if◌then◌else◌,
}
use den.Base.Int.{ℤ, pos, negsuc}
use den.Base.Errors.{Error, is_not_found, unknown_field, Outcome, returns, fails, panics}
use den.Base.Results.{Result, ok, err, after}
use den.Where.{GoTypes}
use den.Engine.Tx.{Scope, on_tx}
use den.Engine.Document.{
  World, Doc, State, Action, DocType, Db, CrudOpts, LinkRule, link_ignore, Draw,
}
use den.Engine.Document.Actions.{
  ◌>>=◌, ◌>>◌, pure, raise, from_error, from_result, on_part, on_scope,
}
use den.Engine.LinkBatch.{QueryOps}
use den.Engine.QuerySet.{QuerySet, limit, skip, preflight, build_backend_query}
use den.Engine.QuerySet.Run.{drain_iter, resolve_for, head_or_not_found, find_one_strict}
use den.Engine.Save.{insert_core, update_core, delete_core}

-- `setFieldValue` on the field of a name, where the type has it.
pub record Setter (w : World) (V : Type 0) : Type 0 where
  pub set_field : String → Option (V → Doc w → Result (Error w.Failure) (Doc w))

-- `applyCRUDOpts` of no options.
abbrev pub no_opts : CrudOpts
no_opts = record {
  link_rule = link_ignore;
  ignore_revision = false;
  hard_delete = false;
  include_deleted = false;
  suppress_fetch_links = false;
  soft_delete_by = "";
  soft_delete_reason = "";
}

-- `int64(qs.limitN) - count`, as far as it bounds the chunk; nothing is left to take for `none`.
unfoldable pub chunk_limit : ℕ → ℤ → ℕ → Option ℕ
chunk_limit chunk_size (negsuc n) count = some chunk_size
chunk_limit chunk_size (pos zero) count = some chunk_size
chunk_limit chunk_size (pos (suc n)) count =
    if leb (suc n) count
    then none
    else if ltb (suc n - count) chunk_size
    then some (suc n - count)
    else some chunk_size

unfoldable pub size : {A : Type 0} → List A → ℕ
size [] = 0
size (a ∷ rest) = suc (size rest)

module _ {w : World} {V : Type 0} (setter : Setter w V) where
  unfoldable pub set_or_unknown :
      String
      → Option (V → Doc w → Result (Error w.Failure) (Doc w))
      → V
      → Doc w
      → Result (Error w.Failure) (Doc w)
  set_or_unknown name none v d = err (unknown_field name)
  set_or_unknown name (some set) v d = set v d

  -- The fields in one of the orders of the map.
  unfoldable pub apply_set_fields : List (String × V) → Doc w → Result (Error w.Failure) (Doc w)
  unfolding set_or_unknown
  apply_set_fields [] d = ok d
  apply_set_fields ((name, v) ∷ rest) d =
      after (set_or_unknown name (setter.set_field name) v d) (apply_set_fields rest)

  unfoldable pub unknown_name :
      String
      → Option (V → Doc w → Result (Error w.Failure) (Doc w))
      → Option (Error w.Failure)
      → Option (Error w.Failure)
  unknown_name name none later = some (unknown_field name)
  unknown_name name (some set) later = later

  unfoldable pub validate_set_fields : List (String × V) → Option (Error w.Failure)
  unfolding unknown_name
  validate_set_fields [] = none
  validate_set_fields ((name, v) ∷ rest) =
      unknown_name name (setter.set_field name) (validate_set_fields rest)

-- A document of the loop's own.
unfoldable pub on_own :
    {w : World} {D : Type 0} → Doc w → Action w (Doc w) (Unit {0}) → Action w D (Doc w)
on_own d act = on_part (λ _ whole. whole) d act

-- After a chunk: a short one was the last.
unfoldable pub next_chunk :
    {w : World} {D : Type 0} → ℕ → ℕ → (ℕ → Action w D (Option ℕ)) → ℕ → Action w D (Option ℕ)
next_chunk taken size_limit again count =
    if ltb taken size_limit then pure (some count) else again count

module _ {w : World} {G : GoTypes} (db : Db w) (ops : QueryOps w G) (ty : DocType w) where
  -- `Query`, drained.
  unfoldable pub scan : {D : Type 0} → QuerySet w.Failure G → Action w D (List (Doc w))
  scan qs s = from_result (after (ops.query (build_backend_query ty qs) s.db) (drain_iter ty)) s

  -- The rows of one chunk; how many there were is added to the count.
  unfoldable pub delete_rows :
      {D : Type 0} → (ℕ → ℕ → Draw w) → CrudOpts → List (Doc w) → ℕ → Action w D ℕ
  delete_rows draws o [] count = pure count
  delete_rows draws o (d ∷ rest) count = do
    (λ s. from_error (draws count 0).ctx_err s)
    _ ← on_own d (delete_core db on_tx ty (draws count) o)
    delete_rows draws o rest (suc count)

  unfoldable pub delete_chunk :
      {D : Type 0}
      → (ℕ → ℕ → Draw w)
      → CrudOpts
      → ℕ
      → (ℕ → Action w D (Option ℕ))
      → ℕ
      → List (Doc w)
      → Action w D (Option ℕ)
  unfolding next_chunk
  delete_chunk draws o size_limit again count [] = pure (some count)
  delete_chunk draws o size_limit again count (d ∷ ds) = do
    count' ← delete_rows draws o (d ∷ ds) count
    next_chunk (size (d ∷ ds)) size_limit again count'

  unfoldable pub delete_next :
      {D : Type 0}
      → (ℕ → ℕ → Draw w)
      → CrudOpts
      → QuerySet w.Failure G
      → (ℕ → Action w D (Option ℕ))
      → ℕ
      → Option ℕ
      → Action w D (Option ℕ)
  unfolding delete_chunk
  delete_next draws o qs again count none = pure (some count)
  delete_next draws o qs again count (some n) = do
    docs ← scan (limit (pos n) qs)
    delete_chunk draws o n again count docs

  -- The loop of `Delete`, for a number of rounds: `none` when they did not suffice. After the first
  -- round nothing is skipped.
  unfoldable pub delete_chunks :
      {D : Type 0}
      → ℕ
      → ℕ
      → (ℕ → ℕ → Draw w)
      → CrudOpts
      → QuerySet w.Failure G
      → ℕ
      → Action w D (Option ℕ)
  delete_chunks zero chunk_size draws o qs count s = (returns none, s)
  delete_chunks (suc rounds) chunk_size draws o qs count s =
      let again = delete_chunks rounds chunk_size draws o (skip (pos 0) qs) in
      (do
        (λ t. from_error (draws count 0).ctx_err t)
        delete_next draws o qs again count (chunk_limit chunk_size qs.limit_n count))
        s

  unfoldable pub delete :
      {D : Type 0}
      → ℕ
      → ℕ
      → (ℕ → ℕ → Draw w)
      → CrudOpts
      → QuerySet w.Failure G
      → Action w D (Option ℕ)
  delete rounds chunk_size draws o qs = do
    (λ s. from_error (preflight qs) s)
    on_scope db.tx qs.scope (delete_chunks rounds chunk_size draws o qs 0)

module _ {w : World} {G : GoTypes} {V : Type 0} (db : Db w) (ops : QueryOps w G) (ty : DocType w)
    (setter : Setter w V) where
  -- `applySetFields`, then the write.
  unfoldable pub set_and_update :
      (ℕ → Draw w) → List (String × V) → Doc w → Action w (Doc w) (Unit {0})
  set_and_update draws fields d = do
    changed ← from_result (apply_set_fields setter fields d)
    (λ s. update_core db on_tx ty draws no_opts (record s { doc = changed }))

  unfoldable pub update_rows :
      {D : Type 0} → (ℕ → ℕ → Draw w) → List (String × V) → List (Doc w) → ℕ → Action w D ℕ
  update_rows draws fields [] count = pure count
  update_rows draws fields (d ∷ rest) count = do
    (λ s. from_error (draws count 0).ctx_err s)
    _ ← on_own d (set_and_update (draws count) fields d)
    update_rows draws fields rest (suc count)

  unfoldable pub update :
      {D : Type 0} → (ℕ → ℕ → Draw w) → List (String × V) → QuerySet w.Failure G → Action w D ℕ
  update draws fields qs = do
    (λ s. from_error (preflight qs) s)
    (λ s. from_error (validate_set_fields setter fields) s)
    on_scope db.tx qs.scope (do docs ← scan db ops ty qs; update_rows draws fields docs 0)

  -- The links of one document, for the answer.
  unfoldable pub resolved : {D : Type 0} → QuerySet w.Failure G → Doc w → Action w D (Doc w)
  resolved qs d s = from_result (after (resolve_for db ops ty qs (d ∷ []) s.db) head_or_not_found) s

  unfoldable pub update_found :
      {D : Type 0}
      → (ℕ → Draw w)
      → List (String × V)
      → QuerySet w.Failure G
      → Doc w
      → Action w D (Doc w)
  update_found draws fields qs d = do
    written ← on_own d (set_and_update draws fields d)
    resolved qs written

  unfoldable pub update_one :
      {D : Type 0} → (ℕ → Draw w) → List (String × V) → QuerySet w.Failure G → Action w D (Doc w)
  update_one draws fields qs = do
    (λ s. from_error (validate_set_fields setter fields) s)
    on_scope db.tx qs.scope (do
      found ← (λ s.
          from_result (find_one_strict db ops ty on_tx qs.conditions qs.include_deleted s.db) s)
      update_found draws fields qs found)

  -- The defaults, which the caller holds, with the fields set.
  unfoldable pub insert_defaults :
      (ℕ → Draw w) → List (String × V) → QuerySet w.Failure G → Action w (Doc w) (Doc w)
  insert_defaults draws fields qs = do
    changed ← (λ s. from_result (apply_set_fields setter fields s.doc) s)
    (λ s. insert_core db ty draws no_opts (record s { doc = changed }))
    (λ s. resolved qs s.doc s)

  unfoldable pub upsert_found :
      (ℕ → Draw w)
      → List (String × V)
      → QuerySet w.Failure G
      → Result (Error w.Failure) (Doc w)
      → Action w (Doc w) (Doc w × Bool)
  upsert_found draws fields qs (ok d) = do
    updated ← update_found draws fields qs d
    pure (updated, false)
  upsert_found draws fields qs (err e) =
      if is_not_found e
      then (do inserted ← insert_defaults draws fields qs; pure (inserted, true))
      else raise e

  -- `UpsertOne` and, with no fields, `GetOrCreate`.
  unfoldable pub upsert_one :
      (ℕ → Draw w) → List (String × V) → QuerySet w.Failure G → Action w (Doc w) (Doc w × Bool)
  upsert_one draws fields qs = do
    (λ s. from_error (validate_set_fields setter fields) s)
    on_scope db.tx qs.scope (λ s.
        upsert_found draws fields qs
          (find_one_strict db ops ty on_tx qs.conditions qs.include_deleted s.db) s)
