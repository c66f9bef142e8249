-- ===== src/Engine/QuerySet/Run.antt =====
-- engine/queryset.go and engine/iter.go: the terminals that read, of a registered type. A cancelled
-- context is not looked at here.
pub mod Reads
use Prim.Native.String.{String}
use den.Base.{ℕ, Bool, true, false, Option, none, some, List, [], ◌∷◌, map, if◌then◌else◌}
use den.Base.Int.{ℤ, pos}
use den.Base.Errors.{
  Error, not_found, multiple_matches, decode_failed, fetch_failed, begin_failed, transaction_failed,
}
use den.Base.Results.{Result, ok, err, after}
use den.Where.{GoTypes, Condition, str}
use den.Where.Fields.{eq, in_values}
use den.Engine.Tx.{Scope, on_db, on_tx}
use den.Engine.Document.{World, Doc, DocType, Db, CrudOpts}
use den.Engine.Write.{wrap_result}
use den.Engine.Track.{zero_doc, decode_with_snapshot}
use den.Engine.LinkBatch.{
  Rows, QueryOps, FetchMode, fetch_default, fetch_none, unless_failed, batch_resolve_links,
}
use den.Engine.QuerySet.{
  QuerySet, new_query, limit, include_deleted, without_fetch_links, should_hydrate, preflight,
  build_backend_query,
}

unfoldable pub unless_error :
    {X A : Type 0} → Option (Error X) → Result (Error X) A → Result (Error X) A
unless_error none rest = rest
unless_error (some e) rest = err e

-- What the consumer of an iterator collects, up to the first error.
unfoldable pub collect : {X A : Type 0} → List (Result (Error X) A) → Result (Error X) (List A)
collect [] = ok []
collect (y ∷ ys) = let later = collect ys in after y (λ a. after later (λ rest. ok (a ∷ rest)))

unfoldable pub head_or_not_found : {X A : Type 0} → List A → Result (Error X) A
head_or_not_found [] = err not_found
head_or_not_found (a ∷ _) = ok a

unfoldable pub only_one : {X A : Type 0} → List A → Result (Error X) A
only_one [] = err not_found
only_one (a ∷ []) = ok a
only_one (a ∷ b ∷ rest) = err multiple_matches

abbrev pub iter_err : {X A : Type 0} → Option (Error X) → List (Result (Error X) A)
iter_err none = []
iter_err (some e) = err e ∷ []

-- `crudFetchMode`
unfoldable pub crud_fetch_mode : CrudOpts → FetchMode
crud_fetch_mode o = if o.suppress_fetch_links then fetch_none else fetch_default

module _ {w : World} (ty : DocType w) where
  unfoldable pub decode_row : w.Bytes → Result (Error w.Failure) (Doc w)
  decode_row bytes = wrap_result decode_failed (decode_with_snapshot ty bytes (zero_doc ty))

  unfoldable pub decode_rows : List (String × w.Bytes) → Result (Error w.Failure) (List (Doc w))
  unfolding decode_row
  decode_rows [] = ok []
  decode_rows ((_, bytes) ∷ rest) =
      let later = decode_rows rest in
      after (decode_row bytes) (λ d. after later (λ ds. ok (d ∷ ds)))

  -- `drainIter`
  unfoldable pub drain_iter : Rows w → Result (Error w.Failure) (List (Doc w))
  drain_iter read = after (decode_rows read.rows) (unless_failed read.failure)

module _ {w : World} {G : GoTypes} (db : Db w) (ops : QueryOps w G) (ty : DocType w) where
  unfoldable pub resolve_for :
      QuerySet w.Failure G → List (Doc w) → w.Database → Result (Error w.Failure) (List (Doc w))
  resolve_for qs docs s =
      batch_resolve_links db ops ty docs qs.nest_depth qs.fetch_mode qs.fetch_fields s

  unfoldable pub all_batched :
      QuerySet w.Failure G → w.Database → Result (Error w.Failure) (List (Doc w))
  all_batched qs s =
      after (ops.query (build_backend_query ty qs) s)
        (λ read. after (drain_iter ty read) (λ docs. resolve_for qs docs s))

  -- One row of `Iter`, with its links where they are fetched.
  unfoldable pub yield_row :
      QuerySet w.Failure G → w.Database → String × w.Bytes → Result (Error w.Failure) (Doc w)
  yield_row qs s (_, bytes) = after (decode_row ty bytes) (λ d.
      if should_hydrate ty qs
      then after (wrap_result fetch_failed (resolve_for qs (d ∷ []) s)) head_or_not_found
      else ok d)

  unfoldable pub yields :
      QuerySet w.Failure G
      → w.Database
      → List (String × w.Bytes)
      → Option (Error w.Failure)
      → List (Result (Error w.Failure) (Doc w))
  unfolding yield_row
  yields qs s [] failure = iter_err failure
  yields qs s (row ∷ rest) failure = yield_row qs s row ∷ yields qs s rest failure

  unfoldable pub yields_of :
      QuerySet w.Failure G
      → w.Database
      → Result (Error w.Failure) (Rows w)
      → List (Result (Error w.Failure) (Doc w))
  unfolding yields
  yields_of qs s (ok read) = yields qs s read.rows read.failure
  yields_of qs s (err e) = err e ∷ []

  unfoldable pub iter_checked :
      QuerySet w.Failure G
      → w.Database
      → Option (Error w.Failure)
      → List (Result (Error w.Failure) (Doc w))
  unfolding yields_of
  iter_checked qs s (some e) = err e ∷ []
  iter_checked qs s none = yields_of qs s (ops.query (build_backend_query ty qs) s)

  -- `Iter`: what it yields to a consumer that stops at the first error, as the code itself does.
  unfoldable pub iter : QuerySet w.Failure G → w.Database → List (Result (Error w.Failure) (Doc w))
  unfolding iter_checked
  iter qs s = iter_checked qs s (preflight qs)

  unfoldable pub all : QuerySet w.Failure G → w.Database → Result (Error w.Failure) (List (Doc w))
  all qs s =
      unless_error (preflight qs)
        (if should_hydrate ty qs then all_batched qs s else collect (iter qs s))

  unfoldable pub first : QuerySet w.Failure G → w.Database → Result (Error w.Failure) (Doc w)
  first qs s = after (all (limit (pos 1) qs) s) head_or_not_found

  unfoldable pub count : QuerySet w.Failure G → w.Database → Result (Error w.Failure) ℕ
  count qs s = unless_error (preflight qs) (ops.count (build_backend_query ty qs) s)

  unfoldable pub exists : QuerySet w.Failure G → w.Database → Result (Error w.Failure) Bool
  exists qs s = unless_error (preflight qs) (ops.exists (build_backend_query ty qs) s)

  -- The query set of the count: neither page nor order.
  unfoldable pub unpaginated : QuerySet w.Failure G → QuerySet w.Failure G
  unpaginated qs = record qs {
    limit_n = pos 0;
    skip_n = pos 0;
    sort_fields = [];
    after_id = "";
    before_id = "";
  }

  unfoldable pub count_and_query :
      QuerySet w.Failure G → w.Database → Result (Error w.Failure) (List (Doc w) × ℕ)
  count_and_query qs s = after (ops.count (build_backend_query ty (unpaginated qs)) s) (λ total.
      after (ops.query (build_backend_query ty qs) s) (λ read. after (drain_iter ty read) (λ docs.
        after (if should_hydrate ty qs then resolve_for qs docs s else ok docs)
          (λ docs'. ok (docs', total)))))

  unfoldable pub failed_with :
      {A : Type 0}
      → (Error w.Failure → Error w.Failure)
      → Option (Error w.Failure)
      → Result (Error w.Failure) A
      → Result (Error w.Failure) A
  failed_with wrap none rest = rest
  failed_with wrap (some e) rest = err (wrap e)

  unfoldable pub commit_error : Option (Error w.Failure × w.Database) → Option (Error w.Failure)
  commit_error none = none
  commit_error (some (e, left)) = some e

  -- On the database, the two reads, which write nothing, have a transaction of their own.
  unfoldable pub in_read_tx :
      Scope
      → w.Database
      → Result (Error w.Failure) (List (Doc w) × ℕ)
      → Result (Error w.Failure) (List (Doc w) × ℕ)
  unfolding failed_with commit_error
  in_read_tx on_tx s ran = ran
  in_read_tx on_db s ran =
      failed_with begin_failed (db.tx.begin s)
        (after ran (λ a. failed_with transaction_failed (commit_error (db.tx.commit s s)) (ok a)))

  unfoldable pub all_with_count :
      QuerySet w.Failure G → w.Database → Result (Error w.Failure) (List (Doc w) × ℕ)
  unfolding in_read_tx
  all_with_count qs s = unless_error (preflight qs) (in_read_tx qs.scope s (count_and_query qs s))

  unfoldable pub query_set_from_opts : Scope → List (Condition G) → CrudOpts → QuerySet w.Failure G
  unfolding crud_fetch_mode
  query_set_from_opts scope conditions o =
      let qs = new_query scope conditions in
      let seen = if o.include_deleted then include_deleted qs else qs in
      if o.suppress_fetch_links then without_fetch_links seen else seen

  unfoldable pub find_by_id :
      Scope → String → CrudOpts → w.Database → Result (Error w.Failure) (Doc w)
  find_by_id scope id o s =
      first (include_deleted (query_set_from_opts scope (eq "_id" (str id) ∷ []) o)) s

  unfoldable pub find_by_ids :
      Scope → List String → CrudOpts → w.Database → Result (Error w.Failure) (List (Doc w))
  find_by_ids scope [] o s = ok []
  find_by_ids scope (id ∷ ids) o s =
      all
        (include_deleted
          (query_set_from_opts scope (in_values "_id" (map (λ x. str x) (id ∷ ids)) ∷ []) o))
        s

  unfoldable pub find_one_strict :
      Scope → List (Condition G) → Bool → w.Database → Result (Error w.Failure) (Doc w)
  find_one_strict scope conditions deleted_too s =
      let qs = limit (pos 2) (new_query scope conditions) in
      after (all (if deleted_too then include_deleted qs else qs) s) only_one
