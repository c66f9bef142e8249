-- ===== src/Engine/Tests/Queries.antt =====
-- Queries on the collection of Engine/Tests: every query gives every row.
use text.Mathlib.Text.{◌==◌}
use den.Base.{
  ◌≡◌, ◌≢◌, refl, ap, sym, ◌∙◌, ℕ, String, true, false, none, some, List, [], ◌∷◌, map, arith,
  if◌then◌else◌,
}
use den.Base.Int.{pos}
use den.Base.Text.{is_empty}
use den.Base.Errors.{Error, returns}
use den.Base.Results.{Result, ok, err}
use den.Where.{GoTypes}
use den.Engine.Tx.{on_db, on_tx, close, finish, committed}
use den.Engine.Document.{Doc}
use den.Engine.Document.Actions.{in_transaction, on_scope}
use den.Engine.Document.Steps.{IsSilent}
use den.Engine.Hooks.{
  run_hook, run_before_update_hooks, run_validation_hooks, run_after_update_hooks,
}
use den.Engine.Write.{
  wrap_result, check_tags, run_pre_persist_hooks, set_revision, check_and_update_revision,
  set_base_fields, capture_snapshot, store, set_or_check_revision, write_doc_core,
}
use den.Engine.Write.Stores.{IsStored}
use den.Engine.LinkBatch.{
  QueryOps, holds, ids_query, decode_targets, first_dangling, unless_failed, unless_dangling,
  load_targets,
}
use den.Engine.LinkBatch.Dangling.{load_targets_complete}
use den.Engine.Track.{zero_doc, decode_with_snapshot}
use den.Engine.QuerySet.{
  QuerySet, new_query, limit, preflight, include_deleted, without_fetch_links, lock_failure,
  pagination_failure, should_hydrate, hydrates,
}
use den.Engine.QuerySet.Run.{
  unless_error, all, all_batched, first, iter, find_by_id, query_set_from_opts, iter_checked,
  yields_of, yields, yield_row, collect, decode_row, head_or_not_found,
}
use den.Engine.QuerySet.Run.Reads.{all_lem}
use den.Engine.QuerySet.Writes.{size, delete, Setter}
use den.Engine.QuerySet.Writes.Rounds.{delete-ends}
use den.Engine.Save.{is_link_write, require_id, cascade_on_write, update_body, update_core, save}
use den.Engine.Replace.{preserve_server_fields, replace_body, replace}
use den.Engine.Replace.Keeps.{IsReplaced, replace_lem}
use den.Engine.Tests.{world, articles, database, laws, plain, draws, row, start}

abbrev go_types : GoTypes
go_types = record { Time = ℕ; Scalar = ℕ; Other = ℕ }

abbrev backend : QueryOps world go_types
backend = record {
  query = λ q s. ok (record { rows = s; failure = none });
  count = λ q s. ok (size s);
  exists = λ q s. ok true;
}

abbrev query : QuerySet String go_types
query = new_query on_db []

abbrev one : QuerySet String go_types
one = limit (pos 1) query

one_limit : one.limit_n ≡ pos 1
unfolding limit
one_limit = refl

delete-ends_example :
    (delete database backend articles 2 1000 (λ i. draws) plain one start).0 ≢ returns none
delete-ends_example =
    delete-ends database backend articles 2 1000 (λ i. draws) plain one 0 start one_limit
      (omega arith)

all_lem_example :
    all database backend articles query start.db
    ≡ unless_error (preflight query) (all_batched database backend articles query start.db)
all_lem_example = all_lem database backend articles query start.db

-- The article as it is read.
abbrev stored : Doc world
stored = record {
  base = record articles.zero_base {
    id = "a";
    created_at = some 3;
    updated_at = some 3;
    rev = "r1";
  };
  body = 5;
  snapshot = some row;
}

abbrev loaded : List (String × Doc world)
loaded = ("a", stored) ∷ []

loads : load_targets database backend articles ("a" ∷ []) start.db ≡ ok loaded
unfolding load_targets ids_query decode_targets first_dangling unless_failed unless_dangling holds
    wrap_result decode_with_snapshot zero_doc capture_snapshot
loads = refl

asked : holds ("a" ∷ []) "a" ≡ true
unfolding holds
asked = refl

load_targets_complete_example : holds (map (λ (r : String × Doc world). r.0) loaded) "a" ≡ true
load_targets_complete_example =
    load_targets_complete database backend articles ("a" ∷ []) start.db loaded "a" loads asked

found :
    find_by_id database backend articles on_tx "a"
      (record plain { suppress_fetch_links = true })
      start.db
    ≡ ok stored
unfolding find_by_id query_set_from_opts new_query include_deleted without_fetch_links first limit
    all unless_error preflight lock_failure pagination_failure is_empty should_hydrate hydrates iter
    iter_checked yields_of yields yield_row collect decode_row wrap_result decode_with_snapshot
    zero_doc capture_snapshot head_or_not_found
found = refl

abbrev id_of : Result (Error String) (Doc world) → String
id_of (ok d) = d.base.id
id_of (err e) = ""

finds :
    (d : Doc world)
    → find_by_id database backend articles on_tx "a"
        (record plain { suppress_fetch_links = true })
        start.db
      ≡ ok d
    → d.base.id ≡ "a"
finds d e = sym (ap id_of e) ∙ ap id_of found

replace_runs : (replace database backend on_db articles draws plain start).0 ≡ returns tt
unfolding replace replace_body preserve_server_fields find_by_id query_set_from_opts new_query
    include_deleted without_fetch_links first limit all unless_error preflight lock_failure
    pagination_failure is_empty should_hydrate hydrates iter iter_checked yields_of yields yield_row
    collect decode_row wrap_result decode_with_snapshot zero_doc capture_snapshot head_or_not_found
    on_scope in_transaction close finish committed save update_core update_body cascade_on_write
    is_link_write require_id write_doc_core run_pre_persist_hooks run_before_update_hooks run_hook
    check_tags run_validation_hooks set_or_check_revision check_and_update_revision set_revision
    set_base_fields store run_after_update_hooks
replace_runs = refl

silent_before : IsSilent (run_before_update_hooks articles)
unfolding run_before_update_hooks run_hook
silent_before s = refl

silent_validate : IsSilent (run_validation_hooks articles)
unfolding run_validation_hooks run_hook
silent_validate s = refl

silent_after : IsSilent (run_after_update_hooks articles)
unfolding run_after_update_hooks run_hook
silent_after s = refl

has_id : is_empty start.doc.base.id ≡ false
unfolding is_empty
has_id = refl

no_cascade : is_link_write plain.link_rule ≡ false
unfolding is_link_write
no_cascade = refl

replace_lem_example :
    (existing : Doc world) × (find_by_id database backend articles on_tx "a"
        (record plain { suppress_fetch_links = true })
        start.db
      ≡ ok existing)
    × IsReplaced articles existing start.doc
        (replace database backend on_db articles draws plain start).1.doc
    × IsStored database articles (replace database backend on_db articles draws plain start).1
replace_lem_example =
    replace_lem database articles laws silent_before silent_validate silent_after backend on_db
      draws plain start has_id no_cascade finds replace_runs

-- The only field that can be set is the body.
abbrev setter : Setter world ℕ
setter = record {
  set_field = λ name. if name == "n" then some (λ n d. ok (record d { body = n })) else none;
}

abbrev changes : List (String × ℕ)
changes = ("n", 9) ∷ []

abbrev updated : Doc world
updated = record {
  base = record articles.zero_base {
    id = "a";
    created_at = some 3;
    updated_at = some 7;
    rev = "r2";
  };
  body = 9;
  snapshot = some ("a", some 3, some 7, "r2", none, "", "", 9);
}
