-- ===== src/Postgres/Query.antt =====
-- backend/postgres/sql.go: whole statements.
use Prim.Native.String.{String}
use den.Base.{ℕ, ◌+◌, Option, some, none, List, [], ◌∷◌, ◌++◌, if◌then◌else◌}
use den.Base.Results.{Result, ok, err}
use den.Base.Text.{◌<>◌, join, is_empty}
use den.Base.Int.{is_positive}
use den.Util.{replace_char}
use den.Where.{GoTypes, str}
use den.Backend.{
  SortDirection, asc, desc, SortEntry, LockMode, lock_default, lock_skip_locked, lock_no_wait,
  AggregateOp, op_count, unknown_op, Query,
}
use den.Sqlite.Query.{op_text}
use den.Postgres.{PgText, Arg, bare, jsonb_path, jsonb_path_text, param, build_where_clauses}

pub data SqlError : Type 0 where
  unsupported_op no_group_fields : SqlError

-- backend/postgres/postgres.go
unfoldable pub quote_ident : String → String
quote_ident s = "\"" <> (replace_char b'"' "\"\"" s <> "\"")

-- The dir of an ORDER BY term of `buildSelectSQL`, with its space, and `sortDirSQL`.
unfoldable pub sort_dir_sql : SortDirection → String
sort_dir_sql asc = " ASC"
sort_dir_sql desc = " DESC"

unfoldable pub lock_text : Option LockMode → String
lock_text none = ""
lock_text (some lock_default) = " FOR UPDATE"
lock_text (some lock_skip_locked) = " FOR UPDATE SKIP LOCKED"
lock_text (some lock_no_wait) = " FOR UPDATE NOWAIT"

unfoldable pub where_text : List String → String
where_text [] = ""
where_text (c ∷ cs) = " WHERE " <> join " AND " (c ∷ cs)

unfoldable pub sort_terms : List SortEntry → List String
sort_terms [] = []
sort_terms (s ∷ ss) = (jsonb_path s.field <> sort_dir_sql s.dir) ∷ sort_terms ss

-- Without a sort, rows are locked in the order of their ids.
unfoldable pub order_text : List String → Option LockMode → String
order_text [] none = ""
order_text [] (some mode) = " ORDER BY id ASC"
order_text (t ∷ ts) lock = " ORDER BY " <> join ", " (t ∷ ts)

module _ {G : GoTypes} (go : PgText G) where
  -- `if id != ""` of `appendCursorClauses`.
  unfoldable pub add_cursor :
      String → String → List String × List (Arg G) × ℕ → List String × List (Arg G) × ℕ
  add_cursor text id (clauses, args, n) =
      if is_empty id
      then (clauses, args, n)
      else (clauses ++ (text <> param go n) ∷ [], args ++ bare (str id) ∷ [], n + 1)

  -- `appendCursorClauses`, and the same lines in `buildSelectSQL`.
  unfoldable pub append_cursor_clauses :
      List String × List (Arg G) × ℕ → Query G → List String × List (Arg G) × ℕ
  unfolding add_cursor
  append_cursor_clauses found q =
      add_cursor "id < " q.before_id (add_cursor "id > " q.after_id found)

  unfoldable pub limit_text : Query G → String
  limit_text q =
      (if is_positive q.limit_n then " LIMIT " <> go.show_int q.limit_n else "")
      <> (if is_positive q.skip_n then " OFFSET " <> go.show_int q.skip_n else "")

  unfoldable pub build_select_sql : String → Query G → String × List (Arg G)
  build_select_sql collection q =
      let (clauses, args, _) = append_cursor_clauses (build_where_clauses go q.conditions) q in
      (
        "SELECT id, data::text FROM "
            <> (quote_ident collection
                <> (where_text clauses
                    <> (order_text (sort_terms q.sort_fields) q.lock
                        <> (limit_text q <> lock_text q.lock)))),
        args,
      )

  unfoldable pub build_count_sql : String → Query G → String × List (Arg G)
  build_count_sql collection q =
      let (clauses, args, _) = append_cursor_clauses (build_where_clauses go q.conditions) q in
      ("SELECT COUNT(*) FROM " <> (quote_ident collection <> where_text clauses), args)

  unfoldable pub build_exists_sql : String → Query G → String × List (Arg G)
  build_exists_sql collection q =
      let (clauses, args, _) = append_cursor_clauses (build_where_clauses go q.conditions) q in
      (
        "SELECT EXISTS("
            <> (("SELECT 1 FROM " <> (quote_ident collection <> (where_text clauses <> " LIMIT 1")))
                <> ")"),
        args,
      )

  -- Only the four operations over a field; the cursors are not read.
  unfoldable pub build_aggregate_sql :
      String → AggregateOp → String → Query G → Result SqlError (String × List (Arg G))
  build_aggregate_sql collection op_count field q = err unsupported_op
  build_aggregate_sql collection (unknown_op s) field q = err unsupported_op
  build_aggregate_sql collection op field q =
      let (clauses, args, _) = build_where_clauses go q.conditions in
      ok (
        "SELECT "
            <> (op_text op
                <> ("(("
                    <> (jsonb_path_text field
                        <> (")::float) FROM " <> (quote_ident collection <> where_text clauses))))),
        args,
      )
