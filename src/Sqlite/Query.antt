-- ===== src/Sqlite/Query.antt =====
-- backend/sqlite/sql.go: whole statements.
use Prim.Native.String.{String}
use den.Base.{List, [], ◌∷◌, ◌++◌, if◌then◌else◌}
use den.Base.Int.{is_positive, is_zero}
use den.Base.Results.{Result, ok, err}
use den.Base.Text.{◌<>◌, join, is_empty}
use den.Util.{sanitize_field_name}
use den.Where.{GoTypes, Value, str}
use den.Backend.{
  SortDirection, asc, desc, SortEntry, AggregateOp, op_sum, op_avg, op_min, op_max, op_count,
  unknown_op, Query,
}
use den.Sqlite.{GoText, json_path, build_where_clauses}

-- Errors of the statement builders.
pub data SqlError : Type 0 where
  unsupported_op no_group_fields : SqlError

unfoldable pub sort_dir_sql : SortDirection → String
sort_dir_sql asc = " ASC"
sort_dir_sql desc = " DESC"

-- `string(op)`
abbrev pub op_text : AggregateOp → String
op_text op_sum = "SUM"
op_text op_avg = "AVG"
op_text op_min = "MIN"
op_text op_max = "MAX"
op_text op_count = "COUNT"
op_text (unknown_op s) = s

-- `%s(CAST(json_extract(data, '$.%s') AS REAL))` for the four operations over a field.
unfoldable pub aggregate_expr : AggregateOp → String → String
aggregate_expr op field =
    op_text op <> ("(CAST(" <> (json_path (sanitize_field_name field) <> " AS REAL))"))

unfoldable pub group_agg_expr : AggregateOp → String → Result SqlError String
group_agg_expr op_count field = ok "COUNT(*)"
group_agg_expr (unknown_op s) field = err unsupported_op
group_agg_expr op field = ok (aggregate_expr op field)

unfoldable pub where_text : List String → String
where_text [] = ""
where_text (c ∷ cs) = " WHERE " <> join " AND " (c ∷ cs)

module _ {G : GoTypes} (go : GoText G) where
  -- `if id != "" { append(clauses, …); append(args, id) }`
  unfoldable pub add_cursor :
      String → String → List String × List (Value G) → List String × List (Value G)
  add_cursor text id (clauses, args) =
      if is_empty id then (clauses, args) else (clauses ++ text ∷ [], args ++ str id ∷ [])

  unfoldable pub append_cursor_clauses :
      List String × List (Value G) → Query G → List String × List (Value G)
  unfolding add_cursor
  append_cursor_clauses found q =
      add_cursor "id < ?" q.before_id (add_cursor "id > ?" q.after_id found)

  -- The ORDER BY terms of `buildSelectSQL`.
  unfoldable pub sort_terms : List SortEntry → List String
  sort_terms [] = []
  sort_terms (s ∷ ss) =
      (json_path (sanitize_field_name s.field) <> sort_dir_sql s.dir) ∷ sort_terms ss

  unfoldable pub order_text : List String → String
  order_text [] = ""
  order_text (t ∷ ts) = " ORDER BY " <> join ", " (t ∷ ts)

  -- SQLite requires a LIMIT before an OFFSET.
  unfoldable pub limit_text : Query G → String
  limit_text q =
      (if is_positive q.limit_n then " LIMIT " <> go.show_int q.limit_n else "")
      <> (if is_positive q.skip_n
          then (if is_zero q.limit_n then " LIMIT -1" else "")
            <> (" OFFSET " <> go.show_int q.skip_n)
          else "")

  unfoldable pub build_select_sql : String → Query G → String × List (Value G)
  build_select_sql collection q =
      let (clauses, args) = append_cursor_clauses (build_where_clauses go q.conditions) q in
      (
        "SELECT id, json(data) FROM "
            <> (go.quote collection
                <> (where_text clauses <> (order_text (sort_terms q.sort_fields) <> limit_text q))),
        args,
      )

  unfoldable pub build_count_sql : String → Query G → String × List (Value G)
  build_count_sql collection q =
      let (clauses, args) = append_cursor_clauses (build_where_clauses go q.conditions) q in
      ("SELECT COUNT(*) FROM " <> (go.quote collection <> where_text clauses), args)

  unfoldable pub build_exists_sql : String → Query G → String × List (Value G)
  build_exists_sql collection q =
      let (clauses, args) = append_cursor_clauses (build_where_clauses go q.conditions) q in
      (
        "SELECT EXISTS("
            <> (("SELECT 1 FROM " <> (go.quote collection <> (where_text clauses <> " LIMIT 1")))
                <> ")"),
        args,
      )

  -- Only the four operations over a field; the cursors are not read.
  unfoldable pub build_aggregate_sql :
      String → AggregateOp → String → Query G → Result SqlError (String × List (Value G))
  build_aggregate_sql collection op_count field q = err unsupported_op
  build_aggregate_sql collection (unknown_op s) field q = err unsupported_op
  build_aggregate_sql collection op field q =
      let (clauses, args) = build_where_clauses go q.conditions in
      ok (
        "SELECT "
            <> (aggregate_expr op field
                <> (" FROM " <> (go.quote collection <> where_text clauses))),
        args,
      )
