-- ===== src/Sqlite/GroupBy.antt =====
-- backend/sqlite/sql.go: `buildGroupBySQL`.
use Prim.Native.String.{String}
use den.Base.{◌≡◌, refl, ◌∙◌, subst, List, [], ◌∷◌, ◌++◌, map, arith, All, All-append, length}
use den.Base.Results.{Result, ok, err, after}
use den.Base.Text.{◌<>◌, join, count_char}
use den.Util.{sanitize_field_name}
use den.Where.{GoTypes, Value}
use den.Backend.{
  AggregateOp, op_sum, op_avg, op_min, op_max, op_count, unknown_op, GroupByAgg, Query,
}
use den.Backend.GroupBy.{
  key_terms, agg_exprs, agg_terms, Lacks, Lacks-append, join-Lacks, after_ok, exprs-Lacks,
  key_terms-Lacks, agg_exprs-Lacks, agg_terms-Lacks,
}
use den.Sqlite.{GoText, json_path, build_where_clauses}
use den.Sqlite.Query.{
  SqlError, no_group_fields, op_text, sort_dir_sql, aggregate_expr, group_agg_expr, where_text,
  append_cursor_clauses, order_text, limit_text,
}
use den.Sqlite.Marks.{marks, marks-append, json_path-marks, total_marks}
use den.Sqlite.Statements.{
  sort_dir_sql-marks, where_text-marks, PrintsNoMark, append_cursor_clauses-AreBalanced,
  order_text-marks, limit_text-marks,
}

-- `groupExprs[i]`
unfoldable pub group_expr : String → String
group_expr field = json_path (sanitize_field_name field)

module _ {G : GoTypes} (go : GoText G) where
  -- The statement, once the aggregates of the SELECT and of the ORDER BY are known to be supported.
  unfoldable pub group_by_text :
      String → List String → List String → List String → Query G → String × List (Value G)
  group_by_text collection fields selects sorts q =
      let (clauses, args) = append_cursor_clauses go (build_where_clauses go q.conditions) q in
      let exprs = map group_expr fields in
      (
        "SELECT "
            <> (join ", " (exprs ++ selects)
                <> (" FROM "
                    <> (go.quote collection
                        <> (where_text clauses
                            <> (" GROUP BY "
                                <> (join ", " exprs
                                    <> (order_text go (
                                          key_terms group_expr sort_dir_sql fields q.sort_fields
                                          ++ sorts)
                                        <> limit_text go q))))))),
        args,
      )

  unfoldable pub build_group_by_sql :
      String → List String → List GroupByAgg → Query G → Result SqlError (String × List (Value G))
  build_group_by_sql collection [] aggs q = err no_group_fields
  build_group_by_sql collection (f ∷ fs) aggs q = after (agg_exprs group_agg_expr aggs) (λ selects.
      after (agg_terms group_agg_expr sort_dir_sql q.group_by_sort)
        (λ sorts. ok (group_by_text collection (f ∷ fs) selects sorts q)))

  aggregate_expr-Lacks :
      (op : AggregateOp) (f : String) → Lacks b'?' (op_text op) → Lacks b'?' (aggregate_expr op f)
  unfolding aggregate_expr count_char
  aggregate_expr-Lacks op f h = Lacks-append b'?' (op_text op) _ h (
      Lacks-append b'?' "(CAST(" _ refl (Lacks-append b'?' _ " AS REAL))" (json_path-marks f) refl))

  same_text :
      (x e : String) → Path (Result SqlError String) (ok x) (ok e) → Lacks b'?' x → Lacks b'?' e
  same_text x e h = subst (λ (t : String). Lacks b'?' t) (cc h)

  group_agg_expr-Lacks :
      (op : AggregateOp) (f e : String) → group_agg_expr op f ≡ ok e → Lacks b'?' e
  unfolding group_agg_expr count_char
  group_agg_expr-Lacks op_sum f e h = same_text _ e h (aggregate_expr-Lacks op_sum f refl)
  group_agg_expr-Lacks op_avg f e h = same_text _ e h (aggregate_expr-Lacks op_avg f refl)
  group_agg_expr-Lacks op_min f e h = same_text _ e h (aggregate_expr-Lacks op_min f refl)
  group_agg_expr-Lacks op_max f e h = same_text _ e h (aggregate_expr-Lacks op_max f refl)
  group_agg_expr-Lacks op_count f e h = same_text _ e h refl
  group_agg_expr-Lacks (unknown_op s) f e h = absurd (cc h)

  total_marks-Lacks : (ss : List String) → All (Lacks b'?') ss → total_marks ss ≡ 0
  unfolding total_marks
  total_marks-Lacks [] a = refl
  total_marks-Lacks (s ∷ ss) a = rw (a.0, total_marks-Lacks ss a.1)

  skip : (s t : String) → Lacks b'?' s → marks (s <> t) ≡ marks t
  skip s t h = marks-append s t ∙ (rw h (omega arith))

  stop : (s t : String) → Lacks b'?' t → marks (s <> t) ≡ marks s
  stop s t h = marks-append s t ∙ (rw h (omega arith))

  exprs_lack : (fields : List String) → All (Lacks b'?') (map group_expr fields)
  unfolding group_expr
  exprs_lack fields =
      exprs-Lacks b'?' group_expr sort_dir_sql json_path-marks sort_dir_sql-marks fields

  keys_lack :
      (fields : List String) (q : Query G)
      → All (Lacks b'?') (key_terms group_expr sort_dir_sql fields q.sort_fields)
  unfolding group_expr
  keys_lack fields q =
      key_terms-Lacks b'?' group_expr sort_dir_sql json_path-marks sort_dir_sql-marks fields
        q.sort_fields

  group_by_text-balanced :
      (collection : String) (fields selects sorts : List String) (q : Query G)
      → PrintsNoMark go
      → marks (go.quote collection) ≡ 0
      → All (Lacks b'?') selects
      → All (Lacks b'?') sorts
      → marks (group_by_text collection fields selects sorts q).0
        ≡ length (group_by_text collection fields selects sorts q).1
  unfolding group_by_text count_char
  group_by_text-balanced collection fields selects sorts q h k a b =
      let exprs = map group_expr fields in
      let found = append_cursor_clauses go (build_where_clauses go q.conditions) q in
      let keys = key_terms group_expr sort_dir_sql fields q.sort_fields in
      let orders : Lacks b'?' (order_text go (keys ++ sorts)) =
        order_text-marks go (keys ++ sorts)
        ∙ total_marks-Lacks (keys ++ sorts)
            (All-append (Lacks b'?') keys sorts (keys_lack fields q) b) in
      let tail : Lacks b'?' (
          " GROUP BY " <> (join ", " exprs <> (order_text go (keys ++ sorts) <> limit_text go q))) =
        Lacks-append b'?' " GROUP BY " _ refl (
          Lacks-append b'?' (join ", " exprs) _
            (join-Lacks b'?' ", " exprs refl (exprs_lack fields))
            (Lacks-append b'?' (order_text go (keys ++ sorts)) _ orders
              (limit_text-marks go q h))) in
      skip "SELECT " _ refl
      ∙ skip (join ", " (exprs ++ selects)) _ (
          join-Lacks b'?' ", " (exprs ++ selects) refl
            (All-append (Lacks b'?') exprs selects (exprs_lack fields) a))
      ∙ skip " FROM " _ refl
      ∙ skip (go.quote collection) _ k
      ∙ stop (where_text found.0) _ tail
      ∙ where_text-marks found.0
      ∙ append_cursor_clauses-AreBalanced go q

  -- A GROUP BY statement that the builder returns has one placeholder for each argument bound, when
  -- the quoted table name holds no `?` and integers print without one.
  pub build_group_by_sql-balanced :
      (collection : String) (fields : List String) (aggs : List GroupByAgg) (q : Query G)
      (statement : String × List (Value G))
      → PrintsNoMark go
      → marks (go.quote collection) ≡ 0
      → build_group_by_sql collection fields aggs q ≡ ok statement
      → marks statement.0 ≡ length statement.1
  unfolding build_group_by_sql
  build_group_by_sql-balanced collection [] aggs q statement h k e = absurd (cc e)
  build_group_by_sql-balanced collection (f ∷ fs) aggs q statement h k e =
      let (selects, first, e') = after_ok (agg_exprs group_agg_expr aggs) _ e in
      let (sorts, later, e'') =
        after_ok (agg_terms group_agg_expr sort_dir_sql q.group_by_sort) _ e' in
      let same : group_by_text collection (f ∷ fs) selects sorts q ≡ statement = cc e'' in
      subst (λ (r : String × List (Value G)). marks r.0 ≡ length r.1) same
        (group_by_text-balanced collection (f ∷ fs) selects sorts q h k
          (agg_exprs-Lacks b'?' group_agg_expr group_agg_expr-Lacks aggs selects first)
          (agg_terms-Lacks b'?' group_agg_expr group_agg_expr-Lacks sort_dir_sql sort_dir_sql-marks
            q.group_by_sort sorts later))
