-- ===== src/Postgres/GroupBy.antt =====
-- backend/postgres/sql.go: `buildGroupBySQL`.
use Prim.Native.String.{String}
use den.Base.{◌≡◌, refl, subst, none, List, [], ◌∷◌, ◌++◌, map, All, All-append}
use den.Base.Results.{Result, ok, err, after}
use den.Base.Text.{◌<>◌, join, count_char}
use den.Where.{GoTypes}
use den.Backend.{
  AggregateOp, op_sum, op_avg, op_min, op_max, op_count, unknown_op, GroupByAgg, Query,
}
use den.Backend.GroupBy.{
  key_terms, agg_exprs, agg_terms, Lacks, Lacks-append, join-Lacks, after_ok, exprs-Lacks,
  key_terms-Lacks, agg_exprs-Lacks, agg_terms-Lacks,
}
use den.Sqlite.Query.{op_text}
use den.Postgres.{PgText, Arg, jsonb_path_text, build_where_clauses}
use den.Postgres.Query.{
  SqlError, unsupported_op, no_group_fields, quote_ident, sort_dir_sql, where_text, order_text,
  append_cursor_clauses, limit_text,
}
use den.Postgres.Numbers.{dollars, jsonb_path_text-dollars, plain, append}
use den.Postgres.Statements.{
  sort_dir_sql-dollars, order_text-dollars, PrintsNoDollar, limit_text-dollars, BindsInOrder,
  where_of,
}

-- `%s((%s)::float)` for the four operations over a field.
unfoldable pub aggregate_expr : AggregateOp → String → String
aggregate_expr op field = op_text op <> ("((" <> (jsonb_path_text field <> ")::float)"))

unfoldable pub group_agg_expr : AggregateOp → String → Result SqlError String
group_agg_expr op_count field = ok "COUNT(*)"
group_agg_expr (unknown_op s) field = err unsupported_op
group_agg_expr op field = ok (aggregate_expr op field)

aggregate_expr-Lacks :
    (op : AggregateOp) (f : String) → Lacks b'$' (op_text op) → Lacks b'$' (aggregate_expr op f)
unfolding aggregate_expr count_char
aggregate_expr-Lacks op f h = Lacks-append b'$' (op_text op) _ h (
    Lacks-append b'$' "((" _ refl
      (Lacks-append b'$' _ ")::float)" (jsonb_path_text-dollars f) refl))

same_text :
    (x e : String) → Path (Result SqlError String) (ok x) (ok e) → Lacks b'$' x → Lacks b'$' e
same_text x e h = subst (λ (t : String). Lacks b'$' t) (cc h)

group_agg_expr-Lacks : (op : AggregateOp) (f e : String) → group_agg_expr op f ≡ ok e → Lacks b'$' e
unfolding group_agg_expr count_char
group_agg_expr-Lacks op_sum f e h = same_text _ e h (aggregate_expr-Lacks op_sum f refl)
group_agg_expr-Lacks op_avg f e h = same_text _ e h (aggregate_expr-Lacks op_avg f refl)
group_agg_expr-Lacks op_min f e h = same_text _ e h (aggregate_expr-Lacks op_min f refl)
group_agg_expr-Lacks op_max f e h = same_text _ e h (aggregate_expr-Lacks op_max f refl)
group_agg_expr-Lacks op_count f e h = same_text _ e h refl
group_agg_expr-Lacks (unknown_op s) f e h = absurd (cc h)

module _ {G : GoTypes} (go : PgText G) where
  -- The statement, once the aggregates of the SELECT and of the ORDER BY are known to be supported.
  unfoldable pub group_by_text :
      String → List String → List String → List String → Query G → String × List (Arg G)
  group_by_text collection fields selects sorts q =
      let (clauses, args, _) = append_cursor_clauses go (build_where_clauses go q.conditions) q in
      let exprs = map jsonb_path_text fields in
      (
        "SELECT "
            <> (join ", " (exprs ++ selects)
                <> (" FROM "
                    <> (quote_ident collection
                        <> (where_text clauses
                            <> (" GROUP BY "
                                <> (join ", " exprs
                                    <> (order_text
                                          (key_terms jsonb_path_text sort_dir_sql fields
                                              q.sort_fields
                                            ++ sorts)
                                          none
                                        <> limit_text go q))))))),
        args,
      )

  unfoldable pub build_group_by_sql :
      String → List String → List GroupByAgg → Query G → Result SqlError (String × List (Arg G))
  build_group_by_sql collection [] aggs q = err no_group_fields
  build_group_by_sql collection (f ∷ fs) aggs q = after (agg_exprs group_agg_expr aggs) (λ selects.
      after (agg_terms group_agg_expr sort_dir_sql q.group_by_sort)
        (λ sorts. ok (group_by_text collection (f ∷ fs) selects sorts q)))

  exprs_lack : (fields : List String) → All (Lacks b'$') (map jsonb_path_text fields)
  exprs_lack fields =
      exprs-Lacks b'$' jsonb_path_text sort_dir_sql jsonb_path_text-dollars sort_dir_sql-dollars
        fields

  group_by_text-BindsInOrder :
      (collection : String) (fields selects sorts : List String) (q : Query G)
      → PrintsNoDollar go
      → dollars (quote_ident collection) ≡ 0
      → All (Lacks b'$') selects
      → All (Lacks b'$') sorts
      → BindsInOrder go (group_by_text collection fields selects sorts q)
  unfolding group_by_text count_char
  group_by_text-BindsInOrder collection fields selects sorts q h k a b =
      let exprs = map jsonb_path_text fields in
      let keys = key_terms jsonb_path_text sort_dir_sql fields q.sort_fields in
      let keys_lack =
        key_terms-Lacks b'$' jsonb_path_text sort_dir_sql jsonb_path_text-dollars
          sort_dir_sql-dollars fields q.sort_fields in
      let orders : Lacks b'$' (order_text (keys ++ sorts) none) =
        order_text-dollars (keys ++ sorts) none (
          join-Lacks b'$' ", " (keys ++ sorts) refl
            (All-append (Lacks b'$') keys sorts keys_lack b)) in
      let tail : Lacks b'$' (
          " GROUP BY "
          <> (join ", " exprs <> (order_text (keys ++ sorts) none <> limit_text go q))) =
        Lacks-append b'$' " GROUP BY " _ refl (
          Lacks-append b'$' (join ", " exprs) _
            (join-Lacks b'$' ", " exprs refl (exprs_lack fields))
            (Lacks-append b'$' (order_text (keys ++ sorts) none) _ orders
              (limit_text-dollars go q h))) in
      append (plain "SELECT " refl) (
        append
          (plain (join ", " (exprs ++ selects)) (
            join-Lacks b'$' ", " (exprs ++ selects) refl
              (All-append (Lacks b'$') exprs selects (exprs_lack fields) a)))
          (append (plain " FROM " refl)
            (append (plain (quote_ident collection) k) (append (where_of go q) (plain _ tail)))))

  -- A GROUP BY statement that the builder returns refers to `$1`, `$2` and so on from left to right,
  -- each once and as many as there are arguments, when the quoted table name holds no `$` and
  -- integers print without one.
  pub build_group_by_sql-BindsInOrder :
      (collection : String) (fields : List String) (aggs : List GroupByAgg) (q : Query G)
      (statement : String × List (Arg G))
      → PrintsNoDollar go
      → dollars (quote_ident collection) ≡ 0
      → build_group_by_sql collection fields aggs q ≡ ok statement
      → BindsInOrder go statement
  unfolding build_group_by_sql
  build_group_by_sql-BindsInOrder collection [] aggs q statement h k e = absurd (cc e)
  build_group_by_sql-BindsInOrder collection (f ∷ fs) aggs q statement h k e =
      let (selects, first, e') = after_ok (agg_exprs group_agg_expr aggs) _ e in
      let (sorts, later, e'') =
        after_ok (agg_terms group_agg_expr sort_dir_sql q.group_by_sort) _ e' in
      let same : group_by_text collection (f ∷ fs) selects sorts q ≡ statement = cc e'' in
      subst (λ (r : String × List (Arg G)). BindsInOrder go r) same
        (group_by_text-BindsInOrder collection (f ∷ fs) selects sorts q h k
          (agg_exprs-Lacks b'$' group_agg_expr group_agg_expr-Lacks aggs selects first)
          (agg_terms-Lacks b'$' group_agg_expr group_agg_expr-Lacks sort_dir_sql
            sort_dir_sql-dollars q.group_by_sort sorts later))
