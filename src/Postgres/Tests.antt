-- ===== src/Postgres/Tests.antt =====
-- PostgreSQL statements for a concrete query, and the theorem on it.
use Prim.Native.String.{String}
use den.Base.Text.{◌<>◌}
use den.Backend.{op_count, desc}
use den.Backend.GroupBy.{agg_exprs, agg_terms}
use den.Postgres.Query.{sort_dir_sql}
use den.Postgres.GroupBy.{
  group_by_text, group_agg_expr, build_group_by_sql, build_group_by_sql-BindsInOrder,
}
use den.Base.{ℕ, zero, suc, ◌≡◌, refl, some, List, [], ◌∷◌}
use den.Base.Text.{count_char, join}
use den.Base.Int.{ℤ, pos, negsuc}
use den.Util.{replace_char, sanitize_field_name, is_safe}
use den.Where.{
  GoTypes, Value, str, Operator, logic_or, Condition, field_condition, logical_condition,
  not_condition, none_left, and_then,
}
use den.Backend.{Query, lock_no_wait}
use den.Postgres.{PgText, split_dots, quoted_parts, jsonb_path}
use den.Postgres.Query.{quote_ident, build_select_sql, build_count_sql, build_exists_sql}
use den.Postgres.Numbers.{dollars}
use den.Postgres.Statements.{BindsInOrder, statements-BindsInOrder}

abbrev plain : GoTypes
plain = record { Time = ℕ; Scalar = ℕ; Other = Unit {0} }

show : ℤ → String
show (pos zero) = "0"
show (pos (suc zero)) = "1"
show (pos (suc (suc n))) = "2"
show (negsuc n) = "-1"

abbrev texts : PgText plain
texts = record { marshal = λ v. some "null"; sprint = λ v. "x"; show_int = show }

show-dollars : (n : ℤ) → dollars (show n) ≡ 0
unfolding count_char show
show-dollars (pos zero) = refl
show-dollars (pos (suc zero)) = refl
show-dollars (pos (suc (suc n))) = refl
show-dollars (negsuc n) = refl

abbrev field : String → Operator → List (Value plain) → Condition plain
field name op values =
    field_condition (record { field = name; op = op; value = str "v"; values = values })

-- An empty `Or` between two conditions, which uses up no number.
abbrev query : Query plain
query = record {
  collection = "docs";
  conditions =
      not_condition (field "name" Operator.op_eq [])
      ∷ logical_condition logic_or none_left
      ∷ logical_condition logic_or (
          and_then (field "a.b" Operator.op_in (str "1" ∷ str "2" ∷ []))
            (and_then (field "c" Operator.op_is_nil []) none_left))
      ∷ [];
  sort_fields = [];
  limit_n = pos 1;
  skip_n = pos 0;
  after_id = "01A";
  before_id = "01B";
  lock = some lock_no_wait;
  group_by_sort = [];
}

nested_path : jsonb_path "a.b'c" ≡ "jsonb_extract_path(data, 'a', 'bc')"
unfolding jsonb_path quoted_parts join split_dots sanitize_field_name is_safe
nested_path = refl

statements-BindsInOrder_example :
    BindsInOrder texts (build_select_sql texts "docs" query)
    × BindsInOrder texts (build_count_sql texts "docs" query)
    × BindsInOrder texts (build_exists_sql texts "docs" query)
unfolding quote_ident replace_char count_char
statements-BindsInOrder_example = statements-BindsInOrder texts "docs" query show-dollars refl

abbrev counted : Query plain
counted = record query { group_by_sort = record { op = op_count; field = ""; dir = desc } ∷ [] }

build_group_by_sql-BindsInOrder_example :
    BindsInOrder texts (
      group_by_text texts "docs"
        ("a" ∷ [])
        ("COUNT(*)" ∷ [])
        (("COUNT(*)" <> " DESC") ∷ [])
        counted)
unfolding quote_ident replace_char count_char build_group_by_sql agg_exprs agg_terms group_agg_expr
    sort_dir_sql
build_group_by_sql-BindsInOrder_example =
    build_group_by_sql-BindsInOrder texts "docs" ("a" ∷ [])
      (record { op = op_count; field = "" } ∷ []) counted
      (group_by_text texts "docs" ("a" ∷ []) ("COUNT(*)" ∷ []) (("COUNT(*)" <> " DESC") ∷ [])
        counted)
      show-dollars refl refl
