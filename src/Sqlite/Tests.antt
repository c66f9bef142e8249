-- ===== src/Sqlite/Tests.antt =====
-- Statements for a concrete query, and the theorems on it.
use Prim.Native.String.{String}
use den.Base.Text.{◌<>◌}
use den.Backend.{op_count, desc}
use den.Backend.GroupBy.{agg_exprs, agg_terms}
use den.Sqlite.Query.{group_agg_expr, sort_dir_sql}
use den.Sqlite.GroupBy.{group_by_text, build_group_by_sql, build_group_by_sql-balanced}
use den.Base.{ℕ, zero, suc, ◌≡◌, refl, none, [], ◌∷◌, false, length}
use den.Base.Text.{is_empty, count_char}
use den.Base.Int.{ℤ, pos, negsuc}
use den.Where.{
  GoTypes, Value, str, field_ref, Operator, logic_or, Condition, field_condition, logical_condition,
  not_condition, none_left, and_then,
}
use den.Sqlite.{GoText, condition_to_sql}
use den.Sqlite.Query.{build_select_sql, build_count_sql, build_exists_sql}
use den.Sqlite.Marks.{marks}
use den.Sqlite.Statements.{statements-balanced}
use den.Sqlite.Quoting.{outside, ends_inside}
use den.Sqlite.Injection.{erase, erase_field, erase_value, condition_to_sql-outside}
use den.Sqlite.Dropped.{is_void, condition_to_sql-is_empty}
use den.Backend.{Query}

abbrev plain : GoTypes
plain = record { Time = ℕ; Scalar = ℕ; Other = Unit {0} }

show : ℤ → String
show (pos zero) = "0"
show (pos (suc n)) = "7"
show (negsuc n) = "-7"

abbrev texts : GoText plain
texts = record {
  format_time = λ t. "2025-01-01T00:00:00Z";
  base64 = λ s. s;
  sprint = λ v. "x";
  quote = λ s. "docs";
  show_int = show;
}

abbrev field : String → Operator → Value plain → Condition plain
field name op value = field_condition (record { field = name; op = op; value = value; values = [] })

abbrev evil : Condition plain
evil = not_condition (field "a' OR 1=1 --" Operator.op_eq (str "x"))

abbrev good : Condition plain
good = not_condition (field "name" Operator.op_eq (str "' OR '1'='1"))

-- A reference to another field under an operator for texts.
abbrev lost : Condition plain
lost =
    logical_condition logic_or
      (and_then (field "name" Operator.op_starts_with (field_ref "prefix")) none_left)

abbrev query : Query plain
query = record {
  collection = "docs";
  conditions = evil ∷ lost ∷ [];
  sort_fields = [];
  limit_n = pos 7;
  skip_n = pos 0;
  after_id = "01A";
  before_id = "";
  lock = none;
  group_by_sort = [];
}

show-marks : (n : ℤ) → marks (show n) ≡ 0
unfolding count_char show
show-marks (pos zero) = refl
show-marks (pos (suc n)) = refl
show-marks (negsuc n) = refl

statements-balanced_example :
    (marks (build_select_sql texts "docs" query).0 ≡ length (build_select_sql texts "docs" query).1)
    × (marks (build_count_sql texts "docs" query).0 ≡ length (build_count_sql texts "docs" query).1)
    × (marks (build_exists_sql texts "docs" query).0
        ≡ length (build_exists_sql texts "docs" query).1)
unfolding count_char
statements-balanced_example = statements-balanced texts "docs" query show-marks refl

condition_to_sql-outside_example :
    (outside false (condition_to_sql texts evil).0 ≡ outside false (condition_to_sql texts good).0)
    × (ends_inside false (condition_to_sql texts evil).0 ≡ false)
unfolding erase erase_field erase_value
condition_to_sql-outside_example = condition_to_sql-outside texts evil good refl

condition_to_sql-is_empty_example : is_empty (condition_to_sql texts lost).0 ≡ is_void lost
condition_to_sql-is_empty_example = condition_to_sql-is_empty texts lost

abbrev counted : Query plain
counted = record query { group_by_sort = record { op = op_count; field = ""; dir = desc } ∷ [] }

build_group_by_sql-balanced_example :
    marks
      (group_by_text texts "docs"
        ("a" ∷ [])
        ("COUNT(*)" ∷ [])
        (("COUNT(*)" <> " DESC") ∷ [])
        counted).0
    ≡ length
        (group_by_text texts "docs"
          ("a" ∷ [])
          ("COUNT(*)" ∷ [])
          (("COUNT(*)" <> " DESC") ∷ [])
          counted).1
unfolding count_char build_group_by_sql agg_exprs agg_terms group_agg_expr sort_dir_sql
build_group_by_sql-balanced_example =
    build_group_by_sql-balanced texts "docs" ("a" ∷ []) (record { op = op_count; field = "" } ∷ [])
      counted
      (group_by_text texts "docs" ("a" ∷ []) ("COUNT(*)" ∷ []) (("COUNT(*)" <> " DESC") ∷ [])
        counted)
      show-marks refl refl
