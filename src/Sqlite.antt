-- ===== src/Sqlite.antt =====
-- backend/sqlite/sql.go: the translation of conditions and queries into SQLite's SQL and the
-- arguments to bind.
pub mod Query
pub mod Marks
pub mod Quoting
pub mod Injection
pub mod Dropped
pub mod Statements
pub mod GroupBy
mod Tests
use Prim.Native.String.{String}
use den.Base.{List, [], ◌∷◌, ◌++◌, map, if◌then◌else◌}
use den.Base.Text.{◌<>◌, join, is_empty}
use den.Base.Int.{ℤ}
use den.Util.{sanitize_field_name, escape_like}
use den.Where.{
  GoTypes, Value, nil, str, field_ref, time, time_pointer, raw_message, byte_slice, typed_nil,
  Operator, LogicType, logic_and, logic_or, FieldCondition, Condition, Conditions, field_condition,
  logical_condition, not_condition, absent, none_left, and_then,
}

-- What the builder calls of Go's libraries: `t.Format(time.RFC3339Nano)`, the standard base64
-- encoding, and `fmt.Sprintf` with `%v`, `%q` and `%d`.
pub record GoText (G : GoTypes) : Type 0 where
  pub format_time : G.Time → String
  pub base64 : String → String
  pub sprint : Value G → String
  pub quote : String → String
  pub show_int : ℤ → String

-- A clause and its arguments.
abbrev pub Clause : GoTypes → Type 0
Clause G = String × List (Value G)

-- `json_extract(data, '$.%s')`
unfoldable pub json_path : String → String
json_path field = "json_extract(data, '$." <> (field <> "')")

unfoldable pub field_ref_to_sql : String → String → Operator → String
field_ref_to_sql left right Operator.op_eq = left <> (" = " <> right)
field_ref_to_sql left right Operator.op_ne = left <> (" != " <> right)
field_ref_to_sql left right Operator.op_gt = left <> (" > " <> right)
field_ref_to_sql left right Operator.op_gte = left <> (" >= " <> right)
field_ref_to_sql left right Operator.op_lt = left <> (" < " <> right)
field_ref_to_sql left right Operator.op_lte = left <> (" <= " <> right)
field_ref_to_sql left right _ = ""

-- `strings.Join(placeholders, ", ")` with one `?` for each value.
unfoldable pub placeholders {ℓ} : {A : Type ℓ} → List A → String
placeholders values = join ", " (map (λ _. "?") values)

-- One element of the array at the field equals the argument.
unfoldable pub contains_clause : String → String
contains_clause field =
    "EXISTS (SELECT 1 FROM json_each(json_extract(data, '$." <> (field <> "')) WHERE value = ?)")

-- `key, _ := value.(string)`
unfoldable pub key : {G : GoTypes} → Value G → String
key (str s) = s
key _ = ""

module _ {G : GoTypes} (go : GoText G) where
  unfoldable pub format_bind_arg : Value G → Value G
  format_bind_arg (time t) = str (go.format_time t)
  format_bind_arg (time_pointer t) = str (go.format_time t)
  format_bind_arg (raw_message t) = str t
  format_bind_arg (byte_slice b) = str (go.base64 b)
  format_bind_arg typed_nil = nil
  format_bind_arg v = v

  unfoldable pub format_bind_args : List (Value G) → List (Value G)
  format_bind_args vs = map format_bind_arg vs

  -- The switch of `fieldConditionToSQL`; `field` is the sanitized name.
  unfoldable pub operator_to_sql : String → Operator → Value G → List (Value G) → Clause G
  operator_to_sql field Operator.op_eq value values =
      (json_path field <> " = ?", format_bind_arg value ∷ [])
  operator_to_sql field Operator.op_ne value values =
      (json_path field <> " != ?", format_bind_arg value ∷ [])
  operator_to_sql field Operator.op_gt value values =
      (json_path field <> " > ?", format_bind_arg value ∷ [])
  operator_to_sql field Operator.op_gte value values =
      (json_path field <> " >= ?", format_bind_arg value ∷ [])
  operator_to_sql field Operator.op_lt value values =
      (json_path field <> " < ?", format_bind_arg value ∷ [])
  operator_to_sql field Operator.op_lte value values =
      (json_path field <> " <= ?", format_bind_arg value ∷ [])
  operator_to_sql field Operator.op_is_nil value values = (json_path field <> " IS NULL", [])
  operator_to_sql field Operator.op_is_not_nil value values =
      (json_path field <> " IS NOT NULL", [])
  operator_to_sql field Operator.op_in value values =
      (json_path field <> (" IN (" <> (placeholders values <> ")")), format_bind_args values)
  operator_to_sql field Operator.op_not_in value values =
      (json_path field <> (" NOT IN (" <> (placeholders values <> ")")), format_bind_args values)
  operator_to_sql field Operator.op_contains value values =
      (contains_clause field, format_bind_arg value ∷ [])
  operator_to_sql field Operator.op_contains_any value values = (
    "EXISTS (SELECT 1 FROM json_each(json_extract(data, '$."
        <> (field <> ("')) WHERE value IN (" <> (placeholders values <> "))"))),
    format_bind_args values,
  )
  operator_to_sql field Operator.op_contains_all value values =
      (join " AND " (map (λ _. contains_clause field) values), map format_bind_arg values)
  operator_to_sql field Operator.op_has_key value values = (
    "json_type(data, '$."
        <> (field <> ("." <> (sanitize_field_name (key value) <> "') IS NOT NULL"))),
    [],
  )
  operator_to_sql field Operator.op_reg_exp value values =
      (json_path field <> " REGEXP ?", str (go.sprint value) ∷ [])
  operator_to_sql field Operator.op_starts_with value values =
      (json_path field <> " LIKE ? ESCAPE '\\'", str (escape_like (go.sprint value) <> "%") ∷ [])
  operator_to_sql field Operator.op_ends_with value values =
      (json_path field <> " LIKE ? ESCAPE '\\'", str ("%" <> escape_like (go.sprint value)) ∷ [])
  operator_to_sql field Operator.op_string_contains value values = (
    json_path field <> " LIKE ? ESCAPE '\\'",
    str ("%" <> (escape_like (go.sprint value) <> "%")) ∷ [],
  )

  -- A reference to another field is compared with, and binds nothing.
  unfoldable pub value_to_sql : String → Operator → Value G → List (Value G) → Clause G
  value_to_sql field op (field_ref other_field) values =
      (field_ref_to_sql (json_path field) (json_path (sanitize_field_name other_field)) op, [])
  value_to_sql field op value values = operator_to_sql field op value values

  unfoldable pub field_condition_to_sql : FieldCondition G → Clause G
  field_condition_to_sql c = value_to_sql (sanitize_field_name c.field) c.op c.value c.values

  -- One round of the loops of `logicalToSQL` and `buildWhereClauses`: a clause that is not empty
  -- goes in parentheses before what the later rounds add.
  unfoldable pub add_clause : Clause G → List String × List (Value G) → List String × List (Value G)
  add_clause (clause, clause_args) (clauses, args) =
      if is_empty clause
      then (clauses, args)
      else (("(" <> (clause <> ")")) ∷ clauses, clause_args ++ args)

  unfoldable pub logic_separator : LogicType → String
  logic_separator logic_and = " AND "
  logic_separator logic_or = " OR "

  unfoldable pub logical_to_sql : LogicType → List String × List (Value G) → Clause G
  logical_to_sql logic ([], args) = ("", [])
  logical_to_sql logic (c ∷ cs, args) = (join (logic_separator logic) (c ∷ cs), args)

  unfoldable pub not_to_sql : Clause G → Clause G
  not_to_sql (inner, args) = if is_empty inner then ("", []) else ("NOT (" <> (inner <> ")"), args)

  unfoldable mutual
    pub condition_to_sql : Condition G → Clause G
    condition_to_sql (field_condition c) = field_condition_to_sql c
    condition_to_sql (logical_condition logic cs) = logical_to_sql logic (conditions_to_sql cs)
    condition_to_sql (not_condition c) = not_to_sql (condition_to_sql c)
    condition_to_sql absent = ("", [])

    pub conditions_to_sql : Conditions G → List String × List (Value G)
    conditions_to_sql none_left = ([], [])
    conditions_to_sql (and_then c cs) = add_clause (condition_to_sql c) (conditions_to_sql cs)

  unfoldable pub build_where_clauses : List (Condition G) → List String × List (Value G)
  build_where_clauses [] = ([], [])
  build_where_clauses (c ∷ cs) = add_clause (condition_to_sql c) (build_where_clauses cs)
