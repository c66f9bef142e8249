-- ===== src/Postgres.antt =====
-- backend/postgres/sql.go: the translation of conditions into PostgreSQL's SQL, whose placeholders
-- carry numbers. A builder takes the number of the next parameter and gives the one after its own.
pub mod Numbers
pub mod Numbered
pub mod Query
pub mod Statements
pub mod GroupBy
mod Tests
use Prim.Native.Char.{Char, code}
use Prim.Native.String.{String}
use den.Base.{
  ℕ, ◌+◌, suc, Bool, true, false, Option, none, some, List, [], ◌∷◌, ◌++◌, map, ◌==◌, ◌||◌, not,
  ◌&&◌, if◌then◌else◌, length,
}
use den.Base.Text.{◌<>◌, join, is_empty, count_char}
use den.Base.Int.{ℤ, pos}
use den.Util.{sanitize_field_name, escape_like}
use den.Where.{
  GoTypes, Value, str, scalar, field_ref, Operator, LogicType, logic_and, logic_or, FieldCondition,
  Condition, Conditions, field_condition, logical_condition, not_condition, absent, none_left,
  and_then,
}

-- What `json.Marshal` and `%v` are given: a value, or the map of one field to a value.
pub data Subject (G : GoTypes) : Type 0 where
  whole : Value G → Subject G
  object : String → Value G → Subject G

-- What the builder calls of Go's libraries: `json.Marshal`, and `fmt` with `%v` and `%d`.
pub record PgText (G : GoTypes) : Type 0 where
  pub marshal : Subject G → Option String
  pub sprint : Subject G → String
  pub show_int : ℤ → String

-- An argument: the bytes of a JSON text, or a value as it is.
pub data Arg (G : GoTypes) : Type 0 where
  json : String → Arg G
  bare : Value G → Arg G

-- A clause, its arguments and the next number.
abbrev pub Clause : GoTypes → Type 0
Clause G = String × List (Arg G) × ℕ

-- `strings.Split(field, ".")`
put_first : Char → List String → List String
put_first c [] = String.◌∷◌ c "" ∷ []
put_first c (p ∷ ps) = String.◌∷◌ c p ∷ ps

unfoldable pub split_dots : String → List String
unfolding put_first
split_dots String.[] = "" ∷ []
split_dots (String.◌∷◌ c s) =
    let rest = split_dots s in if code c == b'.' then "" ∷ rest else put_first c rest

unfoldable pub quoted_parts : String → String
quoted_parts raw_field =
    join ", " (map (λ p. "'" <> (p <> "'")) (split_dots (sanitize_field_name raw_field)))

unfoldable pub jsonb_path : String → String
jsonb_path raw_field = "jsonb_extract_path(data, " <> (quoted_parts raw_field <> ")")

unfoldable pub jsonb_path_text : String → String
jsonb_path_text raw_field = "jsonb_extract_path_text(data, " <> (quoted_parts raw_field <> ")")

-- The switch on `reflect.Kind`.
unfoldable pub has_scalar_kind : {G : GoTypes} → Value G → Bool
has_scalar_kind (str s) = true
has_scalar_kind (field_ref s) = true
has_scalar_kind (scalar x) = true
has_scalar_kind _ = false

unfoldable pub can_rewrite_eq_to_containment : {G : GoTypes} → String → Value G → Bool
unfolding has_scalar_kind
can_rewrite_eq_to_containment field value = (count_char b'.' field == 0) && has_scalar_kind value

unfoldable pub field_ref_to_sql : String → String → Operator → String
field_ref_to_sql left right Operator.op_eq = left <> (" = " <> right)
field_ref_to_sql left right Operator.op_ne = left <> (" != " <> right)
field_ref_to_sql left right Operator.op_gt = left <> (" > " <> right)
field_ref_to_sql left right Operator.op_gte = left <> (" >= " <> right)
field_ref_to_sql left right Operator.op_lt = left <> (" < " <> right)
field_ref_to_sql left right Operator.op_lte = left <> (" <= " <> right)
field_ref_to_sql left right _ = ""

module _ {G : GoTypes} (go : PgText G) where
  unfoldable pub to_jsonb_param : Subject G → Arg G
  to_jsonb_param v = elim (go.marshal v) [ some text ↦ json text | none ↦ json (go.sprint v) ]

  -- `$%d`
  unfoldable pub param : ℕ → String
  param n = "$" <> go.show_int (pos n)

  -- One parameter between two texts for each value, numbered from `n` on.
  unfoldable pub params : {A : Type 0} → String → String → ℕ → List A → List String
  params before after n [] = []
  params before after n (v ∷ vs) = (before <> (param n <> after)) ∷ params before after (suc n) vs

  -- A clause with one parameter.
  unfoldable pub one_param : String → String → Arg G → ℕ → Clause G
  one_param before after arg n = (before <> (param n <> after), arg ∷ [], n + 1)

  unfoldable pub jsonb_params : List (Value G) → List (Arg G)
  jsonb_params vs = map (λ v. to_jsonb_param (whole v)) vs

  -- `where.OpEq`
  unfoldable pub eq_to_sql : String → Value G → ℕ → Clause G
  eq_to_sql raw_field value n =
      if can_rewrite_eq_to_containment raw_field value
      then one_param "data @> " "::jsonb" (to_jsonb_param (object raw_field value)) n
      else one_param (jsonb_path raw_field <> " = ") "::jsonb" (to_jsonb_param (whole value)) n

  -- The switch of `fieldConditionToSQL`.
  unfoldable pub operator_to_sql : String → Operator → Value G → List (Value G) → ℕ → Clause G
  unfolding one_param
  operator_to_sql field Operator.op_eq value values n = eq_to_sql field value n
  operator_to_sql field Operator.op_ne value values n =
      one_param (jsonb_path field <> " != ") "::jsonb" (to_jsonb_param (whole value)) n
  operator_to_sql field Operator.op_gt value values n =
      one_param (jsonb_path field <> " > ") "::jsonb" (to_jsonb_param (whole value)) n
  operator_to_sql field Operator.op_gte value values n =
      one_param (jsonb_path field <> " >= ") "::jsonb" (to_jsonb_param (whole value)) n
  operator_to_sql field Operator.op_lt value values n =
      one_param (jsonb_path field <> " < ") "::jsonb" (to_jsonb_param (whole value)) n
  operator_to_sql field Operator.op_lte value values n =
      one_param (jsonb_path field <> " <= ") "::jsonb" (to_jsonb_param (whole value)) n
  operator_to_sql field Operator.op_is_nil value values n =
      (jsonb_path_text field <> " IS NULL", [], n)
  operator_to_sql field Operator.op_is_not_nil value values n =
      (jsonb_path_text field <> " IS NOT NULL", [], n)
  operator_to_sql field Operator.op_in value values n = (
    jsonb_path field <> (" IN (" <> (join ", " (params "" "::jsonb" n values) <> ")")),
    jsonb_params values,
    n + length values,
  )
  operator_to_sql field Operator.op_not_in value values n = (
    jsonb_path field <> (" NOT IN (" <> (join ", " (params "" "::jsonb" n values) <> ")")),
    jsonb_params values,
    n + length values,
  )
  operator_to_sql field Operator.op_contains value values n =
      one_param (jsonb_path field <> " @> to_jsonb(") "::text)" (bare value) n
  operator_to_sql field Operator.op_contains_any value values n = (
    "(" <> (join " OR " (params (jsonb_path field <> " @> to_jsonb(") "::text)" n values) <> ")"),
    map bare values,
    n + length values,
  )
  operator_to_sql field Operator.op_contains_all value values n = (
    join " AND " (params (jsonb_path field <> " @> to_jsonb(") "::text)" n values),
    map bare values,
    n + length values,
  )
  operator_to_sql field Operator.op_has_key value values n =
      one_param ("jsonb_exists(" <> (jsonb_path field <> ", ")) ")" (bare value) n
  operator_to_sql field Operator.op_reg_exp value values n =
      one_param (jsonb_path_text field <> " ~ ") "" (bare (str (go.sprint (whole value)))) n
  operator_to_sql field Operator.op_starts_with value values n =
      one_param (jsonb_path_text field <> " LIKE ") " ESCAPE '\\'"
        (bare (str (escape_like (go.sprint (whole value)) <> "%"))) n
  operator_to_sql field Operator.op_ends_with value values n =
      one_param (jsonb_path_text field <> " LIKE ") " ESCAPE '\\'"
        (bare (str ("%" <> escape_like (go.sprint (whole value))))) n
  operator_to_sql field Operator.op_string_contains value values n =
      one_param (jsonb_path_text field <> " LIKE ") " ESCAPE '\\'"
        (bare (str ("%" <> (escape_like (go.sprint (whole value)) <> "%")))) n

  unfoldable pub value_to_sql : String → Operator → Value G → List (Value G) → ℕ → Clause G
  value_to_sql field op (field_ref other_field) values n =
      (field_ref_to_sql (jsonb_path field) (jsonb_path other_field) op, [], n)
  value_to_sql field op value values n = operator_to_sql field op value values n

  unfoldable pub field_condition_to_sql : FieldCondition G → ℕ → Clause G
  field_condition_to_sql c n = value_to_sql c.field c.op c.value c.values n

  -- The number with which the loop goes on: a clause that is empty uses up none.
  unfoldable pub next_number : Clause G → ℕ → ℕ
  next_number (clause, _, next) n = if is_empty clause then n else next

  -- A clause that is not empty goes in parentheses before what the later rounds add.
  unfoldable pub add_clause :
      Clause G → List String × List (Arg G) × ℕ → List String × List (Arg G) × ℕ
  add_clause (clause, clause_args, _) (clauses, args, last) =
      if is_empty clause
      then (clauses, args, last)
      else (("(" <> (clause <> ")")) ∷ clauses, clause_args ++ args, last)

  unfoldable pub logic_separator : LogicType → String
  logic_separator logic_and = " AND "
  logic_separator logic_or = " OR "

  unfoldable pub logical_to_sql : LogicType → List String × List (Arg G) × ℕ → Clause G
  logical_to_sql logic ([], args, n) = ("", [], n)
  logical_to_sql logic (c ∷ cs, args, n) = (join (logic_separator logic) (c ∷ cs), args, n)

  unfoldable pub not_to_sql : Clause G → ℕ → Clause G
  not_to_sql (inner, args, next) n =
      if is_empty inner then ("", [], n) else ("NOT (" <> (inner <> ")"), args, next)

  unfoldable mutual
    pub condition_to_sql : Condition G → ℕ → Clause G
    condition_to_sql (field_condition c) n = field_condition_to_sql c n
    condition_to_sql (logical_condition logic cs) n = logical_to_sql logic (conditions_to_sql cs n)
    condition_to_sql (not_condition c) n = not_to_sql (condition_to_sql c n) n
    condition_to_sql absent n = ("", [], n)

    pub conditions_to_sql : Conditions G → ℕ → List String × List (Arg G) × ℕ
    conditions_to_sql none_left n = ([], [], n)
    conditions_to_sql (and_then c cs) n =
        let clause = condition_to_sql c n in
        add_clause clause (conditions_to_sql cs (next_number clause n))

  -- The loop of `buildWhereClauses`, which begins at 1.
  unfoldable pub where_clauses : List (Condition G) → ℕ → List String × List (Arg G) × ℕ
  where_clauses [] n = ([], [], n)
  where_clauses (c ∷ cs) n =
      let clause = condition_to_sql c n in
      add_clause clause (where_clauses cs (next_number clause n))

  unfoldable pub build_where_clauses : List (Condition G) → List String × List (Arg G) × ℕ
  build_where_clauses cs = where_clauses cs 1
