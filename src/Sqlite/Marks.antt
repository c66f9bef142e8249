-- ===== src/Sqlite/Marks.antt =====
-- The placeholders of a clause against the arguments that are bound to them.
use native.Mathlib.Nat.{zero-add, add-zero}
use Prim.Native.String.{String}
use den.Base.{
  ℕ, ◌+◌, ◌≡◌, refl, ◌∙◌, List, [], ◌∷◌, map, arith, inl, inr, Bool-cases, length, length-append,
  length-map,
}
use den.Base.Text.{◌<>◌, join, is_empty, count_char, count_char-append}
use den.Util.{is_safe, sanitize_field_name}
use den.Util.Names.{sanitize-AllChars, count_char-safe}
use den.Where.{
  GoTypes, Value, field_ref, Operator, LogicType, logic_and, logic_or, Condition, Conditions,
  field_condition, logical_condition, not_condition, absent, none_left, and_then,
}
use den.Sqlite.{
  GoText, Clause, json_path, field_ref_to_sql, placeholders, contains_clause, format_bind_args,
  operator_to_sql, value_to_sql, field_condition_to_sql, add_clause, logic_separator,
  logical_to_sql, not_to_sql, condition_to_sql, conditions_to_sql, build_where_clauses,
}

-- The number of `?` in a text.
abbrev pub marks : String → ℕ
marks s = count_char b'?' s

pub sanitized-marks : (f : String) → marks (sanitize_field_name f) ≡ 0
unfolding is_safe
sanitized-marks f = count_char-safe b'?' (sanitize_field_name f) refl (sanitize-AllChars f)

pub marks-append : (s t : String) → marks (s <> t) ≡ marks s + marks t
marks-append s t = count_char-append b'?' s t

pub json_path-marks : (f : String) → marks (json_path (sanitize_field_name f)) ≡ 0
unfolding json_path count_char
json_path-marks f = simp (marks-append, sanitized-marks)

pub contains_clause-marks : (f : String) → marks (contains_clause (sanitize_field_name f)) ≡ 1
unfolding contains_clause count_char
contains_clause-marks f = simp (marks-append, sanitized-marks)

-- Joining copies of one text.
join-marks :
    {A : Type 0} (sep text : String) (xs : List A)
    → marks sep ≡ 0
    → marks text ≡ 1
    → marks (join sep (map (λ _. text) xs)) ≡ length xs
unfolding join count_char
join-marks sep text [] h k = refl
join-marks sep text (x ∷ []) h k = k
join-marks sep text (x ∷ y ∷ xs) h k =
    rw (marks-append text, marks-append sep, h, k, join-marks sep text (y ∷ xs) h k) (omega arith)

pub placeholders-marks : {A : Type 0} (xs : List A) → marks (placeholders xs) ≡ length xs
unfolding placeholders count_char
placeholders-marks xs = join-marks ", " "?" xs refl refl

pub ruleset mark_laws = (
  marks-append, sanitized-marks, json_path-marks, contains_clause-marks, placeholders-marks,
  length-map, add-zero, zero-add,
)

-- The placeholders of several texts.
unfoldable pub total_marks : List String → ℕ
total_marks [] = 0
total_marks (s ∷ ss) = marks s + total_marks ss

pub join-total_marks :
    (sep : String) (ss : List String) → marks sep ≡ 0 → marks (join sep ss) ≡ total_marks ss
unfolding total_marks join count_char
join-total_marks sep [] h = refl
join-total_marks sep (s ∷ []) h = omega arith
join-total_marks sep (s ∷ t ∷ ss) h =
    rw (marks-append s, marks-append sep, h, join-total_marks sep (t ∷ ss) h) (omega arith)

module _ {G : GoTypes} (go : GoText G) where
  operator_to_sql-marks :
      (f : String) (op : Operator) (v : Value G) (vs : List (Value G))
      → marks (operator_to_sql go (sanitize_field_name f) op v vs).0
        ≡ length (operator_to_sql go (sanitize_field_name f) op v vs).1
  unfolding operator_to_sql count_char format_bind_args
  operator_to_sql-marks f Operator.op_eq v vs = simp mark_laws
  operator_to_sql-marks f Operator.op_contains_all v vs = rw (length-map) (
      join-marks " AND " (contains_clause (sanitize_field_name f)) vs refl
        (contains_clause-marks f))
  operator_to_sql-marks f _ v vs = simp mark_laws

  field_ref_to_sql-marks :
      (f g : String) (op : Operator)
      → marks (
          field_ref_to_sql
            (json_path (sanitize_field_name f))
            (json_path (sanitize_field_name g))
            op)
        ≡ 0
  unfolding field_ref_to_sql count_char
  field_ref_to_sql-marks f g Operator.op_eq = simp mark_laws
  field_ref_to_sql-marks f g Operator.op_ne = simp mark_laws
  field_ref_to_sql-marks f g Operator.op_gt = simp mark_laws
  field_ref_to_sql-marks f g Operator.op_gte = simp mark_laws
  field_ref_to_sql-marks f g Operator.op_lt = simp mark_laws
  field_ref_to_sql-marks f g Operator.op_lte = simp mark_laws
  field_ref_to_sql-marks f g _ = refl

  -- A clause has as many placeholders as arguments.
  abbrev pub IsBalanced : Clause G → Type 0
  IsBalanced (text, args) = marks text ≡ length args

  value_to_sql-IsBalanced :
      (f : String) (op : Operator) (v : Value G) (vs : List (Value G))
      → IsBalanced (value_to_sql go (sanitize_field_name f) op v vs)
  unfolding value_to_sql
  value_to_sql-IsBalanced f op (field_ref g) vs = field_ref_to_sql-marks f g op
  value_to_sql-IsBalanced f op v vs = operator_to_sql-marks f op v vs

  -- What the loop collects.
  abbrev pub AreBalanced : List String × List (Value G) → Type 0
  AreBalanced (clauses, args) = total_marks clauses ≡ length args

  add_clause-AreBalanced :
      (c : Clause G) (r : List String × List (Value G))
      → IsBalanced c
      → AreBalanced r
      → AreBalanced (add_clause go c r)
  unfolding add_clause total_marks count_char
  add_clause-AreBalanced (text, args) (clauses, rest) h k = elim (Bool-cases (is_empty text)) [
    | inl blank ↦ rw blank k
    | inr filled ↦
        rw (filled, marks-append, marks-append, length-append args rest, h, k) (omega arith)
  ]

  separator-marks : (logic : LogicType) → marks (logic_separator go logic) ≡ 0
  unfolding logic_separator count_char
  separator-marks logic_and = refl
  separator-marks logic_or = refl

  logical_to_sql-IsBalanced :
      (logic : LogicType) (r : List String × List (Value G))
      → AreBalanced r
      → IsBalanced (logical_to_sql go logic r)
  unfolding logical_to_sql total_marks count_char
  logical_to_sql-IsBalanced logic ([], args) h = refl
  logical_to_sql-IsBalanced logic (c ∷ cs, args) h =
      join-total_marks (logic_separator go logic) (c ∷ cs) (separator-marks logic) ∙ h

  not_to_sql-IsBalanced : (c : Clause G) → IsBalanced c → IsBalanced (not_to_sql go c)
  unfolding not_to_sql count_char
  not_to_sql-IsBalanced (text, args) h = elim (Bool-cases (is_empty text)) [
    | inl blank ↦ rw blank
    | inr filled ↦ rw (filled, marks-append, marks-append, h) (omega arith)
  ]

  mutual
    unfolding condition_to_sql conditions_to_sql field_condition_to_sql total_marks count_char

    condition_to_sql-IsBalanced : (c : Condition G) → IsBalanced (condition_to_sql go c)
    condition_to_sql-IsBalanced (field_condition c) =
        value_to_sql-IsBalanced c.field c.op c.value c.values
    condition_to_sql-IsBalanced (logical_condition logic cs) =
        logical_to_sql-IsBalanced logic _ (conditions_to_sql-AreBalanced cs)
    condition_to_sql-IsBalanced (not_condition c) =
        not_to_sql-IsBalanced (condition_to_sql go c) (condition_to_sql-IsBalanced c)
    condition_to_sql-IsBalanced absent = refl

    conditions_to_sql-AreBalanced : (cs : Conditions G) → AreBalanced (conditions_to_sql go cs)
    conditions_to_sql-AreBalanced none_left = refl
    conditions_to_sql-AreBalanced (and_then c cs) =
        add_clause-AreBalanced (condition_to_sql go c) (conditions_to_sql go cs)
          (condition_to_sql-IsBalanced c) (conditions_to_sql-AreBalanced cs)

  -- In what `buildWhereClauses` returns, the clauses together have as many `?` as there are arguments.
  pub build_where_clauses-AreBalanced :
      (cs : List (Condition G)) → AreBalanced (build_where_clauses go cs)
  unfolding build_where_clauses total_marks
  build_where_clauses-AreBalanced [] = refl
  build_where_clauses-AreBalanced (c ∷ cs) =
      add_clause-AreBalanced (condition_to_sql go c) (build_where_clauses go cs)
        (condition_to_sql-IsBalanced c) (build_where_clauses-AreBalanced cs)
