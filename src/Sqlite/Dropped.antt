-- ===== src/Sqlite/Dropped.antt =====
-- Which conditions leave no trace in the WHERE clause.
use Prim.Native.String.{String}
use den.Base.{
  ◌≡◌, refl, ◌∙◌, Bool, true, false, not, ◌&&◌, List, [], ◌∷◌, inl, inr, arith, Bool-cases,
}
use den.Base.Text.{join, is_empty, is_empty-append}
use den.Util.{sanitize_field_name}
use den.Where.{
  GoTypes, Value, field_ref, Operator, LogicType, Condition, Conditions, field_condition,
  logical_condition, not_condition, absent, none_left, and_then,
}
use den.Sqlite.{
  GoText, Clause, json_path, field_ref_to_sql, contains_clause, operator_to_sql, value_to_sql,
  field_condition_to_sql, add_clause, logical_to_sql, not_to_sql, condition_to_sql,
  conditions_to_sql,
}

-- The operators that compare one field with another.
unfoldable pub is_comparison : Operator → Bool
is_comparison Operator.op_eq = true
is_comparison Operator.op_ne = true
is_comparison Operator.op_gt = true
is_comparison Operator.op_gte = true
is_comparison Operator.op_lt = true
is_comparison Operator.op_lte = true
is_comparison _ = false

module _ {G : GoTypes} where
  no_values : Operator → List (Value G) → Bool
  no_values Operator.op_contains_all [] = true
  no_values _ _ = false

  -- A reference under an operator that compares nothing, or `ContainsAll` of no values.
  unfoldable pub is_void_field : Operator → Value G → List (Value G) → Bool
  unfolding no_values
  is_void_field op (field_ref f) values = not (is_comparison op)
  is_void_field op value values = no_values op values

  unfoldable mutual
    -- The condition says nothing to the database.
    pub is_void : Condition G → Bool
    is_void (field_condition c) = is_void_field c.op c.value c.values
    is_void (logical_condition logic cs) = are_void cs
    is_void (not_condition c) = is_void c
    is_void absent = true

    pub are_void : Conditions G → Bool
    are_void none_left = true
    are_void (and_then c cs) = is_void c && are_void cs

json_path-filled : (f : String) → is_empty (json_path f) ≡ false
unfolding json_path is_empty
json_path-filled f = simp is_empty-append

contains_clause-filled : (f : String) → is_empty (contains_clause f) ≡ false
unfolding contains_clause is_empty
contains_clause-filled f = simp is_empty-append

ruleset filled_laws = (is_empty-append, json_path-filled, contains_clause-filled)

join-filled :
    (sep s : String) (ss : List String) → is_empty s ≡ false → is_empty (join sep (s ∷ ss)) ≡ false
unfolding join
join-filled sep s [] h = h
join-filled sep s (t ∷ ss) h = rw (is_empty-append, h)

module _ {G : GoTypes} (go : GoText G) where
  field_ref_to_sql-is_empty :
      (f g : String) (op : Operator)
      → is_empty (field_ref_to_sql (json_path f) (json_path g) op) ≡ not (is_comparison op)
  unfolding field_ref_to_sql is_empty is_comparison
  field_ref_to_sql-is_empty f g Operator.op_eq = simp filled_laws
  field_ref_to_sql-is_empty f g Operator.op_ne = simp filled_laws
  field_ref_to_sql-is_empty f g Operator.op_gt = simp filled_laws
  field_ref_to_sql-is_empty f g Operator.op_gte = simp filled_laws
  field_ref_to_sql-is_empty f g Operator.op_lt = simp filled_laws
  field_ref_to_sql-is_empty f g Operator.op_lte = simp filled_laws
  field_ref_to_sql-is_empty f g _ = refl

  operator_to_sql-is_empty :
      (f : String) (op : Operator) (v : Value G) (vs : List (Value G))
      → is_empty (operator_to_sql go f op v vs).0 ≡ no_values op vs
  unfolding operator_to_sql is_empty no_values join
  operator_to_sql-is_empty f Operator.op_contains_all v [] = refl
  operator_to_sql-is_empty f Operator.op_contains_all v (w ∷ vs) =
      join-filled " AND " (contains_clause f) _ (contains_clause-filled f)
  operator_to_sql-is_empty f _ v vs = simp filled_laws

  value_to_sql-is_empty :
      (f : String) (op : Operator) (v : Value G) (vs : List (Value G))
      → is_empty (value_to_sql go f op v vs).0 ≡ is_void_field op v vs
  unfolding value_to_sql is_void_field
  value_to_sql-is_empty f op (field_ref g) vs =
      field_ref_to_sql-is_empty f (sanitize_field_name g) op
  value_to_sql-is_empty f op v vs = operator_to_sql-is_empty f op v vs

  no_clauses : List String → Bool
  no_clauses [] = true
  no_clauses (s ∷ ss) = false

  add_clause-no_clauses :
      (c : Clause G) (r : List String × List (Value G))
      → no_clauses (add_clause go c r).0 ≡ (is_empty c.0 && no_clauses r.0)
  unfolding add_clause no_clauses
  add_clause-no_clauses (s, args) (ss, rest) = ground arith

  -- The first clause of a list that the loops collect is in parentheses.
  abbrev AllFilled : List String → Type 0
  AllFilled [] = Unit
  AllFilled (s ∷ ss) = is_empty s ≡ false

  add_clause-AllFilled :
      (c : Clause G) (r : List String × List (Value G))
      → AllFilled r.0
      → AllFilled (add_clause go c r).0
  unfolding add_clause is_empty
  add_clause-AllFilled (s, args) (ss, rest) h = elim (Bool-cases (is_empty s)) [
    | inl blank ↦ rw blank h
    | inr filled ↦ rw (filled, is_empty-append)
  ]

  logical_to_sql-is_empty :
      (logic : LogicType) (r : List String × List (Value G))
      → AllFilled r.0
      → is_empty (logical_to_sql go logic r).0 ≡ no_clauses r.0
  unfolding logical_to_sql no_clauses is_empty
  logical_to_sql-is_empty logic ([], args) h = refl
  logical_to_sql-is_empty logic (s ∷ ss, args) h = join-filled _ s ss h

  not_to_sql-is_empty : (c : Clause G) → is_empty (not_to_sql go c).0 ≡ is_empty c.0
  unfolding not_to_sql is_empty
  not_to_sql-is_empty (s, args) = elim (Bool-cases (is_empty s)) [
    | inl blank ↦ rw blank
    | inr filled ↦ rw (filled, is_empty-append)
  ]

  conditions_to_sql-AllFilled : (cs : Conditions G) → AllFilled (conditions_to_sql go cs).0
  unfolding conditions_to_sql
  conditions_to_sql-AllFilled none_left = tt
  conditions_to_sql-AllFilled (and_then c cs) =
      add_clause-AllFilled (condition_to_sql go c) (conditions_to_sql go cs)
        (conditions_to_sql-AllFilled cs)

  mutual
    unfolding condition_to_sql conditions_to_sql is_void are_void field_condition_to_sql no_clauses
        is_empty

    condition-is_empty : (c : Condition G) → is_empty (condition_to_sql go c).0 ≡ is_void c
    condition-is_empty (field_condition c) = value_to_sql-is_empty _ c.op c.value c.values
    condition-is_empty (logical_condition logic cs) =
        logical_to_sql-is_empty logic (conditions_to_sql go cs) (conditions_to_sql-AllFilled cs)
        ∙ conditions-no_clauses cs
    condition-is_empty (not_condition c) =
        not_to_sql-is_empty (condition_to_sql go c) ∙ condition-is_empty c
    condition-is_empty absent = refl

    conditions-no_clauses :
        (cs : Conditions G) → no_clauses (conditions_to_sql go cs).0 ≡ are_void cs
    conditions-no_clauses none_left = refl
    conditions-no_clauses (and_then c cs) =
        add_clause-no_clauses (condition_to_sql go c) (conditions_to_sql go cs)
        ∙ (rw (condition-is_empty c, conditions-no_clauses cs))

  -- The builder drops a condition exactly when it consists of nothing but empty combinations,
  -- missing conditions, `ContainsAll` of no values, and references to a field under an operator
  -- other than the six comparisons; also under `Not` and `Or`.
  pub condition_to_sql-is_empty : (c : Condition G) → is_empty (condition_to_sql go c).0 ≡ is_void c
  condition_to_sql-is_empty c = condition-is_empty c
