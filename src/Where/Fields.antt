-- ===== src/Where/Fields.antt =====
-- The builders of where/where.go: the methods of `FieldBuilder`, which is a field's name here, and
-- the combinators.
use den.Base.{String, List, [], ◌∷◌}
use den.Where.{
  GoTypes, Value, nil, str, Operator, logic_and, logic_or, Condition, Conditions, field_condition,
  logical_condition, none_left, and_then,
}

module _ {G : GoTypes} where
  single : String → Operator → Value G → Condition G
  single name op value =
      field_condition (record { field = name; op = op; value = value; values = [] })

  several : String → Operator → List (Value G) → Condition G
  several name op values =
      field_condition (record { field = name; op = op; value = nil; values = values })

  unfoldable pub eq : String → Value G → Condition G
  unfolding single
  eq name value = single name Operator.op_eq value

  unfoldable pub ne : String → Value G → Condition G
  unfolding single
  ne name value = single name Operator.op_ne value

  unfoldable pub gt : String → Value G → Condition G
  unfolding single
  gt name value = single name Operator.op_gt value

  unfoldable pub gte : String → Value G → Condition G
  unfolding single
  gte name value = single name Operator.op_gte value

  unfoldable pub lt : String → Value G → Condition G
  unfolding single
  lt name value = single name Operator.op_lt value

  unfoldable pub lte : String → Value G → Condition G
  unfolding single
  lte name value = single name Operator.op_lte value

  unfoldable pub in_values : String → List (Value G) → Condition G
  unfolding several
  in_values name values = several name Operator.op_in values

  unfoldable pub not_in : String → List (Value G) → Condition G
  unfolding several
  not_in name values = several name Operator.op_not_in values

  unfoldable pub is_nil : String → Condition G
  unfolding single
  is_nil name = single name Operator.op_is_nil nil

  unfoldable pub is_not_nil : String → Condition G
  unfolding single
  is_not_nil name = single name Operator.op_is_not_nil nil

  unfoldable pub contains : String → Value G → Condition G
  unfolding single
  contains name value = single name Operator.op_contains value

  unfoldable pub contains_any : String → List (Value G) → Condition G
  unfolding several
  contains_any name values = several name Operator.op_contains_any values

  unfoldable pub contains_all : String → List (Value G) → Condition G
  unfolding several
  contains_all name values = several name Operator.op_contains_all values

  unfoldable pub starts_with : String → String → Condition G
  unfolding single
  starts_with name prefix = single name Operator.op_starts_with (str prefix)

  unfoldable pub ends_with : String → String → Condition G
  unfolding single
  ends_with name suffix = single name Operator.op_ends_with (str suffix)

  unfoldable pub string_contains : String → String → Condition G
  unfolding single
  string_contains name substr = single name Operator.op_string_contains (str substr)

  unfoldable pub has_key : String → String → Condition G
  unfolding single
  has_key name key = single name Operator.op_has_key (str key)

  unfoldable pub reg_exp : String → Value G → Condition G
  unfolding single
  reg_exp name re = single name Operator.op_reg_exp re

  -- The variadic arguments of `And` and `Or`.
  unfoldable pub conditions : List (Condition G) → Conditions G
  conditions [] = none_left
  conditions (c ∷ cs) = and_then c (conditions cs)

  unfoldable pub all_of : List (Condition G) → Condition G
  unfolding conditions
  all_of cs = logical_condition logic_and (conditions cs)

  unfoldable pub any_of : List (Condition G) → Condition G
  unfolding conditions
  any_of cs = logical_condition logic_or (conditions cs)
