-- ===== src/Where.antt =====
-- where/where.go: query conditions. A condition holds Go values of any type; their types beyond
-- string and the ones that the SQL builders look at are a parameter.
pub mod Fields
use den.Base.{String, List}

-- The Go types that the model does not look into: time.Time, the scalars other than string (and
-- types defined as one of these or as string), and everything else.
pub record GoTypes : Type 1 where
  pub Time : Type 0
  pub Scalar : Type 0
  pub Other : Type 0

-- A value of type `any`. `typed_nil` is a nil *time.Time, json.RawMessage or
-- []byte; a byte slice is given as the text of its bytes.
pub data Value (G : GoTypes) : Type 0 where
  nil : Value G
  str : String → Value G
  field_ref : String → Value G
  scalar : G.Scalar → Value G
  time : G.Time → Value G
  time_pointer : G.Time → Value G
  raw_message : String → Value G
  byte_slice : String → Value G
  typed_nil : Value G
  other : G.Other → Value G

pub data Operator : Type 0 where
  op_eq op_ne op_gt op_gte op_lt op_lte op_in op_not_in op_is_nil op_is_not_nil : Operator
  op_contains op_contains_any op_contains_all op_reg_exp op_has_key : Operator
  op_starts_with op_ends_with op_string_contains : Operator

pub data LogicType : Type 0 where
  logic_and logic_or : LogicType

-- `fieldCondition`
pub record FieldCondition (G : GoTypes) : Type 0 where
  pub field : String
  pub op : Operator
  pub value : Value G
  pub values : List (Value G)

-- `absent` is a nil interface among the conditions.
mutual
  pub data Condition (G : GoTypes) : Type 0 where
    field_condition : FieldCondition G → Condition G
    logical_condition : LogicType → Conditions G → Condition G
    not_condition : Condition G → Condition G
    absent : Condition G

  pub data Conditions (G : GoTypes) : Type 0 where
    none_left : Conditions G
    and_then : Condition G → Conditions G → Conditions G
