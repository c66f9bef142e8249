-- ===== src/Backend.antt =====
-- backend/backend.go: the query that a backend translates, and the values that cross the interface.
pub mod GroupBy
use den.Base.{String, List, Option}
use den.Base.Int.{ℤ}
use den.Where.{GoTypes, Condition}

pub data SortDirection : Type 0 where
  asc desc : SortDirection

pub record SortEntry : Type 0 where
  pub field : String
  pub dir : SortDirection

pub data LockMode : Type 0 where
  lock_default lock_skip_locked lock_no_wait : LockMode

-- `AggregateOp`, a defined string type; `unknown_op` is any other string.
pub data AggregateOp : Type 0 where
  op_sum op_avg op_min op_max op_count : AggregateOp
  unknown_op : String → AggregateOp

pub record GroupByAgg : Type 0 where
  pub op : AggregateOp
  pub field : String

pub record GroupBySortEntry : Type 0 where
  pub op : AggregateOp
  pub field : String
  pub dir : SortDirection

pub record Query (G : GoTypes) : Type 0 where
  pub collection : String
  pub conditions : List (Condition G)
  pub sort_fields : List SortEntry
  pub limit_n : ℤ
  pub skip_n : ℤ
  pub after_id : String
  pub before_id : String
  pub lock : Option LockMode
  pub group_by_sort : List GroupBySortEntry
