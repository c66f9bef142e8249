-- ===== src/Engine/GroupBy.antt =====
-- engine/aggregate.go: grouping, up to the call of the backend: which struct field takes which group
-- key, which aggregates are asked for, and the query. engine/aggregate_scalar.go: the aggregates of a
-- whole query.
pub mod Slots
mod Tests
use Prim.Native.Char.{code}
use Prim.Native.String.{String}
use Prim.Native.String
use text.Mathlib.Text.{◌==◌}
use den.Base.{
  ℕ, zero, suc, ◌+◌, ltb, leb, Bool, true, false, not, ◌&&◌, ◌||◌, Option, none, some, List, [],
  ◌∷◌, ◌++◌, if◌then◌else◌,
}
use den.Base.Int.{ℤ, pos, negsuc}
use den.Base.Errors.{Error}
use den.Base.Results.{Result, ok, err, after}
use den.Where.{GoTypes}
use den.Backend.{
  Query, SortEntry, SortDirection, AggregateOp, op_sum, op_avg, op_min, op_max, op_count,
  GroupByAgg, GroupBySortEntry,
}
use den.Engine.Document.{World, DocType}
use den.Engine.LinkBatch.{holds}
use den.Engine.QuerySet.Run.{unless_error}
use den.Engine.QuerySet.{QuerySet, preflight, build_backend_query}

-- A field of the target struct with its den tag.
pub record GroupField : Type 0 where
  pub tag : String
  pub index : ℕ

pub record GroupByBuilder (X : Type 0) (G : GoTypes) : Type 0 where
  pub qs : QuerySet X G
  pub fields : List String
  pub sort : List GroupBySortEntry

-- The errors of `Into`, beside those of the query set and of the backend.
pub data GroupError (X : Type 0) : Type 0 where
  failed : Error X → GroupError X
  no_group_field mixed_tags needs_one_field : GroupError X
  invalid_slot duplicate_aggregate not_a_group_key : String → GroupError X
  slot_out_of_range : ℤ → GroupError X
  slot_claimed missing_slot : ℕ → GroupError X

abbrev pub same_number : ℕ → ℕ → Bool
same_number a b = leb a b && leb b a

-- `strings.HasPrefix` and `strings.TrimPrefix`: what follows the prefix.
unfoldable pub strip_prefix : String → String → Option String
strip_prefix String.[] s = some s
strip_prefix (String.◌∷◌ c p) String.[] = none
strip_prefix (String.◌∷◌ c p) (String.◌∷◌ d s) =
    let rest = strip_prefix p s in if same_number (code c) (code d) then rest else none

unfoldable pub group_by :
    {X : Type 0} {G : GoTypes} → List String → QuerySet X G → GroupByBuilder X G
group_by fields qs = record { qs = qs; fields = fields; sort = [] }

unfoldable pub order_by_agg :
    {X : Type 0} {G : GoTypes}
    → AggregateOp
    → String
    → SortDirection
    → GroupByBuilder X G
    → GroupByBuilder X G
order_by_agg op field dir gb = record gb {
  sort = gb.sort ++ record { op = op; field = field; dir = dir } ∷ [];
}

-- What a tag says of the group keys. `atoi` is `strconv.Atoi`.
pub data KeyTag : Type 0 where
  unindexed no_key : KeyTag
  positional : String → KeyTag

unfoldable pub positional_or_none : Option String → KeyTag
positional_or_none (some slot) = positional slot
positional_or_none none = no_key

unfoldable pub key_tag : String → KeyTag
key_tag tag =
    if tag == "group_key" then unindexed else positional_or_none (strip_prefix "group_key:" tag)

unfoldable pub is_key : KeyTag → Bool
is_key no_key = false
is_key unindexed = true
is_key (positional slot) = true

unfoldable pub is_group_key_tag : String → Bool
is_group_key_tag tag = is_key (key_tag tag)

unfoldable pub in_range : {X : Type 0} → ℕ → String → Option ℤ → Result (GroupError X) (Option ℕ)
in_range n slot none = err (invalid_slot slot)
in_range n slot (some (negsuc k)) = err (slot_out_of_range (negsuc k))
in_range n slot (some (pos k)) = if ltb k n then ok (some k) else err (slot_out_of_range (pos k))

-- The slot that a tag claims, of so many.
unfoldable pub key_slot :
    {X : Type 0} → (String → Option ℤ) → ℕ → KeyTag → Result (GroupError X) (Option ℕ)
key_slot atoi n no_key = ok none
key_slot atoi n unindexed = if same_number n 1 then ok (some 0) else err needs_one_field
key_slot atoi n (positional slot) = in_range n slot (atoi slot)

-- `slots`, where -1 is `none`.
unfoldable pub no_slots : ℕ → List (Option ℕ)
no_slots zero = []
no_slots (suc n) = none ∷ no_slots n

unfoldable pub slot_at : ℕ → List (Option ℕ) → Option ℕ
slot_at i [] = none
slot_at zero (x ∷ xs) = x
slot_at (suc i) (x ∷ xs) = slot_at i xs

unfoldable pub put_slot : ℕ → ℕ → List (Option ℕ) → List (Option ℕ)
put_slot i v [] = []
put_slot zero v (x ∷ xs) = some v ∷ xs
put_slot (suc i) v (x ∷ xs) = x ∷ put_slot i v xs

unfoldable pub claim_free :
    {X : Type 0} → ℕ → ℕ → List (Option ℕ) → Option ℕ → Result (GroupError X) (List (Option ℕ))
claim_free i v slots none = ok (put_slot i v slots)
claim_free i v slots (some _) = err (slot_claimed i)

unfoldable pub claim :
    {X : Type 0} → Option ℕ → ℕ → List (Option ℕ) → Result (GroupError X) (List (Option ℕ))
claim none v slots = ok slots
claim (some i) v slots = claim_free i v slots (slot_at i slots)

unfoldable pub claim_all :
    {X : Type 0}
    → (String → Option ℤ)
    → ℕ
    → List GroupField
    → List (Option ℕ)
    → Result (GroupError X) (List (Option ℕ))
claim_all atoi n [] slots = ok slots
claim_all atoi n (m ∷ ms) slots =
    after (key_slot atoi n (key_tag m.tag))
      (λ slot. after (claim slot m.index slots) (claim_all atoi n ms))

unfoldable pub has_unindexed : List GroupField → Bool
has_unindexed [] = false
has_unindexed (m ∷ ms) = elim (key_tag m.tag) [
  | unindexed ↦ true
  | no_key ↦ has_unindexed ms
  | positional _ ↦ has_unindexed ms
]

unfoldable pub has_positional : List GroupField → Bool
has_positional [] = false
has_positional (m ∷ ms) = elim (key_tag m.tag) [
  | positional _ ↦ true
  | no_key ↦ has_positional ms
  | unindexed ↦ has_positional ms
]

unfoldable pub filled_from : {X : Type 0} → ℕ → List (Option ℕ) → Result (GroupError X) (List ℕ)
filled_from i [] = ok []
filled_from i (none ∷ xs) = err (missing_slot i)
filled_from i (some v ∷ xs) = after (filled_from (suc i) xs) (λ vs. ok (v ∷ vs))

unfoldable pub resolve_group_key_slots :
    {X : Type 0} → (String → Option ℤ) → List GroupField → ℕ → Result (GroupError X) (List ℕ)
resolve_group_key_slots atoi mappings n = after (claim_all atoi n mappings (no_slots n)) (λ slots.
    if has_unindexed mappings && has_positional mappings
    then err mixed_tags
    else filled_from 0 slots)

-- The aggregate of a tag, if it names one.
unfoldable pub first_agg : List (AggregateOp × Option String) → Option GroupByAgg
first_agg [] = none
first_agg ((op, some field) ∷ rest) = some (record { op = op; field = field })
first_agg ((op, none) ∷ rest) = first_agg rest

unfoldable pub agg_of : String → Option GroupByAgg
agg_of tag =
    if is_group_key_tag tag
    then none
    else if tag == "count"
    then some (record { op = op_count; field = "" })
    else first_agg (
        (op_avg, strip_prefix "avg:" tag)
        ∷ (op_sum, strip_prefix "sum:" tag)
        ∷ (op_min, strip_prefix "min:" tag)
        ∷ (op_max, strip_prefix "max:" tag)
        ∷ [])

-- The aggregates asked for, each with its tag, in the order of the fields.
unfoldable pub build_aggs :
    {X : Type 0}
    → List GroupField
    → List String
    → Result (GroupError X) (List (String × GroupByAgg))
build_aggs [] seen = ok []
build_aggs (m ∷ ms) seen = elim (agg_of m.tag) [
  | none ↦ build_aggs ms seen
  | some a ↦
      if holds seen m.tag
      then err (duplicate_aggregate m.tag)
      else after (build_aggs ms (m.tag ∷ seen)) (λ rest. ok ((m.tag, a) ∷ rest))
]

unfoldable pub check_sort :
    {X : Type 0} → List String → List SortEntry → Result (GroupError X) (Unit {0})
check_sort fields [] = ok tt
check_sort fields (e ∷ es) =
    if holds fields e.field then check_sort fields es else err (not_a_group_key e.field)

-- What `Into` has worked out when it calls the backend.
pub record Grouping (G : GoTypes) : Type 0 where
  pub slots : List ℕ
  pub aggs : List (String × GroupByAgg)
  pub query : Query G

unfoldable pub lift_error :
    {X A : Type 0} → Option (Error X) → Result (GroupError X) A → Result (GroupError X) A
lift_error none rest = rest
lift_error (some e) rest = err (failed e)

unfoldable pub require_field : {X : Type 0} → List String → Result (GroupError X) (Unit {0})
require_field [] = err no_group_field
require_field (f ∷ fs) = ok tt

unfoldable pub count_fields : List String → ℕ
count_fields [] = 0
count_fields (f ∷ fs) = suc (count_fields fs)

unfoldable pub prepare :
    {w : World} {G : GoTypes}
    → (String → Option ℤ)
    → DocType w
    → List GroupField
    → GroupByBuilder w.Failure G
    → Result (GroupError w.Failure) (Grouping G)
prepare atoi ty mappings gb = lift_error (preflight gb.qs) (
    after (require_field gb.fields) (λ _.
      after (resolve_group_key_slots atoi mappings (count_fields gb.fields)) (λ slots.
        after (build_aggs mappings []) (λ aggs.
          let q = build_backend_query ty gb.qs in
          after (check_sort gb.fields q.sort_fields) (λ _. ok (record {
            slots = slots;
            aggs = aggs;
            query = record q { group_by_sort = gb.sort };
          }))))))

-- `Avg`, `Sum`, `Min` and `Max`; a missing result is zero.
unfoldable pub value_or_zero : {V : Type 0} → V → Option V → V
value_or_zero zero_value none = zero_value
value_or_zero zero_value (some v) = v

unfoldable pub aggregate :
    {w : World} {G : GoTypes} {V : Type 0}
    → (AggregateOp → String → Query G → w.Database → Result (Error w.Failure) (Option V))
    → V
    → DocType w
    → AggregateOp
    → String
    → QuerySet w.Failure G
    → w.Database
    → Result (Error w.Failure) V
aggregate backend zero_value ty op field qs s =
    unless_error (preflight qs) (
      after (backend op field (build_backend_query ty qs) s) (λ r. ok (value_or_zero zero_value r)))
