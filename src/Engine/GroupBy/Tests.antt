-- ===== src/Engine/GroupBy/Tests.antt =====
-- Two group keys, claimed out of order.
use Prim.Native.String.{String}
use text.Mathlib.Text.{◌==◌}
use den.Base.{◌≡◌, refl, ℕ, Option, none, some, List, [], ◌∷◌, if◌then◌else◌}
use den.Base.Int.{ℤ, pos}
use den.Base.Results.{Result, ok}
use den.Engine.QuerySet.Writes.{size}
use den.Engine.GroupBy.{
  GroupField, GroupError, strip_prefix, positional_or_none, key_tag, in_range, key_slot, no_slots,
  slot_at, put_slot, claim_free, claim, claim_all, has_unindexed, has_positional, filled_from,
  resolve_group_key_slots,
}
use den.Engine.GroupBy.Slots.{nth, Claims, resolve_group_key_slots_lem}

abbrev atoi : String → Option ℤ
atoi s = if s == "0" then some (pos 0) else if s == "1" then some (pos 1) else none

abbrev target : List GroupField
target =
    record { tag = "count"; index = 0 }
    ∷ record { tag = "group_key:1"; index = 1 }
    ∷ record { tag = "group_key:0"; index = 2 }
    ∷ []

abbrev slots : List ℕ
slots = 2 ∷ 1 ∷ []

target_resolves :
    Path (Result (GroupError String) (List ℕ)) (resolve_group_key_slots atoi target 2) (ok slots)
unfolding resolve_group_key_slots strip_prefix positional_or_none key_tag in_range key_slot no_slots
    slot_at put_slot claim_free claim claim_all has_unindexed has_positional filled_from
target_resolves = refl

resolve_group_key_slots_lem_example : (size slots ≡ 2) × Claims String atoi 2 target 1 1
unfolding nth
resolve_group_key_slots_lem_example =
    resolve_group_key_slots_lem String atoi 2 target slots 1 1 target_resolves refl
