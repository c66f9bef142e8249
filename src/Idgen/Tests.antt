-- ===== src/Idgen/Tests.antt =====
-- Runs of the ULID generator, and its theorems at concrete draws.
use den.Base.{ℕ, ◌+◌, ◌%◌, ◌^◌, ◌≡◌, refl, inr, List, [], ◌∷◌, false, arith, ltb}
use den.Idgen.{
  codes, letter, time_groups, rand_groups, groups, encode, add_carry, add_rand_step80, Generator,
  Draw, advance, new, new_many,
}
use den.Idgen.Carry.{value, nonzero, add_rand_step80-value}
use den.Idgen.Order.{Precedes}
use den.Idgen.Monotone.{
  IsReady, AllHaveRoom, Increasing, encode-Precedes, new_many-Increasing, new_overflow_goes_back,
}

encode_zero :
    encode 0 (0 ∷ 0 ∷ 0 ∷ 0 ∷ 0 ∷ 0 ∷ 0 ∷ 0 ∷ 0 ∷ 0 ∷ []) ≡ codes "00000000000000000000000000"
unfolding encode groups time_groups rand_groups letter
encode_zero = refl

encode_sample :
    encode 1469918176385 (1 ∷ 2 ∷ 3 ∷ 4 ∷ 5 ∷ 250 ∷ 251 ∷ 252 ∷ 253 ∷ 254 ∷ [])
    ≡ codes "01ARYZ6S4104106105ZBXZSZFY"
unfolding encode groups time_groups rand_groups letter
encode_sample = refl

overflow :
    (add_rand_step80 (255 ∷ 255 ∷ 255 ∷ 255 ∷ 255 ∷ 255 ∷ 255 ∷ 255 ∷ 255 ∷ 255 ∷ []) 0).1 ≡ false
unfolding add_rand_step80 add_carry
overflow = refl

abbrev zeros : List ℕ
zeros = 0 ∷ 0 ∷ 0 ∷ 0 ∷ 0 ∷ 0 ∷ 0 ∷ 0 ∷ 0 ∷ 0 ∷ []

abbrev ready : Generator
ready = record {
  last_ms = 1469918176385;
  last_rand = 255 ∷ 255 ∷ 255 ∷ 255 ∷ 255 ∷ 255 ∷ 255 ∷ 255 ∷ 255 ∷ 250 ∷ [];
}

-- A draw within the same millisecond, and one after the clock ran back.
abbrev draws : List Draw
draws =
    record { now = 1469918176385; step = 3; seed = zeros }
    ∷ record { now = 1469918176384; step = 0; seed = zeros }
    ∷ []

ready-IsReady : IsReady ready
ready-IsReady = record { bytes = omega arith; ten = refl; time = omega arith }

draws-AllHaveRoom : AllHaveRoom ready draws
unfolding advance value add_rand_step80 add_carry
draws-AllHaveRoom = (
  record { bytes = omega arith; ten = refl; time = omega arith },
  inr (omega arith),
  (record { bytes = omega arith; ten = refl; time = omega arith }, inr (omega arith), tt),
)

new_many-Increasing_example :
    Increasing (encode ready.last_ms ready.last_rand) (new_many ready draws)
new_many-Increasing_example = new_many-Increasing ready draws ready-IsReady draws-AllHaveRoom

abbrev big_step : Draw
big_step = record { now = 1469918176385; step = 6; seed = zeros }

new_overflow_goes_back_example :
    Precedes (new ready big_step).1 (encode ready.last_ms ready.last_rand)
unfolding value
new_overflow_goes_back_example =
    new_overflow_goes_back ready big_step ready-IsReady
      (record { bytes = omega arith; ten = refl; time = omega arith }) (omega arith) (omega arith)
      (omega arith)

add_rand_step80-value_example :
    (value (add_rand_step80 ready.last_rand 9).0 ≡ (value ready.last_rand + nonzero 9) % 2 ^ 80)
    × ((add_rand_step80 ready.last_rand 9).1 ≡ ltb (value ready.last_rand + nonzero 9) (2 ^ 80))
add_rand_step80-value_example = add_rand_step80-value ready.last_rand 9 (omega arith) refl

encode-Precedes_example : Precedes (encode 7 ready.last_rand) (encode 8 zeros)
unfolding value
encode-Precedes_example =
    encode-Precedes 7 8 ready.last_rand zeros (omega arith) (omega arith) (omega arith, refl)
      (omega arith, refl) (omega arith)
