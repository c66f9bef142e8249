-- ===== src/Idgen.antt =====
-- idgen/ulid.go: ULID-format document IDs. The generator's mutex makes `New` one step on its state;
-- the clock and the random source are inputs of that step.
pub mod Carry
pub mod Digits
pub mod Order
pub mod Monotone
mod Tests
use Prim.Native.Char.{code}
use Prim.Native.Nat.{bit_and, bit_or}
use Prim.Native.String
use den.Base.{
  ℕ, zero, suc, ◌+◌, ◌*◌, ◌/◌, ◌%◌, ◌^◌, String, Bool, List, [], ◌∷◌, ◌++◌, map, ltb, ◌==◌,
  if◌then◌else◌, get_or, set,
}

-- A text as its code points, which for these IDs are its bytes.
abbrev pub codes : String → List ℕ
codes String.[] = []
codes (String.◌∷◌ c s) = code c ∷ codes s

abbrev pub crockford_alphabet : List ℕ
crockford_alphabet = codes "0123456789ABCDEFGHJKMNPQRSTVWXYZ"

-- `crockfordAlphabet[i]`
unfoldable pub letter : ℕ → ℕ
letter i = get_or crockford_alphabet i 0

-- `(ms >> k) & 0x1F`: the five bits of `ms` from bit `k` on.
abbrev pub bits_at : ℕ → ℕ → ℕ
bits_at ms k = ms / 2 ^ k % 2 ^ 5

-- The ten groups of the 48-bit timestamp, most significant first.
unfoldable pub time_groups : ℕ → List ℕ
time_groups ms =
    bits_at ms 45
    ∷ bits_at ms 40
    ∷ bits_at ms 35
    ∷ bits_at ms 30
    ∷ bits_at ms 25
    ∷ bits_at ms 20
    ∷ bits_at ms 15
    ∷ bits_at ms 10
    ∷ bits_at ms 5
    ∷ ms % 2 ^ 5
    ∷ []

-- Five random bytes make eight groups; `encode` writes this pattern out for r[0..4] and r[5..9].
unfoldable pub rand_groups : ℕ → ℕ → ℕ → ℕ → ℕ → List ℕ
rand_groups r0 r1 r2 r3 r4 =
    bit_and r0 0xF8 / 2 ^ 3
    ∷ bit_or (bit_and r0 0x07 * 2 ^ 2) (bit_and r1 0xC0 / 2 ^ 6)
    ∷ bit_and r1 0x3E / 2 ^ 1
    ∷ bit_or (bit_and r1 0x01 * 2 ^ 4) (bit_and r2 0xF0 / 2 ^ 4)
    ∷ bit_or (bit_and r2 0x0F * 2 ^ 1) (bit_and r3 0x80 / 2 ^ 7)
    ∷ bit_and r3 0x7C / 2 ^ 2
    ∷ bit_or (bit_and r3 0x03 * 2 ^ 3) (bit_and r4 0xE0 / 2 ^ 5)
    ∷ bit_and r4 0x1F
    ∷ []

-- `r[i]`
abbrev pub byte : List ℕ → ℕ → ℕ
byte r i = get_or r i 0

unfoldable pub groups : ℕ → List ℕ → List ℕ
groups ms r =
    time_groups ms
    ++ (rand_groups (byte r 0) (byte r 1) (byte r 2) (byte r 3) (byte r 4)
        ++ rand_groups (byte r 5) (byte r 6) (byte r 7) (byte r 8) (byte r 9))

unfoldable pub encode : ℕ → List ℕ → List ℕ
encode ms r = map letter (groups ms r)

-- The loop of `addRandStep80`: `i` counts the bytes left, so the byte in hand is `b[i - 1]`.
unfoldable pub add_carry : ℕ → List ℕ → ℕ → List ℕ × ℕ
add_carry zero b carry = (b, carry)
add_carry (suc i) b carry =
    let sum = byte b i + carry in
    let rest = add_carry i (set b i (sum % 2 ^ 8)) (sum / 2 ^ 8) in
    if carry == 0 then (b, carry) else rest

-- The array after the call, and whether the sum stayed within 80 bits. `step` is the uint32 read
-- from the random source.
unfoldable pub add_rand_step80 : List ℕ → ℕ → List ℕ × Bool
add_rand_step80 b step =
    let (b', carry) = add_carry 10 b (if step == 0 then 1 else step) in (b', carry == 0)

pub record Generator : Type 0 where
  pub last_ms : ℕ
  pub last_rand : List ℕ

-- What one call reads from outside: the clock, the 32-bit step, and the ten bytes of a seed.
pub record Draw : Type 0 where
  pub now : ℕ
  pub step : ℕ
  pub seed : List ℕ

unfoldable pub advance : Generator → Draw → Generator
advance g d =
    if ltb g.last_ms d.now
    then record { last_ms = d.now; last_rand = d.seed }
    else let (b, fits) = add_rand_step80 g.last_rand d.step in
      record g { last_rand = if fits then b else d.seed }

-- `generator.new`: the new state and the ID.
unfoldable pub new : Generator → Draw → Generator × List ℕ
new g d = let g' = advance g d in (g', encode g'.last_ms g'.last_rand)

-- Successive calls.
unfoldable pub new_many : Generator → List Draw → List (List ℕ)
new_many g [] = []
new_many g (d ∷ ds) = let (g', id) = new g d in id ∷ new_many g' ds
