-- ===== src/Idgen/Digits.antt =====
-- The groups of `encode` (idgen/ulid.go) as base-32 digits of the timestamp and of the random bytes.
use Prim.Native.Nat.{bit_and, bit_or}
use native.Mathlib.Nat.{pow-suc, zero-add}
use den.Base.{
  ℕ, zero, suc, ◌+◌, ◌*◌, ◌/◌, ◌%◌, ◌^◌, ◌<◌, ◌≡◌, refl, true, List, [], ◌∷◌, ◌++◌, arith, ◌==◌,
  ==_iff, length, length-append, All, All-get_or, all_below, all_below_sound,
}
use den.Idgen.{byte, time_groups, rand_groups, groups}
use den.Idgen.Carry.{value, IsBytes}

-- The number that a list of base-32 digits stands for.
unfoldable pub value32 : List ℕ → ℕ
value32 [] = 0
value32 (d ∷ ds) = d * 32 ^ length ds + value32 ds

abbrev pub IsDigits : List ℕ → Type 0
IsDigits ds = All (λ d. d < 32) ds

time_groups-value : (ms : ℕ) → ms < 2 ^ 50 → value32 (time_groups ms) ≡ ms
unfolding value32 time_groups
time_groups-value ms h = omega arith

time_groups-IsDigits : (ms : ℕ) → IsDigits (time_groups ms)
unfolding time_groups
time_groups-IsDigits ms = omega arith

-- Two functions that agree at every value below `n`, as evaluation shows, agree below `n`.
by_table :
    (n : ℕ) (f g : ℕ → ℕ) → all_below n (λ x. f x == g x) ≡ true → (x : ℕ) → x < n → f x ≡ g x
by_table n f g table x h = (==_iff _ _).0 (all_below_sound n (λ y. f y == g y) x table h)

mask_f8 : (x : ℕ) → x < 256 → bit_and x 0xF8 / 2 ^ 3 ≡ x / 8
unfolding all_below
mask_f8 = by_table 256 (λ x. bit_and x 0xF8 / 2 ^ 3) (λ x. x / 8) refl

mask_c0 : (x : ℕ) → x < 256 → bit_and x 0xC0 / 2 ^ 6 ≡ x / 64
unfolding all_below
mask_c0 = by_table 256 (λ x. bit_and x 0xC0 / 2 ^ 6) (λ x. x / 64) refl

mask_3e : (x : ℕ) → x < 256 → bit_and x 0x3E / 2 ^ 1 ≡ x % 64 / 2
unfolding all_below
mask_3e = by_table 256 (λ x. bit_and x 0x3E / 2 ^ 1) (λ x. x % 64 / 2) refl

mask_f0 : (x : ℕ) → x < 256 → bit_and x 0xF0 / 2 ^ 4 ≡ x / 16
unfolding all_below
mask_f0 = by_table 256 (λ x. bit_and x 0xF0 / 2 ^ 4) (λ x. x / 16) refl

mask_80 : (x : ℕ) → x < 256 → bit_and x 0x80 / 2 ^ 7 ≡ x / 128
unfolding all_below
mask_80 = by_table 256 (λ x. bit_and x 0x80 / 2 ^ 7) (λ x. x / 128) refl

mask_7c : (x : ℕ) → x < 256 → bit_and x 0x7C / 2 ^ 2 ≡ x % 128 / 4
unfolding all_below
mask_7c = by_table 256 (λ x. bit_and x 0x7C / 2 ^ 2) (λ x. x % 128 / 4) refl

mask_e0 : (x : ℕ) → x < 256 → bit_and x 0xE0 / 2 ^ 5 ≡ x / 32
unfolding all_below
mask_e0 = by_table 256 (λ x. bit_and x 0xE0 / 2 ^ 5) (λ x. x / 32) refl

mask_07 : (x : ℕ) → x < 256 → bit_and x 0x07 ≡ x % 8
unfolding all_below
mask_07 = by_table 256 (λ x. bit_and x 0x07) (λ x. x % 8) refl

mask_01 : (x : ℕ) → x < 256 → bit_and x 0x01 ≡ x % 2
unfolding all_below
mask_01 = by_table 256 (λ x. bit_and x 0x01) (λ x. x % 2) refl

mask_0f : (x : ℕ) → x < 256 → bit_and x 0x0F ≡ x % 16
unfolding all_below
mask_0f = by_table 256 (λ x. bit_and x 0x0F) (λ x. x % 16) refl

mask_03 : (x : ℕ) → x < 256 → bit_and x 0x03 ≡ x % 4
unfolding all_below
mask_03 = by_table 256 (λ x. bit_and x 0x03) (λ x. x % 4) refl

mask_1f : (x : ℕ) → x < 256 → bit_and x 0x1F ≡ x % 32
unfolding all_below
mask_1f = by_table 256 (λ x. bit_and x 0x1F) (λ x. x % 32) refl

join_2 : (a b : ℕ) → a < 8 → b < 4 → bit_or (a * 2 ^ 2) b ≡ a * 4 + b
unfolding all_below
join_2 a b p q =
    rw (split_high, split_low) at
      (by_table 32 (λ x. bit_or (x / 4 * 2 ^ 2) (x % 4)) (λ x. x) refl (a * 4 + b) (omega arith))
  where
    split_high : (a * 4 + b) / 4 ≡ a
    split_high = omega arith

    split_low : (a * 4 + b) % 4 ≡ b
    split_low = omega arith

join_4 : (a b : ℕ) → a < 2 → b < 16 → bit_or (a * 2 ^ 4) b ≡ a * 16 + b
unfolding all_below
join_4 a b p q =
    rw (split_high, split_low) at
      (by_table 32 (λ x. bit_or (x / 16 * 2 ^ 4) (x % 16)) (λ x. x) refl (a * 16 + b) (omega arith))
  where
    split_high : (a * 16 + b) / 16 ≡ a
    split_high = omega arith

    split_low : (a * 16 + b) % 16 ≡ b
    split_low = omega arith

join_1 : (a b : ℕ) → a < 16 → b < 2 → bit_or (a * 2 ^ 1) b ≡ a * 2 + b
unfolding all_below
join_1 a b p q =
    rw (split_high, split_low) at
      (by_table 32 (λ x. bit_or (x / 2 * 2 ^ 1) (x % 2)) (λ x. x) refl (a * 2 + b) (omega arith))
  where
    split_high : (a * 2 + b) / 2 ≡ a
    split_high = omega arith

    split_low : (a * 2 + b) % 2 ≡ b
    split_low = omega arith

join_3 : (a b : ℕ) → a < 4 → b < 8 → bit_or (a * 2 ^ 3) b ≡ a * 8 + b
unfolding all_below
join_3 a b p q =
    rw (split_high, split_low) at
      (by_table 32 (λ x. bit_or (x / 8 * 2 ^ 3) (x % 8)) (λ x. x) refl (a * 8 + b) (omega arith))
  where
    split_high : (a * 8 + b) / 8 ≡ a
    split_high = omega arith

    split_low : (a * 8 + b) % 8 ≡ b
    split_low = omega arith

-- The same eight groups by division and remainder.
abbrev plain_groups : ℕ → ℕ → ℕ → ℕ → ℕ → List ℕ
plain_groups r0 r1 r2 r3 r4 =
    r0 / 8
    ∷ (r0 % 8 * 4 + r1 / 64)
    ∷ r1 % 64 / 2
    ∷ (r1 % 2 * 16 + r2 / 16)
    ∷ (r2 % 16 * 2 + r3 / 128)
    ∷ r3 % 128 / 4
    ∷ (r3 % 4 * 8 + r4 / 32)
    ∷ r4 % 32
    ∷ []

module _ (r0 r1 r2 r3 r4 : ℕ) (h0 : r0 < 256) (h1 : r1 < 256) (h2 : r2 < 256) (h3 : r3 < 256)
    (h4 : r4 < 256) where
  rand_groups-eq-plain : rand_groups r0 r1 r2 r3 r4 ≡ plain_groups r0 r1 r2 r3 r4
  unfolding rand_groups
  rand_groups-eq-plain = rw (
    mask_f8 r0 h0,
    mask_07 r0 h0,
    mask_c0 r1 h1,
    mask_3e r1 h1,
    mask_01 r1 h1,
    mask_f0 r2 h2,
    mask_0f r2 h2,
    mask_80 r3 h3,
    mask_7c r3 h3,
    mask_03 r3 h3,
    mask_e0 r4 h4,
    mask_1f r4 h4,
    join_2 (r0 % 8) (r1 / 64) (omega arith) (omega arith),
    join_4 (r1 % 2) (r2 / 16) (omega arith) (omega arith),
    join_1 (r2 % 16) (r3 / 128) (omega arith) (omega arith),
    join_3 (r3 % 4) (r4 / 32) (omega arith) (omega arith),
  )

  plain_groups-value :
      value32 (plain_groups r0 r1 r2 r3 r4)
      ≡ r0 * 256 ^ 4 + r1 * 256 ^ 3 + r2 * 256 ^ 2 + r3 * 256 + r4
  unfolding value32
  plain_groups-value = omega arith

  plain_groups-IsDigits : IsDigits (plain_groups r0 r1 r2 r3 r4)
  plain_groups-IsDigits = omega arith

pow32-add : (m n : ℕ) → 32 ^ (m + n) ≡ 32 ^ m * 32 ^ n
pow32-add zero n = rw zero-add (omega arith)
pow32-add (suc m) n =
    let regroup : suc m + n ≡ suc (m + n) = omega arith in
    rw (regroup, pow-suc 32 (m + n), pow-suc 32 m, pow32-add m n) (omega arith)

value32-append : (xs ys : List ℕ) → value32 (xs ++ ys) ≡ value32 xs * 32 ^ length ys + value32 ys
unfolding value32
value32-append [] ys = omega arith
value32-append (x ∷ xs) ys =
    rw (length-append xs ys, pow32-add (length xs) (length ys))
      (omega (arith, value32-append xs ys))

-- The 26 groups of an ID are the base-32 digits of the timestamp followed by the random bytes.
pub groups-value :
    (ms : ℕ) (b : List ℕ)
    → ms < 2 ^ 50
    → IsBytes b
    → length b ≡ 10
    → value32 (groups ms b) ≡ ms * 2 ^ 80 + value b
unfolding groups value
groups-value ms (x0 ∷ x1 ∷ x2 ∷ x3 ∷ x4 ∷ x5 ∷ x6 ∷ x7 ∷ x8 ∷ x9 ∷ []) t h k =
    rw (high, low)
      (omega (
        arith,
        value32-append (time_groups ms)
            (plain_groups x0 x1 x2 x3 x4 ++ plain_groups x5 x6 x7 x8 x9),
        value32-append (plain_groups x0 x1 x2 x3 x4) (plain_groups x5 x6 x7 x8 x9),
        time_groups-value ms t,
        plain_groups-value x0 x1 x2 x3 x4,
        plain_groups-value x5 x6 x7 x8 x9,
      ))
  where
    high : rand_groups x0 x1 x2 x3 x4 ≡ plain_groups x0 x1 x2 x3 x4
    high =
        rand_groups-eq-plain x0 x1 x2 x3 x4 (omega arith) (omega arith) (omega arith) (omega arith)
          (omega arith)

    low : rand_groups x5 x6 x7 x8 x9 ≡ plain_groups x5 x6 x7 x8 x9
    low =
        rand_groups-eq-plain x5 x6 x7 x8 x9 (omega arith) (omega arith) (omega arith) (omega arith)
          (omega arith)
groups-value ms _ t h k = absurd (omega arith)

pub groups-IsDigits :
    (ms : ℕ) (b : List ℕ) → IsBytes b → IsDigits (groups ms b) × (length (groups ms b) ≡ 26)
unfolding groups time_groups
groups-IsDigits ms b h =
    rw (fives 0 1 2 3 4, fives 5 6 7 8 9)
      (omega (arith, at 0, at 1, at 2, at 3, at 4, at 5, at 6, at 7, at 8, at 9), refl)
  where
    at : (i : ℕ) → byte b i < 256
    at i = All-get_or (λ x. x < 256) b i 0 h (omega arith)

    fives :
        (i j k l m : ℕ)
        → rand_groups (byte b i) (byte b j) (byte b k) (byte b l) (byte b m)
          ≡ plain_groups (byte b i) (byte b j) (byte b k) (byte b l) (byte b m)
    fives i j k l m = rand_groups-eq-plain _ _ _ _ _ (at i) (at j) (at k) (at l) (at m)
