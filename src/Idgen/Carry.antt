-- ===== src/Idgen/Carry.antt =====
-- The byte-wise addition of idgen/ulid.go (`addRandStep80`), read as arithmetic on one big number.
use native.Mathlib.Nat.{pow-suc}
use den.Base.{
  ℕ, zero, suc, ◌+◌, ◌*◌, ◌/◌, ◌%◌, ◌^◌, ◌<◌, ◌≡◌, ap, List, [], ◌∷◌, arith, ◌==◌, ltb,
  if◌then◌else◌, Bool-cases, ==_iff, inl, inr, length, set, length-set, All, All-set, refl, ◌∙◌,
}
use den.Idgen.{byte, add_carry, add_rand_step80}

-- The number that a big-endian array of bytes stands for.
unfoldable pub value : List ℕ → ℕ
value [] = 0
value (x ∷ xs) = x * 256 ^ length xs + value xs

-- The step that the generator adds: never zero.
abbrev pub nonzero : ℕ → ℕ
nonzero step = if step == 0 then 1 else step

abbrev pub IsBytes : List ℕ → Type 0
IsBytes b = All (λ x. x < 256) b

-- Writing the byte that `e` bytes follow changes the value by the difference at that place.
value-set :
    (b : List ℕ) (i e v : ℕ)
    → i + suc e ≡ length b
    → value (set b i v) + byte b i * 256 ^ e ≡ value b + v * 256 ^ e
unfolding value
value-set [] i e v h = absurd (omega arith)
value-set (x ∷ xs) zero e v h = let same : e ≡ length xs = omega arith in rw same (omega arith)
value-set (x ∷ xs) (suc i) e v h =
    rw (length-set xs i v) (omega (arith, value-set xs i e v (omega arith)))

-- One round: a byte and a carry become the sum's low byte and a carry for the next place.
carry_round : (x c w : ℕ) → (x + c) % 256 * w + (x + c) / 256 * (256 * w) ≡ x * w + c * w
carry_round x c w = omega (arith, ap (λ (t : ℕ). t * w) (div_mod (x + c)))
  where
    div_mod : (n : ℕ) → n % 256 + 256 * (n / 256) ≡ n
    div_mod n = omega arith

add_carry-value :
    (i : ℕ) (b : List ℕ) (c e : ℕ)
    → i + e ≡ length b
    → value (add_carry i b c).0 + (add_carry i b c).1 * 256 ^ length b ≡ value b + c * 256 ^ e
unfolding add_carry
add_carry-value zero b c e h = let same : e ≡ length b = omega arith in rw same (omega arith)
add_carry-value (suc i) b c e h = elim (Bool-cases (c == 0)) [
  | inl none_left ↦
      rw none_left
        (let zero_carry : c ≡ 0 = (==_iff c 0).0 none_left in rw zero_carry (omega arith))
  | inr some_left ↦ rw some_left (
      omega (
        arith,
        rw (length-set b i low, pow-suc 256 e) at
            (add_carry-value i (set b i low) (sum / 256) (suc e)
              (omega (arith, length-set b i low))),
        value-set b i e low (omega arith),
        carry_round (byte b i) c (256 ^ e),
      ))
]
  where
    sum : ℕ
    sum = byte b i + c

    low : ℕ
    low = sum % 256

pub value-lt : (b : List ℕ) → IsBytes b → value b < 256 ^ length b
unfolding value
value-lt [] h = omega arith
value-lt (x ∷ xs) h =
    rw (pow-suc 256 (length xs)) (place (256 ^ length xs) (value xs) (value-lt xs h.1))
  where
    place : (w v : ℕ) → v < w → x * w + v < w * 256
    place w v k = let small : x < 256 = h.0 in grind arith

add_carry-IsBytes :
    (i : ℕ) (b : List ℕ) (c : ℕ)
    → IsBytes b
    → IsBytes (add_carry i b c).0 × (length (add_carry i b c).0 ≡ length b)
unfolding add_carry
add_carry-IsBytes zero b c h = (h, refl)
add_carry-IsBytes (suc i) b c h = elim (Bool-cases (c == 0)) [
  | inl none_left ↦ rw none_left (h, refl)
  | inr some_left ↦
      let low : ℕ = (byte b i + c) % 2 ^ 8 in
      let rest =
        add_carry-IsBytes i (set b i low) ((byte b i + c) / 2 ^ 8)
          (All-set (λ x. x < 256) b i low h (omega arith)) in
      rw some_left (rest.0, rest.1 ∙ length-set b i low)
]

-- For ten bytes and any step, `addRandStep80` adds the step (1 in place of 0) modulo 2^80, and
-- reports success exactly when the sum is below 2^80.
pub add_rand_step80-value :
    (b : List ℕ) (step : ℕ)
    → IsBytes b
    → length b ≡ 10
    → (value (add_rand_step80 b step).0 ≡ (value b + nonzero step) % 2 ^ 80)
      × ((add_rand_step80 b step).1 ≡ ltb (value b + nonzero step) (2 ^ 80))
unfolding add_rand_step80
add_rand_step80-value b step h k =
    let n : ℕ = nonzero step in
    let kept = add_carry-IsBytes 10 b n h in
    let total = add_carry-value 10 b n 0 (omega arith) in
    let wide = rw (kept.1, k) at (value-lt (add_carry 10 b n).0 kept.0) in
    let exact = rw k at total in (omega arith, ground arith)

pub add_rand_step80-IsBytes :
    (b : List ℕ) (step : ℕ)
    → IsBytes b
    → IsBytes (add_rand_step80 b step).0 × (length (add_rand_step80 b step).0 ≡ length b)
unfolding add_rand_step80
add_rand_step80-IsBytes b step h = add_carry-IsBytes 10 b (nonzero step) h
