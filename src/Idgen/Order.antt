-- ===== src/Idgen/Order.antt =====
-- Byte-wise order of IDs, as Go's `<` on strings has it, against the order of the digits' numbers.
use den.Base.{
  ℕ, ◌+◌, ◌*◌, ◌/◌, ◌%◌, ◌^◌, ◌<◌, ◌≤◌, ◌≡◌, refl, ◌⊎◌, inl, inr, true, ◌||◌, not, List, [], ◌∷◌,
  map, arith, ltb, length, ap, Bool, all_below, all_below_sound,
}
use native.Mathlib.Nat.{pow-suc}
use den.Idgen.{letter}
use den.Idgen.Digits.{value32, IsDigits}

abbrev pub Precedes : List ℕ → List ℕ → Type 0
Precedes [] [] = ⊥
Precedes [] (y ∷ ys) = Unit
Precedes (x ∷ xs) [] = ⊥
Precedes (x ∷ xs) (y ∷ ys) = (x < y) ⊎ ((x ≡ y) × Precedes xs ys)

value32-lt : (ds : List ℕ) → IsDigits ds → value32 ds < 32 ^ length ds
unfolding value32
value32-lt [] h = omega arith
value32-lt (d ∷ ds) h =
    rw (pow-suc 32 (length ds)) (place (32 ^ length ds) (value32 ds) (value32-lt ds h.1))
  where
    place : (w v : ℕ) → v < w → d * w + v < w * 32
    place w v k = let small : d < 32 = h.0 in grind arith

trichotomy : (a b : ℕ) → (a < b) ⊎ ((a ≡ b) ⊎ (b < a))
trichotomy a b = grind arith

-- A smaller first digit outweighs all that follows it.
first_digit_decides : (w d e u v : ℕ) → e < d → u < w → e * w + u ≤ d * w + v
first_digit_decides w d e u v p q = grind arith

-- With equally many digits, the smaller number comes first.
pub Precedes-of_value32 :
    (ds es : List ℕ)
    → length ds ≡ length es
    → IsDigits ds
    → IsDigits es
    → value32 ds < value32 es
    → Precedes ds es
unfolding value32
Precedes-of_value32 [] [] k h g lt = absurd (omega arith)
Precedes-of_value32 [] (e ∷ es) k h g lt = tt
Precedes-of_value32 (d ∷ ds) [] k h g lt = absurd (omega arith)
Precedes-of_value32 (d ∷ ds) (e ∷ es) k h g lt =
    let same_length : length ds ≡ length es = omega arith in
    let lt' = rw same_length at lt in
    elim (trichotomy d e) [
      | inl less ↦ inl less
      | inr (inl same) ↦ inr (
        same,
        Precedes-of_value32 ds es same_length h.1 g.1
            (omega (arith, ap (λ (t : ℕ). t * 32 ^ length es) same)),
      )
      | inr (inr more) ↦ absurd (
          omega (
            arith,
            first_digit_decides (32 ^ length es) d e (value32 es) (value32 ds) more
                (value32-lt es g.1),
          ))
    ]

abbrev in_order : ℕ → ℕ → Bool
in_order d e = not (ltb d e) || ltb (letter d) (letter e)

letter-lt_of_in_order : (d e : ℕ) → in_order d e ≡ true → d < e → letter d < letter e
letter-lt_of_in_order d e h p = ground arith

in_order_table : all_below 1024 (λ x. in_order (x / 32) (x % 32)) ≡ true
unfolding all_below letter
in_order_table = refl

-- The alphabet is in increasing order.
letter-lt : (d e : ℕ) → d < e → e < 32 → letter d < letter e
letter-lt d e p q =
    let first : (d * 32 + e) / 32 ≡ d = omega arith in
    let second : (d * 32 + e) % 32 ≡ e = omega arith in
    letter-lt_of_in_order d e
      (rw (first, second) at
        (all_below_sound 1024 (λ x. in_order (x / 32) (x % 32)) (d * 32 + e) in_order_table
          (omega arith)))
      p

pub map-letter-Precedes :
    (ds es : List ℕ) → IsDigits es → Precedes ds es → Precedes (map letter ds) (map letter es)
map-letter-Precedes [] [] h p = p
map-letter-Precedes [] (e ∷ es) h p = tt
map-letter-Precedes (d ∷ ds) [] h p = p
map-letter-Precedes (d ∷ ds) (e ∷ es) h (inl lt) = inl (letter-lt d e lt h.0)
map-letter-Precedes (d ∷ ds) (e ∷ es) h (inr (same, p)) =
    inr (ap letter same, map-letter-Precedes ds es h.1 p)
