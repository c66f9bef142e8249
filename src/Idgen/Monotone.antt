-- ===== src/Idgen/Monotone.antt =====
-- Successive IDs increase, as strings, as long as the 80 random bits do not overflow.
use den.Base.{
  ℕ, ◌+◌, ◌*◌, ◌^◌, ◌<◌, ◌≤◌, ◌≡◌, sym, ◌∙◌, ◌⊎◌, inl, inr, List, [], ◌∷◌, arith, ltb, Bool-cases,
  length,
}
use den.Idgen.{Generator, Draw, groups, encode, add_rand_step80, advance, new, new_many}
use den.Idgen.Carry.{
  value, value-lt, nonzero, IsBytes, add_rand_step80-value, add_rand_step80-IsBytes,
}
use den.Idgen.Digits.{groups-value, groups-IsDigits}
use den.Idgen.Order.{Precedes, Precedes-of_value32, map-letter-Precedes}

-- An ID's string orders as its timestamp and random bytes do, taken as one number.
pub encode-Precedes :
    (ms ms' : ℕ) (b b' : List ℕ)
    → ms < 2 ^ 50
    → ms' < 2 ^ 50
    → IsBytes b × (length b ≡ 10)
    → IsBytes b' × (length b' ≡ 10)
    → ms * 2 ^ 80 + value b < ms' * 2 ^ 80 + value b'
    → Precedes (encode ms b) (encode ms' b')
unfolding encode
encode-Precedes ms ms' b b' t t' h h' lt =
    let d = groups-IsDigits ms b h.0 in
    let d' = groups-IsDigits ms' b' h'.0 in
    map-letter-Precedes (groups ms b) (groups ms' b') d'.0 (
      Precedes-of_value32 (groups ms b) (groups ms' b') (d.1 ∙ sym d'.1) d.0 d'.0
        (omega (arith, groups-value ms b t h.0 h.1, groups-value ms' b' t' h'.0 h'.1)))

-- The generator's array holds ten bytes, and its time fits the ten time characters.
pub record IsReady (g : Generator) : Type 0 where
  pub bytes : IsBytes g.last_rand
  pub ten : length g.last_rand ≡ 10
  pub time : g.last_ms < 2 ^ 50

pub record IsDraw (d : Draw) : Type 0 where
  pub bytes : IsBytes d.seed
  pub ten : length d.seed ≡ 10
  pub time : d.now < 2 ^ 50

-- The clock moved on, or the random bytes have room for the step.
abbrev pub HasRoom : Generator → Draw → Type 0
HasRoom g d = (g.last_ms < d.now) ⊎ (value g.last_rand + nonzero d.step < 2 ^ 80)

pub advance-IsReady : (g : Generator) (d : Draw) → IsReady g → IsDraw d → IsReady (advance g d)
unfolding advance
advance-IsReady g d r w = elim (Bool-cases (ltb g.last_ms d.now)) [
  | inl moved ↦ rw moved (record { bytes = w.bytes; ten = w.ten; time = w.time })
  | inr stood ↦ elim (Bool-cases (add_rand_step80 g.last_rand d.step).1) [
    | inl fits ↦
        let kept = add_rand_step80-IsBytes g.last_rand d.step r.bytes in
        rw (stood, fits) (record { bytes = kept.0; ten = kept.1 ∙ r.ten; time = r.time })
    | inr full ↦ rw (stood, full) (record { bytes = w.bytes; ten = w.ten; time = r.time })
  ]
]

-- The time and the bytes together, as one number.
abbrev key : Generator → ℕ
key g = g.last_ms * 2 ^ 80 + value g.last_rand

value-lt_ten : (b : List ℕ) → IsBytes b → length b ≡ 10 → value b < 2 ^ 80
value-lt_ten b h k = rw k at (value-lt b h)

advance-key-lt :
    (g : Generator) (d : Draw) → IsReady g → IsDraw d → HasRoom g d → key g < key (advance g d)
unfolding advance
advance-key-lt g d r w room =
    let sum = add_rand_step80-value g.last_rand d.step r.bytes r.ten in
    let before = value-lt_ten g.last_rand r.bytes r.ten in ground (arith, sum.0, sum.1, before)

-- Each ID comes before the next, from `prev` on.
abbrev pub Increasing : List ℕ → List (List ℕ) → Type 0
Increasing prev [] = Unit
Increasing prev (id ∷ ids) = Precedes prev id × Increasing id ids

-- No draw of a run overflows the random bytes.
abbrev pub AllHaveRoom : Generator → List Draw → Type 0
AllHaveRoom g [] = Unit
AllHaveRoom g (d ∷ ds) = IsDraw d × HasRoom g d × AllHaveRoom (advance g d) ds

-- A generator whose array holds ten bytes, at draws that do not overflow the 80 random bits, hands
-- out IDs that increase as strings, whatever the clock does: it may stand still or run backwards.
pub new_many-Increasing :
    (g : Generator) (ds : List Draw)
    → IsReady g
    → AllHaveRoom g ds
    → Increasing (encode g.last_ms g.last_rand) (new_many g ds)
unfolding new_many new
new_many-Increasing g [] r h = tt
new_many-Increasing g (d ∷ ds) r (w, room, h) =
    let r' = advance-IsReady g d r w in
    (
      encode-Precedes g.last_ms (advance g d).last_ms g.last_rand (advance g d).last_rand r.time
          r'.time (r.bytes, r.ten) (r'.bytes, r'.ten) (advance-key-lt g d r w room),
      new_many-Increasing (advance g d) ds r' h,
    )

advance-overflow :
    (g : Generator) (d : Draw)
    → IsReady g
    → d.now ≤ g.last_ms
    → 2 ^ 80 ≤ value g.last_rand + nonzero d.step
    → advance g d ≡ record g { last_rand = d.seed }
unfolding advance
advance-overflow g d r still full =
    let sum = add_rand_step80-value g.last_rand d.step r.bytes r.ten in ground (arith, sum.1)

-- When the step overflows the 80 bits and the clock has not moved on, the random bytes are drawn
-- anew, so the ID goes back, as a string, for every seed below the last random bytes.
pub new_overflow_goes_back :
    (g : Generator) (d : Draw)
    → IsReady g
    → IsDraw d
    → d.now ≤ g.last_ms
    → 2 ^ 80 ≤ value g.last_rand + nonzero d.step
    → value d.seed < value g.last_rand
    → Precedes (new g d).1 (encode g.last_ms g.last_rand)
unfolding new
new_overflow_goes_back g d r w still full less = rw (advance-overflow g d r still full) (
    encode-Precedes g.last_ms g.last_ms d.seed g.last_rand r.time r.time (w.bytes, w.ten)
      (r.bytes, r.ten) (omega arith))
