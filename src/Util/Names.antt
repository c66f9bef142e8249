-- ===== src/Util/Names.antt =====
-- Field names: what sanitizing keeps and what validation accepts.
use Prim.Native.Char.{code}
use Prim.Native.String.{String}
use den.Base.{
  ℕ, ◌≡◌, refl, ap, Bool, true, false, ◌||◌, arith, ◌==◌, ◌≤◌, ◌⊎◌, Bool-cases, inl, inr,
}
use den.Base.Text.{count_char}
use den.Util.{
  is_letter, is_digit, is_safe, sanitize_field_name, replace_char, identifier_segment,
  all_name_chars, validate_field_name,
}

-- An ASCII letter or digit, an underscore or a dot, by its code point.
abbrev pub IsPlain : ℕ → Type 0
IsPlain k =
    ((65 ≤ k) × (k ≤ 90)) ⊎ ((97 ≤ k) × (k ≤ 122)) ⊎ ((48 ≤ k) × (k ≤ 57)) ⊎ (k ≡ 95) ⊎ (k ≡ 46)

-- Every character of the text is one of these.
abbrev pub AllPlain : String → Type 0
AllPlain String.[] = Unit
AllPlain (String.◌∷◌ c s) = IsPlain (code c) × AllPlain s

is_safe-IsPlain : (k : ℕ) → is_safe k ≡ true → IsPlain k
unfolding is_safe is_letter is_digit
is_safe-IsPlain k h = ground arith

IsPlain-is_safe : (k : ℕ) → IsPlain k → is_safe k ≡ true
unfolding is_safe is_letter is_digit
IsPlain-is_safe k h = ground arith

-- Every character of the text passes the test.
abbrev pub AllChars : (ℕ → Bool) → String → Type 0
AllChars test String.[] = Unit
AllChars test (String.◌∷◌ c s) = (test (code c) ≡ true) × AllChars test s

pub sanitize-AllChars : (s : String) → AllChars is_safe (sanitize_field_name s)
unfolding sanitize_field_name
sanitize-AllChars String.[] = tt
sanitize-AllChars (String.◌∷◌ r s) = elim (Bool-cases (is_safe (code r))) [
  | inl safe ↦ rw safe (safe, sanitize-AllChars s)
  | inr unsafe ↦ rw unsafe (sanitize-AllChars s)
]

AllChars-AllPlain : (s : String) → AllChars is_safe s → AllPlain s
AllChars-AllPlain String.[] h = tt
AllChars-AllPlain (String.◌∷◌ r s) h = (is_safe-IsPlain (code r) h.0, AllChars-AllPlain s h.1)

sanitize-AllPlain : (s : String) → AllPlain (sanitize_field_name s)
sanitize-AllPlain s = AllChars-AllPlain _ (sanitize-AllChars s)

sanitize-of-AllPlain : (s : String) → AllPlain s → sanitize_field_name s ≡ s
unfolding sanitize_field_name
sanitize-of-AllPlain String.[] h = refl
sanitize-of-AllPlain (String.◌∷◌ r s) h =
    rw (IsPlain-is_safe (code r) h.0) (ap (String.◌∷◌ r) (sanitize-of-AllPlain s h.1))

-- A sanitized name holds only ASCII letters, digits, underscores and dots, and a name of these
-- characters is left as it is; so sanitizing twice is sanitizing once.
pub sanitize_field_name_lem :
    (s : String)
    → AllPlain (sanitize_field_name s)
      × (sanitize_field_name (sanitize_field_name s) ≡ sanitize_field_name s)
      × (AllPlain s → sanitize_field_name s ≡ s)
sanitize_field_name_lem s =
    (sanitize-AllPlain s, sanitize-of-AllPlain _ (sanitize-AllPlain s), sanitize-of-AllPlain s)

-- The characters after the first of a valid name.
abbrev is_name_char : ℕ → Bool
is_name_char k = is_letter k || is_digit k || k == b'_'

is_safe-of-name : (k : ℕ) → is_name_char k ≡ true → (is_safe k ≡ true) × ((k == b'.') ≡ false)
unfolding is_safe
is_safe-of-name k h = ground arith

all_name_chars-kept :
    (s : String)
    → all_name_chars s ≡ true
    → (sanitize_field_name s ≡ s) × (identifier_segment s ≡ s)
unfolding all_name_chars sanitize_field_name identifier_segment replace_char
all_name_chars-kept String.[] h = (refl, refl)
all_name_chars-kept (String.◌∷◌ c s) h =
    let first = is_safe-of-name (code c) (ground arith) in
    let later = all_name_chars-kept s (ground arith) in
    rw (first.0, first.1) (ap (String.◌∷◌ c) later.0, ap (String.◌∷◌ c) later.1)

-- A name that registration accepts reaches SQL unchanged, in an extraction path and in an
-- identifier alike.
pub validate_field_name-kept :
    (s : String)
    → validate_field_name s ≡ true
    → (sanitize_field_name s ≡ s) × (identifier_segment s ≡ s)
unfolding validate_field_name
validate_field_name-kept String.[] h = cc
validate_field_name-kept (String.◌∷◌ c s) h =
    all_name_chars-kept (String.◌∷◌ c s) (unfold all_name_chars in ground arith)

-- A text of safe characters holds no character that is not safe.
pub count_char-safe :
    (k : ℕ) (s : String) → is_safe k ≡ false → AllChars is_safe s → count_char k s ≡ 0
unfolding count_char
count_char-safe k String.[] h a = refl
count_char-safe k (String.◌∷◌ c s) h a = ground (arith, ap is_safe, count_char-safe k s h a.1)
