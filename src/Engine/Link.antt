-- ===== src/Engine/Link.antt =====
-- engine/link.go: a link as a JSON string. Texts are code points, of which only the ASCII ones
-- matter here; `json.Marshal` and `json.Unmarshal` of a string are arguments.
mod Tests
use Prim.Native.Char.{code, Char}
use Prim.Native.String.{String}
use Prim.Native.String
use text.Mathlib.Text
use text.Mathlib.TextEquality.{eq_iff}
use text.Mathlib.TextLemmas.{cons-append, nil-append}
use den.Base.{
  ◌≡◌, refl, ap, sym, subst, ◌∙◌, inl, inr, ℕ, ltb, ◌==◌, Bool, true, false, ◌&&◌, ◌||◌, Option,
  none, some, Bool-cases, Option-cases, if◌then◌else◌,
}
use den.Base.Results.{Result, ok, err, after, after-ok}
use den.Base.Text.{◌<>◌}

-- The character must be escaped between quotes.
unfoldable pub needs_escape : ℕ → Bool
needs_escape b = ltb b 32 || ((b == 34) || (b == 92))

unfoldable pub id_is_json_clean : String → Bool
id_is_json_clean String.[] = true
id_is_json_clean (String.◌∷◌ c s) =
    let rest = id_is_json_clean s in if needs_escape (code c) then false else rest

unfoldable pub has_no_escape : String → Bool
has_no_escape String.[] = true
has_no_escape (String.◌∷◌ c s) =
    let rest = has_no_escape s in if (code c == 92) || (code c == 34) then false else rest

-- The text before a quote at the end.
close_at : Char → String → Option String → Option String
close_at c String.[] later = if code c == 34 then some "" else none
close_at c (String.◌∷◌ d r) none = none
close_at c (String.◌∷◌ d r) (some body) = some (String.◌∷◌ c body)

unfoldable pub before_last_quote : String → Option String
unfolding close_at
before_last_quote String.[] = none
before_last_quote (String.◌∷◌ c s) = close_at c s (before_last_quote s)

-- The text between two quotes.
unfoldable pub between_quotes : String → Option String
between_quotes String.[] = none
between_quotes (String.◌∷◌ c s) = if code c == 34 then before_last_quote s else none

abbrev pub quote : String
quote = "\""

module _ {E : Type 0} where
  -- `MarshalJSON`
  unfoldable pub marshal_json : (String → Result E String) → String → Result E String
  marshal_json json id = if id_is_json_clean id then ok (quote <> (id <> quote)) else json id

  unfoldable pub fast_or_slow :
      (String → Result E String) → String → Option String → Result E String
  fast_or_slow json text none = json text
  fast_or_slow json text (some body) = if has_no_escape body then ok body else json text

  -- `UnmarshalJSON`: the id of the link, which is not loaded.
  unfoldable pub unmarshal_json : (String → Result E String) → String → Result E String
  unmarshal_json json text =
      if Text.◌==◌ text "null" then ok "" else fast_or_slow json text (between_quotes text)

before_last_quote-append : (s : String) → before_last_quote (s <> quote) ≡ some s
unfolding before_last_quote close_at
before_last_quote-append String.[] = refl
before_last_quote-append (String.◌∷◌ c s) = rw (cons-append, before_last_quote-append s) (tail s)
  where
    tail : (r : String) → close_at c (r <> quote) (some r) ≡ some (String.◌∷◌ c r)
    tail String.[] = refl
    tail (String.◌∷◌ d r) = rw cons-append refl

quote-cons : (x : String) → quote <> x ≡ String.◌∷◌ "\"" x
quote-cons x = cons-append "\"" String.[] x ∙ ap (λ y. String.◌∷◌ "\"" y) (nil-append x)

-- A clean id has nothing that the fast path of reading stops at.
is_clean-no_escape : (s : String) → id_is_json_clean s ≡ true → has_no_escape s ≡ true
unfolding id_is_json_clean has_no_escape needs_escape
is_clean-no_escape String.[] = λ h. refl
is_clean-no_escape (String.◌∷◌ c s) = elim (Bool-cases (ltb (code c) 32)) [
  | inl low ↦ rw low (λ h. cc)
  | inr high ↦ elim (Bool-cases (code c == 34)) [
    | inl q ↦ rw (high, q) (λ h. cc)
    | inr nq ↦ elim (Bool-cases (code c == 92)) [
      | inl b ↦ rw (high, nq, b) (λ h. cc)
      | inr nb ↦ rw (high, nq, nb) (is_clean-no_escape s)
    ]
  ]
]

quote_not_null : (x : String) → Text.◌==◌ (String.◌∷◌ "\"" x) "null" ≡ false
unfolding has_no_escape
quote_not_null x = elim (Bool-cases (Text.◌==◌ (String.◌∷◌ "\"" x) "null")) [
  | inl same ↦ absurd (
      subst (λ b. if b then ⊥ else Unit)
        (ap has_no_escape ((eq_iff (String.◌∷◌ "\"" x) "null").0 same)) tt)
  | inr other ↦ other
]

ok_inj : {E A : Type 0} {a b : A} → Path (Result E A) (ok a) (ok b) → a ≡ b
ok_inj e = cc

module _ {E : Type 0} (marshal unmarshal : String → Result E String)
    (unmarshal-marshal : (id t : String) → marshal id ≡ ok t → unmarshal t ≡ ok id)
    (marshal-escapes : (id t body : String)
      → id_is_json_clean id ≡ false
      → marshal id ≡ ok t
      → between_quotes t ≡ some body
      → has_no_escape body ≡ false)
    (marshal-not_null : (id t : String) → marshal id ≡ ok t → Text.◌==◌ t "null" ≡ false) where
  fast_or_slow-json :
      (id t : String)
      → id_is_json_clean id ≡ false
      → marshal id ≡ ok t
      → fast_or_slow unmarshal t (between_quotes t) ≡ ok id
  unfolding fast_or_slow
  fast_or_slow-json id t unclean e = elim (Option-cases (between_quotes t)) [
    | inl no_quotes ↦ rw no_quotes (unmarshal-marshal id t e)
    | inr (body, quoted) ↦
        rw (quoted, marshal-escapes id t body unclean e quoted) (unmarshal-marshal id t e)
  ]

  clean_lem :
      (id : String)
      → id_is_json_clean id ≡ true
      → unmarshal_json unmarshal (quote <> (id <> quote)) ≡ ok id
  unfolding unmarshal_json fast_or_slow between_quotes
  clean_lem id clean =
      rw
        (
          quote-cons (id <> quote),
          quote_not_null (id <> quote),
          before_last_quote-append id,
          is_clean-no_escape id clean,
        )
        refl

  -- A link is read back with the id that it was written with, on the fast paths and on the slow ones:
  -- JSON reads a string as it was written, writes an escape within the quotes of an id that needs
  -- one, and writes no string as null.
  pub unmarshal_json-marshal_json :
      (id t : String) → marshal_json marshal id ≡ ok t → unmarshal_json unmarshal t ≡ ok id
  unfolding marshal_json unmarshal_json
  unmarshal_json-marshal_json id t = elim (Bool-cases (id_is_json_clean id)) [
    | inl clean ↦
        rw clean
          (λ e. subst (λ x. unmarshal_json unmarshal x ≡ ok id) (ok_inj e) (clean_lem id clean))
    | inr unclean ↦
        rw unclean (λ e. rw (marshal-not_null id t e) (fast_or_slow-json id t unclean e))
  ]
