-- ===== src/Util/Like.antt =====
-- `EscapeLike` against the meaning of a LIKE pattern with ESCAPE '\'.
use Prim.Native.Char.{Char, code}
use Prim.Native.String.{String}
use text.Mathlib.TextLemmas.{nil-append, cons-append, append-nil, append_assoc}
use den.Base.{
  ℕ, ◌≡◌, refl, sym, false, inl, inr, List, [], ◌∷◌, ◌++◌, ◌==◌, ==_iff, if◌then◌else◌, Bool-cases,
}
use den.Base.Text.{◌<>◌}
use den.Util.{replace_char, escape_like}

pub data Token : Type 0 where
  lit : ℕ → Token
  one run : Token

abbrev token_of : ℕ → Token
token_of k = if k == b'%' then run else if k == b'_' then one else lit k

-- A pattern, read with `\` as the escape character.
unfoldable pub tokens : String → List Token
tokens String.[] = []
tokens (String.◌∷◌ c String.[]) = token_of (code c) ∷ []
tokens (String.◌∷◌ c (String.◌∷◌ d s)) =
    let plain = token_of (code c) ∷ tokens (String.◌∷◌ d s) in
    let escaped = lit (code d) ∷ tokens s in if code c == b'\\' then escaped else plain

-- The literal characters of a text.
unfoldable pub literals : String → List Token
literals String.[] = []
literals (String.◌∷◌ c s) = lit (code c) ∷ literals s

replace_char-append :
    (k : ℕ) (new s t : String)
    → replace_char k new (s <> t) ≡ replace_char k new s <> replace_char k new t
unfolding replace_char
replace_char-append k new String.[] t = rw nil-append (sym (nil-append _))
replace_char-append k new (String.◌∷◌ c s) t = elim (Bool-cases (code c == k)) [
  | inl hit ↦ rw (cons-append, hit, replace_char-append k new s t) (sym (append_assoc new _ _))
  | inr miss ↦ rw (cons-append, miss, replace_char-append k new s t) (sym (cons-append _ _ _))
]

escape_like-append : (s t : String) → escape_like (s <> t) ≡ escape_like s <> escape_like t
unfolding escape_like
escape_like-append s t = rw (
  replace_char-append b'\\' "\\\\" s t,
  replace_char-append b'%' "\\%",
  replace_char-append b'_' "\\_",
)

tokens-cons :
    (c : Char) (r : String)
    → (code c == b'\\') ≡ false
    → tokens (String.◌∷◌ c r) ≡ token_of (code c) ∷ tokens r
unfolding tokens
tokens-cons c String.[] h = refl
tokens-cons c (String.◌∷◌ d s) h = rw h

escape_backslash : (r : String) → tokens ("\\\\" <> r) ≡ lit b'\\' ∷ tokens r
unfolding tokens
escape_backslash r = rw (cons-append, cons-append, nil-append)

escape_percent : (r : String) → tokens ("\\%" <> r) ≡ lit b'%' ∷ tokens r
unfolding tokens
escape_percent r = rw (cons-append, cons-append, nil-append)

escape_underscore : (r : String) → tokens ("\\_" <> r) ≡ lit b'_' ∷ tokens r
unfolding tokens
escape_underscore r = rw (cons-append, cons-append, nil-append)

escaped-char :
    (c : Char) (r : String)
    → tokens (escape_like (String.◌∷◌ c String.[]) <> r) ≡ lit (code c) ∷ tokens r
unfolding escape_like replace_char
escaped-char c r = elim (Bool-cases (code c == b'\\')) [
  | inl back ↦ rw (back, (==_iff (code c) b'\\').0 back) (escape_backslash r)
  | inr ne_back ↦ elim (Bool-cases (code c == b'%')) [
    | inl percent ↦ rw (ne_back, percent, (==_iff (code c) b'%').0 percent) (escape_percent r)
    | inr ne_percent ↦ elim (Bool-cases (code c == b'_')) [
      | inl under ↦
          rw (ne_back, ne_percent, under, (==_iff (code c) b'_').0 under) (escape_underscore r)
      | inr ne_under ↦ rw (
        ne_back,
        ne_percent,
        ne_under,
        cons-append,
        nil-append,
        tokens-cons c r ne_back,
        ne_percent,
        ne_under,
      )
    ]
  ]
]

escape_like-nil : escape_like "" ≡ ""
unfolding escape_like replace_char
escape_like-nil = refl

-- Whatever the pattern goes on with, the escaped text stands for its own characters.
pub escape_like-literals : (s r : String) → tokens (escape_like s <> r) ≡ literals s ++ tokens r
unfolding literals
escape_like-literals String.[] r = rw (escape_like-nil, nil-append)
escape_like-literals (String.◌∷◌ c s) r =
    let head : String = String.◌∷◌ c String.[] in
    let split : head <> s ≡ String.◌∷◌ c s = rw (cons-append, nil-append) in
    rw (← split, escape_like-append head s, append_assoc, escaped-char c, escape_like-literals s r)

pub percent-tokens : (r : String) → tokens ("%" <> r) ≡ run ∷ tokens r
percent-tokens r = rw (cons-append, nil-append) (tokens-cons "%" r refl)

pub escape_like-alone : (s : String) → tokens (escape_like s) ≡ literals s ++ []
unfolding tokens
escape_like-alone s = rw (append-nil (escape_like s)) at (escape_like-literals s "")
