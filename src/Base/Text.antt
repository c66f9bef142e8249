-- ===== src/Base/Text.antt =====
-- Text: concatenation, joining with a separator, and functions that read a text character by
-- character, with their laws over concatenation.
use Prim.Native.Char.{code}
use Prim.Native.Nat.{ℕ, ◌+◌}
use Prim.Native.String.{String}
use Prim.Native.String
use mathlib.Core.Path.{◌≡◌}
use mathlib.Core.Bool.{Bool, true, false, ◌&&◌}
use mathlib.Core.List.{List, [], ◌∷◌}
use native.Mathlib.Omega.{arith}
use text.Mathlib.TextLemmas.{nil-append, cons-append}
use den.Base.Tests.{◌==◌, if◌then◌else◌}

infixr 66 ◌<>◌
abbrev pub ◌<>◌ : String → String → String
s <> t = String.◌++◌ s t

-- strings.Join
unfoldable pub join : String → List String → String
join sep [] = ""
join sep (x ∷ []) = x
join sep (x ∷ y ∷ r) = x <> (sep <> join sep (y ∷ r))

-- The test `s == ""`.
unfoldable pub is_empty : String → Bool
is_empty String.[] = true
is_empty (String.◌∷◌ c s) = false

pub is_empty-append : (s t : String) → is_empty (s <> t) ≡ (is_empty s && is_empty t)
unfolding is_empty
is_empty-append String.[] t = rw nil-append
is_empty-append (String.◌∷◌ c s) t = rw cons-append

-- How often a character stands in a text.
unfoldable pub count_char : ℕ → String → ℕ
count_char k String.[] = 0
count_char k (String.◌∷◌ c s) = (if code c == k then 1 else 0) + count_char k s

pub count_char-append :
    (k : ℕ) (s t : String) → count_char k (s <> t) ≡ count_char k s + count_char k t
unfolding count_char
count_char-append k String.[] t = rw nil-append (omega arith)
count_char-append k (String.◌∷◌ c s) t = rw cons-append (omega (arith, count_char-append k s t))
