-- ===== src/Util/Match.antt =====
-- What the LIKE patterns built on `EscapeLike` match.
use Prim.Native.Char.{Char, code}
use Prim.Native.String.{String}
use text.Mathlib.TextLemmas.{nil-append, cons-append, append-nil}
use den.Base.{ℕ, ◌≡◌, refl, sym, ◌∙◌, ap, subst, ◌↔◌, List, [], ◌∷◌, ◌++◌}
use den.Base.Text.{◌<>◌}
use den.Util.{escape_like}
use den.Util.Like.{
  Token, lit, one, run, tokens, literals, escape_like-literals, percent-tokens, escape_like-alone,
}

-- `Same` says which characters the database holds for equal in a LIKE: with SQLite the letters of
-- either case, with PostgreSQL each character and itself.
module _ (Same : ℕ → ℕ → Type 0) where
  abbrev pub Matches : List Token → String → Type 0
  Matches [] t = t ≡ ""
  Matches (lit k ∷ p) t =
      (c : Char) × (u : String) × (t ≡ String.◌∷◌ c u) × Same k (code c) × Matches p u
  Matches (one ∷ p) t = (c : Char) × (u : String) × (t ≡ String.◌∷◌ c u) × Matches p u
  Matches (run ∷ p) t = (a : String) × (u : String) × (t ≡ a <> u) × Matches p u

  -- Equal character by character.
  abbrev pub Alike : String → String → Type 0
  Alike String.[] t = t ≡ ""
  Alike (String.◌∷◌ d s) t =
      (c : Char) × (u : String) × (t ≡ String.◌∷◌ c u) × Same (code d) (code c) × Alike s u

  Matches-literals :
      (s : String) (p : List Token) (t : String)
      → Matches (literals s ++ p) t
        ↔ ((a : String) × (u : String) × (t ≡ a <> u) × Alike s a × Matches p u)
  unfolding literals
  Matches-literals String.[] p t =
      (λ m. ("", t, sym (nil-append t), refl, m), λ (a, u, e, k, m). rw (e, k, nil-append) m)
  Matches-literals (String.◌∷◌ d s) p t = (
    λ (c, u, e, k, m).
        let (a, w, e', k', m') = (Matches-literals s p u).0 m in
        (String.◌∷◌ c a, w, e ∙ (rw (e', cons-append)), (c, a, refl, k, k'), m'),
    λ (a, w, e, (c, b, e', k, k'), m). (
      c,
      b <> w,
      e ∙ (rw (e', cons-append)),
      k,
      (Matches-literals s p (b <> w)).1 (b, w, refl, k', m),
    ),
  )

  prefix_iff :
      (s t : String)
      → Matches (literals s ++ run ∷ []) t
        ↔ ((a : String) × (u : String) × (t ≡ a <> u) × Alike s a)
  prefix_iff s t = (
    λ m. let (a, u, e, k, _) = (Matches-literals s (run ∷ []) t).0 m in (a, u, e, k),
    λ (a, u, e, k).
        (Matches-literals s (run ∷ []) t).1 (a, u, e, k, (u, "", sym (append-nil u), refl)),
  )

  exact_iff : (s t : String) → Matches (literals s ++ []) t ↔ Alike s t
  exact_iff s t = (
    λ m.
        let (a, u, e, k, m') = (Matches-literals s [] t).0 m in
        subst (λ (x : String). Alike s x) (sym (e ∙ ap (λ (x : String). a <> x) m' ∙ append-nil a))
          k,
    λ k. (Matches-literals s [] t).1 (t, "", sym (append-nil t), k, refl),
  )

  -- The patterns of StartsWith, EndsWith and StringContains match exactly the texts that begin
  -- with, end in or hold a text equal, character by character, to the value; characters of the
  -- value that LIKE would interpret stand for themselves.
  pub escape_like-Matches :
      (s t : String)
      → (Matches (tokens (escape_like s <> "%")) t
          ↔ ((a : String) × (u : String) × (t ≡ a <> u) × Alike s a))
        × (Matches (tokens ("%" <> escape_like s)) t
            ↔ ((u : String) × (a : String) × (t ≡ u <> a) × Alike s a))
        × (Matches (tokens ("%" <> (escape_like s <> "%"))) t
            ↔ ((u : String) × (a : String) × (v : String) × (t ≡ u <> (a <> v)) × Alike s a))
  unfolding tokens
  escape_like-Matches s t = (
    rw (escape_like-literals s "%") (prefix_iff s t),
    rw (percent-tokens, escape_like-alone s)
        ((
          λ (u, a, e, m). (u, a, e, (exact_iff s a).0 m),
          λ (u, a, e, k). (u, a, e, (exact_iff s a).1 k),
        )),
    rw (percent-tokens, escape_like-literals s "%")
        ((
          λ (u, r, e, m).
              let (a, v, e', k) = (prefix_iff s r).0 m in
              (u, a, v, e ∙ ap (λ (x : String). u <> x) e', k),
          λ (u, a, v, e, k). (u, a <> v, e, (prefix_iff s (a <> v)).1 (a, v, refl, k)),
        )),
  )
