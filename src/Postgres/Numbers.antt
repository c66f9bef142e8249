-- ===== src/Postgres/Numbers.antt =====
-- Texts that refer to the parameters of a statement by their numbers, in order.
use Prim.Native.Char.{Char, code}
use Prim.Native.String.{String}
use den.Base.{
  ℕ, ◌+◌, suc, ◌≡◌, refl, sym, subst, false, List, [], ◌∷◌, ◌++◌, map, arith, inl, inr, Bool-cases,
  ◌==◌, All, length,
}
use den.Base.Text.{◌<>◌, join, count_char, count_char-append}
use den.Util.{is_safe, sanitize_field_name}
use den.Util.Names.{sanitize-AllChars, count_char-safe}
use den.Where.{GoTypes}
use den.Postgres.{
  PgText, put_first, split_dots, quoted_parts, jsonb_path, jsonb_path_text, param, params,
}

-- The number of `$` in a text.
abbrev pub dollars : String → ℕ
dollars s = count_char b'$' s

pub dollars-append : (s t : String) → dollars (s <> t) ≡ dollars s + dollars t
dollars-append s t = count_char-append b'$' s t

put_first-All :
    (c : Char) (ps : List String)
    → (code c == b'$') ≡ false
    → All (λ p. dollars p ≡ 0) ps
    → All (λ p. dollars p ≡ 0) (put_first c ps)
unfolding put_first count_char
put_first-All c [] h a = (rw h, tt)
put_first-All c (p ∷ ps) h (a, more) = (rw (h, a), more)

split_dots-All : (s : String) → dollars s ≡ 0 → All (λ p. dollars p ≡ 0) (split_dots s)
unfolding split_dots count_char
split_dots-All String.[] h = (refl, tt)
split_dots-All (String.◌∷◌ c s) h =
    let plain : (code c == b'$') ≡ false = ground arith in
    let rest = split_dots-All s (ground arith) in
    elim (Bool-cases (code c == b'.')) [
      | inl dot ↦ rw dot (refl, rest)
      | inr other ↦ rw other (put_first-All c (split_dots s) plain rest)
    ]

join_quoted-dollars :
    (ps : List String)
    → All (λ p. dollars p ≡ 0) ps
    → dollars (join ", " (map (λ p. "'" <> (p <> "'")) ps)) ≡ 0
unfolding join count_char
join_quoted-dollars [] h = refl
join_quoted-dollars (p ∷ []) h = rw (dollars-append "'", dollars-append p, h.0)
join_quoted-dollars (p ∷ q ∷ ps) h = rw (
  dollars-append ("'" <> (p <> "'")),
  dollars-append "'",
  dollars-append p,
  dollars-append ", ",
  h.0,
  join_quoted-dollars (q ∷ ps) h.1,
)

quoted_parts-dollars : (f : String) → dollars (quoted_parts f) ≡ 0
unfolding quoted_parts is_safe
quoted_parts-dollars f =
    join_quoted-dollars _
      (split_dots-All _ (count_char-safe b'$' (sanitize_field_name f) refl (sanitize-AllChars f)))

pub jsonb_path-dollars : (f : String) → dollars (jsonb_path f) ≡ 0
unfolding jsonb_path count_char
jsonb_path-dollars f = rw (
  dollars-append "jsonb_extract_path(data, ",
  dollars-append (quoted_parts f),
  quoted_parts-dollars f,
)

pub jsonb_path_text-dollars : (f : String) → dollars (jsonb_path_text f) ≡ 0
unfolding jsonb_path_text count_char
jsonb_path_text-dollars f = rw (
  dollars-append "jsonb_extract_path_text(data, ",
  dollars-append (quoted_parts f),
  quoted_parts-dollars f,
)

module _ {G : GoTypes} (go : PgText G) where
  -- The text is put together, from left to right, of texts without `$` and the parameters from `n`
  -- to the one before `m`, each once and in order.
  pub data Numbered : ℕ → String → ℕ → Type 0 where
    plain : {n : ℕ} (s : String) → dollars s ≡ 0 → Numbered n s n
    one : {n : ℕ} → Numbered n (param go n) (suc n)
    append : {n k m : ℕ} {s t : String} → Numbered n s k → Numbered k t m → Numbered n (s <> t) m

  pub wrap :
      {n m : ℕ} (before after : String) {s : String}
      → dollars before ≡ 0
      → dollars after ≡ 0
      → Numbered n s m
      → Numbered n (before <> (s <> after)) m
  wrap before after h k d = append (plain before h) (append d (plain after k))

  -- The same of several texts, one after the other.
  abbrev pub AllNumbered : ℕ → List String → ℕ → Type 0
  AllNumbered n [] m = n ≡ m
  AllNumbered n (s ∷ ss) m = (k : ℕ) × Numbered n s k × AllNumbered k ss m

  pub join-Numbered :
      (sep : String) (n : ℕ) (ss : List String) (m : ℕ)
      → dollars sep ≡ 0
      → AllNumbered n ss m
      → Numbered n (join sep ss) m
  unfolding join count_char
  join-Numbered sep n [] m h e = subst (λ (k : ℕ). Numbered n "" k) e (plain "" refl)
  join-Numbered sep n (s ∷ []) m h (k, d, e) = subst (λ (i : ℕ). Numbered n s i) e d
  join-Numbered sep n (s ∷ t ∷ ss) m h (k, d, rest) =
      append d (append (plain sep h) (join-Numbered sep k (t ∷ ss) m h rest))

  pub params-AllNumbered :
      {A : Type 0} (before after : String) (n : ℕ) (vs : List A)
      → dollars before ≡ 0
      → dollars after ≡ 0
      → AllNumbered n (params go before after n vs) (n + length vs)
  unfolding params
  params-AllNumbered before after n [] h k = omega arith
  params-AllNumbered before after n (v ∷ vs) h k = (
    suc n,
    wrap before after h k one,
    subst (λ (i : ℕ). AllNumbered (suc n) (params go before after (suc n) vs) i) (omega arith)
        (params-AllNumbered before after (suc n) vs h k),
  )

  pub append-AllNumbered :
      (n : ℕ) (ss ts : List String) (k m : ℕ)
      → AllNumbered n ss k
      → AllNumbered k ts m
      → AllNumbered n (ss ++ ts) m
  append-AllNumbered n [] ts k m e d = subst (λ (i : ℕ). AllNumbered i ts m) (sym e) d
  append-AllNumbered n (s ∷ ss) ts k m (i, h, hs) d = (i, h, append-AllNumbered i ss ts k m hs d)
