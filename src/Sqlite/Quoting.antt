-- ===== src/Sqlite/Quoting.antt =====
-- Field names stay inside the single quotes of a clause: the text outside the quotes depends on the
-- operators and on how many values there are, not on any name or value.
use Prim.Native.Char.{code}
use Prim.Native.String.{String}
use text.Mathlib.TextLemmas.{nil-append, cons-append}
use den.Base.{
  ℕ, ◌≡◌, refl, sym, ◌∙◌, Bool, true, false, not, arith, ◌==◌, inl, inr, Bool-cases, if◌then◌else◌,
}
use den.Base.Text.{◌<>◌, is_empty, is_empty-append}
use den.Util.{is_safe, sanitize_field_name}
use den.Util.Names.{AllChars, sanitize-AllChars}
use den.Sqlite.{json_path, contains_clause}

-- The text outside single quotes, the quotes included; `q` says whether the text begins inside.
unfoldable pub outside : Bool → String → String
outside q String.[] = ""
outside q (String.◌∷◌ c s) =
    let switched = String.◌∷◌ c (outside (not q) s) in
    let skipped = outside q s in
    let kept = String.◌∷◌ c (outside q s) in
    if code c == b'\'' then switched else if q then skipped else kept

-- Whether the text ends inside quotes.
unfoldable pub ends_inside : Bool → String → Bool
ends_inside q String.[] = q
ends_inside q (String.◌∷◌ c s) = ends_inside (if code c == b'\'' then not q else q) s

outside-append :
    (q : Bool) (s t : String) → outside q (s <> t) ≡ outside q s <> outside (ends_inside q s) t
unfolding outside ends_inside
outside-append q String.[] t = rw nil-append (sym (nil-append _))
outside-append q (String.◌∷◌ c s) t = elim (Bool-cases (code c == b'\'')) [
  | inl mark ↦ rw (cons-append, mark, outside-append (not q) s t) (sym (cons-append _ _ _))
  | inr plain ↦ elim (Bool-cases q) [
    | inl within ↦ rw (cons-append, plain, within, outside-append true s t)
    | inr without ↦
        rw (cons-append, plain, without, outside-append false s t) (sym (cons-append _ _ _))
  ]
]

ends_inside-append :
    (q : Bool) (s t : String) → ends_inside q (s <> t) ≡ ends_inside (ends_inside q s) t
unfolding ends_inside
ends_inside-append q String.[] t = rw nil-append
ends_inside-append q (String.◌∷◌ c s) t =
    rw cons-append (ends_inside-append (if code c == b'\'' then not q else q) s t)

not_quote : (k : ℕ) → is_safe k ≡ true → (k == b'\'') ≡ false
unfolding is_safe
not_quote k h = ground arith

safe-inside :
    (s : String) → AllChars is_safe s → (outside true s ≡ "") × (ends_inside true s ≡ true)
unfolding outside ends_inside
safe-inside String.[] h = (refl, refl)
safe-inside (String.◌∷◌ c s) h = let later = safe-inside s h.1 in rw (not_quote (code c) h.0) later

-- Two texts that read alike from `q` on: the same outside the quotes, and ending alike.
pub record Same (q : Bool) (s t : String) : Type 0 where
  pub text : outside q s ≡ outside q t
  pub end : ends_inside q s ≡ ends_inside q t

pub Same-append :
    (q : Bool) (s s' t t' : String)
    → Same q s s'
    → Same (ends_inside q s) t t'
    → Same q (s <> t) (s' <> t')
Same-append q s s' t t' h k = record {
  text = rw (outside-append q s t, outside-append q s' t', h.text, k.text, h.end);
  end = rw (ends_inside-append q s t, ends_inside-append q s' t', k.end, h.end);
}

pub Same-sanitized : (f g : String) → Same true (sanitize_field_name f) (sanitize_field_name g)
Same-sanitized f g =
    let a = safe-inside (sanitize_field_name f) (sanitize-AllChars f) in
    let b = safe-inside (sanitize_field_name g) (sanitize-AllChars g) in
    record { text = a.0 ∙ sym b.0; end = a.1 ∙ sym b.1 }

-- Whole clauses: alike, both outside quotes at the end, and both empty or neither.
pub record Alike (s t : String) : Type 0 where
  pub same : Same false s t
  pub closed : ends_inside false s ≡ false
  pub empty : is_empty s ≡ is_empty t

pub Alike-append : (s s' t t' : String) → Alike s s' → Alike t t' → Alike (s <> t) (s' <> t')
Alike-append s s' t t' h k = record {
  same = Same-append false s s' t t' h.same (rw h.closed k.same);
  closed = rw (ends_inside-append false s t, h.closed) k.closed;
  empty = rw (is_empty-append, is_empty-append, h.empty, k.empty);
}

pub Alike-itself : (s : String) → ends_inside false s ≡ false → Alike s s
Alike-itself s h = record { same = record { text = refl; end = refl }; closed = h; empty = refl }

-- A text with a sanitized name between an opening and a closing quote.
pub quoted-Alike :
    (before f g after after' : String)
    → ends_inside false before ≡ true
    → is_empty before ≡ false
    → ends_inside true after ≡ false
    → Same true after after'
    → Alike
        (before <> (sanitize_field_name f <> after))
        (before <> (sanitize_field_name g <> after'))
quoted-Alike before f g after after' h e k same = record {
  same =
      Same-append false before before _ _ (record { text = refl; end = refl })
        (rw h (
          Same-append true (sanitize_field_name f) (sanitize_field_name g) after after'
            (Same-sanitized f g) (rw (inside f) same)));
  closed =
      rw
        (
          ends_inside-append false before,
          h,
          ends_inside-append true (sanitize_field_name f),
          inside f,
        )
        k;
  empty = rw (is_empty-append before, is_empty-append before, e);
}
  where
    inside : (n : String) → ends_inside true (sanitize_field_name n) ≡ true
    inside n = (safe-inside (sanitize_field_name n) (sanitize-AllChars n)).1

-- What follows an opening quote: alike, and outside the quotes at the end.
pub record Tail (s t : String) : Type 0 where
  pub same : Same true s t
  pub closed : ends_inside true s ≡ false

pub Tail-append :
    (s t t' : String) → ends_inside true s ≡ false → Alike t t' → Tail (s <> t) (s <> t')
Tail-append s t t' h k = record {
  same = Same-append true s s t t' (record { text = refl; end = refl }) (rw h k.same);
  closed = rw (ends_inside-append true s, h) k.closed;
}

pub Tail-name :
    (s f g t : String)
    → ends_inside true s ≡ true
    → ends_inside true t ≡ false
    → Tail (s <> (sanitize_field_name f <> t)) (s <> (sanitize_field_name g <> t))
Tail-name s f g t h k =
    let within = (safe-inside (sanitize_field_name f) (sanitize-AllChars f)).1 in
    record {
      same =
          Same-append true s s _ _ (record { text = refl; end = refl })
            (rw h (
              Same-append true _ _ t t (Same-sanitized f g)
                (rw within (record { text = refl; end = refl }))));
      closed =
          rw (ends_inside-append true s, h, ends_inside-append true (sanitize_field_name f), within)
            k;
    }

pub json_path-Alike :
    (f g : String) → Alike (json_path (sanitize_field_name f)) (json_path (sanitize_field_name g))
unfolding json_path outside ends_inside is_empty
json_path-Alike f g =
    quoted-Alike "json_extract(data, '$." f g "')" "')" refl refl refl
      (record { text = refl; end = refl })

pub contains_clause-Alike :
    (f g : String)
    → Alike (contains_clause (sanitize_field_name f)) (contains_clause (sanitize_field_name g))
unfolding contains_clause outside ends_inside is_empty
contains_clause-Alike f g =
    quoted-Alike "EXISTS (SELECT 1 FROM json_each(json_extract(data, '$." f g "')) WHERE value = ?)"
      "')) WHERE value = ?)" refl refl refl (record { text = refl; end = refl })
