-- ===== src/Engine/Link/Tests.antt =====
-- A link whose id needs an escape, with an encoding that marks the text by a backslash before it.
use Prim.Native.String.{String}
use text.Mathlib.Text
use text.Mathlib.TextEquality.{eq_iff}
use den.Base.{◌≡◌, ◌∙◌, refl, ap, subst, inl, inr, false, some, Bool-cases, if◌then◌else◌}
use den.Base.Results.{Result, ok, err}
use den.Engine.Link.{
  ok_inj, needs_escape, id_is_json_clean, has_no_escape, between_quotes, marshal_json,
  unmarshal_json, unmarshal_json-marshal_json,
}

abbrev marshal : String → Result String String
marshal id = ok (String.◌∷◌ "\\" id)

abbrev unmarshal : String → Result String String
unmarshal String.[] = err "no text"
unmarshal (String.◌∷◌ c s) = ok s

unmarshal-marshal : (id t : String) → marshal id ≡ ok t → unmarshal t ≡ ok id
unmarshal-marshal id t e = subst (λ x. unmarshal x ≡ ok id) (ok_inj e) refl

no_quotes :
    (id t body : String)
    → id_is_json_clean id ≡ false
    → marshal id ≡ ok t
    → between_quotes t ≡ some body
    → has_no_escape body ≡ false
unfolding between_quotes
no_quotes id t body unclean e =
    subst (λ x. between_quotes x ≡ some body → has_no_escape body ≡ false) (ok_inj e) (λ h. cc)

not_null : (id t : String) → marshal id ≡ ok t → Text.◌==◌ t "null" ≡ false
unfolding has_no_escape
not_null id t e = elim (Bool-cases (Text.◌==◌ t "null")) [
  | inl same ↦ absurd (
      subst (λ b. if b then ⊥ else Unit) (ap has_no_escape (ok_inj e ∙ (eq_iff t "null").0 same))
        tt)
  | inr other ↦ other
]

abbrev odd_id : String
odd_id = "a\"b"

odd_id_written : marshal_json marshal odd_id ≡ ok "\\a\"b"
unfolding marshal_json id_is_json_clean needs_escape
odd_id_written = refl

unmarshal_json-marshal_json_example : unmarshal_json unmarshal "\\a\"b" ≡ ok odd_id
unmarshal_json-marshal_json_example =
    unmarshal_json-marshal_json marshal unmarshal unmarshal-marshal no_quotes not_null odd_id
      "\\a\"b" odd_id_written
