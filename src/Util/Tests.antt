-- ===== src/Util/Tests.antt =====
-- Names and patterns on concrete texts, and the theorems there.
use Prim.Native.String.{String}
use den.Base.{◌≡◌, refl, ◌↔◌}
use den.Base.Text.{◌<>◌}
use den.Util.{
  is_safe, sanitize_field_name, identifier_segment, replace_char, escape_like, validate_field_name,
}
use den.Util.Names.{AllPlain, sanitize_field_name_lem, validate_field_name-kept}
use den.Util.Like.{tokens}
use den.Util.Match.{Matches, Alike, escape_like-Matches}

drops_quotes : sanitize_field_name "a'); DROP--.b_1" ≡ "aDROP.b_1"
unfolding sanitize_field_name is_safe
drops_quotes = refl

escapes : escape_like "50%_\\" ≡ "50\\%\\_\\\\"
unfolding escape_like replace_char
escapes = refl

sanitize_field_name_lem_example :
    AllPlain (sanitize_field_name "a'b")
    × (sanitize_field_name (sanitize_field_name "a'b") ≡ sanitize_field_name "a'b")
    × (AllPlain "a'b" → sanitize_field_name "a'b" ≡ "a'b")
sanitize_field_name_lem_example = sanitize_field_name_lem "a'b"

validate_field_name-kept_example :
    (sanitize_field_name "created_at" ≡ "created_at")
    × (identifier_segment "created_at" ≡ "created_at")
unfolding validate_field_name
validate_field_name-kept_example = validate_field_name-kept "created_at" refl

-- A database that distinguishes every character from every other.
escape_like-Matches_example :
    (Matches (◌≡◌) (tokens (escape_like "5%" <> "%")) "5% off"
      ↔ ((a : String) × (u : String) × ("5% off" ≡ a <> u) × Alike (◌≡◌) "5%" a))
    × (Matches (◌≡◌) (tokens ("%" <> escape_like "5%")) "5% off"
        ↔ ((u : String) × (a : String) × ("5% off" ≡ u <> a) × Alike (◌≡◌) "5%" a))
    × (Matches (◌≡◌) (tokens ("%" <> (escape_like "5%" <> "%"))) "5% off" ↔ (
        (u : String) × (a : String) × (v : String) × ("5% off" ≡ u <> (a <> v))
        × Alike (◌≡◌) "5%" a))
escape_like-Matches_example = escape_like-Matches (◌≡◌) "5%" "5% off"
