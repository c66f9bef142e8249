-- ===== src/Util.antt =====
-- internal/util: the text helpers that every SQL builder goes through (sql.go, validate.go).
pub mod Like
pub mod Match
pub mod Names
mod Tests
use Prim.Native.Char.{Char, code}
use Prim.Native.String
use Prim.Native.String.{String}
use den.Base.{ℕ, Bool, true, false, ◌&&◌, ◌||◌, leb, ◌==◌, if◌then◌else◌}
use den.Base.Text.{◌<>◌}

unfoldable pub is_letter : ℕ → Bool
is_letter r = (leb b'a' r && leb r b'z') || (leb b'A' r && leb r b'Z')

unfoldable pub is_digit : ℕ → Bool
is_digit r = leb b'0' r && leb r b'9'

-- The test of the loop of `SanitizeFieldName`.
unfoldable pub is_safe : ℕ → Bool
unfolding is_letter is_digit
is_safe r = is_letter r || is_digit r || r == b'_' || r == b'.'

unfoldable pub sanitize_field_name : String → String
sanitize_field_name String.[] = ""
sanitize_field_name (String.◌∷◌ r s) =
    let rest = sanitize_field_name s in if is_safe (code r) then String.◌∷◌ r rest else rest

-- strings.ReplaceAll with an old text of one character.
unfoldable pub replace_char : ℕ → String → String → String
replace_char old new String.[] = ""
replace_char old new (String.◌∷◌ c s) =
    let rest = replace_char old new s in if code c == old then new <> rest else String.◌∷◌ c rest

unfoldable pub identifier_segment : String → String
identifier_segment json_name = replace_char b'.' "_" json_name

unfoldable pub escape_like : String → String
escape_like s = replace_char b'_' "\\_" (replace_char b'%' "\\%" (replace_char b'\\' "\\\\" s))

-- The rest of a match of `^[A-Za-z_][A-Za-z0-9_]*$`.
unfoldable pub all_name_chars : String → Bool
all_name_chars String.[] = true
all_name_chars (String.◌∷◌ c s) =
    (is_letter (code c) || is_digit (code c) || code c == b'_') && all_name_chars s

-- `fieldNameRegexp.MatchString`: false is `ErrInvalidFieldName`.
unfoldable pub validate_field_name : String → Bool
unfolding is_letter is_digit all_name_chars
validate_field_name String.[] = false
validate_field_name (String.◌∷◌ c s) = (is_letter (code c) || code c == b'_') && all_name_chars s
