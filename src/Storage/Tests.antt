-- ===== src/Storage/Tests.antt =====
-- A file store that is opened by a URL with capital letters.
use Prim.Native.String.{String}
use text.Mathlib.Text.{◌==◌}
use den.Base.{◌≡◌, refl, List, [], ◌∷◌, some, if◌then◌else◌}
use den.Base.Results.{Result, ok}
use den.Base.Text.{◌<>◌}
use den.Engine.Collection.{get, put, remove}
use den.Storage.{
  RegisterPanic, register, register_new, register_opener, open_url, answer, open_url-register,
}

abbrev lower : String → String
lower s = if s == "FILE" then "file" else s

abbrev open_file : String → Result String String
open_file location = ok location

abbrev openers : List (String × (String → Result String String))
openers = ("file", open_file) ∷ []

file_registered :
    Path
      (Result RegisterPanic (List (String × (String → Result String String))))
      (register lower "file" (some open_file) [])
      (ok openers)
unfolding register register_opener register_new get put remove
file_registered = refl

open_url-register_example :
    open_url lower openers ("FILE" <> ("://" <> "/data/media")) ≡ answer lower (ok "/data/media")
open_url-register_example =
    open_url-register lower "file" "FILE" "/data/media" open_file [] openers file_registered refl
      refl
