-- ===== src/Migrate/Versions.antt =====
-- The versions in the log, as lists of texts.
use Prim.Native.String.{String}
use text.Mathlib.Text.{◌==◌}
use text.Mathlib.TextEquality.{eq_iff}
use den.Base.{
  ◌≡◌, refl, ap, Bool, true, false, List, [], ◌∷◌, ◌++◌, map, arith, if◌then◌else◌, Bool-cases, inl,
  inr,
}
use den.Migrate.{Entry, has_version, without_version, Env}
use den.Migrate.Runs.{contains}

-- A version added at the end, unless it is there.
unfoldable pub add_version : List String → String → List String
add_version vs v = if contains vs v then vs else vs ++ v ∷ []

-- Versions added in turn.
unfoldable pub add_versions : List String → List String → List String
add_versions vs [] = vs
add_versions vs (v ∷ more) = add_versions (add_version vs v) more

unfoldable pub remove_version : List String → String → List String
remove_version [] v = []
remove_version (x ∷ xs) v = let rest = remove_version xs v in if x == v then rest else x ∷ rest

-- No version stands twice.
abbrev pub IsDistinct : List String → Type 0
IsDistinct [] = Unit
IsDistinct (v ∷ vs) = (contains vs v ≡ false) × IsDistinct vs

pub contains-append-last :
    (vs : List String) (v w : String)
    → contains (vs ++ v ∷ []) w ≡ (if contains vs w then true else v == w)
unfolding contains
contains-append-last [] v w = ground arith
contains-append-last (x ∷ xs) v w = ground (arith, contains-append-last xs v w)

append-IsDistinct :
    (vs : List String) (v : String)
    → contains vs v ≡ false
    → IsDistinct vs
    → IsDistinct (vs ++ v ∷ [])
unfolding contains
append-IsDistinct [] v h d = (refl, tt)
append-IsDistinct (x ∷ xs) v h d = (
  ground (arith, contains-append-last xs v x, eq_iff x v, eq_iff v x),
  append-IsDistinct xs v (ground arith) d.1,
)

pub add_version-IsDistinct :
    (vs : List String) (v : String) → IsDistinct vs → IsDistinct (add_version vs v)
unfolding add_version
add_version-IsDistinct vs v d = elim (Bool-cases (contains vs v)) [
  | inl here ↦ rw here d
  | inr new ↦ rw new (append-IsDistinct vs v new d)
]

-- A version is there after `add_version` exactly if it was there or is the one added.
pub contains-add_version :
    (vs : List String) (v w : String)
    → contains (add_version vs v) w ≡ (if contains vs w then true else v == w)
unfolding add_version
contains-add_version vs v w = ground (arith, contains-append-last vs v w, eq_iff v w)

module _ {X S Time Bytes : Type 0} (env : Env X S Time Bytes) where
  abbrev pub versions : List (Entry Time) → List String
  versions es = map (λ e. e.version) es

  pub has_version-contains :
      (v : String) (es : List (Entry Time)) → has_version env v es ≡ contains (versions es) v
  unfolding has_version contains
  has_version-contains v [] = refl
  has_version-contains v (e ∷ es) =
      ap (λ (b : Bool). if e.version == v then true else b) (has_version-contains v es)

  pub versions-append :
      (es fs : List (Entry Time)) → versions (es ++ fs) ≡ versions es ++ versions fs
  versions-append [] fs = refl
  versions-append (e ∷ es) fs = ap (λ (r : List String). e.version ∷ r) (versions-append es fs)

  pub versions-without_version :
      (v : String) (es : List (Entry Time))
      → versions (without_version env v es) ≡ remove_version (versions es) v
  unfolding without_version remove_version
  versions-without_version v [] = refl
  versions-without_version v (e ∷ es) = elim (Bool-cases (e.version == v)) [
    | inl same ↦ rw same (versions-without_version v es)
    | inr other ↦ rw other (ap (λ (r : List String). e.version ∷ r) (versions-without_version v es))
  ]
