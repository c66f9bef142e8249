-- ===== src/Storage.antt =====
-- storage/registry.go: the openers registered for URL schemes. `strings.ToLower` is an argument.
mod Tests
use Prim.Native.Char.{code, Char}
use Prim.Native.String.{String}
use Prim.Native.String
use text.Mathlib.Text.{◌==◌}
use text.Mathlib.TextEquality.{eq_iff}
use text.Mathlib.TextLemmas.{cons-append, nil-append}
use den.Base.{
  ◌≡◌, refl, ap, sym, ◌∙◌, subst, inl, inr, ℕ, ltb, leb, Bool, true, false, ◌&&◌, Option, none,
  some, List, [], ◌∷◌, Bool-cases, Option-cases, if◌then◌else◌,
}
use den.Base.Results.{Result, ok, err}
use den.Base.Text.{◌<>◌}
use den.Engine.GroupBy.{strip_prefix, same_number}
use den.Engine.Collection.{get, put}
use den.Engine.Collection.Lookup.{get-put, text_same}

-- The panics of `Register`.
pub data RegisterPanic : Type 0 where
  empty_scheme nil_opener duplicate_scheme : RegisterPanic

pub data OpenError (X : Type 0) : Type 0 where
  empty_dsn missing_scheme : OpenError X
  unsupported_scheme : String → OpenError X
  opener_failed : X → OpenError X

-- strings.Cut at "://".
cut_later : {A : Type 0} → (A → A) → Option (A × String) → Option (A × String)
cut_later add none = none
cut_later add (some (before, location)) = some (add before, location)

cut_here : Option String → Option (String × String) → Option (String × String)
cut_here (some location) later = some ("", location)
cut_here none later = later

unfoldable pub cut_scheme : String → Option (String × String)
unfolding cut_later cut_here
cut_scheme String.[] = none
cut_scheme (String.◌∷◌ c s) =
    cut_here (strip_prefix "://" (String.◌∷◌ c s)) (cut_later (λ t. String.◌∷◌ c t) (cut_scheme s))

module _ {O : Type 0} (to_lower : String → String) where
  unfoldable pub register_new :
      String → O → List (String × O) → Option O → Result RegisterPanic (List (String × O))
  register_new scheme opener registry (some _) = err duplicate_scheme
  register_new scheme opener registry none = ok (put ◌==◌ scheme opener registry)

  unfoldable pub register_opener :
      String → Option O → List (String × O) → Result RegisterPanic (List (String × O))
  register_opener scheme none registry = err nil_opener
  register_opener scheme (some opener) registry =
      register_new scheme opener registry (get ◌==◌ scheme registry)

  unfoldable pub register :
      String → Option O → List (String × O) → Result RegisterPanic (List (String × O))
  register scheme opener registry =
      if to_lower scheme == ""
      then err empty_scheme
      else register_opener (to_lower scheme) opener registry

module _ {X B : Type 0} (to_lower : String → String) where
  unfoldable pub answer : Result X B → Result (OpenError X) B
  answer (ok storage) = ok storage
  answer (err e) = err (opener_failed e)

  unfoldable pub open_with : String → String → Option (String → Result X B) → Result (OpenError X) B
  open_with scheme location none = err (unsupported_scheme scheme)
  open_with scheme location (some opener) = answer (opener location)

  unfoldable pub open_cut :
      List (String × (String → Result X B)) → Option (String × String) → Result (OpenError X) B
  open_cut registry none = err missing_scheme
  open_cut registry (some (scheme, location)) =
      open_with (to_lower scheme) location (get ◌==◌ (to_lower scheme) registry)

  unfoldable pub open_url : List (String × (String → Result X B)) → String → Result (OpenError X) B
  open_url registry dsn = if dsn == "" then err empty_dsn else open_cut registry (cut_scheme dsn)

-- A colon ends a scheme.
abbrev pub has_no_colon : String → Bool
has_no_colon String.[] = true
has_no_colon (String.◌∷◌ c s) = if same_number (code ":") (code c) then false else has_no_colon s

separator-cons : (s : String) → "://" <> s ≡ String.◌∷◌ ":" (String.◌∷◌ "/" (String.◌∷◌ "/" s))
separator-cons s =
    cons-append ":" "//" s
    ∙ ap (λ x. String.◌∷◌ ":" x)
        (cons-append "/" "/" s
          ∙ ap (λ x. String.◌∷◌ "/" x)
              (cons-append "/" String.[] s ∙ ap (λ x. String.◌∷◌ "/" x) (nil-append s)))

cut_scheme-append :
    (scheme location : String)
    → has_no_colon scheme ≡ true
    → cut_scheme (scheme <> ("://" <> location)) ≡ some (scheme, location)
unfolding cut_scheme cut_later cut_here strip_prefix
cut_scheme-append String.[] location =
    λ h. rw (nil-append ("://" <> location), separator-cons location) refl
cut_scheme-append (String.◌∷◌ c s) location = elim (Bool-cases (same_number (code ":") (code c))) [
  | inl colon ↦ rw colon (λ h. cc)
  | inr other ↦
      rw (other, cons-append c s ("://" <> location))
        (λ h. rw (other, cut_scheme-append s location h) refl)
]

ok_inj : {E A : Type 0} {a b : A} → Path (Result E A) (ok a) (ok b) → a ≡ b
ok_inj e = cc

is_empty_text : String → Bool
is_empty_text String.[] = true
is_empty_text (String.◌∷◌ c s) = false

cons_not_empty : (c : Char) (s : String) → (String.◌∷◌ c s == "") ≡ false
unfolding is_empty_text
cons_not_empty c s = elim (Bool-cases (String.◌∷◌ c s == "")) [
  | inl same ↦ absurd (
      subst (λ b. if b then ⊥ else Unit) (ap is_empty_text ((eq_iff (String.◌∷◌ c s) "").0 same))
        tt)
  | inr other ↦ other
]

not_empty : (typed location : String) → ((typed <> ("://" <> location)) == "") ≡ false
not_empty String.[] location =
    rw (nil-append ("://" <> location), separator-cons location)
      (cons_not_empty ":" (String.◌∷◌ "/" (String.◌∷◌ "/" location)))
not_empty (String.◌∷◌ c s) location =
    rw (cons-append c s ("://" <> location)) (cons_not_empty c (s <> ("://" <> location)))

module _ {X B : Type 0} (to_lower : String → String) where
  -- A registration that succeeds has put the opener under the lower-case scheme.
  register-get :
      (scheme : String) (opener : String → Result X B)
      (registry after : List (String × (String → Result X B)))
      → register to_lower scheme (some opener) registry ≡ ok after
      → get ◌==◌ (to_lower scheme) after ≡ some opener
  unfolding register register_opener register_new
  register-get scheme opener registry after = elim (Bool-cases (to_lower scheme == "")) [
    | inl empty ↦ rw empty (λ h. cc)
    | inr some_scheme ↦ rw some_scheme (elim (Option-cases (get ◌==◌ (to_lower scheme) registry)) [
      | inr (other, taken) ↦ rw taken (λ h. cc)
      | inl free ↦ rw free (λ h.
          subst (λ m. get ◌==◌ (to_lower scheme) m ≡ some opener) (ok_inj h)
            (get-put ◌==◌ (to_lower scheme) opener registry (text_same (to_lower scheme))))
    ])
  ]

  -- A scheme without a colon for which an opener has been registered, however its letters are
  -- written, and a location: OpenURL calls the opener with the location as it
  -- stands, and its answer is the answer.
  pub open_url-register :
      (scheme typed location : String) (opener : String → Result X B)
      (registry after : List (String × (String → Result X B)))
      → register to_lower scheme (some opener) registry ≡ ok after
      → to_lower typed ≡ to_lower scheme
      → has_no_colon typed ≡ true
      → open_url to_lower after (typed <> ("://" <> location)) ≡ answer to_lower (opener location)
  unfolding open_url open_cut open_with
  open_url-register scheme typed location opener registry after h lower plain =
      rw
        (
          not_empty typed location,
          cut_scheme-append typed location plain,
          lower,
          register-get scheme opener registry after h,
        )
        refl
