-- ===== src/Lock.antt =====
-- lock/lock.go: the options of a row lock and their resolution into a mode.
mod Tests
use den.Base.{
  Bool, true, false, List, [], ◌∷◌, ◌&&◌, ◌||◌, ◌≡◌, refl, ◌∙◌, arith, if◌then◌else◌, Bool-cases,
  inl, inr,
}
use den.Backend.{LockMode, lock_default, lock_skip_locked, lock_no_wait}
use den.Base.Results.{Result, ok, err}

-- The two functions of the type `Option`.
pub data LockOption : Type 0 where
  skip_locked no_wait : LockOption

pub record Config : Type 0 where
  pub skips_locked : Bool
  pub waits_not : Bool

pub data LockError : Type 0 where
  mutually_exclusive : LockError

unfoldable pub apply : LockOption → Config → Config
apply skip_locked c = record c { skips_locked = true }
apply no_wait c = record c { waits_not = true }

unfoldable pub apply_all : List LockOption → Config → Config
apply_all [] c = c
apply_all (o ∷ os) c = apply_all os (apply o c)

-- The tests after the loop of `Resolve`.
unfoldable pub mode_of : Config → Result LockError LockMode
mode_of c =
    if c.skips_locked && c.waits_not
    then err mutually_exclusive
    else if c.skips_locked
    then ok lock_skip_locked
    else if c.waits_not
    then ok lock_no_wait
    else ok lock_default

unfoldable pub resolve : List LockOption → Result LockError LockMode
resolve options = mode_of (apply_all options (record { skips_locked = false; waits_not = false }))

-- Whether the option is given.
unfoldable pub gives_skip_locked : List LockOption → Bool
gives_skip_locked [] = false
gives_skip_locked (skip_locked ∷ os) = true
gives_skip_locked (no_wait ∷ os) = gives_skip_locked os

unfoldable pub gives_no_wait : List LockOption → Bool
gives_no_wait [] = false
gives_no_wait (no_wait ∷ os) = true
gives_no_wait (skip_locked ∷ os) = gives_no_wait os

or_true : (b : Bool) → true ≡ (b || true)
or_true true = refl
or_true false = refl

or_false : (b : Bool) → b ≡ (b || false)
or_false true = refl
or_false false = refl

ap_pair :
    {a b c d : Bool}
    → a ≡ b
    → c ≡ d
    → Path Config
        (record { skips_locked = a; waits_not = c })
        (record { skips_locked = b; waits_not = d })
ap_pair h k = rw (h, k)

apply_all_lem :
    (os : List LockOption) (c : Config)
    → apply_all os c ≡ record {
      skips_locked = c.skips_locked || gives_skip_locked os;
      waits_not = c.waits_not || gives_no_wait os;
    }
unfolding apply_all apply gives_skip_locked gives_no_wait
apply_all_lem [] c = ap_pair (or_false c.skips_locked) (or_false c.waits_not)
apply_all_lem (skip_locked ∷ os) c = apply_all_lem os _ ∙ ap_pair (or_true c.skips_locked) refl
apply_all_lem (no_wait ∷ os) c = apply_all_lem os _ ∙ ap_pair refl (or_true c.waits_not)

-- Which mode the options resolve to, whatever their order and however often each is given: both
-- contradict each other, one alone selects its mode, and none selects the default.
pub resolve_lem :
    (os : List LockOption)
    → (gives_skip_locked os ≡ true → gives_no_wait os ≡ true → resolve os ≡ err mutually_exclusive)
      × (gives_skip_locked os ≡ true → gives_no_wait os ≡ false → resolve os ≡ ok lock_skip_locked)
      × (gives_skip_locked os ≡ false → gives_no_wait os ≡ true → resolve os ≡ ok lock_no_wait)
      × (gives_skip_locked os ≡ false → gives_no_wait os ≡ false → resolve os ≡ ok lock_default)
unfolding resolve mode_of
resolve_lem os =
    let config = apply_all_lem os (record { skips_locked = false; waits_not = false }) in
    rw config ((λ a b. rw (a, b)), (λ a b. rw (a, b)), (λ a b. rw (a, b)), λ a b. rw (a, b))
