-- ===== src/Lock/Tests.antt =====
-- Lock options on a concrete list.
use den.Base.{◌≡◌, List, [], ◌∷◌, true, false}
use den.Base.Results.{ok, err}
use den.Backend.{lock_default, lock_skip_locked, lock_no_wait}
use den.Lock.{
  LockOption, no_wait, mutually_exclusive, resolve, gives_skip_locked, gives_no_wait, resolve_lem,
}

abbrev twice : List LockOption
twice = no_wait ∷ no_wait ∷ []

resolve_lem_example :
    (gives_skip_locked twice ≡ true
      → gives_no_wait twice ≡ true
      → resolve twice ≡ err mutually_exclusive)
    × (gives_skip_locked twice ≡ true
        → gives_no_wait twice ≡ false
        → resolve twice ≡ ok lock_skip_locked)
    × (gives_skip_locked twice ≡ false
        → gives_no_wait twice ≡ true
        → resolve twice ≡ ok lock_no_wait)
    × (gives_skip_locked twice ≡ false
        → gives_no_wait twice ≡ false
        → resolve twice ≡ ok lock_default)
resolve_lem_example = resolve_lem twice
