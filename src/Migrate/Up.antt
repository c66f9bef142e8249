-- ===== src/Migrate/Up.antt =====
-- `Up`: which versions the log holds afterwards, also when a migration fails or several starters run.
use Prim.Native.String.{String}
use den.Base.{◌≡◌, refl, ◌∙◌, ap, true, List, [], ◌∷◌, ◌++◌, map, inl, inr, Option-cases, All, ◌⊎◌}
use den.Base.Results.{ok}
use den.Base.Errors.{Outcome, returns, fails, panics}
use den.Engine.Tx.Atomic.{IsFailure, run_in_transaction_lem}
use den.Migrate.{
  Entry, Migration, Env, has_version, apply_forward, forward_body, run_forward, and_then, up_all,
}
use den.Migrate.Runs.{contains}
use den.Migrate.Versions.{
  add_version, add_versions, IsDistinct, add_version-IsDistinct, has_version-contains,
}
use den.Migrate.Forward.{Laws, IsLogged, run_forward-failure, run_forward-IsLogged}

Outcome-cases : {X : Type 0} (o : Outcome X (Unit {0})) → (o ≡ returns tt) ⊎ IsFailure o
Outcome-cases (returns _) = inl refl
Outcome-cases (fails e) = inr tt
Outcome-cases panics = inr tt

module _ {X S Time Bytes : Type 0} (env : Env X S Time Bytes) where
  abbrev pub versions_in : List (Migration X S) → List String
  versions_in ms = map (λ m. m.version) ms

  -- A run that ended at the migration `at`: the ones before it are in the log, nothing else is new.
  pub record StoppedAt (ms : List (Migration X S)) (s : S) (vs : List String) : Type 0 where
    pub before : List (Migration X S)
    pub at : Migration X S
    pub after : List (Migration X S)
    pub split : ms ≡ before ++ at ∷ after
    pub logged : IsLogged env s (add_versions vs (versions_in before))

  -- The outcome of the loop, for either answer.
  abbrev pub UpResult : List (Migration X S) → List String → Outcome X (Unit {0}) × S → Type 0
  UpResult ms vs (returns _, s) = IsLogged env s (add_versions vs (versions_in ms))
  UpResult ms vs (fails e, s) = StoppedAt ms s vs
  UpResult ms vs (panics, s) = StoppedAt ms s vs

  later-UpResult :
      (m : Migration X S) (ms : List (Migration X S)) (vs : List String)
      (out : Outcome X (Unit {0}) × S)
      → UpResult ms (add_version vs m.version) out
      → UpResult (m ∷ ms) vs out
  unfolding add_versions
  later-UpResult m ms vs (returns _, s) h = h
  later-UpResult m ms vs (fails e, s) h = record {
    before = m ∷ h.before;
    at = h.at;
    after = h.after;
    split = ap (λ (r : List (Migration X S)). m ∷ r) h.split;
    logged = h.logged;
  }
  later-UpResult m ms vs (panics, s) h = record {
    before = m ∷ h.before;
    at = h.at;
    after = h.after;
    split = ap (λ (r : List (Migration X S)). m ∷ r) h.split;
    logged = h.logged;
  }

  -- Every version of `ms` is in the log.
  abbrev pub AllApplied : List String → List (Migration X S) → Type 0
  AllApplied vs ms = All (λ m. contains vs m.version ≡ true) ms

  apply_forward-same :
      (m : Migration X S) (s : S) (es : List (Entry Time))
      → has_version env m.version es ≡ true
      → (apply_forward env m (ok es) s).1 ≡ s
  unfolding apply_forward
  apply_forward-same m s es h = rw h refl

  forward_body-same :
      (m : Migration X S) (s : S) (vs : List String)
      → IsLogged env s vs
      → contains vs m.version ≡ true
      → (forward_body env m s).1 ≡ s
  unfolding forward_body
  forward_body-same m s vs l h = elim (Option-cases (env.advisory_lock s)) [
    | inl held ↦
        rw (held, l.loaded)
          (apply_forward-same m s l.entries (
            has_version-contains env m.version l.entries
            ∙ ap (λ (xs : List String). contains xs m.version) l.listed
            ∙ h))
    | inr (e, refused) ↦ rw refused refl
  ]

  run_forward-same :
      (laws : Laws env) (m : Migration X S) (s : S) (vs : List String)
      → IsLogged env s vs
      → contains vs m.version ≡ true
      → (run_forward env m s).1 ≡ s
  unfolding run_forward
  run_forward-same laws m s vs l h = elim (Outcome-cases (run_forward env m s).0) [
    | inl done ↦
        let (_, same, _, _) =
          (run_in_transaction_lem env.ops laws.ends (forward_body env m) s).1 tt done in
        same ∙ forward_body-same m s vs l h
    | inr failed ↦ run_forward-failure env laws m s failed
  ]

  and_then-same :
      (s : S) (ran : Outcome X (Unit {0}) × S) (rest : S → Outcome X (Unit {0}) × S)
      → ran.1 ≡ s
      → (rest s).1 ≡ s
      → (and_then env ran rest).1 ≡ s
  unfolding and_then
  and_then-same s (returns _, s') rest e h = rw e h
  and_then-same s (fails x, s') rest e h = e
  and_then-same s (panics, s') rest e h = e

  -- When the readable log holds every registered version, the loop of Up leaves the database as it
  -- was, whatever it answers, on a backend whose transactions end: no migration runs a second time.
  pub up_all-same :
      (laws : Laws env) (ms : List (Migration X S)) (s : S) (vs : List String)
      → IsLogged env s vs
      → AllApplied vs ms
      → (up_all env ms s).1 ≡ s
  unfolding up_all
  up_all-same laws [] s vs l h = refl
  up_all-same laws (m ∷ ms) s vs l h =
      and_then-same s (run_forward env m s) (up_all env ms) (run_forward-same laws m s vs l h.0)
        (up_all-same laws ms s vs l h.1)

  module _ (laws : Laws env) where
    -- The loop of Up, from a log that can be read: when it succeeds, the log holds the old versions
    -- and then the registered ones that were missing, in order; when it fails or panics, the log
    -- holds the old ones and those of the migrations before the one it stopped at, no more.
    pub up_all-UpResult :
        (ms : List (Migration X S)) (s : S) (vs : List String)
        → IsLogged env s vs
        → UpResult ms vs (up_all env ms s)
    unfolding up_all add_versions and_then
    up_all-UpResult [] s vs l = l
    up_all-UpResult (m ∷ ms) s vs l =
        first (run_forward env m s) refl
          (λ s' k. up_all-UpResult ms s' (add_version vs m.version) k)
      where
        stopped : (s' : S) → s' ≡ s → StoppedAt (m ∷ ms) s' vs
        stopped s' same = record {
          before = [];
          at = m;
          after = ms;
          split = refl;
          logged = rw same l;
        }

        first :
            (ran : Outcome X (Unit {0}) × S)
            → run_forward env m s ≡ ran
            → ((s' : S)
                → IsLogged env s' (add_version vs m.version)
                → UpResult ms (add_version vs m.version) (up_all env ms s'))
            → UpResult (m ∷ ms) vs (and_then env ran (up_all env ms))
        first (returns _, s') e rest =
            later-UpResult m ms vs (up_all env ms s')
              (rest s' (rw e at (run_forward-IsLogged env laws m s vs l (rw e refl))))
        first (fails x, s') e rest =
            stopped s' (rw e at (run_forward-failure env laws m s (rw e tt)))
        first (panics, s') e rest =
            stopped s' (rw e at (run_forward-failure env laws m s (rw e tt)))

    -- One call of `runForward` by any of several starters, whether or not it succeeds.
    step_log :
        (m : Migration X S) (s : S) (vs : List String)
        → IsLogged env s vs
        → IsLogged env (run_forward env m s).1 vs
          ⊎ IsLogged env (run_forward env m s).1 (add_version vs m.version)
    step_log m s vs l = elim (Outcome-cases (run_forward env m s).0) [
      | inl done ↦ inr (run_forward-IsLogged env laws m s vs l done)
      | inr failed ↦ inl (rw (run_forward-failure env laws m s failed) l)
    ]

    -- The states that calls of `runForward` reach, in any order, by any starters.
    pub data Reaches : S → S → Type 0 where
      here : {s : S} → Reaches s s
      then :
          {s : S} {end : S} (m : Migration X S)
          → Reaches (run_forward env m s).1 end
          → Reaches s end

    -- A readable log whose versions differ, whatever they are.
    pub record HasDistinctLog (s : S) : Type 0 where
      pub applied : List String
      pub logged : IsLogged env s applied
      pub distinct : IsDistinct applied

    -- However the calls of `runForward` of several starters follow each other, and whichever of
    -- them fail, no version stands twice in the log.
    pub Reaches-HasDistinctLog : (s end : S) → Reaches s end → HasDistinctLog s → HasDistinctLog end
    Reaches-HasDistinctLog s end here d = d
    Reaches-HasDistinctLog s end (then m more) d =
        Reaches-HasDistinctLog (run_forward env m s).1 end more
          (elim (step_log m s d.applied d.logged) [
            | inl kept ↦ record { applied = d.applied; logged = kept; distinct = d.distinct }
            | inr added ↦ record {
              applied = add_version d.applied m.version;
              logged = added;
              distinct = add_version-IsDistinct d.applied m.version d.distinct;
            }
          ])
