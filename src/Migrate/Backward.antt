-- ===== src/Migrate/Backward.antt =====
-- `Down` and `DownOne`: what a run backward leaves in the log.
use Prim.Native.String.{String}
use den.Base.{arith, ◌≡◌, refl, ◌∙◌, ap, false, List, [], ◌∷◌, inl, inr, Bool-cases, Option-cases}
use den.Base.Results.{ok}
use den.Base.Errors.{Outcome, returns, fails, panics}
use den.Engine.Tx.Atomic.{IsFailure, run_in_transaction_lem}
use den.Migrate.{
  Entry, Env, load_entries, has_version, without_version, record_backward, apply_backward,
  backward_body, run_backward,
}
use den.Migrate.Runs.{contains}
use den.Migrate.Versions.{remove_version, versions, has_version-contains, versions-without_version}
use den.Migrate.Forward.{Laws, IsLogged, save_entries-loaded}

remove_version-absent :
    (vs : List String) (v : String) → contains vs v ≡ false → remove_version vs v ≡ vs
unfolding contains remove_version
remove_version-absent [] v h = refl
remove_version-absent (x ∷ xs) v h = ground (arith, remove_version-absent xs v)

module _ {X S Time Bytes : Type 0} (env : Env X S Time Bytes) where
  -- A run backward that fails leaves the database as it was.
  pub run_backward-failure :
      (laws : Laws env) (v : String) (undo_it : S → Outcome X (Unit {0}) × S) (s : S)
      → IsFailure (run_backward env v undo_it s).0
      → (run_backward env v undo_it s).1 ≡ s
  unfolding run_backward
  run_backward-failure laws v undo_it s h =
      (run_in_transaction_lem env.ops laws.ends (backward_body env v undo_it) s).0 h

  module _ (laws : Laws env) where
    record_backward-IsLogged :
        (v : String) (es : List (Entry Time)) (ran : Outcome X (Unit {0}) × S)
        → (record_backward env v es ran).0 ≡ returns tt
        → IsLogged env (record_backward env v es ran).1 (remove_version (versions env es) v)
    unfolding record_backward
    record_backward-IsLogged v es (returns _, s) h = record {
      entries = without_version env v es;
      loaded = save_entries-loaded env laws _ s h;
      listed = versions-without_version env v es;
    }
    record_backward-IsLogged v es (fails e, s) h = cc
    record_backward-IsLogged v es (panics, s) h = cc

    apply_backward-IsLogged :
        (v : String) (undo_it : S → Outcome X (Unit {0}) × S) (s : S) (vs : List String)
        (es : List (Entry Time))
        → load_entries env s ≡ ok es
        → versions env es ≡ vs
        → (apply_backward env v undo_it (ok es) s).0 ≡ returns tt
        → IsLogged env (apply_backward env v undo_it (ok es) s).1 (remove_version vs v)
    unfolding apply_backward
    apply_backward-IsLogged v undo_it s vs es e k h =
        let contained : has_version env v es ≡ contains vs v =
          has_version-contains env v es ∙ ap (λ (xs : List String). contains xs v) k in
        elim (Bool-cases (contains vs v)) [
          | inl here ↦
              rw (contained, here)
                (rw k at (record_backward-IsLogged v es (undo_it s) (rw (contained, here) at h)))
          | inr gone ↦
              rw (contained, gone, remove_version-absent vs v gone)
                (record { entries = es; loaded = e; listed = k })
        ]

    backward_body-IsLogged :
        (v : String) (undo_it : S → Outcome X (Unit {0}) × S) (s : S) (vs : List String)
        → IsLogged env s vs
        → (backward_body env v undo_it s).0 ≡ returns tt
        → IsLogged env (backward_body env v undo_it s).1 (remove_version vs v)
    unfolding backward_body
    backward_body-IsLogged v undo_it s vs l h = elim (Option-cases (env.advisory_lock s)) [
      | inl held ↦
          rw (held, l.loaded)
            (apply_backward-IsLogged v undo_it s vs l.entries l.loaded l.listed
              (rw (held, l.loaded) at h))
      | inr (e, refused) ↦ absurd (cc (rw refused at h))
    ]

    -- A run backward that succeeds leaves the log without its version, the others in their order.
    pub run_backward-IsLogged :
        (v : String) (undo_it : S → Outcome X (Unit {0}) × S) (s : S) (vs : List String)
        → IsLogged env s vs
        → (run_backward env v undo_it s).0 ≡ returns tt
        → IsLogged env (run_backward env v undo_it s).1 (remove_version vs v)
    unfolding run_backward
    run_backward-IsLogged v undo_it s vs l h =
        let (ran, same, _, _) =
          (run_in_transaction_lem env.ops laws.ends (backward_body env v undo_it) s).1 tt h in
        rw same (backward_body-IsLogged v undo_it s vs l ran)
