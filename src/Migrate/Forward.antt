-- ===== src/Migrate/Forward.antt =====
-- One `runForward`: what it leaves in the log.
use Prim.Native.String.{String}
use den.Base.{
  ◌≡◌, refl, ◌∙◌, ap, Option, none, some, List, [], ◌∷◌, ◌++◌, inl, inr, Bool-cases, Option-cases,
}
use den.Base.Results.{Result, ok, err}
use den.Base.Errors.{Error, Outcome, returns, fails, panics}
use den.Engine.Tx.{TxLaws}
use den.Engine.Tx.Atomic.{IsFailure, run_in_transaction_lem}
use den.Migrate.{
  Entry, Migration, Env, read_log, load_entries, saved, write_log, save_entries, has_version,
  record_forward, apply_forward, forward_body, run_forward,
}
use den.Migrate.Runs.{contains}
use den.Migrate.Versions.{add_version, versions, has_version-contains, versions-append}

-- What the runner relies on: JSON reads back what it wrote, and a row reads back as it was put.
pub record Laws {X S Time Bytes : Type 0} (env : Env X S Time Bytes) : Type 0 where
  pub ends : TxLaws env.ops
  pub reads_back :
      (es : List (Entry Time)) (b : Bytes) → env.marshal es ≡ ok b → env.unmarshal b ≡ ok es
  pub get_put :
      (b : Bytes) (s : S) → (env.put_log b s).0 ≡ none → env.get_log (env.put_log b s).1 ≡ ok b

module _ {X S Time Bytes : Type 0} (env : Env X S Time Bytes) where
  -- The log can be read, and its versions are `vs`, in this order.
  pub record IsLogged (s : S) (vs : List String) : Type 0 where
    pub entries : List (Entry Time)
    pub loaded : load_entries env s ≡ ok entries
    pub listed : versions env entries ≡ vs

  pub run_forward-failure :
      (laws : Laws env) (m : Migration X S) (s : S)
      → IsFailure (run_forward env m s).0
      → (run_forward env m s).1 ≡ s
  unfolding run_forward
  run_forward-failure laws m s h =
      (run_in_transaction_lem env.ops laws.ends (forward_body env m) s).0 h

  module _ (laws : Laws env) where
    pub save_entries-loaded :
        (es : List (Entry Time)) (s : S)
        → (save_entries env es s).0 ≡ returns tt
        → load_entries env (save_entries env es s).1 ≡ ok es
    unfolding save_entries load_entries
    save_entries-loaded es s = at (env.marshal es) refl
      where
        put :
            (b : Bytes) (p : Option (Error X) × S)
            → env.put_log b s ≡ p
            → env.marshal es ≡ ok b
            → (saved env p).0 ≡ returns tt
            → read_log env (env.get_log (saved env p).1) ≡ ok es
        put b (none, s') e k h =
            let same : env.get_log s' ≡ ok b =
              rw e at (laws.get_put b s (ap (λ (q : Option (Error X) × S). q.0) e)) in
            rw same (laws.reads_back es b k)
        put b (some x, s') e k h = cc

        at :
            (r : Result (Error X) Bytes)
            → env.marshal es ≡ r
            → (write_log env r s).0 ≡ returns tt
            → read_log env (env.get_log (write_log env r s).1) ≡ ok es
        at (ok b) e h = put b (env.put_log b s) refl e h
        at (err x) e h = cc

    record_forward-IsLogged :
        (v : String) (es : List (Entry Time)) (ran : Outcome X (Unit {0}) × S)
        → (record_forward env v es ran).0 ≡ returns tt
        → IsLogged (record_forward env v es ran).1 (versions env es ++ v ∷ [])
    unfolding record_forward
    record_forward-IsLogged v es (returns _, s) h = record {
      entries = es ++ record { version = v; applied_at = env.now s } ∷ [];
      loaded = save_entries-loaded _ s h;
      listed = versions-append env es _;
    }
    record_forward-IsLogged v es (fails e, s) h = cc
    record_forward-IsLogged v es (panics, s) h = cc

    apply_forward-IsLogged :
        (m : Migration X S) (s : S) (vs : List String) (es : List (Entry Time))
        → load_entries env s ≡ ok es
        → versions env es ≡ vs
        → (apply_forward env m (ok es) s).0 ≡ returns tt
        → IsLogged (apply_forward env m (ok es) s).1 (add_version vs m.version)
    unfolding apply_forward add_version
    apply_forward-IsLogged m s vs es e k h =
        let contained : has_version env m.version es ≡ contains vs m.version =
          has_version-contains env m.version es
          ∙ ap (λ (xs : List String). contains xs m.version) k in
        elim (Bool-cases (contains vs m.version)) [
          | inl here ↦ rw (contained, here) (record { entries = es; loaded = e; listed = k })
          | inr new ↦
              rw (contained, new)
                (rw k at
                  (record_forward-IsLogged m.version es (m.forward s) (rw (contained, new) at h)))
        ]

    forward_body-IsLogged :
        (m : Migration X S) (s : S) (vs : List String)
        → IsLogged s vs
        → (forward_body env m s).0 ≡ returns tt
        → IsLogged (forward_body env m s).1 (add_version vs m.version)
    unfolding forward_body
    forward_body-IsLogged m s vs l h = elim (Option-cases (env.advisory_lock s)) [
      | inl held ↦
          rw (held, l.loaded)
            (apply_forward-IsLogged m s vs l.entries l.loaded l.listed (rw (held, l.loaded) at h))
      | inr (e, refused) ↦ absurd (cc (rw refused at h))
    ]

    pub run_forward-IsLogged :
        (m : Migration X S) (s : S) (vs : List String)
        → IsLogged s vs
        → (run_forward env m s).0 ≡ returns tt
        → IsLogged (run_forward env m s).1 (add_version vs m.version)
    unfolding run_forward
    run_forward-IsLogged m s vs l h =
        let (ran, same, _, _) =
          (run_in_transaction_lem env.ops laws.ends (forward_body env m) s).1 tt h in
        rw same (forward_body-IsLogged m s vs l ran)
