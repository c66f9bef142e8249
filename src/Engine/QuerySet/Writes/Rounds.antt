-- ===== src/Engine/QuerySet/Writes/Rounds.antt =====
-- How often the loop of a bulk delete goes round.
use den.Base.{
  ◌≡◌, ◌≢◌, refl, inl, inr, subst, ℕ, zero, suc, ◌+◌, ◌≤◌, ◌<◌, leb, ltb, Option, none, some, List,
  [], ◌∷◌, Bool-cases, arith,
}
use den.Base.Int.{pos}
use den.Base.Errors.{Outcome, returns}
use den.Where.{GoTypes}
use den.Engine.Document.{World, Doc, State, Action, DocType, Db, CrudOpts, Draw}
use den.Engine.Document.Actions.{from_error}
use den.Engine.Document.Steps.{and_then-returns, on_scope-returns}
use den.Engine.LinkBatch.{QueryOps}
use den.Engine.QuerySet.{QuerySet, preflight, limit, skip}
use den.Engine.QuerySet.Writes.{
  size, chunk_limit, on_own, scan, delete_rows, next_chunk, delete_chunk, delete_next,
  delete_chunks, delete,
}
use den.Engine.Tx.{on_tx}
use den.Engine.Save.{delete_core}

next_chunk-again :
    {w : World} {D : Type 0} (taken m : ℕ) (again : ℕ → Action w D (Option ℕ)) (count : ℕ)
    (s : State w D)
    → (next_chunk taken m again count s).0 ≡ returns none
    → (again count s).0 ≡ returns none
unfolding next_chunk
next_chunk-again taken m again count s = elim (Bool-cases (ltb taken m)) [
  | inl h ↦ rw h (λ e. cc)
  | inr h ↦ rw h (λ e. e)
]

-- Where there is a chunk to take, the limit is not reached.
chunk_limit-below :
    (chunk_size n count m : ℕ) → chunk_limit chunk_size (pos (suc n)) count ≡ some m → count < suc n
unfolding chunk_limit
chunk_limit-below chunk_size n count m = elim (Bool-cases (leb (suc n) count)) [
  | inl h ↦ rw h (λ e. cc)
  | inr h ↦ rw h (λ e. ground arith)
]

module _ {w : World} {G : GoTypes} (db : Db w) (ops : QueryOps w G) (ty : DocType w)
    {D : Type 0} where
  -- Each row of a chunk is counted once.
  delete_rows-size :
      (draws : ℕ → ℕ → Draw w) (o : CrudOpts) (ds : List (Doc w)) (count c : ℕ) (s : State w D)
      → (delete_rows db ops ty draws o ds count s).0 ≡ returns c
      → c ≡ count + size ds
  unfolding delete_rows size
  delete_rows-size draws o [] count c s e = omega (arith, returns_inj e)
    where
      returns_inj : {a b : ℕ} → Path (Outcome w.Failure ℕ) (returns a) (returns b) → a ≡ b
      returns_inj e = cc
  delete_rows-size draws o (d ∷ rest) count c s e =
      let (tt, _, _, e1) = and_then-returns (from_error (draws count 0).ctx_err s) _ c e in
      let (_, _, _, e2) =
        and_then-returns
          (on_own d (delete_core db on_tx ty (draws count) o)
            (from_error (draws count 0).ctx_err s).1)
          _ c e1 in
      let ih : c ≡ suc count + size rest = delete_rows-size draws o rest (suc count) c _ e2 in
      omega (arith, ih)

  -- A chunk that asks for a further round has counted a row.
  delete_chunk-again :
      (draws : ℕ → ℕ → Draw w) (o : CrudOpts) (m : ℕ) (again : ℕ → Action w D (Option ℕ))
      (count : ℕ) (docs : List (Doc w)) (s : State w D)
      → (delete_chunk db ops ty draws o m again count docs s).0 ≡ returns none
      → (count' : ℕ) × (t : State w D) × (count < count') × ((again count' t).0 ≡ returns none)
  unfolding delete_chunk size
  delete_chunk-again draws o m again count [] s e = cc
  delete_chunk-again draws o m again count (d ∷ ds) s e =
      let (c, counted, _, e1) =
        and_then-returns (delete_rows db ops ty draws o (d ∷ ds) count s) _ none e in
      let more = delete_rows-size draws o (d ∷ ds) count c s counted in
      (c, _, omega (arith, more), next_chunk-again (size (d ∷ ds)) m again c _ e1)

  delete_next-again :
      (draws : ℕ → ℕ → Draw w) (o : CrudOpts) (qs : QuerySet w.Failure G)
      (again : ℕ → Action w D (Option ℕ)) (count : ℕ) (c : Option ℕ) (s : State w D)
      → (delete_next db ops ty draws o qs again count c s).0 ≡ returns none
      → (m : ℕ) × (c ≡ some m)
        × (count' : ℕ) × (t : State w D) × (count < count')
        × ((again count' t).0 ≡ returns none)
  unfolding delete_next
  delete_next-again draws o qs again count none s e = cc
  delete_next-again draws o qs again count (some m) s e =
      let (docs, _, _, e1) = and_then-returns (scan db ops ty (limit (pos m) qs) s) _ none e in
      let (count', t, more, e2) = delete_chunk-again draws o m again count docs _ e1 in
      (m, refl, count', t, more, e2)

  delete_chunks-ends :
      (rounds chunk_size : ℕ) (draws : ℕ → ℕ → Draw w) (o : CrudOpts) (qs : QuerySet w.Failure G)
      (n count : ℕ) (s : State w D)
      → qs.limit_n ≡ pos (suc n)
      → 1 ≤ rounds
      → suc (suc n) ≤ rounds + count
      → (delete_chunks db ops ty rounds chunk_size draws o qs count s).0 ≢ returns none
  unfolding delete_chunks skip
  delete_chunks-ends zero chunk_size draws o qs n count s has_limit le enough e =
      absurd (omega (arith, le))
  delete_chunks-ends (suc rounds) chunk_size draws o qs n count s has_limit le enough e =
      let (tt, _, _, e1) = and_then-returns (from_error (draws count 0).ctx_err s) _ none e in
      let (m, some_left, count', t, more, e2) =
        delete_next-again draws o qs
          (delete_chunks db ops ty rounds chunk_size draws o (skip (pos 0) qs)) count
          (chunk_limit chunk_size qs.limit_n count) _ e1 in
      let below : count < suc n =
        chunk_limit-below chunk_size n count m
          (subst (λ z. chunk_limit chunk_size z count ≡ some m) has_limit some_left) in
      delete_chunks-ends rounds chunk_size draws o (skip (pos 0) qs) n count' t has_limit
        (omega (arith, below, enough)) (omega (arith, more, enough)) e2

  -- A bulk delete whose limit is positive ends, with a count or with an error, after at most one
  -- round more than the limit, whatever the backend answers and whatever the hooks do.
  pub delete-ends :
      (rounds chunk_size : ℕ) (draws : ℕ → ℕ → Draw w) (o : CrudOpts) (qs : QuerySet w.Failure G)
      (n : ℕ) (s : State w D)
      → qs.limit_n ≡ pos (suc n)
      → suc (suc n) ≤ rounds
      → (delete db ops ty rounds chunk_size draws o qs s).0 ≢ returns none
  unfolding delete
  delete-ends rounds chunk_size draws o qs n s has_limit enough e =
      let (tt, _, _, e1) = and_then-returns (from_error (preflight qs) s) _ none e in
      delete_chunks-ends rounds chunk_size draws o qs n 0 _ has_limit (omega (arith, enough))
        (omega (arith, enough))
        (on_scope-returns db.tx qs.scope (delete_chunks db ops ty rounds chunk_size draws o qs 0)
          none _ e1).0
