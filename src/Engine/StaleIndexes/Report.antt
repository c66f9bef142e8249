-- ===== src/Engine/StaleIndexes/Report.antt =====
-- What a run of `DropStaleIndexes` reports, and what it does to the database.
use Prim.Native.String.{String}
use text.Mathlib.Text.{◌==◌}
use text.Mathlib.TextEquality.{eq_iff}
use den.Base.{
  ◌≡◌, ◌≢◌, ◌⊎◌, refl, sym, subst, Bool, true, false, Option, none, some, List, [], ◌∷◌, inl, inr,
  Option-cases, Bool-cases, All, All-append, Any,
}
use den.Base.Results.{Result-cases}
use den.Base.Errors.{Error, at_index}
use den.Engine.StaleIndexes.{
  Index, CollectionMeta, StaleIndex, DropStaleResult, IndexOps, DropOption, is_expected, add_entry,
  drop_one, drop_recorded, drop_listed, unless_failed, drop_all, resolve_options,
  drop_stale_indexes,
}

is_expected-Any :
    (name : String) (is : List Index) → is_expected name is ≡ true → Any (λ i. i.name ≡ name) is
unfolding is_expected
is_expected-Any name [] = λ h. cc
is_expected-Any name (i ∷ is) = elim (Bool-cases (i.name == name)) [
  | inl same ↦ rw same (λ h. inl ((eq_iff i.name name).0 same))
  | inr other ↦ rw other (λ h. inr (is_expected-Any name is h))
]

is_expected-All :
    (name : String) (is : List Index) → is_expected name is ≡ false → All (λ i. i.name ≢ name) is
unfolding is_expected
is_expected-All name [] = λ h. tt
is_expected-All name (i ∷ is) = elim (Bool-cases (i.name == name)) [
  | inl same ↦ rw same (λ h. cc)
  | inr other ↦ rw other (λ h. (differ other, is_expected-All name is h))
]
  where
    differ : (i.name == name) ≡ false → i.name ≢ name
    differ other e = let same = (eq_iff i.name name).1 e in cc

-- The entry is of a registered collection that does not define its index.
abbrev pub IsStale : List CollectionMeta → StaleIndex → Type 0
IsStale metas e =
    Any (λ m. (m.name ≡ e.collection) × All (λ i. i.name ≢ e.index.name) m.indexes) metas

-- The entry is of a registered collection that defines its index.
abbrev pub IsDefined : List CollectionMeta → StaleIndex → Type 0
IsDefined metas e =
    Any (λ m. (m.name ≡ e.collection) × Any (λ i. i.name ≡ e.index.name) m.indexes) metas

abbrev pub IsSound : List CollectionMeta → DropStaleResult → Type 0
IsSound metas r = All (IsStale metas) r.dropped × All (IsDefined metas) r.kept

Any-at : {A : Type 0} (P : A → Type 0) (x : A) (xs : List A) → Any (λ y. y ≡ x) xs → P x → Any P xs
Any-at P x (y ∷ ys) (inl same) p = inl (subst P (sym same) p)
Any-at P x (y ∷ ys) (inr later) p = inr (Any-at P x ys later p)
Any-at P x [] m p = absurd m

All-inr :
    {A : Type 0} (y : A) (ys xs : List A)
    → All (λ x. Any (λ z. z ≡ x) ys) xs
    → All (λ x. Any (λ z. z ≡ x) (y ∷ ys)) xs
All-inr y ys [] h = tt
All-inr y ys (x ∷ xs) h = (inr h.0, All-inr y ys xs h.1)

-- Every element of a list is one of it.
All-own : {A : Type 0} (xs : List A) → All (λ x. Any (λ z. z ≡ x) xs) xs
All-own [] = tt
All-own (x ∷ xs) = (inl refl, All-inr x xs xs (All-own xs))

module _ {X S : Type 0} (ops : IndexOps X S) (dry : Bool) (metas : List CollectionMeta)
    (Holds : S → Type 0)
    (drop-Holds : (m : CollectionMeta) (name : String) (s : S)
      → dry ≡ false
      → Any (λ z. z ≡ m) metas
      → All (λ i. i.name ≢ name) m.indexes
      → Holds s
      → Holds (ops.drop_index m.name name s).1) where
  drop_one-Holds :
      (m : CollectionMeta) (rec : Index) (s : S)
      → Any (λ z. z ≡ m) metas
      → Holds s
      → Holds (drop_one ops dry (is_expected rec.name m.indexes) m.name rec s).1
  unfolding drop_one
  drop_one-Holds m rec s member h = elim (Bool-cases (is_expected rec.name m.indexes)) [
    | inl known ↦ rw known h
    | inr unknown ↦ elim (Bool-cases dry) [
      | inl is_dry ↦ rw (unknown, is_dry) h
      | inr real ↦
          rw (unknown, real)
            (drop-Holds m rec.name s real member (is_expected-All rec.name m.indexes unknown) h)
    ]
  ]

  add_entry-IsSound :
      (m : CollectionMeta) (rec : Index) (r : DropStaleResult)
      → Any (λ z. z ≡ m) metas
      → IsSound metas r
      → IsSound metas (
          add_entry
            (is_expected rec.name m.indexes)
            (record { collection = m.name; index = rec })
            r)
  unfolding add_entry
  add_entry-IsSound m rec r member (stale, defined) =
      elim (Bool-cases (is_expected rec.name m.indexes)) [
        | inl known ↦ rw known (
          stale,
          All-append (IsDefined metas) r.kept (record { collection = m.name; index = rec } ∷ [])
              defined
              (
                Any-at
                    (λ (x : CollectionMeta).
                      (x.name ≡ m.name) × Any (λ i. i.name ≡ rec.name) x.indexes)
                    m metas member (refl, is_expected-Any rec.name m.indexes known),
                tt,
              ),
        )
        | inr unknown ↦ rw unknown (
          All-append (IsStale metas) r.dropped (record { collection = m.name; index = rec } ∷ [])
              stale
              (
                Any-at
                    (λ (x : CollectionMeta).
                      (x.name ≡ m.name) × All (λ i. i.name ≢ rec.name) x.indexes)
                    m metas member (refl, is_expected-All rec.name m.indexes unknown),
                tt,
              ),
          defined,
        )
      ]

  -- A state of the loops: what is reported so far is sound, and the database is as it should be.
  abbrev IsGood : DropStaleResult × Option (Error X) × S → Type 0
  IsGood (r, e, s) = IsSound metas r × Holds s

  drop_recorded-IsGood :
      (m : CollectionMeta) (recs : List Index) (r : DropStaleResult) (s : S)
      → Any (λ z. z ≡ m) metas
      → IsSound metas r
      → Holds s
      → IsGood (drop_recorded ops dry m.name m.indexes recs r s)
  unfolding drop_recorded
  drop_recorded-IsGood m [] r s member sound h = (sound, h)
  drop_recorded-IsGood m (rec ∷ recs) r s member sound h =
      let known = is_expected rec.name m.indexes in
      let dropped = drop_one ops dry known m.name rec s in
      let held = drop_one-Holds m rec s member h in
      elim (Option-cases dropped.0) [
        | inl fine ↦ rw fine (
            drop_recorded-IsGood m recs _ dropped.1 member (add_entry-IsSound m rec r member sound)
              held)
        | inr (e, refused) ↦ rw refused (sound, held)
      ]

  drop_all-IsGood :
      (ms : List CollectionMeta) (r : DropStaleResult) (s : S)
      → All (λ m. Any (λ z. z ≡ m) metas) ms
      → IsSound metas r
      → Holds s
      → IsGood (drop_all ops dry ms r s)
  unfolding drop_all drop_listed unless_failed
  drop_all-IsGood [] r s members sound h = (sound, h)
  drop_all-IsGood (m ∷ ms) r s members sound h =
      elim (Result-cases (ops.list_recorded_indexes m.name s)) [
        | inl (recs, listed) ↦ rw listed (
            then_rest (drop_recorded ops dry m.name m.indexes recs r s)
              (drop_recorded-IsGood m recs r s members.0 sound h)
              (λ r' s' sound' h'. drop_all-IsGood ms r' s' members.1 sound' h'))
        | inr (e, refused) ↦ rw refused (
            then_rest (r, some (at_index m.name e), s) (sound, h)
              (λ r' s' sound' h'. drop_all-IsGood ms r' s' members.1 sound' h'))
      ]
    where
      then_rest :
          (out : DropStaleResult × Option (Error X) × S)
          → IsGood out
          → ((r' : DropStaleResult) (s' : S)
              → IsSound metas r'
              → Holds s'
              → IsGood (drop_all ops dry ms r' s'))
          → IsGood (unless_failed ops out (drop_all ops dry ms))
      then_rest (r', none, s') good ih = ih r' s' good.0 good.1
      then_rest (r', some e, s') good ih = good

module _ {X S : Type 0} (ops : IndexOps X S) (options : List DropOption)
    (metas : List CollectionMeta) (s : S) (Holds : S → Type 0)
    (drop-Holds : (m : CollectionMeta) (name : String) (t : S)
      → Any (λ z. z ≡ m) metas
      → All (λ i. i.name ≢ name) m.indexes
      → Holds t
      → Holds (ops.drop_index m.name name t).1) where
  -- A run of DropStaleIndexes, dry or not, over the registered collections in any order, and whether
  -- it succeeds or stops at an error: what it reports as dropped is not defined by its collection, and
  -- what it reports as kept is; it only drops indexes that their collection does not define, so that
  -- whatever holds of the database, and goes on holding when such an index is dropped, holds
  -- afterwards; and a dry run leaves the database as it was.
  pub drop_stale_indexes-IsSound :
      Holds s
      → let out = drop_stale_indexes ops options metas s in
        IsSound metas out.0
        × Holds out.2
        × (((resolve_options options).is_dry_run ≡ false) ⊎ (out.2 ≡ s))
  unfolding drop_stale_indexes
  drop_stale_indexes-IsSound h =
      let dry = (resolve_options options).is_dry_run in
      let nothing : DropStaleResult = record { dropped = []; kept = [] } in
      let (sound, held) =
        drop_all-IsGood ops dry metas Holds (λ m name t _. drop-Holds m name t) metas nothing s
          (All-own metas) (tt, tt) h in
      (
        sound,
        held,
        elim (Bool-cases dry) [
          | inr real ↦ inl real
          | inl is_dry ↦
              inr
                (drop_all-IsGood ops dry metas (λ t. t ≡ s)
                  (λ m name t real. absurd (both is_dry real)) metas nothing s (All-own metas)
                  (tt, tt) refl).1
        ],
      )
    where
      both : {b : Bool} → b ≡ true → b ≡ false → ⊥
      both e h = cc
