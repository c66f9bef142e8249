-- ===== src/Migrate/Register.antt =====
-- `Registry.Register`: the order of the registered migrations.
use Prim.Native.String.{String}
use mathlib.Core.List.Perm
use mathlib.Core.List.{Perm, perm_append_singleton}
use den.Base.{◌≡◌, refl, true, false, List, [], ◌∷◌, ◌++◌, inl, inr, Bool-cases, arith}
use den.Migrate.{str_lt, Migration, Registry, insert_sorted, sort_versions, register}

-- Of two texts at most one is less than the other.
str_lt_asymm : (a b : String) → str_lt a b ≡ true → str_lt b a ≡ false
unfolding str_lt
str_lt_asymm String.[] String.[] h = refl
str_lt_asymm String.[] (String.◌∷◌ d t) h = refl
str_lt_asymm (String.◌∷◌ c s) String.[] h = absurd (cc h)
str_lt_asymm (String.◌∷◌ c s) (String.◌∷◌ d t) h = ground (arith, str_lt_asymm s t)

module _ {X S : Type 0} where
  -- No version is less than the one before it.
  abbrev pub IsSorted : List (Migration X S) → Type 0
  IsSorted [] = Unit
  IsSorted (m ∷ []) = Unit
  IsSorted (m ∷ n ∷ ns) = (str_lt n.version m.version ≡ false) × IsSorted (n ∷ ns)

  insert-IsSorted :
      (m : Migration X S) (ns : List (Migration X S)) → IsSorted ns → IsSorted (insert_sorted m ns)
  unfolding insert_sorted
  insert-IsSorted m [] h = tt
  insert-IsSorted m (n ∷ []) h = elim (Bool-cases (str_lt m.version n.version)) [
    | inl less ↦ rw less (str_lt_asymm m.version n.version less, tt)
    | inr not_less ↦ rw not_less (not_less, tt)
  ]
  insert-IsSorted m (n ∷ o ∷ os) h =
      let rest = insert-IsSorted m (o ∷ os) h.1 in
      elim (Bool-cases (str_lt m.version n.version)) [
        | inl less ↦ rw less (str_lt_asymm m.version n.version less, h)
        | inr not_less ↦ rw not_less (elim (Bool-cases (str_lt m.version o.version)) [
          | inl lower ↦ rw lower (not_less, rw lower at rest)
          | inr higher ↦ rw higher (h.0, rw higher at rest)
        ])
      ]

  sort-IsSorted : (ms : List (Migration X S)) → IsSorted (sort_versions ms)
  unfolding sort_versions
  sort-IsSorted [] = tt
  sort-IsSorted (m ∷ ms) = insert-IsSorted m (sort_versions ms) (sort-IsSorted ms)

  insert-Perm : (m : Migration X S) (ns : List (Migration X S)) → Perm (insert_sorted m ns) (m ∷ ns)
  unfolding insert_sorted
  insert-Perm m [] = Perm.refl _
  insert-Perm m (n ∷ ns) = elim (Bool-cases (str_lt m.version n.version)) [
    | inl less ↦ rw less (Perm.refl _)
    | inr not_less ↦ rw not_less (Perm.trans (Perm.cons n (insert-Perm m ns)) (Perm.swap _ _ _))
  ]

  sort-Perm : (ms : List (Migration X S)) → Perm (sort_versions ms) ms
  unfolding sort_versions
  sort-Perm [] = Perm.refl _
  sort-Perm (m ∷ ms) = Perm.trans (insert-Perm m (sort_versions ms)) (Perm.cons m (sort-Perm ms))

  -- After Register the migrations are the old ones and the new one, in the order of their versions.
  pub register_lem :
      (r : Registry X S) (m : Migration X S)
      → IsSorted (register r m).migrations × Perm (register r m).migrations (m ∷ r.migrations)
  unfolding register
  register_lem r m = (
    sort-IsSorted (r.migrations ++ m ∷ []),
    Perm.trans (sort-Perm (r.migrations ++ m ∷ [])) (perm_append_singleton m r.migrations),
  )
