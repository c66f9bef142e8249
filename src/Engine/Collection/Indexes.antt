-- ===== src/Engine/Collection/Indexes.antt =====
-- engine/collection.go: which indexes `buildCollectionMeta` asks for.
use Prim.Native.String.{String}
use text.Mathlib.Text.{◌==◌}
use den.Base.{
  ◌≡◌, refl, sym, subst, inl, inr, ◌⊎◌, Bool, true, false, ◌||◌, List, [], ◌∷◌, ◌++◌, Bool-cases,
  Any, Any-left, Any-right,
}
use den.Base.Text.{◌<>◌}
use den.Migrate.{str_lt}
use den.Engine.Collection.Lookup.{text_same}
use den.Engine.StaleIndexes.{Index}
use den.Engine.Collection.{
  FieldInfo, StructInfo, field_indexes, group_fields, add_key, sorted_keys, group_indexes,
  build_collection_meta,
}
use text.Mathlib.TextEquality.{eq_iff}

-- The index of a field of its own.
abbrev pub IsOwn : FieldInfo → Index → Type 0
IsOwn f i = (i.fields ≡ f.json_name ∷ []) × (i.unique ≡ f.unique)

-- The index of a group, which lists the field.
abbrev pub IsOfGroup : String → Bool → String → FieldInfo → Index → Type 0
IsOfGroup collection unique group f i =
    (i.name ≡ "idx_" <> (collection <> ("_" <> group)))
    × (i.unique ≡ unique)
    × Any (λ n. n ≡ f.json_name) i.fields

field_indexes-IsOwn :
    (collection : String) (f : FieldInfo) (fs : List FieldInfo)
    → Any (λ g. g ≡ f) fs
    → (f.index || f.unique) ≡ true
    → Any (IsOwn f) (field_indexes collection fs)
unfolding field_indexes
field_indexes-IsOwn collection f [] m h = absurd m
field_indexes-IsOwn collection f (g ∷ gs) (inl here) h =
    subst (λ x. Any (IsOwn f) (field_indexes collection (x ∷ gs))) (sym here)
      (rw h (inl (refl, refl)))
field_indexes-IsOwn collection f (g ∷ gs) (inr later) h = elim (Bool-cases (g.index || g.unique)) [
  | inl indexed ↦ rw indexed (inr (field_indexes-IsOwn collection f gs later h))
  | inr plain ↦ rw plain (field_indexes-IsOwn collection f gs later h)
]

module _ (group : FieldInfo → String) where
  group_fields-member :
      (f : FieldInfo) (fs : List FieldInfo)
      → Any (λ g. g ≡ f) fs
      → Any (λ n. n ≡ f.json_name) (group_fields group (group f) fs)
  unfolding group_fields
  group_fields-member f [] m = absurd m
  group_fields-member f (g ∷ gs) (inl here) =
      subst (λ x. Any (λ n. n ≡ f.json_name) (group_fields group (group f) (x ∷ gs))) (sym here)
        (rw (text_same (group f)) (inl refl))
  group_fields-member f (g ∷ gs) (inr later) = elim (Bool-cases (group g == group f)) [
    | inl same ↦ rw same (inr (group_fields-member f gs later))
    | inr other ↦ rw other (group_fields-member f gs later)
  ]

  add_key-new : (name : String) (ns : List String) → Any (λ n. n ≡ name) (add_key name ns)
  unfolding add_key
  add_key-new name [] = inl refl
  add_key-new name (n ∷ ns) = elim (Bool-cases (name == n)) [
    | inl same ↦ rw same (inl (sym ((eq_iff name n).0 same)))
    | inr other ↦ elim (Bool-cases (str_lt name n)) [
      | inl before ↦ rw (other, before) (inl refl)
      | inr after ↦ rw (other, after) (inr (add_key-new name ns))
    ]
  ]

  add_key-keeps :
      (k name : String) (ns : List String)
      → Any (λ n. n ≡ k) ns
      → Any (λ n. n ≡ k) (add_key name ns)
  unfolding add_key
  add_key-keeps k name [] m = absurd m
  add_key-keeps k name (n ∷ ns) m = elim (Bool-cases (name == n)) [
    | inl same ↦ rw same m
    | inr other ↦ elim (Bool-cases (str_lt name n)) [
      | inl before ↦ rw (other, before) (inr m)
      | inr after ↦
          rw (other, after)
            (elim m [ inl here ↦ inl here | inr later ↦ inr (add_key-keeps k name ns later) ])
    ]
  ]

  sorted_keys-member :
      (f : FieldInfo) (fs : List FieldInfo)
      → Any (λ g. g ≡ f) fs
      → (group f == "") ≡ false
      → Any (λ n. n ≡ group f) (sorted_keys group fs)
  unfolding sorted_keys
  sorted_keys-member f [] m h = absurd m
  sorted_keys-member f (g ∷ gs) (inl here) h =
      subst (λ x. Any (λ n. n ≡ group f) (sorted_keys group (x ∷ gs))) (sym here)
        (rw h (add_key-new (group f) (sorted_keys group gs)))
  sorted_keys-member f (g ∷ gs) (inr later) h = elim (Bool-cases (group g == "")) [
    | inl no_group ↦ rw no_group (sorted_keys-member f gs later h)
    | inr some_group ↦
        rw some_group (
          add_key-keeps (group f) (group g) (sorted_keys group gs)
            (sorted_keys-member f gs later h))
  ]

  group_indexes-IsOfGroup :
      (collection : String) (unique : Bool) (f : FieldInfo) (fs : List FieldInfo) (ns : List String)
      → Any (λ g. g ≡ f) fs
      → Any (λ n. n ≡ group f) ns
      → Any (IsOfGroup collection unique (group f) f) (group_indexes collection unique group fs ns)
  unfolding group_indexes
  group_indexes-IsOfGroup collection unique f fs [] member m = absurd m
  group_indexes-IsOfGroup collection unique f fs (n ∷ ns) member (inl here) =
      subst
        (λ x.
          Any (IsOfGroup collection unique (group f) f)
            (group_indexes collection unique group fs (x ∷ ns)))
        (sym here) (inl (refl, refl, group_fields-member f fs member))
  group_indexes-IsOfGroup collection unique f fs (n ∷ ns) member (inr later) =
      inr (group_indexes-IsOfGroup collection unique f fs ns member later)

-- Either the test fails, or what follows when it holds.
unless_false : {A : Type 0} (b : Bool) → (b ≡ true → A) → (b ≡ false) ⊎ A
unless_false true have = inr (have refl)
unless_false false have = inl refl

unless_true : {A : Type 0} (b : Bool) → (b ≡ false → A) → (b ≡ true) ⊎ A
unless_true true have = inl refl
unless_true false have = inr (have refl)

-- Every field of an analyzed struct has the indexes that its tags ask for: one of its own, unique
-- as the field is, unless it is neither indexed nor unique; a unique one that lists it and is named
-- for its `unique_together` group, unless it has none; and one that is not unique for its
-- `index_together` group, unless it has none.
pub build_collection_meta-indexes :
    (is_trackable : Bool) (info : StructInfo) (f : FieldInfo)
    → Any (λ g. g ≡ f) info.fields
    → (((f.index || f.unique) ≡ false)
        ⊎ Any (IsOwn f) (build_collection_meta is_trackable info).indexes)
      × (((f.unique_together == "") ≡ true)
          ⊎ Any
              (IsOfGroup info.collection_name true f.unique_together f)
              (build_collection_meta is_trackable info).indexes)
      × (((f.index_together == "") ≡ true)
          ⊎ Any
              (IsOfGroup info.collection_name false f.index_together f)
              (build_collection_meta is_trackable info).indexes)
unfolding build_collection_meta
build_collection_meta-indexes is_trackable info f member =
    let collection = info.collection_name in
    let fs = info.fields in
    let unique_keys = sorted_keys (λ g. g.unique_together) fs in
    let other_keys = sorted_keys (λ g. g.index_together) fs in
    let own = field_indexes collection fs in
    let uniques = group_indexes collection true (λ g. g.unique_together) fs unique_keys in
    let others = group_indexes collection false (λ g. g.index_together) fs other_keys in
    (
      unless_false (f.index || f.unique) (λ h.
          Any-left (IsOwn f) (own ++ uniques) others
            (Any-left (IsOwn f) own uniques (field_indexes-IsOwn collection f fs member h))),
      unless_true (f.unique_together == "") (λ h.
          Any-left (IsOfGroup collection true f.unique_together f) (own ++ uniques) others (
            Any-right (IsOfGroup collection true f.unique_together f) own uniques (
              group_indexes-IsOfGroup (λ g. g.unique_together) collection true f fs unique_keys
                member (sorted_keys-member (λ g. g.unique_together) f fs member h)))),
      unless_true (f.index_together == "") (λ h.
          Any-right (IsOfGroup collection false f.index_together f) (own ++ uniques) others (
            group_indexes-IsOfGroup (λ g. g.index_together) collection false f fs other_keys member
              (sorted_keys-member (λ g. g.index_together) f fs member h))),
    )
