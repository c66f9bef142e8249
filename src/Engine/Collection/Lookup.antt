-- ===== src/Engine/Collection/Lookup.antt =====
-- engine/collection.go: what `collectionFor` finds after `Register`.
use Prim.Native.String.{String}
use text.Mathlib.Text.{◌==◌}
use text.Mathlib.TextEquality.{eq_iff}
use den.Base.{
  ◌≡◌, refl, ap, sym, ◌∙◌, inl, inr, Bool, true, Option, none, some, List, [], ◌∷◌, Bool-cases,
  Option-cases,
}
use den.Base.Results.{ok, Result-cases}
use den.Engine.Collection.{
  get, put, remove, Registry, CollectionInfo, StructInfo, RegisterError, TypeOps, SchemaOps,
  collection_info, derived_name, remember, mapped_or, cached_or_stored, resolve_and_look_up,
  collection_for, remember_unless, register_checked, register_analyzed, register_type,
  ensure_schema, validate_eager_tags,
}

module _ {K V : Type 0} (same : K → K → Bool) where
  get-remove : (k : K) (m : List (K × V)) → get same k (remove same k m) ≡ none
  unfolding get remove
  get-remove k [] = refl
  get-remove k ((j, v) ∷ m) = elim (Bool-cases (same k j)) [
    | inl here ↦ rw here (get-remove k m)
    | inr other ↦ rw (other, other) (get-remove k m)
  ]

  pub get-put :
      (k : K) (v : V) (m : List (K × V)) → same k k ≡ true → get same k (put same k v m) ≡ some v
  unfolding get put
  get-put k v m itself = rw itself refl

pub text_same : (s : String) → (s == s) ≡ true
text_same s = (eq_iff s s).1 refl

module _ {T X S : Type 0} (ops : TypeOps T X) (db : SchemaOps X S) where
  -- A round that succeeds has analyzed the type and remembered it.
  register_type-remembers :
      (t : T) (r r' : Registry T) (s s' : S)
      → Path
          (Option (RegisterError X) × (Registry T × S))
          (register_type ops db t (r, s))
          (none, (r', s'))
      → (info : StructInfo) × (ops.analyze t ≡ ok info)
        × (r' ≡ remember ops t (collection_info ops t info) r)
  unfolding register_type register_analyzed register_checked remember_unless
  register_type-remembers t r r' s s' = elim (Result-cases (ops.analyze t)) [
    | inr (e, bad) ↦ rw bad (λ h. cc)
    | inl (info, good) ↦
        rw good (λ h. (info, refl, checked info (validate_eager_tags info.fields) h))
  ]
    where
      remembered :
          (col : CollectionInfo) (o : Option (RegisterError X) × S)
          → Path
              (Option (RegisterError X) × (Registry T × S))
              (remember_unless ops db t col r o)
              (none, (r', s'))
          → r' ≡ remember ops t col r
      remembered col (some e, x) h = cc
      remembered col (none, x) h = sym (ap (λ y. y.1.0) h)

      checked :
          (info : StructInfo) (o : Option String)
          → Path
              (Option (RegisterError X) × (Registry T × S))
              (register_checked ops db t info o (r, s))
              (none, (r', s'))
          → r' ≡ remember ops t (collection_info ops t info) r
      checked info (some f) h = cc
      checked info none h =
          remembered (collection_info ops t info)
            (ensure_schema ops db (collection_info ops t info).meta s) h

  -- The name under which the type is looked up, once remembered.
  mapped_or-remember :
      (t : T) (col : CollectionInfo) (r : Registry T)
      → ((other : String)
          → get ◌==◌ (derived_name ops t) r.type_to_collection ≡ some other
          → derived_name ops t ≡ col.meta.name
          → other ≡ col.meta.name)
      → mapped_or ops
          (derived_name ops t)
          (get ◌==◌ (derived_name ops t) (remember ops t col r).type_to_collection)
        ≡ col.meta.name
  unfolding remember mapped_or
  mapped_or-remember t col r clear = elim (Bool-cases (derived_name ops t == col.meta.name)) [
    | inr renamed ↦
        rw
          (
            renamed,
            get-put ◌==◌ (derived_name ops t) col.meta.name r.type_to_collection
                (text_same (derived_name ops t)),
          )
          refl
    | inl kept ↦ rw kept (elim (Option-cases (get ◌==◌ (derived_name ops t) r.type_to_collection)) [
      | inl no_entry ↦ rw no_entry ((eq_iff (derived_name ops t) col.meta.name).0 kept)
      | inr (other, entry) ↦
          rw entry (clear other entry ((eq_iff (derived_name ops t) col.meta.name).0 kept))
    ])
  ]

  -- The first lookup after a type is remembered finds its collection and writes it into the cache.
  collection_for-remember :
      (t : T) (col : CollectionInfo) (r : Registry T)
      → ((other : String)
          → get ◌==◌ (derived_name ops t) r.type_to_collection ≡ some other
          → derived_name ops t ≡ col.meta.name
          → other ≡ col.meta.name)
      → collection_for ops t (remember ops t col r) ≡ (
        ok col,
        record (remember ops t col r) {
          type_cache = put ops.same_type t col (remember ops t col r).type_cache;
        },
      )
  unfolding collection_for resolve_and_look_up cached_or_stored remember
  collection_for-remember t col r clear =
      rw
        (
          get-remove ops.same_type t r.type_cache,
          mapped_or-remember t col r clear,
          get-put ◌==◌ col.meta.name col r.collections (text_same col.meta.name),
        )
        refl

  cached-collection_for :
      (t : T) (col : CollectionInfo) (r : Registry T)
      → ops.same_type t t ≡ true
      → (collection_for ops t (record r { type_cache = put ops.same_type t col r.type_cache })).0
        ≡ ok col
  unfolding collection_for resolve_and_look_up
  cached-collection_for t col r itself = rw (get-put ops.same_type t col r.type_cache itself) refl

  -- A registration that succeeds: the type has been analyzed, and the next lookup of it finds the
  -- collection of that analysis and of the type's settings, also when the type was registered or
  -- looked up before, and the lookup after that, which reads the cache, finds the same; when no other
  -- type with the same lower-case name has been mapped to another collection than the one of that
  -- name.
  pub register_type-found :
      (t : T) (r r' : Registry T) (s s' : S)
      → ops.same_type t t ≡ true
      → Path
          (Option (RegisterError X) × (Registry T × S))
          (register_type ops db t (r, s))
          (none, (r', s'))
      → ((info : StructInfo) (other : String)
          → ops.analyze t ≡ ok info
          → get ◌==◌ (derived_name ops t) r.type_to_collection ≡ some other
          → derived_name ops t ≡ (collection_info ops t info).meta.name
          → other ≡ (collection_info ops t info).meta.name)
      → (info : StructInfo) × (ops.analyze t ≡ ok info)
        × ((collection_for ops t r').0 ≡ ok (collection_info ops t info))
        × ((collection_for ops t (collection_for ops t r').1).0 ≡ ok (collection_info ops t info))
  register_type-found t r r' s s' itself h clear =
      let (info, good, e) = register_type-remembers t r r' s s' h in
      let first =
        ap (collection_for ops t) e
        ∙ collection_for-remember t (collection_info ops t info) r
            (λ other. clear info other good) in
      (
        info,
        good,
        ap (λ x. x.0) first,
        ap (λ x. (collection_for ops t x.1).0) first
            ∙ cached-collection_for t (collection_info ops t info)
                (remember ops t (collection_info ops t info) r) itself,
      )
