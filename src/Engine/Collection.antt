-- ===== src/Engine/Collection.antt =====
-- engine/collection.go: the registration of document types and the lookup of a type's collection;
-- engine/search.go: `ensureFTSForCollection`. The analysis of a struct type and what else reflection
-- tells of a type are arguments.
pub mod Metadata
pub mod Lookup
pub mod Indexes
mod Tests
use Prim.Native.String.{String}
use text.Mathlib.Text.{◌==◌}
use den.Base.{
  ℕ, Bool, true, false, not, ◌&&◌, ◌||◌, Option, none, some, List, [], ◌∷◌, ◌++◌, if◌then◌else◌,
}
use den.Base.Results.{Result, ok, err}
use den.Base.Errors.{Error, not_registered}
use den.Base.Text.{◌<>◌}
use den.Util.{identifier_segment}
use den.Migrate.{str_lt}
use den.Engine.StaleIndexes.{Index}
pub use den.Engine.Collection.Metadata.{FieldInfo, StructInfo, Settings, FieldMeta, Meta}
unfoldable pub use den.Engine.Collection.Metadata.{
  field_meta, field_metas, field_indexes, group_fields, add_key, sorted_keys, group_indexes,
  fts_fields, validate_eager_tags, named, build_collection_meta, apply_settings,
}

pub record CollectionInfo : Type 0 where
  pub meta : Meta
  pub struct_info : StructInfo
  pub settings : Settings

-- Go's maps.
module _ {K V : Type 0} (same : K → K → Bool) where
  unfoldable pub get : K → List (K × V) → Option V
  get k [] = none
  get k ((j, v) ∷ m) = if same k j then some v else get k m

  unfoldable pub remove : K → List (K × V) → List (K × V)
  remove k [] = []
  remove k ((j, v) ∷ m) = let rest = remove k m in if same k j then rest else (j, v) ∷ rest

  unfoldable pub put : K → V → List (K × V) → List (K × V)
  put k v m = (k, v) ∷ remove k m

-- What the database knows of the registered types.
pub record Registry (T : Type 0) : Type 0 where
  pub collections : List (String × CollectionInfo)
  pub type_to_collection : List (String × String)
  pub type_cache : List (T × CollectionInfo)

pub data RegisterError (X : Type 0) : Type 0 where
  analyze_failed : String → Error X → RegisterError X
  eager_not_link : String → String → RegisterError X
  collection_failed : String → Error X → RegisterError X
  index_failed : String → String → Error X → RegisterError X
  fts_failed : String → Error X → RegisterError X

-- What reflection tells of a type, the analysis of its struct, and `strings.ToLower`.
pub record TypeOps (T X : Type 0) : Type 0 where
  pub same_type : T → T → Bool
  pub type_name : T → String
  pub to_lower : String → String
  pub analyze : T → Result (Error X) StructInfo
  pub is_trackable : T → Bool
  pub get_settings : T → Settings

-- What the engine calls of the backend; one without full-text search has no `ensure_fts`.
pub record SchemaOps (X S : Type 0) : Type 0 where
  pub ensure_collection : String → Meta → S → Option (Error X) × S
  pub ensure_index : String → Index → S → Option (Error X) × S
  pub ensure_fts : Option (String → List String → S → Option (Error X) × S)

-- A call, and the rest when it answers no error.
unfoldable pub and_then :
    {E F S : Type 0} → (E → F) → Option E × S → (S → Option F × S) → Option F × S
and_then wrap (some e, s) rest = (some (wrap e), s)
and_then wrap (none, s) rest = rest s

module _ {T X : Type 0} (ops : TypeOps T X) where
  unfoldable pub collection_info : T → StructInfo → CollectionInfo
  collection_info t info =
      let settings = ops.get_settings t in
      record {
        meta = apply_settings settings (build_collection_meta (ops.is_trackable t) info);
        struct_info = info;
        settings = settings;
      }

  unfoldable pub derived_name : T → String
  derived_name t = ops.to_lower (ops.type_name t)

  -- What `Register` writes under the database's mutex.
  unfoldable pub remember : T → CollectionInfo → Registry T → Registry T
  remember t info r = record {
    collections = put ◌==◌ info.meta.name info r.collections;
    type_to_collection =
        (if derived_name t == info.meta.name
          then r.type_to_collection
          else put ◌==◌ (derived_name t) info.meta.name r.type_to_collection);
    type_cache = remove ops.same_type t r.type_cache;
  }

  unfoldable pub mapped_or : String → Option String → String
  mapped_or name none = name
  mapped_or name (some mapped) = mapped

  unfoldable pub cached_or_stored :
      T → Registry T → Option CollectionInfo → Result (Error X) CollectionInfo × Registry T
  cached_or_stored t r none = (err not_registered, r)
  cached_or_stored t r (some info) =
      (ok info, record r { type_cache = put ops.same_type t info r.type_cache })

  unfoldable pub resolve_and_look_up :
      T → Registry T → Option CollectionInfo → Result (Error X) CollectionInfo × Registry T
  resolve_and_look_up t r (some info) = (ok info, r)
  resolve_and_look_up t r none = cached_or_stored t r (
      get ◌==◌ (mapped_or (derived_name t) (get ◌==◌ (derived_name t) r.type_to_collection))
        r.collections)

  -- `collectionForType`, which writes the cache.
  unfoldable pub collection_for : T → Registry T → Result (Error X) CollectionInfo × Registry T
  collection_for t r = resolve_and_look_up t r (get ops.same_type t r.type_cache)

  module _ {S : Type 0} (db : SchemaOps X S) where
    unfoldable pub ensure_indexes : String → List Index → S → Option (RegisterError X) × S
    ensure_indexes name [] s = (none, s)
    ensure_indexes name (i ∷ is) s =
        and_then (index_failed name i.name) (db.ensure_index name i s) (ensure_indexes name is)

    unfoldable pub ensure_fts_with :
        Option (String → List String → S → Option (Error X) × S)
        → String
        → List String
        → S
        → Option (RegisterError X) × S
    ensure_fts_with none name fields s = (none, s)
    ensure_fts_with (some ensure) name [] s = (none, s)
    ensure_fts_with (some ensure) name (f ∷ fs) s =
        and_then (fts_failed name) (ensure name (f ∷ fs) s) (λ s'. (none, s'))

    -- The calls of the backend for a collection.
    unfoldable pub ensure_schema : Meta → S → Option (RegisterError X) × S
    ensure_schema meta s =
        and_then (collection_failed meta.name) (db.ensure_collection meta.name meta s) (λ s1.
          and_then (λ e. e) (ensure_indexes meta.name meta.indexes s1)
            (λ s2. ensure_fts_with db.ensure_fts meta.name (fts_fields meta.fields) s2))

    unfoldable pub remember_unless :
        T
        → CollectionInfo
        → Registry T
        → Option (RegisterError X) × S
        → Option (RegisterError X) × (Registry T × S)
    remember_unless t info r (some e, s) = (some e, (r, s))
    remember_unless t info r (none, s) = (none, (remember t info r, s))

    unfoldable pub register_checked :
        T
        → StructInfo
        → Option String
        → Registry T × S
        → Option (RegisterError X) × (Registry T × S)
    register_checked t info (some field) st = (some (eager_not_link (ops.type_name t) field), st)
    register_checked t info none (r, s) =
        let col = collection_info t info in remember_unless t col r (ensure_schema col.meta s)

    unfoldable pub register_analyzed :
        T
        → Result (Error X) StructInfo
        → Registry T × S
        → Option (RegisterError X) × (Registry T × S)
    register_analyzed t (err e) st = (some (analyze_failed (ops.type_name t) e), st)
    register_analyzed t (ok info) st = register_checked t info (validate_eager_tags info.fields) st

    -- A round of `Register`.
    unfoldable pub register_type : T → Registry T × S → Option (RegisterError X) × (Registry T × S)
    register_type t st = register_analyzed t (ops.analyze t) st

    unfoldable pub register : List T → Registry T × S → Option (RegisterError X) × (Registry T × S)
    register [] st = (none, st)
    register (t ∷ ts) st = and_then (λ e. e) (register_type t st) (register ts)
