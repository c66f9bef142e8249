-- ===== src/Engine/Collection/Metadata.antt =====
-- engine/collection.go: `buildCollectionMeta` and the settings of a type; engine/settings.go; the
-- fields of engine/search.go's `ensureFTSForCollection`; engine/link_reflect.go: `validateEagerTags`.
use Prim.Native.String.{String}
use text.Mathlib.Text.{◌==◌}
use den.Base.{
  Bool, true, false, not, ◌&&◌, ◌||◌, Option, none, some, List, [], ◌∷◌, ◌++◌, if◌then◌else◌,
}
use den.Base.Text.{◌<>◌}
use den.Util.{identifier_segment}
use den.Migrate.{str_lt}
use den.Engine.StaleIndexes.{Index}

-- `FieldInfo` with its `TagOptions`. `is_link` is whether the type is a link or a slice of links.
pub record FieldInfo : Type 0 where
  pub json_name : String
  pub go_name : String
  pub type_text : String
  pub index : Bool
  pub unique : Bool
  pub fts : Bool
  pub eager : Bool
  pub unique_together : String
  pub index_together : String
  pub is_pointer : Bool
  pub is_link : Bool

pub record StructInfo : Type 0 where
  pub collection_name : String
  pub fields : List FieldInfo
  pub has_deleted_at : Bool

pub record Settings : Type 0 where
  pub collection_name : String
  pub use_revision : Bool
  pub indexes : List Index

pub record FieldMeta : Type 0 where
  pub name : String
  pub go_name : String
  pub type_text : String
  pub indexed : Bool
  pub unique : Bool
  pub fts : Bool
  pub is_pointer : Bool

pub record Meta : Type 0 where
  pub name : String
  pub fields : List FieldMeta
  pub indexes : List Index
  pub has_soft_delete : Bool
  pub has_revision : Bool
  pub has_change_tracking : Bool

unfoldable pub field_meta : FieldInfo → FieldMeta
field_meta f = record {
  name = f.json_name;
  go_name = f.go_name;
  type_text = f.type_text;
  indexed = f.index;
  unique = f.unique;
  fts = f.fts;
  is_pointer = f.is_pointer;
}

unfoldable pub field_metas : List FieldInfo → List FieldMeta
field_metas [] = []
field_metas (f ∷ fs) = field_meta f ∷ field_metas fs

unfoldable pub field_indexes : String → List FieldInfo → List Index
field_indexes collection [] = []
field_indexes collection (f ∷ fs) =
    let rest = field_indexes collection fs in
    if f.index || f.unique
    then record {
      name = "idx_" <> (collection <> ("_" <> identifier_segment f.json_name));
      fields = f.json_name ∷ [];
      unique = f.unique;
    }
      ∷ rest
    else rest

-- The fields of a group, where `group` reads the group of a field.
unfoldable pub group_fields : (FieldInfo → String) → String → List FieldInfo → List String
group_fields group name [] = []
group_fields group name (f ∷ fs) =
    let rest = group_fields group name fs in if group f == name then f.json_name ∷ rest else rest

-- A name into sorted names without repetition.
unfoldable pub add_key : String → List String → List String
add_key name [] = name ∷ []
add_key name (n ∷ ns) =
    let rest = add_key name ns in
    if name == n then n ∷ ns else if str_lt name n then name ∷ n ∷ ns else n ∷ rest

unfoldable pub sorted_keys : (FieldInfo → String) → List FieldInfo → List String
sorted_keys group [] = []
sorted_keys group (f ∷ fs) =
    let rest = sorted_keys group fs in if group f == "" then rest else add_key (group f) rest

unfoldable pub group_indexes :
    String → Bool → (FieldInfo → String) → List FieldInfo → List String → List Index
group_indexes collection unique group fs [] = []
group_indexes collection unique group fs (n ∷ ns) =
    record {
      name = "idx_" <> (collection <> ("_" <> n));
      fields = group_fields group n fs;
      unique = unique;
    }
    ∷ group_indexes collection unique group fs ns

unfoldable pub fts_fields : List FieldMeta → List String
fts_fields [] = []
fts_fields (f ∷ fs) = let rest = fts_fields fs in if f.fts then f.name ∷ rest else rest

-- The first field that is eager without being a link.
unfoldable pub validate_eager_tags : List FieldInfo → Option String
validate_eager_tags [] = none
validate_eager_tags (f ∷ fs) =
    let rest = validate_eager_tags fs in if f.eager && not f.is_link then some f.go_name else rest

unfoldable pub named : String → String → String
named own derived = if own == "" then derived else own

unfoldable pub build_collection_meta : Bool → StructInfo → Meta
build_collection_meta is_trackable info = record {
  name = info.collection_name;
  fields = field_metas info.fields;
  indexes =
      field_indexes info.collection_name info.fields
      ++ group_indexes info.collection_name true (λ f. f.unique_together) info.fields
          (sorted_keys (λ f. f.unique_together) info.fields)
      ++ group_indexes info.collection_name false (λ f. f.index_together) info.fields
          (sorted_keys (λ f. f.index_together) info.fields);
  has_soft_delete = info.has_deleted_at;
  has_revision = false;
  has_change_tracking = is_trackable;
}

unfoldable pub apply_settings : Settings → Meta → Meta
apply_settings settings meta = record meta {
  name = named settings.collection_name meta.name;
  indexes = meta.indexes ++ settings.indexes;
  has_revision = settings.use_revision;
}
