-- ===== src/Engine/Collection/Tests.antt =====
-- Two packages with a type Note each: the first keeps its documents in entries, the second has no
-- settings.
use Prim.Native.String.{String}
use text.Mathlib.Text.{◌==◌}
use den.Base.{
  ◌≡◌, ◌⊎◌, inl, ◌||◌, Any, refl, Bool, true, false, Option, none, some, List, [], ◌∷◌,
  if◌then◌else◌,
}
use den.Base.Results.{ok}
use den.Engine.Collection.{
  TypeOps, SchemaOps, Registry, StructInfo, FieldInfo, Settings, CollectionInfo, RegisterError, get,
  put, remove, field_meta, field_metas, field_indexes, add_key, sorted_keys, group_indexes,
  fts_fields, validate_eager_tags, named, and_then, build_collection_meta, apply_settings,
  collection_info, derived_name, remember, mapped_or, cached_or_stored, resolve_and_look_up,
  collection_for, ensure_indexes, ensure_fts_with, ensure_schema, remember_unless, register_checked,
  register_analyzed, register_type,
}
use den.Engine.Collection.Lookup.{register_type-found}
use den.Engine.Collection.Indexes.{IsOwn, IsOfGroup, build_collection_meta-indexes}

data NoteType : Type 0 where
  note_of_first note_of_second : NoteType

abbrev same_note : NoteType → NoteType → Bool
same_note note_of_first note_of_first = true
same_note note_of_first note_of_second = false
same_note note_of_second note_of_first = false
same_note note_of_second note_of_second = true

abbrev note_settings : NoteType → Settings
note_settings note_of_first = record {
  collection_name = "entries";
  use_revision = true;
  indexes = [];
}
note_settings note_of_second = record { collection_name = ""; use_revision = false; indexes = [] }

abbrev lower : String → String
lower s = if s == "Note" then "note" else s

abbrev title : FieldInfo
title = record {
  json_name = "title";
  go_name = "Title";
  type_text = "string";
  index = false;
  unique = true;
  fts = true;
  eager = false;
  unique_together = "per_title";
  index_together = "";
  is_pointer = false;
  is_link = false;
}

abbrev note_info : StructInfo
note_info = record { collection_name = "note"; fields = title ∷ []; has_deleted_at = false }

abbrev types : TypeOps NoteType String
types = record {
  same_type = same_note;
  type_name = λ t. "Note";
  to_lower = lower;
  analyze = λ t. ok note_info;
  is_trackable = λ t. false;
  get_settings = note_settings;
}

-- The database keeps the names of its collections and indexes.
abbrev backend : SchemaOps String (List String)
backend = record {
  ensure_collection = λ name meta s. (none, name ∷ s);
  ensure_index = λ name i s. (none, i.name ∷ s);
  ensure_fts = some (λ name fields s. (none, "fts" ∷ s));
}

abbrev bare_info : StructInfo
bare_info = record { collection_name = "note"; fields = []; has_deleted_at = false }

-- The type is in the cache as it was before it had fields.
abbrev stale : Registry NoteType
stale = record {
  collections = [];
  type_to_collection = [];
  type_cache = (note_of_first, collection_info types note_of_first bare_info) ∷ [];
}

abbrev entries_col : CollectionInfo
entries_col = collection_info types note_of_first note_info

abbrev with_first : Registry NoteType
with_first = remember types note_of_first entries_col stale

abbrev made : List String
made = "fts" ∷ "idx_note_per_title" ∷ "idx_note_title" ∷ "entries" ∷ []

first_registered :
    Path
      (Option (RegisterError String) × (Registry NoteType × List String))
      (register_type types backend note_of_first (stale, []))
      (none, (with_first, made))
unfolding register_type register_analyzed register_checked validate_eager_tags remember_unless
    ensure_schema ensure_indexes ensure_fts_with fts_fields and_then collection_info apply_settings
    build_collection_meta field_indexes group_indexes sorted_keys add_key field_metas field_meta
    den.Util.identifier_segment named den.Util.replace_char
first_registered = refl

no_entry :
    {other : String}
    → get ◌==◌ (derived_name types note_of_first) stale.type_to_collection ≡ some other
    → ⊥
unfolding get
no_entry e = cc

register_type-found_example :
    (info : StructInfo) × (types.analyze note_of_first ≡ ok info)
    × ((collection_for types note_of_first with_first).0
        ≡ ok (collection_info types note_of_first info))
    × ((collection_for types note_of_first (collection_for types note_of_first with_first).1).0
        ≡ ok (collection_info types note_of_first info))
register_type-found_example =
    register_type-found types backend note_of_first stale with_first [] made refl first_registered
      no_mapping
  where
    no_mapping :
        (info : StructInfo) (other : String)
        → types.analyze note_of_first ≡ ok info
        → get ◌==◌ (derived_name types note_of_first) stale.type_to_collection ≡ some other
        → derived_name types note_of_first ≡ (collection_info types note_of_first info).meta.name
        → other ≡ (collection_info types note_of_first info).meta.name
    no_mapping info other good entry named_so = absurd (no_entry entry)

-- The second type is taken for the first one, whose mapping its own registration keeps.
abbrev note_col : CollectionInfo
note_col = collection_info types note_of_second note_info

second_is_taken_for_first :
    (collection_for types note_of_second
      (remember types note_of_second note_col (remember types note_of_first entries_col stale))).0
    ≡ ok entries_col
unfolding collection_for resolve_and_look_up cached_or_stored mapped_or get remember put remove
    derived_name collection_info apply_settings build_collection_meta named
second_is_taken_for_first = refl

build_collection_meta-indexes_example :
    (((title.index || title.unique) ≡ false)
      ⊎ Any (IsOwn title) (build_collection_meta false note_info).indexes)
    × (((title.unique_together == "") ≡ true)
        ⊎ Any
            (IsOfGroup "note" true "per_title" title)
            (build_collection_meta false note_info).indexes)
    × (((title.index_together == "") ≡ true)
        ⊎ Any (IsOfGroup "note" false "" title) (build_collection_meta false note_info).indexes)
build_collection_meta-indexes_example =
    build_collection_meta-indexes false note_info title (inl refl)
