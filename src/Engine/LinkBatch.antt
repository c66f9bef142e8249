-- ===== src/Engine/LinkBatch.antt =====
-- engine/link_batch.go: loading the documents that a list of documents links to, one query for each
-- link field and level. The map of ids is read in the order of the links, one of the orders of Go.
-- A cancelled context is not looked at here.
pub mod Dangling
use Prim.Native.String.{String}
use text.Mathlib.Text.{◌==◌}
use den.Base.{
  ℕ, zero, suc, Bool, true, false, not, ◌&&◌, ◌||◌, Option, none, some, List, [], ◌∷◌, ◌++◌, map,
  if◌then◌else◌,
}
use den.Base.Int.{ℤ, pos, negsuc}
use den.Base.Errors.{Error, decode_failed, dangling_link}
use den.Base.Results.{Result, ok, err, after}
use den.Base.Text.{is_empty}
use den.Where.{GoTypes, str}
use den.Where.Fields.{in_values}
use den.Backend.{Query}
use den.Engine.Document.{World, Doc, Link, LinkField, DocType, Db}
use den.Engine.Write.{wrap_result}
use den.Engine.Track.{zero_doc, decode_with_snapshot}

-- `Iterator`: the rows with their ids, and what `Err` answers after the last.
pub record Rows (w : World) : Type 0 where
  pub rows : List (String × w.Bytes)
  pub failure : Option (Error w.Failure)

-- The backend's queries.
pub record QueryOps (w : World) (G : GoTypes) : Type 0 where
  pub query : Query G → w.Database → Result (Error w.Failure) (Rows w)
  pub count : Query G → w.Database → Result (Error w.Failure) ℕ
  pub exists : Query G → w.Database → Result (Error w.Failure) Bool

pub data FetchMode : Type 0 where
  fetch_default fetch_all fetch_none fetch_named : FetchMode

unfoldable pub holds : List String → String → Bool
holds [] x = false
holds (y ∷ ys) x = (y == x) || holds ys x

-- `skipForMode` and the test of the names.
unfoldable pub is_selected : FetchMode → List String → LinkField → Bool
is_selected fetch_default names f = f.eager
is_selected fetch_all names f = true
is_selected fetch_none names f = false
is_selected fetch_named names f = holds names f.json_name

-- `collectLinkSlot`
unfoldable pub is_slot : {w : World} → LinkField → Link w → Bool
is_slot f l = (l.field.json_name == f.json_name) && not (is_empty l.link_id) && not l.loaded

unfoldable pub add_slot_ids : {w : World} → LinkField → List (Link w) → List String → List String
add_slot_ids f [] ids = ids
add_slot_ids f (l ∷ ls) ids =
    add_slot_ids f ls
      (if is_slot f l && not (holds ids l.link_id) then ids ++ l.link_id ∷ [] else ids)

unfoldable pub slot_ids :
    {w : World} → DocType w → LinkField → List (Doc w) → List String → List String
slot_ids ty f [] ids = ids
slot_ids ty f (d ∷ ds) ids = slot_ids ty f ds (add_slot_ids f (ty.links d.body) ids)

unfoldable pub find_target : {w : World} → List (String × Doc w) → String → Option (Doc w)
find_target [] id = none
find_target ((k, d) ∷ rest) id = if k == id then some d else find_target rest id

unfoldable pub first_dangling : {w : World} → List (String × Doc w) → List String → Option String
first_dangling found [] = none
first_dangling found (id ∷ ids) =
    if holds (map (λ r. r.0) found) id then first_dangling found ids else some id

unfoldable pub put_target : {w : World} → Link w → Option (Doc w) → Link w
put_target l none = l
put_target l (some d) = record l { value = some d; loaded = true }

unfoldable pub fill_slot : {w : World} → LinkField → List (String × Doc w) → Link w → Link w
fill_slot f found l = if is_slot f l then put_target l (find_target found l.link_id) else l

unfoldable pub fill_slots :
    {w : World} → DocType w → LinkField → List (String × Doc w) → List (Doc w) → List (Doc w)
fill_slots ty f found [] = []
fill_slots ty f found (d ∷ ds) =
    record d { body = ty.with_links (map (fill_slot f found) (ty.links d.body)) d.body }
    ∷ fill_slots ty f found ds

-- `iter.Err`, after the rows.
unfoldable pub unless_failed : {X A : Type 0} → Option (Error X) → A → Result (Error X) A
unless_failed none a = ok a
unless_failed (some e) a = err e

unfoldable pub levels : ℤ → ℕ
levels (pos n) = n
levels (negsuc n) = 0

module _ {w : World} {G : GoTypes} (db : Db w) (ops : QueryOps w G) where
  -- The rows of ids that were asked for, decoded.
  unfoldable pub decode_targets :
      DocType w
      → List String
      → List (String × w.Bytes)
      → Result (Error w.Failure) (List (String × Doc w))
  unfolding wrap_result
  decode_targets ty ids [] = ok []
  decode_targets ty ids ((id, bytes) ∷ rest) =
      let later = decode_targets ty ids rest in
      if holds ids id
      then after (wrap_result decode_failed (decode_with_snapshot ty bytes (zero_doc ty)))
          (λ d. after later (λ found. ok ((id, d) ∷ found)))
      else later

  unfoldable pub unless_dangling :
      {A : Type 0} → DocType w → Option String → A → Result (Error w.Failure) A
  unless_dangling ty none a = ok a
  unless_dangling ty (some id) a = err (dangling_link ty.name id)

  unfoldable pub ids_query : DocType w → List String → Query G
  ids_query ty ids = record {
    collection = ty.name;
    conditions = in_values "_id" (map (λ id. str id) ids) ∷ [];
    sort_fields = [];
    limit_n = pos 0;
    skip_n = pos 0;
    after_id = "";
    before_id = "";
    lock = none;
    group_by_sort = [];
  }

  -- The targets of the ids, each there.
  unfoldable pub load_targets :
      DocType w → List String → w.Database → Result (Error w.Failure) (List (String × Doc w))
  load_targets ty ids s = after (ops.query (ids_query ty ids) s) (λ read.
      after (decode_targets ty ids read.rows) (λ found.
        after (unless_failed read.failure found)
          (λ found'. unless_dangling ty (first_dangling found' ids) found')))

  abbrev pub Resolver : Type 0
  Resolver = DocType w → List (Doc w) → Result (Error w.Failure) (List (Doc w))

  unfoldable pub with_docs : List (String × Doc w) → List (Doc w) → List (String × Doc w)
  with_docs ((id, _) ∷ rest) (d ∷ ds) = (id, d) ∷ with_docs rest ds
  with_docs [] ds = []
  with_docs rest [] = []

  unfoldable pub load_field :
      Resolver
      → LinkField
      → List String
      → List (Doc w)
      → DocType w
      → w.Database
      → Result (Error w.Failure) (List (Doc w))
  load_field nested f [] docs ty s = ok docs
  load_field nested f (id ∷ ids) docs ty s = after (db.collection_for f.target_type) (λ target.
      after (load_targets target (id ∷ ids) s) (λ found.
        after (nested target (map (λ r. r.1) found))
          (λ resolved. ok (fill_slots ty f (with_docs found resolved) docs))))

  -- `batchResolveField`; the targets are resolved before they are put in their slots, which share them.
  unfoldable pub batch_resolve_field :
      Resolver
      → LinkField
      → DocType w
      → List (Doc w)
      → w.Database
      → Result (Error w.Failure) (List (Doc w))
  batch_resolve_field nested f ty docs s = load_field nested f (slot_ids ty f docs []) docs ty s

  unfoldable pub resolve_fields :
      Resolver
      → FetchMode
      → List String
      → List LinkField
      → DocType w
      → w.Database
      → List (Doc w)
      → Result (Error w.Failure) (List (Doc w))
  resolve_fields nested mode names [] ty s docs = ok docs
  resolve_fields nested mode names (f ∷ fs) ty s docs =
      after (if is_selected mode names f then batch_resolve_field nested f ty docs s else ok docs)
        (resolve_fields nested mode names fs ty s)

  -- `batchResolveLinksReflect`, with the levels that are left.
  unfoldable pub resolve_levels : ℕ → FetchMode → List String → w.Database → Resolver
  resolve_levels zero mode names s ty docs = ok docs
  resolve_levels (suc n) mode names s ty docs =
      resolve_fields (resolve_levels n mode names s) mode names ty.link_fields ty s docs

  -- `batchResolveLinks`; no level is left below zero.
  unfoldable pub batch_resolve_links :
      DocType w
      → List (Doc w)
      → ℤ
      → FetchMode
      → List String
      → w.Database
      → Result (Error w.Failure) (List (Doc w))
  batch_resolve_links ty docs depth mode names s =
      resolve_levels (levels depth) mode names s ty docs
