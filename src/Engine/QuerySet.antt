-- ===== src/Engine/QuerySet.antt =====
-- engine/queryset.go: the query builder, its checks, and the query that it sends to the backend.
pub mod Run
pub mod Writes
use Prim.Native.String.{String}
use den.Base.{
  Bool, true, false, not, ◌&&◌, ◌||◌, Option, none, some, List, [], ◌∷◌, ◌++◌, if◌then◌else◌,
}
use den.Base.Int.{ℤ, pos, is_positive}
use den.Base.Errors.{Error, contradicting_locks, lock_requires_transaction, incompatible_pagination}
use den.Base.Results.{Result, ok, err}
use den.Base.Text.{is_empty}
use den.Where.{GoTypes, Condition, str}
use den.Where.Fields.{eq, is_nil}
use den.Lock.{LockOption, LockError, resolve}
use den.Backend.{SortDirection, SortEntry, LockMode, Query}
use den.Engine.Tx.{Scope, on_db, on_tx}
use den.Engine.Document.{World, DocType, LinkField, CrudOpts}
use den.Engine.LinkBatch.{FetchMode, fetch_default, fetch_all, fetch_none, fetch_named}

pub record QuerySet (X : Type 0) (G : GoTypes) : Type 0 where
  pub scope : Scope
  pub conditions : List (Condition G)
  pub sort_fields : List SortEntry
  pub limit_n : ℤ
  pub skip_n : ℤ
  pub after_id : String
  pub before_id : String
  pub fetch_mode : FetchMode
  pub fetch_fields : List String
  pub nest_depth : ℤ
  pub include_deleted : Bool
  pub lock : Option LockMode
  pub failure : Option (Error X)

abbrev pub default_nesting_depth : ℤ
default_nesting_depth = pos 3

-- `hasEagerLinkFields`
unfoldable pub has_eager : List LinkField → Bool
has_eager [] = false
has_eager (f ∷ fs) = f.eager || has_eager fs

unfoldable pub is_some_name : List String → Bool
is_some_name [] = false
is_some_name (f ∷ fs) = true

unfoldable pub lock_failure : {X : Type 0} → Option LockMode → Scope → Option (Error X)
lock_failure (some mode) on_db = some lock_requires_transaction
lock_failure (some mode) on_tx = none
lock_failure none scope = none

-- The first error, if any.
abbrev pub or_else : {X : Type 0} → Option (Error X) → Option (Error X) → Option (Error X)
or_else (some e) later = some e
or_else none later = later

-- The switch of `shouldHydrate`.
unfoldable pub hydrates : FetchMode → List String → List LinkField → Bool
unfolding is_some_name
hydrates fetch_all names fields = true
hydrates fetch_none names fields = false
hydrates fetch_named names fields = is_some_name names
hydrates fetch_default names fields = has_eager fields

module _ {X : Type 0} {G : GoTypes} where
  unfoldable pub new_query : Scope → List (Condition G) → QuerySet X G
  new_query scope conditions = record {
    scope = scope;
    conditions = conditions;
    sort_fields = [];
    limit_n = pos 0;
    skip_n = pos 0;
    after_id = "";
    before_id = "";
    fetch_mode = fetch_default;
    fetch_fields = [];
    nest_depth = default_nesting_depth;
    include_deleted = false;
    lock = none;
    failure = none;
  }

  unfoldable pub where_all : List (Condition G) → QuerySet X G → QuerySet X G
  where_all conditions qs = record qs { conditions = qs.conditions ++ conditions }

  unfoldable pub sort : String → SortDirection → QuerySet X G → QuerySet X G
  sort field dir qs = record qs {
    sort_fields = qs.sort_fields ++ record { field = field; dir = dir } ∷ [];
  }

  unfoldable pub limit : ℤ → QuerySet X G → QuerySet X G
  limit n qs = record qs { limit_n = n }

  unfoldable pub skip : ℤ → QuerySet X G → QuerySet X G
  skip n qs = record qs { skip_n = n }

  unfoldable pub after : String → QuerySet X G → QuerySet X G
  after id qs = record qs { after_id = id }

  unfoldable pub before : String → QuerySet X G → QuerySet X G
  before id qs = record qs { before_id = id }

  unfoldable pub with_fetch_links : List String → QuerySet X G → QuerySet X G
  with_fetch_links [] qs = record qs { fetch_mode = fetch_all; fetch_fields = [] }
  with_fetch_links (f ∷ fs) qs = record qs { fetch_mode = fetch_named; fetch_fields = f ∷ fs }

  unfoldable pub without_fetch_links : QuerySet X G → QuerySet X G
  without_fetch_links qs = record qs { fetch_mode = fetch_none }

  unfoldable pub with_nesting_depth : ℤ → QuerySet X G → QuerySet X G
  with_nesting_depth depth qs = record qs { nest_depth = depth }

  unfoldable pub include_deleted : QuerySet X G → QuerySet X G
  include_deleted qs = record qs { include_deleted = true }

  unfoldable pub lock_with : Result LockError LockMode → QuerySet X G → QuerySet X G
  lock_with (err _) qs = record qs { failure = some contradicting_locks }
  lock_with (ok mode) qs = record qs { lock = some mode }

  unfoldable pub for_update : List LockOption → QuerySet X G → QuerySet X G
  unfolding lock_with
  for_update options qs = lock_with (resolve options) qs

  unfoldable pub back_links : String → String → QuerySet X G → QuerySet X G
  back_links field target qs = where_all (eq field (str target) ∷ []) qs

  unfoldable pub should_hydrate : {w : World} → DocType w → QuerySet X G → Bool
  unfolding hydrates
  should_hydrate ty qs = hydrates qs.fetch_mode qs.fetch_fields ty.link_fields

  unfoldable pub pagination_failure : QuerySet X G → Option (Error X)
  pagination_failure qs =
      if (not (is_empty qs.after_id) || not (is_empty qs.before_id)) && is_positive qs.skip_n
      then some incompatible_pagination
      else none

  unfoldable pub preflight : QuerySet X G → Option (Error X)
  unfolding lock_failure pagination_failure
  preflight qs =
      or_else qs.failure (or_else (lock_failure qs.lock qs.scope) (pagination_failure qs))

  unfoldable pub all_conditions : {w : World} → DocType w → QuerySet X G → List (Condition G)
  all_conditions ty qs =
      if ty.has_soft_delete && not qs.include_deleted
      then qs.conditions ++ is_nil "_deleted_at" ∷ []
      else qs.conditions

  unfoldable pub build_backend_query : {w : World} → DocType w → QuerySet X G → Query G
  build_backend_query ty qs = record {
    collection = ty.name;
    conditions = all_conditions ty qs;
    sort_fields = qs.sort_fields;
    limit_n = qs.limit_n;
    skip_n = qs.skip_n;
    after_id = qs.after_id;
    before_id = qs.before_id;
    lock = qs.lock;
    group_by_sort = [];
  }
