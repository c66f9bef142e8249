-- ===== src/Engine/Tests.antt =====
-- Concrete runs of the engine: articles in one collection, kept as a list of rows, the newest first.
mod Saves
mod Queries
use Prim.Native.String.{String}
use text.Mathlib.Text.{◌==◌}
use text.Mathlib.TextEquality.{eq_iff}
use den.Base.{
  ◌≡◌, ◌≢◌, refl, ap, inl, inr, ℕ, suc, ◌+◌, Bool, true, false, not, ◌&&◌, ◌||◌, Option, none, some,
  List, [], ◌∷◌, Bool-cases, if◌then◌else◌, arith,
}
use den.Base.Int.{pos}
use den.Base.Errors.{
  Error, not_found, not_registered, lock_requires_transaction, Outcome, returns, fails,
}
use den.Base.Results.{Result, ok, err}
use den.Base.Text.{is_empty}
use den.Where.{GoTypes}
use den.Engine.Tx.{TxOps, TxLaws, Scope, on_db, on_tx, finish, abort, close}
use den.Engine.Document.{
  World, Base, Doc, State, DocType, Db, CrudOpts, Draw, Hooks, Link, LinkField, LinkRule,
  link_ignore,
}
use den.Engine.Document.Actions.{in_transaction, on_scope}
use den.Engine.Write.Stores.{Laws}

abbrev Row : Type 0
Row = String × Option ℕ × Option ℕ × String × Option ℕ × String × String × ℕ

abbrev world : World
world = record {
  Failure = String;
  Database = List (String × Row);
  Files = List String;
  Time = ℕ;
  Bytes = Row;
  Body = ℕ;
}

abbrev read_row : String → List (String × Row) → Result (Error String) Row
read_row id [] = err not_found
read_row id ((k, row) ∷ rest) = if k == id then ok row else read_row id rest

abbrev drop_rows : String → List (String × Row) → List (String × Row)
drop_rows id [] = []
drop_rows id ((k, row) ∷ rest) = if k == id then drop_rows id rest else (k, row) ∷ drop_rows id rest

abbrev encode_row : Base world → ℕ → Result (Error String) Row
encode_row b n =
    ok (b.id, b.created_at, b.updated_at, b.rev, b.deleted_at, b.deleted_by, b.delete_reason, n)

abbrev decode_row : Row → Base world → ℕ → Result (Error String) (Base world × ℕ)
decode_row (id, created, updated, rev, deleted, by, reason, n) b m = ok (
  record {
    id = id;
    created_at = created;
    updated_at = updated;
    rev = rev;
    deleted_at = deleted;
    deleted_by = by;
    delete_reason = reason;
  },
  n,
)

abbrev no_hooks : Hooks world
no_hooks = record {
  before_insert = none;
  after_insert = none;
  before_update = none;
  after_update = none;
  before_save = none;
  after_save = none;
  before_delete = none;
  after_delete = none;
  before_soft_delete = none;
  after_soft_delete = none;
  validate = none;
}

abbrev blank : Base world
blank = record {
  id = "";
  created_at = none;
  updated_at = none;
  rev = "";
  deleted_at = none;
  deleted_by = "";
  delete_reason = "";
}

-- Articles have revisions, soft deletion and snapshots.
abbrev articles : DocType world
articles = record {
  name = "articles";
  uses_revision = true;
  has_soft_delete = true;
  has_deleted_by = true;
  has_delete_reason = true;
  has_validate_tags = false;
  is_tracked = true;
  encode = encode_row;
  decode = decode_row;
  decode_rev = λ row. ok row.3;
  zero_base = blank;
  zero_body = 0;
  validate_document = λ d. none;
  link_fields = [];
  links = λ n. [];
  with_links = λ ls n. n;
  attachments = λ n. [];
  hooks = no_hooks;
}

abbrev database : Db world
database = record {
  tx = record { begin = λ s. none; commit = λ s after. none; rollback = λ s after. (none, s) };
  get = λ name id s. read_row id s;
  put = λ name id row s. (none, (id, row) ∷ s);
  reads = λ b. b;
  delete = λ name id s. (none, drop_rows id s);
  delete_file = none;
  collection_for = λ t. err not_registered;
}

read-drop : (id : String) (s : List (String × Row)) → read_row id (drop_rows id s) ≡ err not_found
read-drop id [] = refl
read-drop id ((k, row) ∷ rest) = elim (Bool-cases (k == id)) [
  | inl h ↦ rw h (read-drop id rest)
  | inr h ↦ rw (h, h) (read-drop id rest)
]

ends : TxLaws database.tx
ends = record { rollback-restores = λ s after. refl; commit-restores = λ s after left e h. cc }

laws : Laws database
laws = record {
  ends = ends;
  get_put = λ name id row s h. rw ((eq_iff id id).1 refl) refl;
  get_delete = λ name id s h. read-drop id s;
}

abbrev plain : CrudOpts
plain = record {
  link_rule = link_ignore;
  ignore_revision = false;
  hard_delete = false;
  include_deleted = false;
  suppress_fetch_links = false;
  soft_delete_by = "";
  soft_delete_reason = "";
}

abbrev draws : ℕ → Draw world
draws n = record { ctx_err = none; now = 7; new_id = "b"; new_revision = "r2" }

-- The stored article, as two writers have read it.
abbrev article : Doc world
article = record {
  base = record blank { id = "a"; created_at = some 3; updated_at = some 3; rev = "r1" };
  body = 5;
  snapshot = none;
}

abbrev row : Row
row = ("a", some 3, some 3, "r1", none, "", "", 5)

abbrev start : State world (Doc world)
start = record { doc = article; db = ("a", row) ∷ []; files = [] }
