-- ===== src/Engine/Document.antt =====
-- engine: documents, the state that an operation works on, and the database that it calls.
-- document/base.go, document/soft_delete.go, document/tracked.go: the fields that the engine owns. The
-- client's fields are the type Body; Bytes is encoded JSON.
pub mod Actions
pub mod Steps
use Prim.Native.String.{String}
use den.Base.{Bool, Option, none, some, List}
use den.Base.Errors.{Error, Outcome}
use den.Base.Results.{Result}
use den.Engine.Tx.{TxOps}

-- Types from outside: errors, databases, the bytes of attachments, times, JSON and client fields.
pub record World : Type 1 where
  pub Failure : Type 0
  pub Database : Type 0
  pub Files : Type 0
  pub Time : Type 0
  pub Bytes : Type 0
  pub Body : Type 0

-- `document.Base` and `document.SoftDelete`. A zero time is `none`.
pub record Base (w : World) : Type 0 where
  pub id : String
  pub created_at : Option w.Time
  pub updated_at : Option w.Time
  pub rev : String
  pub deleted_at : Option w.Time
  pub deleted_by : String
  pub delete_reason : String

-- A document in memory; the snapshot is that of `document.Tracked`, which JSON leaves out.
pub record Doc (w : World) : Type 0 where
  pub base : Base w
  pub body : w.Body
  pub snapshot : Option w.Bytes

-- What an operation changes: the document that the caller holds (or several), the database, and the
-- attachment storage, which no transaction rolls back.
pub record State (w : World) (D : Type 0) : Type 0 where
  pub doc : D
  pub db : w.Database
  pub files : w.Files

abbrev pub Action : World → Type 0 → Type 0 → Type 0
Action w D A = State w D → Outcome w.Failure A × State w D

-- The methods that a document type may implement; each works on the document and may do anything
-- with the database and the storage.
pub record Hooks (w : World) : Type 0 where
  pub before_insert : Option (Action w (Doc w) (Unit {0}))
  pub after_insert : Option (Action w (Doc w) (Unit {0}))
  pub before_update : Option (Action w (Doc w) (Unit {0}))
  pub after_update : Option (Action w (Doc w) (Unit {0}))
  pub before_save : Option (Action w (Doc w) (Unit {0}))
  pub after_save : Option (Action w (Doc w) (Unit {0}))
  pub before_delete : Option (Action w (Doc w) (Unit {0}))
  pub after_delete : Option (Action w (Doc w) (Unit {0}))
  pub before_soft_delete : Option (Action w (Doc w) (Unit {0}))
  pub after_soft_delete : Option (Action w (Doc w) (Unit {0}))
  pub validate : Option (Action w (Doc w) (Unit {0}))

-- `linkFieldInfo`: a field of type Link[T] or []Link[T], by its JSON name.
pub record LinkField : Type 0 where
  pub json_name : String
  pub target_type : String
  pub eager : Bool

-- `Link[T]`, an element of a link field. A nil Value is `none`.
pub record Link (w : World) : Type 0 where
  pub field : LinkField
  pub link_id : String
  pub value : Option (Doc w)
  pub loaded : Bool

-- `collectionInfo` and what reflection tells of the type: its JSON form, links and attachments.
pub record DocType (w : World) : Type 0 where
  pub name : String
  pub uses_revision : Bool
  pub has_soft_delete : Bool
  pub has_deleted_by : Bool
  pub has_delete_reason : Bool
  pub has_validate_tags : Bool
  pub is_tracked : Bool
  pub encode : Base w → w.Body → Result (Error w.Failure) w.Bytes
  pub decode : w.Bytes → Base w → w.Body → Result (Error w.Failure) (Base w × w.Body)
  pub decode_rev : w.Bytes → Result (Error w.Failure) String
  pub zero_base : Base w
  pub zero_body : w.Body
  pub validate_document : Doc w → Option (Error w.Failure)
  pub link_fields : List LinkField
  pub links : w.Body → List (Link w)
  pub with_links : List (Link w) → w.Body → w.Body
  pub attachments : w.Body → List String
  pub hooks : Hooks w

-- `DB` with its backend, and the registered types by the names of Go's types. `reads` is what the
-- backend gives back of the JSON that was put into it: SQLite the same bytes, PostgreSQL, which keeps
-- JSON by its contents, a text of its own.
pub record Db (w : World) : Type 0 where
  pub tx : TxOps w.Failure w.Database
  pub get : String → String → w.Database → Result (Error w.Failure) w.Bytes
  pub put : String → String → w.Bytes → w.Database → Option (Error w.Failure) × w.Database
  pub reads : w.Bytes → w.Bytes
  pub delete : String → String → w.Database → Option (Error w.Failure) × w.Database
  pub delete_file : Option (String → w.Files → w.Files)
  pub collection_for : String → Result (Error w.Failure) (DocType w)

-- `LinkRule`
pub data LinkRule : Type 0 where
  link_ignore link_write link_delete : LinkRule

-- `crudOpts`
pub record CrudOpts : Type 0 where
  pub link_rule : LinkRule
  pub ignore_revision : Bool
  pub hard_delete : Bool
  pub include_deleted : Bool
  pub suppress_fetch_links : Bool
  pub soft_delete_by : String
  pub soft_delete_reason : String

-- What one write takes from the clock, from `NewID`, from `newRevision`, and what `ctx.Err` answers
-- before it.
pub record Draw (w : World) : Type 0 where
  pub ctx_err : Option (Error w.Failure)
  pub now : w.Time
  pub new_id : String
  pub new_revision : String
