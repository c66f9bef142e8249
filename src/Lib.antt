-- ===== src/Lib.antt =====
-- Den, a document store over SQLite and PostgreSQL with typed documents.
--
-- A program registers document types, builds conditions (where/where.go) and query sets, and the
-- engine (engine/) sends them as abstract queries to a backend (backend/backend.go), which
-- translates them into SQL (backend/sqlite/sql.go, backend/postgres/sql.go). Documents get their
-- identifiers from idgen/ulid.go. Several writes go together in a transaction (engine/tx.go), on
-- which the migration runner (migrate/migrate.go) stands.
--
-- Which file models what:
--   Base.antt and Base/        names of the libraries passed on, lists, numbers, texts, results, and
--                              the errors of engine/errors.go with an outcome that may be a panic
--   Idgen.antt, Idgen/         idgen/ulid.go: `encode`, `addRandStep80` (add_rand_step80),
--                              `generator.new` (advance, new); a Draw is what one call reads of the
--                              clock and the random source
--   Util.antt, Util/           internal/util/sql.go and validate.go
--   Where.antt, Where/         where/where.go: conditions and the methods of FieldBuilder
--   Backend.antt, Backend/     the data types of backend/backend.go, and the loops of
--                              `buildGroupBySQL` that both backends share
--   Sqlite.antt, Sqlite/       backend/sqlite/sql.go: `conditionToSQL`, `buildWhereClauses` and, in
--                              Sqlite/Query.antt, the statements
--   Postgres.antt, Postgres/   backend/postgres/sql.go: the same with numbered placeholders; the
--                              statements are in Postgres/Query.antt
--   Lock.antt                  lock/lock.go: `Resolve`
--   Engine/StaleIndexes.antt,  engine/stale_indexes.go and maintenance/maintenance.go:
--     Engine/StaleIndexes/     `DropStaleIndexes`
--   Engine/Tx.antt, Engine/Tx/ engine/tx.go: `RunInTransaction`, `runInWriteTx`, `runOnScope`
--   Engine/Document.antt,      the state of the engine: a document in memory, the database and the
--     Engine/Document/         attachment storage, and actions on them (Document/Actions.antt)
--   Engine/Hooks.antt          engine/hooks.go
--   Engine/Write.antt,         engine/crud.go and engine/revision.go: `writeDocCore` (write_doc_core)
--     Engine/Write/
--   Engine/SoftDelete.antt,    engine/soft_delete.go; engine/crud_delete.go: `deleteDocCore`
--     Engine/Delete.antt
--   Engine/Links.antt          engine/link_cascade.go; engine/link_reflect.go: `forEachLinkField`
--   Engine/Save.antt,          engine/crud_save.go and engine/crud_delete.go: `Save`, `SaveAll`,
--     Engine/Save/             `updateCore`, `Delete`, `DeleteAll`
--   Engine/Track.antt          engine/track.go
--   Engine/LinkBatch.antt,     engine/link_batch.go
--     Engine/LinkBatch/
--   Engine/QuerySet.antt,      engine/queryset.go: the builder; QuerySet/Run.antt the reads, with
--     Engine/QuerySet/         engine/iter.go and engine/crud_find.go; QuerySet/Writes.antt the writes,
--                              with engine/crud_setfields.go
--   Engine/GroupBy.antt,       engine/aggregate.go: the tags, the slots of the group keys and `Into` up
--     Engine/GroupBy/          to the call of the backend (prepare); engine/aggregate_scalar.go
--   Engine/Collection.antt,    engine/collection.go: `Register`, `collectionForType`; in
--     Engine/Collection/       Collection/Metadata.antt `buildCollectionMeta` and engine/settings.go
--   Engine/Link.antt,          engine/link.go: `MarshalJSON` and `UnmarshalJSON`
--     Engine/Link/
--   Engine/Replace.antt        engine/replace.go
--   Storage.antt               storage/registry.go: `Register` and `OpenURL`
--   Migrate.antt, Migrate/     migrate/migrate.go: `Register`, `Up`, `runForward`, `runBackward` and, in
--                              Migrate/Runs.antt, `UpOne`, `DownOne`, `Down`
--
-- State is passed explicitly: a function on the database takes a state and gives an outcome and the
-- state afterwards. A transaction is known by the state in which it began; its function goes on from
-- there, and a commit or a rollback of the backend says what becomes of the state that it left (TxOps;
-- TxLaws says that neither a rollback nor a commit that fails keeps a write). Texts are lists of code
-- points; bytes are numbers
-- below 256. The loop over the ten random bytes counts them down. The loop of a bulk delete runs for a
-- number of rounds; for a positive limit, one round more than the limit suffices. Link resolution
-- counts its levels down.
--
-- Parameters: of the two backends only the statements are modelled, and what the engine calls of a
-- backend is an argument: its transactions (TxOps), its documents (Db, QueryOps), its schema (SchemaOps)
-- and its recorded indexes (IndexOps). Db.reads is what a backend gives back of the JSON put into it,
-- which on PostgreSQL is another text. From outside the repository: the row of the migration log, JSON
-- and the clock (Env, with the laws that reading gives what was written), the formatting of times,
-- numbers and other Go values (GoText, PgText), the Go types that the builders do not inspect
-- (GoTypes), and which characters LIKE holds for equal. The engine's World gives the types of the
-- database, of JSON bytes, of a document's own fields and of times; a DocType gives the encoding, the
-- hooks and what reflection tells of the type; TypeOps gives the analysis of a struct type and what
-- else reflection tells of it.
--
-- Not modelled: I/O over database drivers, reflection and JSON, logging, the rows of a
-- grouping, projections and search, and a context that is cancelled during a read.
pub mod Base
pub mod Idgen
pub mod Util
pub mod Where
pub mod Backend
pub mod Engine
pub mod Migrate
pub mod Sqlite
pub mod Postgres
pub mod Lock
pub mod Storage
