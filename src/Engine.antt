-- ===== src/Engine.antt =====
-- engine: the document store proper. The children model its files.
pub mod Tx
pub mod Document
pub mod Hooks
pub mod Write
pub mod SoftDelete
pub mod Delete
pub mod Links
pub mod Save
pub mod Track
pub mod LinkBatch
pub mod QuerySet
pub mod Replace
pub mod StaleIndexes
pub mod GroupBy
pub mod Link
pub mod Collection
mod Tests
