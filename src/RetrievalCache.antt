-- ===== src/RetrievalCache.antt =====
-- packages/cardano-agent/src/knowledge/retrievalCache.ts: the cache of retrieved evidence, over the
-- tables `retrieval_cache` and `knowledge_revision`. The hash, `Number.isFinite`, `JSON.stringify`
-- and the columns of type `jsonb` enter as arguments.
pub mod Row
pub mod Transaction
pub mod Fresh
pub mod Written
pub mod Plain
pub mod Deleted
pub mod Tests
