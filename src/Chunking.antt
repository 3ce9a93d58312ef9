-- ===== src/Chunking.antt =====
-- packages/cardano-agent/src/knowledge/chunkDocument.ts: a document cut into the chunks that are
-- embedded. The parts, from the inside out: `Cuts` finds where a text may be cut, `Split` cuts prose
-- and code, `Markdown` and `Blocks` read headings and fences, `Builder` collects the
-- pieces, and `Document` numbers and hashes them.
pub mod Cuts
pub mod Split
pub mod Markdown
pub mod Blocks
pub mod Builder
pub mod Document
mod Tests
