-- ===== src/Answer.antt =====
-- packages/cardano-agent/src/agent: a question answered from evidence. `Evidence` is the bounded
-- snapshot that a model may see, `Claims` parses what the model generates from it (`Links` finds the
-- links that a claim may not have), `Verify` drops the claims that are not supported, `Prepare` and
-- `Render` write the answer with its sources, `Dependencies` is what the handler is given, and
-- `Question` puts these together behind the checks of the question.
pub mod Links
pub mod Evidence
pub mod Claims
pub mod Support
pub mod Supported
pub mod Verify
pub mod Prepare
pub mod Render
pub mod Numbered
pub mod Fits
pub mod Checks
pub mod Dependencies
pub mod Question
pub mod Clean
pub mod Guarded
pub mod Possible
pub mod Generation
pub mod Verdict
pub mod Allowed
mod Tests
