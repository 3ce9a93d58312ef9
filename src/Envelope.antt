-- ===== src/Envelope.antt =====
-- apps/telegram-bot/src/privateComparisonQueue.ts and
-- packages/cardano-agent/src/security/encryption.ts: the encrypted job of a private comparison.
-- What `node:crypto`, `Buffer` and `JSON` do is the record `Node`; the random bytes of the
-- initialisation vector are an argument.
pub mod Owner
pub mod Cipher
pub mod Job
pub mod Laws
pub mod SameOwner
pub mod Binding
pub mod Plain
pub mod Tests
