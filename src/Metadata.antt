-- ===== src/Metadata.antt =====
-- apps/telegram-bot/src/privateComparisonQueue.ts, the validation of a private comparison:
-- `boundedText` and its users, and `validatePrivateComparisonMetadata` over unknown values.
-- `findWalletSecret` enters as the test `secret`.
pub mod Bounded
pub mod Validate
pub mod Lengths
pub mod RoundTrip
pub mod Tests
