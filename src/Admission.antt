-- ===== src/Admission.antt =====
-- apps/telegram-bot/src/privateComparisonQueue.ts, the durable admission of one update:
-- `enqueuePgBossJob` and the limiter `admitUpdate`, over the tables `telegram_updates`,
-- `telegram_admission_windows` and those of pg-boss, whose `send` is a parameter.
-- A query can fail in two ways: before its effect, or after it (the reply is lost).
pub mod Session
pub mod Limiter
pub mod Enqueue
pub mod Atomicity
pub mod AllOrNothing
pub mod Windows
pub mod Outcome
pub mod Laws
pub mod Tests
