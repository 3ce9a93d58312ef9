-- ===== src/Polling.antt =====
-- apps/telegram-bot/src/pollingRuntime.ts: the polling loop and the delivery of its answers.
-- What the API, the queue, the clock, the signal and the disk do is given with each update.
pub mod Delivery
pub mod Step
pub mod Ends
pub mod Acknowledge
pub mod Retry
pub mod Enqueued
pub mod Tests
