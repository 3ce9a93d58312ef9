-- ===== src/Ingress.antt =====
-- apps/telegram-bot/src/webhookRuntime.ts: the webhook, from the request to the queue.
pub mod Update
pub mod Body
pub mod Webhook
pub mod Enqueues
pub mod Laws
pub mod Private
pub mod Sealing
pub mod Queue
pub mod Queued
pub mod Reading
pub mod Sample
pub mod Tests
