-- ===== src/Download.antt =====
-- apps/telegram-bot/src/pollingRuntime.ts: what `getFile` may answer, and the download of a file
-- (`withTelegramFile`). The events of the request, the response, the timer, the signal and the
-- consumer come as a list, in any order.
pub mod Headers
pub mod Machine
pub mod Settles
pub mod Handed
pub mod Progress
pub mod Paths
pub mod SafeFile
pub mod Tests
