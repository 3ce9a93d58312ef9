-- ===== src/Lib.antt =====
-- Verification of vennek, a Telegram bot that answers questions on Cardano governance.
--
-- The program. Telegram delivers updates to the bot in two ways: over a webhook
-- (apps/telegram-bot/src/webhookRuntime.ts) or to a polling loop
-- (apps/telegram-bot/src/pollingRuntime.ts). Both canonicalize an update with the same function; it
-- becomes a job for an answer, or for the comparison of a private document. The webhook puts jobs of
-- both kinds into a queue; the polling loop answers texts itself, behind a rate limiter
-- (apps/telegram-bot/src/accessControl.ts), and enqueues private comparisons. The queue
-- (apps/telegram-bot/src/agentQueue.ts, privateComparisonQueue.ts) claims the update, counts it
-- against a durable limit and hands it to pg-boss, all in one transaction of PostgreSQL. A private
-- comparison is stored encrypted and bound to its owner. Its file is downloaded from Telegram into a
-- buffer that is cleaned when the download is settled. The documents of the knowledge base, and
-- those that are compared, are cut into chunks before they are embedded
-- (packages/cardano-agent/src/knowledge/chunkDocument.ts). A question is answered from a snapshot of
-- evidence: a model writes an answer as JSON, which is parsed against the evidence, a second model
-- verifies its claims, and what is left is rendered with numbered citations within a limit on its
-- length
-- (packages/cardano-agent/src/agent/answerQuestion.ts).
--
-- The files.
--   Prelude        names of the libraries, tests on numbers, lists, JavaScript strings as lists of
--                  UTF-16 code units, and dictionaries
--   Value          the values that JSON.parse gives: objects with their own keys in order, and
--                  numbers that are integers or something else; decimal texts (Value.Decimal)
--   Unicode        code points and UTF-8 lengths of a text, and the character classes that the
--                  validators refuse
--   AccessControl  FixedWindowRateLimiter of accessControl.ts: create, stale and allow
--   Admission      enqueuePgBossJob, admitUpdate and their helpers of privateComparisonQueue.ts: a
--                  session (Session) is the database as committed and as seen, and a list that says
--                  of each call to come whether it fails before or after it took effect; limits
--                  (Limiter), the transaction (Enqueue)
--   Metadata       boundedText, boundedFileName, boundedMime (Bounded), optionalDataRecord and
--                  validatePrivateComparisonMetadata (Validate) of privateComparisonQueue.ts
--   Envelope       exactDataRecord, snapshotOwner, validateOwner, privateComparisonAad (Owner),
--                  encryptText and decryptText of packages/cardano-agent/src/security/encryption.ts
--                  (Cipher), and encryptPrivateComparisonJob, decryptPrivateComparisonJob and
--                  validateEncryptedPrivateComparisonJob (Job)
--   Ingress        webhookRuntime.ts: canonicalizeTelegramUpdate and parsePrivateComparisonJob
--                  (Update), readBody (Body), handleTelegramWebhook, with protectWalletSecret of
--                  agentQueue.ts (Webhook); and the queues of agentQueue.ts and
--                  privateComparisonQueue.ts over Admission (Queue)
--   Polling        pollingRuntime.ts: deliverMessage (Delivery) and runPolling (Step)
--   Download       pollingRuntime.ts: validateTelegramFile and validateTelegramFilePath (Paths), and
--                  withTelegramFile from the response on: the headers (Headers) and the promise as
--                  a state with events (Machine)
--   RetrievalCache packages/cardano-agent/src/knowledge/retrievalCache.ts: keys, rows and entries
--                  (Row), and withRetrievalCacheSnapshot, writeRetrievalCache and
--                  deleteStaleRetrievalCache in their transactions (Transaction)
--   Chunking       packages/cardano-agent/src/knowledge/chunkDocument.ts: where a text may be cut
--                  (Cuts), splitProse and splitCode (Split), heading lines and fences (Markdown),
--                  parseBlocks (Blocks), the closures of chunkDocument over their shared variables
--                  (Builder), and chunkDocument (Document)
--   Answer         packages/cardano-agent/src/agent: isSafeTelegramEvidenceUrl and how a link is
--                  shown (Links), snapshotEvidence (Evidence) and parseGeneratedAnswer (Claims) of
--                  groundedPrompt.ts, verifyClaims.ts (Verify), renderAnswer.ts (Prepare,
--                  Render), and answerQuestion.ts with the router of
--                  packages/cardano-agent/src/llm/modelRouter.ts (Checks, Dependencies, Question)
-- The other children of these modules hold proofs, under the name of what they prove, and tests.
--
-- How state is modelled. A handler is a function of the request and of what its surroundings do.
-- Admission is a state monad over the session, in which every query and every COMMIT can fail, and
-- a reply can be lost. The polling loop passes its locals from update to update; with each update
-- come the clock, the signal, what the queue and `answer` do, the attempts to send and whether the
-- offset can be written, so that a theorem on a run speaks of all of these. A download is a list of
-- events in any order. A transaction on the cache has a course: whether it begins, completes and
-- commits, and whether the check behind COMMIT passes. Wallet-secret detection, SHA-256,
-- AES-256-GCM, base64, JSON, the columns of type jsonb, the normal form NFC and pg-boss are
-- arguments; Envelope.Cipher.IsNode and RetrievalCache.Written.IsJson state what is relied on of
-- them, for bytes and texts that UTF-8 keeps, and Envelope.Plain and RetrievalCache.Plain are
-- platforms that have it.
-- Answering a question takes a World, a record of what each dependency gives or whether it throws,
-- and returns the text with the list of the calls that were made. URL, NFKC, the case mappings,
-- dates and JSON.parse are the arguments of Answer (Platform), as are the tables of languages, their
-- detection and the greeting test (Languages).
--
-- Bounds and fuel. Numbers are natural numbers; where the code asks for a safe integer the model
-- asks for at most 2^53 - 1, and times are milliseconds, which stay far below. Decimal printing has
-- one round more than its number, and every round divides by ten. A delivery has three attempts, as
-- in the code. The loops of splitProse and splitCode run on fuel, the length of the text and one:
-- every round leaves a shorter text, and the end of the fuel is an error of its own that is proved
-- not to occur. All other loops recur on the list they read.
--
-- Not modelled: the log lines and their hashes; timers, except as events; the cancelling and
-- releasing of streams and clients, reduced to whether the webhook cancelled a body unread; getters
-- and proxies on objects, as every object here comes from JSON.parse; the connection of a download
-- before its response. In answers: the prompts and messages sent to the models, the tables of
-- messages and patterns by language, and the JSON text of the evidence. The rest of the retrieval of
-- evidence, the clients of the models, the sources, the comparison itself and the governance skills
-- are not modelled.
mod Prelude
pub mod AccessControl
pub mod Value
pub mod Unicode
pub mod Admission
pub mod Metadata
pub mod Envelope
pub mod Ingress
pub mod Polling
pub mod Download
pub mod RetrievalCache
pub mod Chunking
pub mod Answer
