-- ===== src/Lib.antt =====
-- Verification of sterun, race entries and results on the Stellar network.
--
-- The program is a backend (be/src) that indexes the race contracts, keeps runners' details and
-- reviews results before they are published; a web app (fe/src), with the scanner desk that hands
-- out race packs with no network; and an SDK (sdk/src) through which both talk to the contracts.
-- The desk's verdicts and the results review decide what is written to the chain, where nothing can
-- be taken back, so these stand first here.
--
-- Common          Boolean tests, lists, JavaScript's Map, stable sort, signed integers, texts.
-- Results         be/src/results. Row, Csv, Lines: csv.ts. Anomaly: the checks of one
--                 row in anomalies.ts. Review: the loop of `reviewResults`; Safe, Rows, Marks,
--                 Unique and Counts prove it correct.
-- Scanner         fe/src/modules/scanner. Verify: lib/verify.ts. Verdict: lib/verdict.ts. Store:
--                 lib/scanner-store.ts. Desk: `decide` of ScanDeskPage.tsx. Send:
--                 lib/send-claims.ts. Drift: `driftLimitSeconds` of lib/roster-facts.ts.
-- Faucet          be/src/faucet.ts and what routes/faucet.ts makes of a payment's answer. Limits:
--                 every table that can be reached, by a step relation.
-- Auth            be/src/auth.ts: the login challenges. History: what is accepted, from the calls.
-- Keeper          be/src/keeper. Ttl: ttl.ts. Client: rpc.ts and the keys of a run. Run: keeper.ts
--                 and runs.ts.
-- Indexer         be/src/indexer and chain/decode.ts, events.ts, reader.ts. Chain: the decoded values.
--                 Decode, Reader: how events and answers are decoded. Tables: the rows and statements
--                 of store.ts. Apply, Poll, Rebuild, Doctor: the parts of indexer.ts; Counts follows
--                 `entered_count` through them.
-- Announcements   be/src/announcements.ts: the signed message and the check of its signature. Sdk:
--                 sdk/src/announcement.ts, the same in the SDK.
-- Hardening       `clientKey` of be/src/http/hardening.ts, by which requests are counted.
-- Spec            be/src/spec. Normalize: normalize.ts and whitespace.ts. Totp: totp.ts.
--
-- State is passed explicitly: the loops of the source are recursions over their lists with the loop's
-- variables in a record, a Map is an association list in insertion order, and an IndexedDB store or
-- a table is a Map by its key. The one loop over an index, in `batch`, has the length of its list as
-- fuel, and its theorem shows that this is enough; `decimal` has the number itself as fuel, which has no
-- more digits than that. The browser's HMAC is the parameter `code_at`, and
-- what the wallet and the chain answer while claims are sent are the parameters `send` and
-- `record_of`. The Stellar RPC of the keeper, the signature checks of a login and of an announcement,
-- SHA-256, base64, HMAC-SHA-256 and Unicode's normal form are parameters too. So are the contracts' answers that the indexer reads
-- (`Reader`, none where a read throws; `chain_reader` makes one from the calls), the RPC's event
-- pages, and the order that SQL gives the event log. A transaction that throws returns none: nothing of it
-- is kept. A message for a person is the case that it reports with
-- the values that it quotes. Rendering, HTTP transport, SQL and the contracts themselves are not
-- modelled.
pub mod Announcements
pub mod Auth
pub mod Common
pub mod Faucet
pub mod Hardening
pub mod Indexer
pub mod Keeper
pub mod Results
pub mod Scanner
pub mod Spec
