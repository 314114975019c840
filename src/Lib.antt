-- ===== src/Lib.antt =====
-- A verification library for the Miradex client, a TypeScript SDK that carries out swaps between
-- Bitcoin and Monero (and through other providers) against a server.
--
-- The parts and their files:
-- * Prelude.antt (with Prelude/) has the Boolean tests, lists and lemmas that all parts share.
-- * Errors.antt is src/lib/errors.ts: `classifyError`, the API's categories, and what is retried.
--   Errors/Codes.antt has the codes of src/types/errors.ts and the results of calls that can throw,
--   Errors/Text.antt the searches in texts that stand for its patterns.
-- * Retry.antt is src/lib/retry.ts: `withRetry` as a loop over a schedule of rounds.
-- * Quorum.antt is src/blockchain/quorum-provider.ts: reads that several providers have to agree on.
--   Quorum/Counting.antt and Quorum/Sorting.antt carry the proofs.
-- * Status.antt is src/types/status.ts, Protocol.antt is src/atomic-swap/extract.ts with the wire
--   types it reads, Snapshot.antt is src/atomic-swap/snapshot.ts.
-- * Drive.antt is src/atomic-swap/drive.ts: `driveSwapToCompletion`, which polls the server and
--   funds the lock (Drive/Fund.antt, Drive/Store.antt), releases the encrypted signature
--   (Drive/Encsig.antt) and sweeps (Drive/Loop.antt). A round is a function from what the world
--   answers and the loop's variables to the events, the new variables and how the loop goes on
--   (Drive/Acts.antt). A run is a list of rounds.
-- * Presign.antt is src/atomic-swap/presign.ts: the transactions that Bob signs in advance.
-- * Bitcoin.antt is src/lib/bitcoin: the deposit that is looked for (deposit-watcher.ts), the fee of
--   the lock transaction, and the transactions that spend a deposit (sweep.ts, wallet.ts).
-- * Refund.antt is src/atomic-swap/refund.ts: the refund that the client builds and signs, with the
--   DER form of signatures (Refund/Der.antt). Refund/Cancel.antt is src/lib/bitcoin/tx-verify.ts, the
--   search for the TxCancel that a refund spends.
-- * Flow.antt is src/engine/flows/atomic-flow.ts: the phases of an atomic swap as they are shown. A
--   flow is a state with its emissions, and each method is a function of the world's answers and the
--   flow. Flow/Context.antt is src/engine/flow-context.ts, Flow/Begin.antt has the driver's progress
--   and the polls, Flow/Start.antt and Flow/Resume.antt the two ways in, Flow/Finish.antt the ends,
--   Flow/Refunding.antt the refund, Flow/Calls.antt what the flow's owner calls.
-- * Monero.antt is src/lib/monero/rpc.ts: a transaction that a quorum of nodes agrees on.
--   Monero/Lock.antt is verify-lock.ts beside it, the check of the lock that the encrypted signature
--   waits for, Monero/Scanner.antt output-scanner.ts and the scan of
--   src/atomic-swap/monero-sweep/index.ts, Monero/Sweep.antt verify-sweep.ts and
--   src/atomic-swap/monero-sweep/ring-select.ts, Monero/Scalars.antt the codes of scalars.
-- * Engine.antt is src/engine/pipeline.ts and src/engine/flows/error-routing.ts.
-- * Verification.antt is src/verification/rate-oracle.ts and src/quote-binding.ts: the rate that
--   oracles agree on, and the accepted quote that is checked again before funding.
-- The driver calls the snapshot, reads the extracted parameters and the statuses, and throws the
-- errors of Errors/Codes.antt, which the routing of Engine.antt sorts. Deposits are put together
-- from the outputs of Quorum.antt. The flow meets the driver as a list of progress and a result, and
-- calls Refund.antt and the routing of Engine.antt.
--
-- Requests, clocks and callbacks are values that a round is given: an answer, or an exception.
-- Key operations, PSBT encoding, digests, address checks, the curve and its hash, which are code of
-- other packages, are parameters. Of two of them a property assumes something, as a hypothesis: that
-- the digest does not collide on two quotes, and that the WASM decryption of a Monero amount agrees
-- with the one of output-scanner.ts. The loops `while (true)` are recursion on the list of rounds,
-- which the world gives: a run that the list ends before the loop does is `pending`. The bounds that
-- are fuel are the source's own, six attempts at /fund (`fund_attempts`) and six at a swap's detail
-- (`max_transient_retries`), and the five groups of seven bits that a number of 32 bits has
-- (`encode_varint`). Amounts, rates and milliseconds are natural numbers; where the source
-- subtracts, the guard before it keeps the difference positive, or the difference is compared with a
-- positive bound. Heights of a history can be negative. The missing or `NaN` case of a number is kept
-- in `FetchedTransaction`, `Index` and `ProviderRate`.
--
-- Not modelled: log lines and messages of progress; the operations of keys in lib/crypto but the
-- codes of scalars; the serialisation behind a snapshot's digest; the engine's flow for other
-- providers and its registry; cooperative-redeem.ts; the providers' checks in the rest of
-- src/verification; the steps of a Monero sweep but its scan; address formats; the keystore.
mod Prelude
pub mod Errors
pub mod Retry
pub mod Quorum
pub mod Status
pub mod Protocol
pub mod Snapshot
pub mod Drive
pub mod Bitcoin
pub mod Engine
pub mod Verification
pub mod Presign
pub mod Refund
pub mod Flow
pub mod Monero
