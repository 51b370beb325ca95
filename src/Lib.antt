-- ===== src/Lib.antt =====
-- Pulsar Verifier: a sidecar of a validator that acquires zero-knowledge proofs, verifies them and
-- serves completed verdicts to the chain application.
--
-- The program. The proof store (src/store) is the source of truth: for each verification identity
-- it keeps whether the chain has committed the request, the content of the proof, and the state of
-- its verification. The chain listener observes identities, local clients and peers supply content,
-- and a record that has both is queued. The verification worker (src/verification/worker.rs)
-- follows the store's events, claims queued records, runs a bounded number of jobs, each an attempt
-- of a backend with retries, and commits the outcomes. The chain application reads verdicts by gRPC
-- (src/rpc). Settings come from a validated file (src/config.rs), and what the chain publishes of a
-- proof is validated before it is used (src/chain/descriptor.rs). Local clients submit a proof with
-- its signed transaction (src/rpc/submission.rs); the submission service (src/submission.rs) stores
-- the proof and relays the transaction.
--
-- The files, each with the part of the repository that it models:
--   Identity, Proof and its children: src/proof.rs (`VerificationId`, `ProofType`, `Proof`).
--   Error: src/error.rs. Exec: methods that change an object and return a result.
--   Store: src/store. Store/Record, Store/Event and Store/Expiry are the files of these names;
--     Store/Limits, Store/Entries (the closures that decide a transition of one record),
--     Store/Operations (the methods of `ProofStore`) and Store/Views (its read-only methods) are mod.rs.
--     Store/Moka is the interface of the cache. Store/History runs the calls of all users in any
--     order; the other children of Store hold proofs.
--   Verification: src/verification. Verification/Registry is mod.rs; Verification/Attempts (the
--     execution of a job) and Verification/Worker (the state of the worker and its methods) are
--     worker.rs; Verification/Turns has the turns of its loop; the other children hold proofs.
--   Submission: src/submission.rs. Submission/Message is the validation, Submission/Service the service
--     with its receipts; the other children hold proofs.
--   Rpc: src/rpc/contract.rs, and the status codes of src/rpc/service.rs. Rpc/Submission is
--     src/rpc/submission.rs; Rpc/Ingress holds proofs on it.
--   Chain: Chain/Descriptor is src/chain/descriptor.rs, with the messages of
--     crates/pulsar-verifier-proto/proto/pulsarchain/verification/v1; Chain/Client,
--     Chain/Pagination (`proofs_by_height`) and Chain/Validators are src/chain/client.rs.
--   Listener: src/listener.rs. Listener/Numbers is `str::parse`, Listener/Events the parsing of the
--     events, Listener/Blocks the processing of a block, Listener/Session a session; the other
--     children hold proofs.
--   P2p: P2p/Index is the index of src/p2p/availability.rs, P2p/Messages its validation of messages and
--     src/p2p/authorization.rs; the other children hold proofs.
--   Config: src/config.rs, one child for each group of sections.
--   Prelude: shared names and lemmas. Samples: concrete third-party parts, small values and the
--     theorems applied to them.
--
-- Third-party code is a parameter. `Sha256` is the digest of the crate sha2, with its length;
-- `Prost` the length of a varint, at least one byte; `Moka` the cache, with the laws of a map and
-- of `and_try_compute_with`. What moka evicts, and when, is not a law but a call that any history
-- may contain. `Receipts` is the cache of receipts: `try_get_with` and the time to live are its
-- laws, and it may drop a receipt at any time; `Decoders` the decoding of transactions by prost, a
-- `Node` what the chain's node answers to a relay, a `PageNode` and a `ValidatorNode` what it
-- answers to a query for a page or for the validators, `Answers` what the listener gets from the
-- client and the updater of the validator set, `Hex` the decoding of hexadecimal texts,
-- `PeerCodec` the decoding of messages, peers and keys by prost and libp2p. A verifier backend is
-- a function from the number of the attempt and the proof to what its call comes to. Parsers of
-- addresses are functions.
--
-- Conventions. A verification identity, a text and a path are lists of bytes; where single
-- characters count (the signer of a submission, the values of an event) a text is the list of its
-- characters. An `Instant` is a number, a duration is a number of nanoseconds (of seconds in the
-- store's settings). An `Arc` is its value with the address that `ptr_eq` compares; a store hands
-- out increasing addresses, since an address that a live claim holds is not used again. The
-- store's broadcast channel is the list of what was sent; a receiver is the list of what it has
-- taken. An asynchronous method of the store is one atomic step, as the one call of the cache in
-- it is; the events that it publishes right after belong to that step. Between the two store calls
-- of `commit_completion`, after each claim of `start_ready_jobs` and before each delivery of a
-- listener's session other tasks may act and records be dropped, and are in the model; a block and
-- a submission are each processed without such a call in between. A call of `submit` reads the
-- clock once. A panic of a job's task is the error `task`. `usize` is that of a 64-bit target, and
-- sums and products of machine integers keep the checks of the source. The loop over retries runs
-- on the number of iterations that are left, which is `max_retries + 1` at first, so that it never
-- runs out; the loop over the pages of a height runs on 257 iterations, one more than the
-- positions that a block has, and always ends within them; all other loops run over lists.
-- Diagnostic texts are kept where they are literals.
--
-- Not modelled: the network driver, the retrieval worker and the codec of src/p2p, the other
-- queries of the chain client (src/chain/client.rs), the random waits of the listener, the Noir
-- backend (src/verification/noir.rs), the start and stop of the servers, and the process itself
-- (src/app.rs, src/control.rs, src/cli.rs, src/telemetry.rs), which do input and output around the
-- parts above; of src/config.rs the chain section and the checks across sections.
pub mod Chain
pub mod Config
pub mod Error
pub mod Exec
pub mod Identity
pub mod Listener
pub mod P2p
pub mod Prelude
pub mod Proof
pub mod Rpc
pub mod Samples
pub mod Store
pub mod Submission
pub mod Verification
