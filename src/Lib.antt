-- ===== src/Lib.antt =====
-- RoUpSPA and UpSPA: threshold password authentication with several storage providers.
--
-- The library follows the crates crates/upspa-quorum (RoUpSPA) and crates/upspa (UpSPA).
--
-- RoUpSPA writes to a quorum. A client (RoUpSpaSystem in
-- crates/upspa-quorum/src/protocols/roupspa.rs) keeps a user's root record and account records at
-- `nsp` storage providers and a verifier at a login server. It reads with `tsp` shares of a threshold
-- OPRF, and writes to a quorum of `qsp` providers in two phases: the login server prepares, the
-- providers accept, and a terminal Store or Discard ends the operation. A provider that missed a
-- write is stale until it is synchronized.
--
-- UpSPA has no quorum of writes. Its client (UpSpaSystem in crates/upspa/src/protocols/system.rs)
-- prepares a change at all `nsp` providers and at the login server, and ends it by a terminal Store,
-- or by a Discard at those that accepted when something failed. The tuple of a terminal step is
-- retained, and the user locked, until a retry has every acknowledgement. A read takes `tsp` answers.
--
-- Files and what they model:
--   Primitives           the third-party cryptography, a parameter: a record of types and functions,
--                        and the records IsLawful, IsField and IsAction of the documented laws
--                        that some theorems use
--   Crypto, Crypto/*     src/crypto.rs: hashing, sealing, the threshold OPRF, next_combination; Field,
--                        Weights, Interpolation, Lagrange and Oprf hold the algebra of the shares
--   Messages, Messages/* src/protocols/messages.rs: encodings, sizes and the protocol trace
--   LoginServer          src/protocols/login_server.rs: four tables by user; prepare, store, discard
--   Provider, Provider/* src/protocols/provider.rs: replicas by user and by account family; Reads and
--                        Writes hold the handlers in the order of their guards
--   Thresholds           validate_thresholds and minimum_quorum_size of src/protocols/roupspa.rs
--   System/Types         RoUpSpaSystem, contexts, in-flight states and results
--   System/Setup         with_identity, setup_with_rng, the reachability switches
--   System/Reads         common_identification and evaluate_same_toprf
--   System/AccountRead   read_account
--   System/Writes        what the account and the password writes share
--   System/Account/*     begin, attempt, retry, abort and deliver of an account operation
--   System/Password      begin, attempt, retry and abort of a password update
--   System/Password/Deliver   the one-way Store of a password update
--   System/Phases        the phases: registration, secret update, authentication, password update
--   System/Synchronization   src/protocols/synchronization.rs
-- The paths of the right column so far are those of crates/upspa-quorum, those below are of
-- crates/upspa:
--   UpSpa/TwoPhase       the abstract contract of a value that is proposed, stored or discarded
--   UpSpa/Clock          the clocks of src/protocols/system.rs
--   UpSpa/Messages       src/protocols/messages.rs and the two hashes of src/crypto.rs whose tags
--                        differ; the other functions of that file are those of Crypto
--   UpSpa/LoginServer    src/protocols/login_server.rs
--   UpSpa/Provider       src/protocols/provider.rs: Records, Accounts and Passwords hold the handlers,
--                        Calls a history of them
--   UpSpa/System/Types       the state of the client, its lock and its results
--   UpSpa/System/Setup       setup, and how a phase holds the lock
--   UpSpa/System/Identification  identify and identify_into_trace
--   UpSpa/System/Finalization    run_finalization and retry_finalization
--   UpSpa/System/Prepare     the loop of prepares, and the terminal step that it calls for
--   UpSpa/System/Accounts    registration and secret_update
--   UpSpa/System/Authentication, Passwords, Entries, Events, Plaintext
--                            authentication, password_update, and what the phases share
-- Modules below these hold lemmas and are named for what they show: System/Phases/Begun and Root say what
-- an account phase and a password update plan to write. Tests applies every result at concrete inputs,
-- over two toy instances of the primitives.
--
-- How the state corresponds: `&mut self` is a state that a function takes and gives back, also with an
-- error, so that what a failed call has changed is seen. A HashMap or BTreeMap is a function to
-- Option (Base/Maps), a BTreeSet of provider numbers a sorted list (Base/IdSet), a Vec a list, and a
-- u32 or u64 a natural number with its wrap-around or its checked successor written out. Bytes are
-- lists of numbers; the theorems on encodings ask for the widths that the Rust arrays have. Random
-- draws are arguments of the operations that make them.
--
-- An UpSPA handler that changes its provider also when it fails, as by an injected fault that it
-- consumes, gives its answer and the provider (Reply in Base/Tests). Where the source indexes a list
-- of `nsp` entries by a position, a position outside is passed over; the source would panic.
--
-- Loops are structural recursion on the list or on the count of rounds that the source's bounds give;
-- `minimum_quorum_size` searches `nsp + 1 - tsp` sizes, the length of the source's range.
--
-- Not modelled: the timings of a trace (measurements of the host), the random number generator behind
-- the draws, toprf_partials_consistent of crates/upspa-quorum/src/crypto.rs, the accessors and the
-- counter of requests that UpSPA's tests read, the benchmark drivers, the other crates
-- (crates/pastau, crates/augsso, pastau_paper) and the networked programs under
-- src/network and src/bin.
pub mod Base
pub mod Primitives
pub mod Crypto
pub mod Messages
pub mod LoginServer
pub mod Provider
pub mod Thresholds
pub mod System
pub mod UpSpa
pub mod Tests
