-- ===== src/Lib.antt =====
-- Caligo, a mixer of fixed deposits on Soroban: a model of its Rust code and proofs about it.
--
-- The program. The pool contract (contracts/mixer_pool) takes deposits of one denomination, each
-- with a commitment, keeps the commitments in a Merkle tree in its storage, and pays a withdrawal
-- to whoever shows a zero-knowledge proof for one of the last roots and an unspent nullifier hash.
-- The registry contract (contracts/relayer_registry) lists the relayers that submit withdrawals for
-- a fee. The indexer (indexer) reads the deposit events and keeps the same tree in memory, from
-- which clients take inclusion proofs.
--
-- The files.
-- - Prelude: names of the libraries passed on, lists and integers over the native numbers, byte
--   strings, optional results, and the invocation of a contract: state passing with the contract's
--   errors and with traps. An error or a trap leaves no state, as the host rolls back.
-- - Bn254, Soroban: the code outside the repository as parameters: ark-bn254, ark-ec, ark-ff and
--   light-poseidon; soroban-sdk, its addresses, its hash and the token contract. Examples has small
--   concrete instances of them for the tests.
-- - Tree: the binary Merkle tree as a function of its leaves, the reference for both
--   implementations: Shape, Append, Rows and Inclusion are its laws.
-- - MixerPool, for contracts/mixer_pool/src: Errors (errors.rs), Storage (storage.rs, one field for
--   each `DataKey`, a missing key is `none`), Poseidon (poseidon.rs), Merkle (merkle.rs), Verifier
--   (verifier.rs; Verifier/Pairing has what it relies on of the pairing, and the equation of
--   Groth16), Contract (lib.rs, every entry point that changes state). Spec has the pool with no
--   storage, Spec/Represents the relation between the two, Contract/* the proofs for each entry
--   point, Runs the sequences of invocations and what holds along them.
-- - RelayerRegistry, for contracts/relayer_registry/src: Storage (storage.rs, errors.rs), Contract
--   (lib.rs), Spec, and Runs for sequences of invocations, with Runs/Control on who changes an
--   entry, Runs/Fees and Runs/Lowered on the fees that are listed.
-- - Indexer, for indexer/src: Poseidon (poseidon.rs), Merkle (merkle.rs), State (state.rs), Api
--   (api.rs, the handler of /merkle-path), Listener (listener.rs, a poll and the loop;
--   Listener/Chain has complete answers, Listener/Truncated a page that is too short), Config and
--   Restore (main.rs), Database (db.rs, each query as what its SQL does to the tables), Persist
--   (the build with the feature `postgres`, where the tasks that write go on query by query beside
--   the rest), Agree, Paths and Roots, where the indexer stands beside the pool contract.
-- - Relayer, for relayer/src: Config (main.rs), Validate (validate.rs), Rpc (rpc.rs), and Relay
--   (relay.rs), where a request is a task that goes from one lock or call to the next and the tasks
--   interleave between these. A task that the server drops is one that takes no further step.
-- - The modules called Tests hold tests and an instance of each result.
--
-- Bounds. Numbers are the native ones. `u32` sums of the contracts trap past 2^32 - 1, as their
-- release profile has overflow checks; the indexer's casts and sums to `u32` are written `% 2 ^ 32`.
-- `i128` values are integers with `in_i128` where the code subtracts. Loops are structural on the
-- count of rounds that the code gives, so no fuel is chosen.
--
-- Not modelled. The time to live of storage entries, gas and the limits of the host; the circuits,
-- the client in TypeScript and the scripts; the generated constants of vk_constants.rs, which are
-- the parameter `Build`; HTTP, logging, and the servers that the two services start. Of the database
-- it is the tables and the queries of db.rs; sqlx and its connection are whether a query takes
-- effect. State, Listener and Api are the same in both builds of the indexer but for the tasks of
-- Persist. hex, stellar-strkey, ed25519-dalek, serde_json and base64 are the parameters `Hex`,
-- `Decoders`, `Keys` and `Json`.
pub mod Prelude
pub mod Bn254
pub mod Soroban
pub mod Tree
pub mod MixerPool
pub mod Indexer
pub mod RelayerRegistry
pub mod Examples
pub mod Relayer
