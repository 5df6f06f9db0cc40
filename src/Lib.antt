-- ===== src/Lib.antt =====
-- A model of the developer SDK of Zincha, and theorems about it. The crate crates/zincha-primitives
-- holds the protocol's data with the rules on it: what an agreement or a subscription may look like,
-- how money splits, what a signature covers. These rules are what is modelled.
--
-- The parts, and the files that model them (paths below crates/zincha-primitives/src):
--   Crypto        crypto/{hash,keys,merkle}.rs. SHA-256 and Ed25519 are third-party code: a record of
--                 their operations with the documented laws (Crypto.Hash.Crypto), which every
--                 definition that hashes or signs takes first. No law says that hashing is
--                 injective, so what is bound is stated of the bytes that are hashed or signed.
--                 Crypto.Toy keeps the laws with concrete functions, for the tests.
--   Agreement     primitives/agreement.rs. Data has its types; Create, Milestones and Settlement the
--                 checks of a creation payload; Payout the split of an amount; Effects the
--                 reputation effects of a dispute; Lifecycle the methods of `Agreement`.
--   Subscription  primitives/tool.rs, `ToolSubscription` and its plans (types in Data).
--   Access        primitives/tool.rs, access tokens and receipts (Token), the chain that a tool asks
--                 (Chain), the served token ids (Replay) and `ToolVerifier` (Verifier).
--   Job           primitives/tool.rs, `ToolJob` and its milestones.
--   Validator     primitives/validator.rs: service claims (Services), contributions to an epoch's
--                 randomness (Vrf) and signed evidence (Evidence).
--   Transaction   primitives/transaction.rs: kinds and codes (Kind), transactions (Body).
--   Contract      primitives/contract.rs: storage keys in half bytes (Nibbles), the trie and its root
--                 (Storage), the event archive (Events), staged token writes (Writes), export
--                 metadata with the search of an export (Search), the record and its checks (Record),
--                 addresses (Deployed), routes (Route).
--   Capability    primitives/{capability,contract}.rs: names of capabilities and of routes.
--   Wallet        wallet/agent_wallet.rs: signing and numbering, and the builders by what they build.
--   Conversation  crates/zincha-client/src/conversation.rs: messages, and the file outbox (Outbox);
--                 Toy is a codec for the tests.
--   Chars         the methods of `str` that the names use, on lists of code points.
--   Base          the shared helpers: tests, lists, fixed-width arithmetic, equality, results, sort.
--
-- Agreements use the address order of Crypto.Bytes; receipts, evidence and transactions use the
-- byte encodings of Crypto.Bytes and the hash of Crypto.Hash; Access uses the signatures. The
-- chain view and the replay store are interfaces (ChainVerifier, ReplayStore) which the in-memory
-- implementations fill. The wallet signs with the transactions of Transaction; the names it sends are
-- those of Capability; contracts hash with Crypto and root a block's events with Crypto.Merkle.
--
-- More third-party code is a parameter: `bincode` of events, export names, an ABI and payloads (it may
-- fail on export names and an ABI, and is taken to succeed on the others); the JSON codec of
-- the outbox, which reads what it writes and is no longer for fewer messages; what each call of the
-- file system does, which may fail before or after the rename; what the service becomes and answers; the clock.
--
-- Numbers are natural numbers; an operation on u64, u32 or u128 writes its saturation, its check or
-- its wrap-around out, and a theorem that needs a number to fit its type says so. A method on
-- `&mut self` returns the new record. Errors are the constructors of a type for each file. A hash set
-- or map is a list with a Boolean test. Times are arguments where the code reads the clock.
--
-- Fuel: Merkle layers are built on as much fuel as there are leaves, enough since a layer of n hashes
-- takes fewer than n rounds. The storage trie has one more fuel than the length in half bytes of the
-- longest key, since each call eats a half byte of every key, and the event accumulator one more than
-- there are events, since each round eats one. A binary search has a round for each entry, since each
-- round drops one at least. The reference of the billing (Subscription.CatchUp.charge) runs on any
-- fuel above the elapsed time. Nothing else runs on fuel.
--
-- Not modelled: the other payloads of the crate (tasks, registries, delegations), the shape of an ABI and
-- the platform profile of contracts, floating-point scores, hex and bincode forms, key files, the
-- network and encryption of conversations, the HTTP client, the command line, the SDKs in other
-- languages. Of the wallet, the builders that embed texts over the network, and those of validators,
-- agreement creation and resolution, batches and RPC grants.
pub mod Base
pub mod Crypto
pub mod Agreement
pub mod Subscription
pub mod Access
pub mod Validator
pub mod Transaction
pub mod Job
pub mod Chars
pub mod Contract
pub mod Conversation
pub mod Wallet
pub mod Capability
