-- ===== src/Lib.antt =====
-- BlockRock: a proof-of-authority chain (the crate blockrock-core) and the node around it (the crate
-- zion-core), modelled as pure functions.
--
-- The program. Clients sign transactions; a node checks them against its chain and its pool and
-- queues them; an authority drains the pool into a block, hashes and seals it, and announces it;
-- other nodes verify and append it, or replace their chain by a longer one that replays from the
-- same genesis.
--
-- Files, and the code that they model:
--   Base        lists, maps, results, byte strings and machine words, which the parts share
--   Crypto      the interface of the third-party crates ed25519-dalek, sha2, blake2 and hex
--   Transaction blockrock-core/src/transaction.rs; the methods keep their names, and the free
--               function `signing_payload` is `canonical_bytes`
--   Block       blockrock-core/src/block.rs; Hash is about what its hash commits to
--   ChainError  `ChainError` of blockrock-core/src/blockchain.rs; Display is its text, and the one of a
--               transaction
--   Message     what zion-core's ledger.rs, api/rest.rs and api/grpc.rs tell a client whom they refuse
--   Ledger      `verify_block`, `apply_transaction` and the loop of `replay` of that file. Below it:
--               Settle and Valid describe admissible transactions and valid chains without the code,
--               Value the sums of balances, Distinct the ids, Trust and Append longer chains and
--               larger sets of keys
--   Mempool     blockrock-core/src/mempool.rs. Queued holds the invariant of the pool, Order, Drain and
--               Unique are about the order in which it is drained
--   Blockchain  the methods of `Blockchain` of blockrock-core/src/blockchain.rs. Consistent holds the
--               invariant, Reach the operations as steps, Keeping what they never take back,
--               and Room when the pool has no room for a transaction
--   Sync        zion-core/src/network/sync.rs
--   Gossip      `apply_transaction` of zion-core/src/network/transactions.rs
--   Node        zion-core/src/ledger.rs; Identity is zion-core/src/identity.rs
--   Service     zion-core/src/network/service.rs
--   Propagation `TransactionGossip` of zion-core/src/network/transactions.rs; Handling is its
--               `handle_event`. Slots and Bounds count what is under way, InOrder is about the order of a
--               sender's transactions, Serving about what is left to be offered
--   Rest        zion-core/src/api/rest.rs; Readings holds the sensors' readings, Views what is shown,
--               Decoding how a failure is answered and how hex is read, Answers when a client is asked
--               to try again
--   Grpc        zion-core/src/api/grpc.rs; its method `get_transaction` is `transaction_of`
--   Text        the functions of `str` that Config, Monitoring and Rest call; Decimal writes numbers
--   Config      zion-core/src/config.rs; Authorities writes its list of authorities
--   Monitoring  zion-core/src/monitoring.rs: Cycles is about the policy, Notices about the webhook,
--               Procfs reads /proc
--   Runtime     zion-core/src/bin/node.rs, with `load_or_create` of zion-core/src/storage.rs. Turns is
--               about a turn of the loop, Ends about its end, Life about what interleaves with it, Boot
--               and Halt about the start and the shutdown, Keeping, Advancing and Recovery about what
--               a crash leaves, Lockout about a chain on which a node does not start. Program is
--               `main` as a whole: First is about a first start, Registering and Starts about the
--               parts of a start and later ones, Restarts about runs in a row
--   Storage     `save_to_file` and `load_from_file` of blockrock-core/src/blockchain.rs
--   Tests       concrete runs, with a stand-in for the cryptographic crates
--
-- How it is modelled. A method on `&mut self` takes the state and returns the new one; where it
-- returns an error before it has written anything, the error carries no state. A `HashMap` is an
-- association list whose first entry for a key counts, a `HashSet` a list. The order of
-- entries stands for the unspecified order of iteration. Strings are their bytes.
-- Machine words are natural numbers: `checked_add`, `saturating_sub` and the conversions `as u32`
-- are written out, and a plain `+` on u64 or usize wraps, as in a release build; the theorems on
-- queueing and sealing ask that nonces, balances and sizes do not reach the end of that range.
-- All loops are recursion over lists, and a number is written by well-founded recursion; nothing runs
-- on fuel. The clock and the outcome of writing
-- to disk are arguments. Signatures and hashes are parameters: a theorem that needs more of them
-- takes `SignsVerifiably` or `HexDigests` as a hypothesis or names a collision in its result. In
-- the runs of the program in a row the JSON of the chain gives back what was written, as Storage has
-- it as a hypothesis; the index is rebuilt and the pool is empty.
--
-- Not modelled: the texts of the log and of the configuration's errors, the texts of errors of
-- third-party crates and of the operating system (parameters), the format of the JSON (a parameter), the
-- arithmetic of f64 (a parameter), the async runtime and its locks (a submission is one step of the
-- node), the libp2p swarm, the serving of the interfaces by Rocket and tonic, hex (a parameter), the
-- stream of sensor events, the call of TronGrid, and the web front end. Texts that are split or
-- trimmed are ASCII.
pub mod Base
pub mod Crypto
pub mod Transaction
pub mod Block
pub mod ChainError
pub mod Ledger
pub mod Message
pub mod Mempool
pub mod Blockchain
pub mod Sync
pub mod Gossip
pub mod Propagation
pub mod Node
pub mod Storage
pub mod Service
pub mod Rest
pub mod Grpc
pub mod Text
pub mod Config
pub mod Monitoring
pub mod Runtime
pub mod Tests
