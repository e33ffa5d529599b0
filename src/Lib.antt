-- ===== src/Lib.antt =====
-- spotted-network: an operator node of a network that agrees on values of chains.
--
-- An operator takes tasks (a key of a target contract at a block of a chain, and the value that it is
-- claimed to have), reads the value from the chain, signs it, and publishes the response to the other
-- operators. Every operator collects the responses with the weights of their signers; once the weights
-- reach the threshold of the epoch, it records the signatures as the consensus on the task.
--
-- The parts, and the files that model them:
--
--   Base        shared names: numbers, lists, maps, sorting, and the actions (Base/Outcome) in which
--               stateful code is written, with rules for invariants (Base/Keeps), for
--               results (Base/Returns), for success (Base/Succeeds) and for what it leaves behind
--               (Base/Leads). An action returns a value, an error or a panic, and the state that was
--               reached.
--   Epoch       pkg/operator/constants/common.go, pkg/operator/epoch/helpers.go (IsOperatorActive) and
--               the epoch functions of pkg/common/utils.go.
--   Numeric     the conversions of pkg/common/utils.go between numbers, text and NUMERIC columns.
--   Repo        pkg/repos: the four tables, and each SQL query as a function on its table.
--   Signer      pkg/common/crypto/signer: SignTaskResponse and VerifyTaskResponse over a parameter for
--               hashing, signing and recovering.
--   Node        the state of one operator process (tables, tracker, epoch state, published messages)
--               and the answers of the world outside: database, chains, network.
--   Peer        PeerIDToP2PKey of pkg/common/utils.go.
--   Task        pkg/operator/task: Task/Track the tracker of responses and weights, Task/Consensus
--               consensus.go, Task/Process task.go, Task/Response response.go, Task/Check check.go.
--   Gater       pkg/operator/gater: checkPeerPermission, with the caches of its two queries, and the writes
--               on the blacklist.
--   Updator     pkg/operator/epoch/updator.go, over parameters for the main chain's contracts and for
--               the database's transaction.
--   Event       pkg/operator/event/listener.go: subscribing (Event/Subscribe) and the
--               handlers of the two events of the registry.
--   BlockTime   TimestampToBlockNumber and its companions of pkg/common/utils.go.
--   Api         pkg/operator/api: SendRequest with its validation (Api/Validate, Api/Send), and the
--               handlers that read a consensus (Api/Consensus).
--   Config      pkg/config/config.go: the validation of a configuration.
--   Chains      pkg/common/contracts/ethereum/manager.go: the clients of the configured chains.
--   Watch       pkg/common/contracts/ethereum/chain_client.go: the loops that poll the registry's events.
--   Client      the rest of chain_client.go: making and closing a client (Client), and its methods on the
--               contracts (Client/Methods), over a parameter for go-ethereum and the bindings.
--   Discovery   pkg/operator/node/node.go: making and stopping a node, and a tick of its loops, over a
--               parameter for libp2p.
--   Cache       internal/database/cache/cache.go: the read-through client, over a parameter for Redis.
--   App         cmd/operator/app/app.go: the steps of Run, in their order, and Shutdown (App/Init), with
--               the constructors of the components (App/Parts).
--   Health      pkg/operator/health/health.go and pkg/operator/node/disconnect.go: the check of the
--               peers, over a parameter for the libp2p host.
--   System      the whole process: one step for each entry point of its goroutines, and the states that
--               they reach in any order (Move and Reach). System/Stable lists what the process does to
--               its state; a property that bears each of these is kept by every step (System/Moves).
--               An entry point is one step: the calls inside of it are not interleaved with others.
--
-- How the model reads the code. A mutex's critical section is one step. The calls of the world are
-- numbered by a clock, so that the same call may answer differently later: a query may fail, a chain may
-- be down. A function that returns an error keeps what it wrote before. Integers of 32 and 64 bits are
-- natural numbers with their wrap-around written out where the code can wrap; big.Int is an integer.
-- Base 256 digits are computed on fuel n for the number n, which is enough since each digit divides n by
-- 256; the retry loop of getStateWithRetries has its three rounds as fuel. The
-- three loops of TimestampToBlockNumber have fuel above the number of blocks that they can still visit,
-- since each round moves the block in one direction. The loop of GetWithExpire has one round more than
-- its waiting time has sleeps of 50 ms, the shortest that the code asks for.
--
-- Not modelled: goroutines and tickers (each handler is one action, and each tick is one), logging,
-- sleeping and time-outs (but for the waits of the cache client and of connectWithTimeout), the caches in
-- front of the queries, which are a library's (but for the two that the gater asks: what they hold is a
-- parameter; the other queries go to the table), the HTTP router and the JSON coding, the choice among the
-- channels of a loop, the construction of the libp2p host, the parsing of the configuration's file, the
-- code of the contract bindings, which is generated, and the command line. The cryptography, libp2p's
-- keys, hosts and tables of peers, Redis, msgpack, go-ethereum, the transactions of the database and
-- PostgreSQL's LOWER are parameters.
pub mod Base
pub mod Epoch
pub mod Numeric
pub mod Repo
pub mod Signer
pub mod Node
pub mod Peer
pub mod Task
pub mod Gater
pub mod Updator
pub mod Event
pub mod BlockTime
pub mod Api
pub mod Config
pub mod Chains
pub mod Health
pub mod Watch
pub mod Client
pub mod Discovery
pub mod Cache
pub mod App
pub mod System
