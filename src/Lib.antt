-- ===== src/Lib.antt =====
-- A replicated bank over Raft: a verification library for the program of this repository.
--
-- The program. Each node runs a RaftNode (include/raft/node.h) over a RocksDBStore
-- (src/storage/rocksdb_store.cpp). Three threads of a node elect a leader (src/raft/election.cpp),
-- replicate the leader's log (src/raft/replication.cpp) and apply committed entries to bank
-- accounts (src/raft/execution.cpp); peers too far behind are sent a snapshot
-- (src/raft/snapshot.cpp), and clients hand in requests (src/raft/request_handler.cpp). One process
-- runs all nodes and the clients (src/main.cpp).
--
-- The modules.
--   Prelude       shared names; `int` as an integer; text as a list of bytes; tests into Bool
--   Text          std::to_string, std::stoi and padding, with their round trip
--   Messages      protos/client.proto and protos/raft.proto as records
--   External      RocksDB and the Protobuf codec, as an interface of operations and laws
--   Storage       RocksDBStore: keys (Keys), the log (Log), term and vote (HardState), accounts and
--                 results (Accounts), the first accounts (Genesis), snapshots as text (Snapshot, and
--                 what comes through them in Survival),
--                 batches of log entries (Batch), what keeps the hard state (Persistence)
--   Node          the state of RaftNode, its constructor, becomeFollower, becomeLeader; a restart
--                 (Recovery); its peers (Peers); its threads, from start to stop (Lifecycle)
--   Election      runElectionTimer (Timer), startElection, the replies to it, handleRequestVote
--   Replication   replicateToPeer part by part, handleAppendEntries; the loop that starts a thread
--                 for each peer (Manager)
--   Transfer      sendSnapshot, handleInstallSnapshot
--   Requests      processClientRequest; runs of a node's handlers (LogRun, SavedRun)
--   Execution     runStateMachineExecutor, and the ledger that it implements (Ledger)
--   Network       TcpConnection: the frames in which clients and gateway exchange messages
--   Client        RaftClient: the request of a command, its attempts and the choice of the node to ask
--   Gateway       Session: the requests of one connection, handed to the node one at a time
--   Exchange      an attempt of the client over the bytes of a connection, with a session at its end
--   Rpc           calls between nodes, which may be lost; replicateToPeer and sendSnapshot as a whole,
--                 and the cycles of a leader for one peer (CatchUp, with the entries in Entries) and
--                 for several (Commit)
--   Cluster       the nodes together, with the threads of each campaign, the AppendEntries on their way
--                 and restarts, as a step relation; its invariant, kept by each kind of step
--   Main          the nodes as main.cpp configures and constructs them; their cluster (Boot); the
--                 check of an account on all nodes (Console), and on empty disks (FirstStart)
--   Workload      runCsvMode and runSnapshotTest: lines into requests, and the course of the test
--   Benchmark     Benchmark::run: its requests in flight, as a step relation
--   Examples      a database and a codec that satisfy External, and runs at concrete inputs
--
-- State and steps. A function that holds `mutex_` is one function from a Node to a Node; where a
-- function of the source takes the lock several times, or works between two locked parts, each part
-- is a function of its own. Calls of the store that hold `db_mutex_` are functions on a Store. Time
-- is an argument, in milliseconds. A callback is a number, and a response is returned. A session keeps
-- the writes that it has started, in order: two of them may overlap, and then nothing is said of
-- their bytes.
--
-- The cluster. A node begins a campaign at any time; each peer that it asks has a thread, from the
-- request to the reply; requests and replies are handled in any order, late or never. What leaders
-- have sent may be received any number of times. All else that a node does is a step with any
-- arguments, which allows more than the program does. A node restarts where its hard state in memory
-- is the one on disk: the save without the lock in startElection may break that, and is why it is a
-- condition.
--
-- Calls and cycles. In Rpc a cycle of replication for one peer runs from its first lock to its last
-- without another thread in between; cycles for different peers come in any order, and each call may
-- be lost, served without a reply, or answered. A peer has one thread at a time, by Manager.
--
-- Numbers. Terms, indices and balances of the ledger are natural numbers; node ids, amounts and the
-- balances of the store are integers. Where a value passes through std::to_string and std::stoi,
-- the range of `int` is a hypothesis; the overflow of a balance, undefined in the source, is
-- excluded in the same way. `none` is an exception of std::stoi.
--
-- Loops. Loops over a vector recurse on the list, loops over indices on their number of rounds. The
-- reader of a snapshot and the session of a gateway have fuel, the length of the text, as a round
-- reads a byte or more; the fault tolerance test has fuel for its passes over the file, of which 900
-- are enough.
-- std::to_string(n) takes n + 1 rounds at most.
--
-- Not modelled: channels and deadlines of gRPC; the acceptor of connections; the
-- sockets under src/network and src/client; the menu and the configuration file of the main program;
-- what the benchmark asks for and prints; logging; sleeps; conflictIndex and
-- conflictTerm, which no code sets or reads. RocksDB's and Protobuf's own code is a parameter: reads
-- see the writes in order, an iterator visits each key once, a message that was serialized is parsed
-- back, and a string field with number 1 is written first, with the tag byte 0x0A.
pub mod Prelude
pub mod Text
pub mod Messages
pub mod External
pub mod Storage
pub mod Node
pub mod Election
pub mod Replication
pub mod Transfer
pub mod Requests
pub mod Execution
pub mod Network
pub mod Client
pub mod Gateway
pub mod Exchange
pub mod Rpc
pub mod Cluster
pub mod Main
pub mod Workload
pub mod Benchmark
pub mod Examples
