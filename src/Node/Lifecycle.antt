-- ===== src/Node/Lifecycle.antt =====
-- The threads of a node: `start`, `stop`, `startRpcServer` and `stopRpcServer` of src/raft/node.cpp,
-- the head of the executor's loop in src/raft/execution.cpp, and the heads of the two other loops.
-- Each thread has a step function; `none` is a thread that waits or is gone. What a loop's body does
-- to the node is left out.
pub mod Shutdown
pub mod Missed
use raft_distributed_consens.Prelude.{
  Option, none, some, Bool, true, false, if◌then◌else◌, ◌>>=◌, ◌≡◌,
}

-- A `std::thread`: without a thread, with one that runs, or with one whose function has returned.
pub data Thread {ℓ} (A : Type ℓ) : Type ℓ where
  unjoinable : Thread A
  alive : A → Thread A
  ended : Thread A

-- The executor tests its condition with the lock held, decides to sleep, and sleeps in
-- `commit_cv_.wait`. Until it sleeps a notification does not reach it.
pub data Executor : Type 0 where
  testing deciding asleep : Executor

-- `startRpcServer`: before and in `rpc_server_->Wait()`.
pub data Serving : Type 0 where
  building waiting : Serving

-- `rpc_server_`: null, a server, and one that was shut down.
pub data Server : Type 0 where
  absent up shut : Server

-- Where the caller of `stop` stands.
pub data Stopping : Type 0 where
  away waking shutting joins_election joins_replication joins_execution joins_rpc_server : Stopping

-- A loop that sleeps and tests `running_`.
pub data Loop : Type 0 where
  looping : Loop

pub record Threads : Type 0 where
  pub running : Bool
  pub election_thread : Thread Loop
  pub replication_thread : Thread Loop
  pub execution_thread : Thread Executor
  pub rpc_server_thread : Thread Serving
  pub rpc_server : Server
  pub stopping : Stopping

-- Of a node that was constructed.
abbrev pub unstarted : Threads
unstarted = record {
  running = false;
  election_thread = unjoinable;
  replication_thread = unjoinable;
  execution_thread = unjoinable;
  rpc_server_thread = unjoinable;
  rpc_server = absent;
  stopping = away;
}

-- `thread = std::thread(…)`. `none` is the end of the program: the object has a thread already.
unfoldable pub launch {ℓ} : {A : Type ℓ} → A → Thread A → Option (Thread A)
launch a unjoinable = some (alive a)
launch a (alive b) = none
launch a ended = none

-- `if (thread.joinable()) thread.join();`. `none`: the caller waits.
unfoldable pub join {ℓ} : {A : Type ℓ} → Thread A → Option (Thread A)
join unjoinable = some unjoinable
join (alive a) = none
join ended = some unjoinable

unfoldable pub start_threads : Threads → Option Threads
unfolding launch
start_threads t =
    let launched : Option Threads = (do
      election ← launch looping t.election_thread
      replication ← launch looping t.replication_thread
      execution ← launch testing t.execution_thread
      server ← launch building t.rpc_server_thread
      some (record t {
        running = true;
        election_thread = election;
        replication_thread = replication;
        execution_thread = execution;
        rpc_server_thread = server;
      })) in
    if t.running then some t else launched

-- `commit_cv_.notify_all()`.
unfoldable pub notify_executor : Thread Executor → Thread Executor
notify_executor (alive asleep) = alive testing
notify_executor thread = thread

-- The test-and-set at the beginning of `stop`, and its other branch.
unfoldable pub begin_stop : Threads → Threads
unfolding notify_executor
begin_stop t =
    if t.running
    then record t { running = false; stopping = waking }
    else record t { running = false; execution_thread = notify_executor t.execution_thread }

unfoldable pub stop_rpc_server : Server → Server
stop_rpc_server absent = absent
stop_rpc_server _ = shut

-- The caller of `stop` goes on.
unfoldable pub stop_step : Threads → Option Threads
unfolding join notify_executor stop_rpc_server
stop_step t = elim t.stopping [
  | away ↦ none
  | waking ↦
      some (record t { execution_thread = notify_executor t.execution_thread; stopping = shutting })
  | shutting ↦
      some (record t { rpc_server = stop_rpc_server t.rpc_server; stopping = joins_election })
  | joins_election ↦ do
    joined ← join t.election_thread
    some (record t { election_thread = joined; stopping = joins_replication })
  | joins_replication ↦ do
    joined ← join t.replication_thread
    some (record t { replication_thread = joined; stopping = joins_execution })
  | joins_execution ↦ do
    joined ← join t.execution_thread
    some (record t { execution_thread = joined; stopping = joins_rpc_server })
  | joins_rpc_server ↦ do
    joined ← join t.rpc_server_thread
    some (record t { rpc_server_thread = joined; stopping = away })
]

-- A loop ends at its next test of `running_`.
unfoldable pub loop_step : Bool → Thread Loop → Option (Thread Loop)
loop_step true thread = none
loop_step false (alive looping) = some ended
loop_step false thread = none

unfoldable pub executor_step : Bool → Thread Executor → Option (Thread Executor)
executor_step true (alive testing) = some (alive deciding)
executor_step false (alive testing) = some ended
executor_step running (alive deciding) = some (alive asleep)
executor_step running thread = none

-- The server is built and served; `Wait` returns when it has been shut down.
unfoldable pub server_step : Threads → Option Threads
server_step t = elim t.rpc_server_thread [
  | alive phase ↦ elim phase [
    | building ↦ some (record t { rpc_server_thread = alive waiting; rpc_server = up })
    | waiting ↦ elim t.rpc_server [
      | absent ↦ none
      | up ↦ none
      | shut ↦ some (record t { rpc_server_thread = ended })
    ]
  ]
  | unjoinable ↦ none
  | ended ↦ none
]

-- One step of one of the threads, or of the caller of `stop`.
pub data ThreadStep (t : Threads) : Threads → Type 0 where
  stops : {t' : Threads} → stop_step t ≡ some t' → ThreadStep t t'
  elects :
      {thread : Thread Loop}
      → loop_step t.running t.election_thread ≡ some thread
      → ThreadStep t (record t { election_thread = thread })
  replicates :
      {thread : Thread Loop}
      → loop_step t.running t.replication_thread ≡ some thread
      → ThreadStep t (record t { replication_thread = thread })
  executes :
      {thread : Thread Executor}
      → executor_step t.running t.execution_thread ≡ some thread
      → ThreadStep t (record t { execution_thread = thread })
  serves : {t' : Threads} → server_step t ≡ some t' → ThreadStep t t'

-- The life of a node: it is started and stopped, and commits wake its executor.
pub data Life : Threads → Type 0 where
  constructed : Life unstarted
  starts : {t t' : Threads} → Life t → t.stopping ≡ away → start_threads t ≡ some t' → Life t'
  is_stopped : {t : Threads} → Life t → t.stopping ≡ away → Life (begin_stop t)
  is_notified :
      {t : Threads}
      → Life t
      → Life (record t { execution_thread = notify_executor t.execution_thread })
  steps : {t t' : Threads} → Life t → ThreadStep t t' → Life t'

-- Steps of the threads alone.
pub data ThreadSteps (t : Threads) : Threads → Type 0 where
  here : ThreadSteps t t
  further : {u v : Threads} → ThreadSteps t u → ThreadStep u v → ThreadSteps t v
