-- ===== src/Examples/Lives.antt =====
-- Nodes that are started and stopped, one in time and one too early.
use raft_distributed_consens.Node.Lifecycle.{
  Threads, alive, ended, looping, testing, waiting, building, up, absent, away, begin_stop,
  loop_step, ThreadStep, elects, ThreadSteps, here, further,
}
use raft_distributed_consens.Node.Lifecycle.Shutdown.{count_steps, stop_returns}
use raft_distributed_consens.Node.Lifecycle.Missed.{stop_hangs}
use raft_distributed_consens.Prelude.{true, ◌≡◌, ◌≢◌, ◌≤◌, ◌⊎◌, refl, inr, arith}

-- A node that has been running for a while, with an executor that is about to test its condition.
abbrev serving : Threads
serving = record {
  running = true;
  election_thread = alive looping;
  replication_thread = alive looping;
  execution_thread = alive testing;
  rpc_server_thread = alive waiting;
  rpc_server = up;
  stopping = away;
}

-- Its election loop ends first.
abbrev one_ended : Threads
one_ended = record (begin_stop serving) { election_thread = ended }

first_step : ThreadSteps (begin_stop serving) one_ended
unfolding begin_stop loop_step
first_step = further here (elects refl)

stop_returns_example :
    (count_steps first_step ≤ 10)
    × ((one_ended.stopping ≡ away) ⊎ ((t : Threads) × ThreadStep one_ended t))
stop_returns_example = stop_returns serving first_step refl (ground arith) (ground arith) refl

-- A node that was started a moment ago.
abbrev starting : Threads
starting = record serving { rpc_server_thread = alive building; rpc_server = absent }

stop_hangs_example :
    (u : Threads) × ThreadSteps (begin_stop starting) u
    × ((t : Threads) → ThreadSteps u t → t.stopping ≢ away)
stop_hangs_example = stop_hangs starting refl (inr refl)
