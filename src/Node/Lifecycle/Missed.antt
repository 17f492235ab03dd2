-- ===== src/Node/Lifecycle/Missed.antt =====
-- A `stop` that comes between two steps of the executor, or before the server is built, waits for
-- ever.
use raft_distributed_consens.Node.Lifecycle.{
  alive, deciding, asleep, building, waiting, up, away, waking, shutting, joins_election, Threads,
  join, notify_executor, begin_stop, stop_rpc_server, stop_step, loop_step, executor_step,
  server_step, ThreadStep, stops, elects, replicates, executes, serves, ThreadSteps, here, further,
  joins_rpc_server,
}
use raft_distributed_consens.Prelude.{true, false, ◌≡◌, ◌≢◌, ◌⊎◌, refl, inl, inr, arith}

-- The notification has gone by an executor that then sleeps, or the server was built after the one
-- that there was, if any, has been shut down.
abbrev IsMissed : Threads → Type 0
IsMissed t =
    (t.running ≡ false)
    × (t.stopping ≢ away)
    × (t.stopping ≢ waking)
    × (((t.stopping ≢ joins_rpc_server)
          × ((t.execution_thread ≡ alive deciding) ⊎ (t.execution_thread ≡ alive asleep)))
        ⊎ ((t.stopping ≢ shutting)
            × ((t.rpc_server_thread ≡ alive building)
                ⊎ ((t.rpc_server_thread ≡ alive waiting) × (t.rpc_server ≡ up)))))

step-IsMissed : {t t' : Threads} → IsMissed t → ThreadStep t t' → IsMissed t'
unfolding stop_step loop_step executor_step server_step join notify_executor stop_rpc_server
step-IsMissed {t} missed (stops h) = ground (arith, missed)
step-IsMissed {t} missed (elects h) = ground (arith, missed)
step-IsMissed {t} missed (replicates h) = ground (arith, missed)
step-IsMissed {t} missed (executes h) = ground (arith, missed)
step-IsMissed {t} missed (serves h) = ground (arith, missed)

steps-IsMissed : {t t' : Threads} → IsMissed t → ThreadSteps t t' → IsMissed t'
steps-IsMissed missed here = missed
steps-IsMissed missed (further run step) = step-IsMissed (steps-IsMissed missed run) step

-- The two first steps of `stop` after its test.
abbrev pub told : Threads → Threads
told t = record t {
  running = false;
  execution_thread = notify_executor t.execution_thread;
  stopping = shutting;
}

abbrev pub shut_down : Threads → Threads
shut_down t = record (told t) {
  rpc_server = stop_rpc_server t.rpc_server;
  stopping = joins_election;
}

told-steps :
    (t : Threads)
    → t.running ≡ true
    → ThreadSteps (begin_stop t) (told t) × ThreadSteps (begin_stop t) (shut_down t)
unfolding begin_stop stop_step
told-steps t runs =
    rw runs (further here (stops refl), further (further here (stops refl)) (stops refl))

-- If a running node is stopped while its executor stands between its test and its sleep, or while its
-- server is still to be built, there are steps after which `stop` does not return whatever the
-- threads do, unless a commit wakes the executor.
pub stop_hangs :
    (t : Threads)
    → t.running ≡ true
    → (t.execution_thread ≡ alive deciding) ⊎ (t.rpc_server_thread ≡ alive building)
    → (u : Threads) × ThreadSteps (begin_stop t) u
      × ((t' : Threads) → ThreadSteps u t' → t'.stopping ≢ away)
unfolding notify_executor
stop_hangs t runs (inl decides) =
    (told t, (told-steps t runs).0, λ t' run. (steps-IsMissed (ground arith) run).1)
stop_hangs t runs (inr builds) =
    (shut_down t, (told-steps t runs).1, λ t' run. (steps-IsMissed (ground arith) run).1)
