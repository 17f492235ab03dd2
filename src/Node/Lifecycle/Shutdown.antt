-- ===== src/Node/Lifecycle/Shutdown.antt =====
-- What a stop does to the threads of a node: it returns unless the executor or the server was between
-- two steps, and then the node can be started again.
use raft_distributed_consens.Node.Lifecycle.{
  waking, building, some, deciding, Life, begin_stop, alive, Serving, Executor, Loop, launch,
  stop_rpc_server, Stopping, Thread, start_threads, unjoinable, away, joins_replication,
  joins_execution, joins_rpc_server, Threads, join, notify_executor, stop_step, loop_step,
  executor_step, server_step, ThreadStep, stops, elects, replicates, executes, serves, asleep,
  waiting, up, shut, shutting, joins_election, looping, constructed, starts, is_stopped,
  is_notified, steps, ThreadSteps, here, further,
}
use raft_distributed_consens.Prelude.{
  ◌<◌, ◌+◌, ◌≢◌, ℕ, arith, true, false, ◌≡◌, ◌⊎◌, Bool-cases, Option-cases, inl, inr, refl, some,
  ◌≤◌,
}

-- The threads that have been joined when the caller of `stop` stands where it does.
abbrev Joined : Threads → Type 0
Joined t =
    (t.running ≡ true → t.stopping ≡ away)
    × ((t.stopping ≡ joins_replication)
          ⊎ ((t.stopping ≡ joins_execution)
              ⊎ ((t.stopping ≡ joins_rpc_server) ⊎ ((t.stopping ≡ away) × (t.running ≡ false))))
        → t.election_thread ≡ unjoinable)
    × ((t.stopping ≡ joins_execution)
          ⊎ ((t.stopping ≡ joins_rpc_server) ⊎ ((t.stopping ≡ away) × (t.running ≡ false)))
        → t.replication_thread ≡ unjoinable)
    × ((t.stopping ≡ joins_rpc_server) ⊎ ((t.stopping ≡ away) × (t.running ≡ false))
        → t.execution_thread ≡ unjoinable)
    × ((t.stopping ≡ away) × (t.running ≡ false) → t.rpc_server_thread ≡ unjoinable)

step-Joined : {t t' : Threads} → Joined t → ThreadStep t t' → Joined t'
unfolding stop_step loop_step executor_step server_step join notify_executor
step-Joined {t} joined (stops h) = ground (arith, joined)
step-Joined {t} joined (elects h) = ground (arith, joined)
step-Joined {t} joined (replicates h) = ground (arith, joined)
step-Joined {t} joined (executes h) = ground (arith, joined)
step-Joined {t} joined (serves h) = ground (arith, joined)

Life-Joined : {t : Threads} → Life t → Joined t
unfolding start_threads launch begin_stop notify_executor
Life-Joined constructed = ground arith
Life-Joined (starts life rests h) = ground (arith, Life-Joined life)
Life-Joined (is_stopped life rests) = ground (arith, Life-Joined life)
Life-Joined (is_notified life) = ground (arith, Life-Joined life)
Life-Joined (steps life step) = step-Joined (Life-Joined life) step

-- Whenever no `stop` is on its way, `start` finds no thread object that still has a thread: the
-- program does not end there, and the node runs afterwards.
pub start_threads_ok :
    {t : Threads}
    → Life t
    → t.stopping ≡ away
    → (t' : Threads) × (start_threads t ≡ some t') × (t'.running ≡ true)
unfolding start_threads launch
start_threads_ok {t} life rests = elim (Bool-cases t.running) [
  | inl runs ↦ (t, ground arith, runs)
  | inr rests_too ↦
      let (_, election, replication, execution, server) = Life-Joined life in
      rw
        (
          rests_too,
          election (ground arith),
          replication (ground arith),
          execution (ground arith),
          server (ground arith),
        )
        (_, refl, refl)
]

-- Steps that a thread has before it.
abbrev loop_weight : Thread Loop → ℕ
loop_weight (alive looping) = 1
loop_weight _ = 0

abbrev executor_weight : Thread Executor → ℕ
executor_weight (alive deciding) = 2
executor_weight (alive _) = 1
executor_weight _ = 0

abbrev server_weight : Thread Serving → ℕ
server_weight (alive building) = 2
server_weight (alive waiting) = 1
server_weight _ = 0

abbrev stopping_weight : Stopping → ℕ
stopping_weight away = 0
stopping_weight waking = 6
stopping_weight shutting = 5
stopping_weight joins_election = 4
stopping_weight joins_replication = 3
stopping_weight joins_execution = 2
stopping_weight joins_rpc_server = 1

abbrev weight : Threads → ℕ
weight t =
    stopping_weight t.stopping
    + loop_weight t.election_thread
    + loop_weight t.replication_thread
    + executor_weight t.execution_thread
    + server_weight t.rpc_server_thread

-- The executor has been told, or will hear it, and the server is there to be shut down.
abbrev pub IsHeard : Threads → Type 0
IsHeard t =
    (t.running ≡ false)
    × (t.execution_thread ≢ alive deciding)
    × (t.rpc_server_thread ≢ alive building)
    × (t.stopping ≢ waking → t.execution_thread ≢ alive asleep)
    × ((t.stopping ≡ waking) ⊎ (t.stopping ≡ shutting) → t.rpc_server ≡ up)
    × ((t.stopping ≡ waking) ⊎ ((t.stopping ≡ shutting) ⊎ (t.rpc_server ≡ shut)))

step-IsHeard : {t t' : Threads} → IsHeard t → ThreadStep t t' → IsHeard t' × (weight t' < weight t)
unfolding stop_step loop_step executor_step server_step join notify_executor stop_rpc_server
step-IsHeard {t} heard (stops h) = ground (arith, heard)
step-IsHeard {t} heard (elects h) = ground (arith, heard)
step-IsHeard {t} heard (replicates h) = ground (arith, heard)
step-IsHeard {t} heard (executes h) = ground (arith, heard)
step-IsHeard {t} heard (serves h) = ground (arith, heard)

-- Someone goes on, up to the return of `stop`.
next_step : (t : Threads) → IsHeard t → (t.stopping ≡ away) ⊎ ((t' : Threads) × ThreadStep t t')
unfolding stop_step loop_step executor_step server_step join
next_step t heard = elim (Option-cases (stop_step t)) [
  | inr (t', h) ↦ inr (t', stops h)
  | inl s ↦ elim (Option-cases (loop_step t.running t.election_thread)) [
    | inr (thread, h) ↦ inr (_, elects h)
    | inl e ↦ elim (Option-cases (loop_step t.running t.replication_thread)) [
      | inr (thread, h) ↦ inr (_, replicates h)
      | inl r ↦ elim (Option-cases (executor_step t.running t.execution_thread)) [
        | inr (thread, h) ↦ inr (_, executes h)
        | inl x ↦ elim (Option-cases (server_step t)) [
          | inr (t', h) ↦ inr (t', serves h)
          | inl v ↦ inl (ground (arith, heard))
        ]
      ]
    ]
  ]
]

abbrev pub count_steps : {t t' : Threads} → ThreadSteps t t' → ℕ
count_steps here = 0
count_steps (further run step) = count_steps run + 1

steps-IsHeard :
    {t t' : Threads} (run : ThreadSteps t t')
    → IsHeard t
    → IsHeard t' × (weight t' + count_steps run ≤ weight t)
steps-IsHeard here heard = (heard, omega arith)
steps-IsHeard (further run step) heard =
    let (before, bound) = steps-IsHeard run heard in
    let (after, less) = step-IsHeard before step in (after, omega arith)

weight-le :
    (t : Threads)
    → t.stopping ≡ waking
    → t.rpc_server_thread ≢ alive building
    → t.execution_thread ≢ alive deciding
    → weight t ≤ 10
weight-le t at serving hears = ground arith

-- Where the server of a running node serves and the executor does not stand between its test and its
-- sleep, `stop` returns: the threads take at most 10 steps together, and as long as `stop` has not
-- returned there is one that can be taken.
pub stop_returns :
    (t : Threads) {t' : Threads} (run : ThreadSteps (begin_stop t) t')
    → t.running ≡ true
    → t.execution_thread ≢ alive deciding
    → t.rpc_server_thread ≢ alive building
    → t.rpc_server ≡ up
    → (count_steps run ≤ 10) × ((t'.stopping ≡ away) ⊎ ((t'' : Threads) × ThreadStep t' t''))
unfolding begin_stop
stop_returns t run runs hears serving served =
    let heard : IsHeard (begin_stop t) = rw runs (ground arith) in
    let (after, bound) = steps-IsHeard run heard in
    (omega (arith, weight-le (begin_stop t) (ground arith) heard.2 heard.1), next_step _ after)
