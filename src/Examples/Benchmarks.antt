-- ===== src/Examples/Benchmarks.antt =====
-- A benchmark of one request, up to its count.
use raft_distributed_consens.Benchmark.{
  Bench, begin_run, send_request, count_request, BenchRun, begins, goes_on, sends, counts,
}
use raft_distributed_consens.Benchmark.Flight.{BenchRun-bound}
use raft_distributed_consens.Prelude.{◌+◌, ◌≤◌, true, false, length, ◌≡◌, arith}

abbrev timed_out : Bench
timed_out = count_request (send_request begin_run) false 2000

timed_out-BenchRun : BenchRun 3 timed_out
unfolding begin_run send_request
timed_out-BenchRun =
    goes_on (goes_on begins (sends (omega arith) (omega arith))) (counts false 2000 (omega arith))

BenchRun-bound_example :
    (timed_out.in_flight + timed_out.counted ≤ 50)
    × (length timed_out.latencies ≡ timed_out.completed_requests)
    × (timed_out.failed_requests ≤ timed_out.completed_requests)
    × (timed_out.returned ≡ true → (timed_out.completed_requests ≡ 3) × (timed_out.in_flight ≡ 0))
BenchRun-bound_example = BenchRun-bound timed_out-BenchRun
