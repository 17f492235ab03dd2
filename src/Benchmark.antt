-- ===== src/Benchmark.antt =====
-- Benchmark::run of src/benchmark/benchmark.cpp: the requests in flight, the semaphore that limits
-- them, and the callbacks that count them. The requests' content, the clock and the printed figures
-- are left out.
pub mod Flight
use raft_distributed_consens.Prelude.{
  ℕ, ◌+◌, ◌-◌, ◌<◌, ◌≤◌, List, [], ◌∷◌, Bool, true, false, if◌then◌else◌, ◌≡◌,
}

-- `in_flight` are the requests whose callback has not run; `counted` are the callbacks that have left
-- the part under the lock and have not released their slot. `count` is the semaphore's.
pub record Bench : Type 0 where
  pub sent : ℕ
  pub count : ℕ
  pub in_flight : ℕ
  pub counted : ℕ
  pub completed_requests : ℕ
  pub failed_requests : ℕ
  pub latencies : List ℕ
  pub returned : Bool

abbrev pub max_in_flight : ℕ
max_in_flight = 50

unfoldable pub begin_run : Bench
begin_run = record {
  sent = 0;
  count = max_in_flight;
  in_flight = 0;
  counted = 0;
  completed_requests = 0;
  failed_requests = 0;
  latencies = [];
  returned = false;
}

-- `sem.acquire()`, and the request.
unfoldable pub send_request : Bench → Bench
send_request s = record s { sent = s.sent + 1; count = s.count - 1; in_flight = s.in_flight + 1 }

-- The part of the callback that holds the lock.
unfoldable pub count_request : Bench → Bool → ℕ → Bench
count_request s success latency = record s {
  in_flight = s.in_flight - 1;
  counted = s.counted + 1;
  latencies = latency ∷ s.latencies;
  failed_requests = if success then s.failed_requests else s.failed_requests + 1;
  completed_requests = s.completed_requests + 1;
}

-- `sem.release()`.
unfoldable pub release_slot : Bench → Bench
release_slot s = record s { counted = s.counted - 1; count = s.count + 1 }

-- The main thread and the callbacks, in any order.
pub data BenchStep (total_requests : ℕ) (s : Bench) : Bench → Type 0 where
  sends : s.sent < total_requests → 0 < s.count → BenchStep total_requests s (send_request s)
  counts :
      (success : Bool) (latency : ℕ)
      → 0 < s.in_flight
      → BenchStep total_requests s (count_request s success latency)
  releases : 0 < s.counted → BenchStep total_requests s (release_slot s)
  returns :
      s.sent ≡ total_requests
      → total_requests ≤ s.completed_requests
      → BenchStep total_requests s (record s { returned = true })

pub data BenchRun (total_requests : ℕ) : Bench → Type 0 where
  begins : BenchRun total_requests begin_run
  goes_on :
      {s t : Bench}
      → BenchRun total_requests s
      → BenchStep total_requests s t
      → BenchRun total_requests t
