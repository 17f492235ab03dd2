-- ===== src/Benchmark/Flight.antt =====
-- The benchmark never has more than 50 requests in flight and counts each once, but may return while
-- a callback still holds a slot.
use raft_distributed_consens.Benchmark.{
  Bench, max_in_flight, begin_run, send_request, count_request, release_slot, BenchStep, sends,
  counts, releases, returns, BenchRun, begins, goes_on,
}
use raft_distributed_consens.Prelude.{ℕ, ◌+◌, ◌≤◌, true, length, ◌≡◌, arith, suc, ◌<◌, zero, refl}

-- Slots and requests are where they belong.
abbrev IsBalanced : ℕ → Bench → Type 0
IsBalanced total s =
    (s.count + s.in_flight + s.counted ≡ max_in_flight)
    × (s.sent ≡ s.in_flight + s.completed_requests)
    × (s.sent ≤ total)
    × (length s.latencies ≡ s.completed_requests)
    × (s.failed_requests ≤ s.completed_requests)
    × (s.returned ≡ true → (s.completed_requests ≡ total) × (s.in_flight ≡ 0))

step-IsBalanced :
    {total : ℕ} {s t : Bench} → IsBalanced total s → BenchStep total s t → IsBalanced total t
unfolding send_request count_request release_slot
step-IsBalanced balanced (sends more free) = ground (arith, balanced)
step-IsBalanced balanced (counts success latency some_sent) = ground (arith, balanced)
step-IsBalanced balanced (releases held) = ground (arith, balanced)
step-IsBalanced balanced (returns all_sent done) = ground (arith, balanced)

BenchRun-IsBalanced : {total : ℕ} {s : Bench} → BenchRun total s → IsBalanced total s
unfolding begin_run
BenchRun-IsBalanced begins = ground arith
BenchRun-IsBalanced (goes_on run step) = step-IsBalanced (BenchRun-IsBalanced run) step

-- At any time of a run at most 50 requests wait for their callback or hold a slot in it, each request
-- that has ended has one latency, and when the run has returned all requests have been counted and no
-- request is still in flight.
pub BenchRun-bound :
    {total : ℕ} {s : Bench}
    → BenchRun total s
    → (s.in_flight + s.counted ≤ 50)
      × (length s.latencies ≡ s.completed_requests)
      × (s.failed_requests ≤ s.completed_requests)
      × (s.returned ≡ true → (s.completed_requests ≡ total) × (s.in_flight ≡ 0))
BenchRun-bound run = ground (arith, BenchRun-IsBalanced run)

-- Requests one after the other.
one_by_one :
    (total k : ℕ)
    → k ≤ total
    → (s : Bench) × BenchRun total s
      × (s.sent ≡ k)
      × (s.count ≡ max_in_flight)
      × (s.in_flight ≡ 0)
      × (s.counted ≡ 0)
      × (s.completed_requests ≡ k)
unfolding begin_run send_request count_request release_slot
one_by_one total zero h = (begin_run, begins, refl, refl, refl, refl, refl)
one_by_one total (suc k) h =
    let (s, run, sent, count, in_flight, counted, completed) = one_by_one total k (omega arith) in
    let s1 : Bench = send_request s in
    let s2 : Bench = count_request s1 true 0 in
    let sent_one : BenchRun total s1 = goes_on run (sends (omega arith) (omega arith)) in
    let counted_one : BenchRun total s2 = goes_on sent_one (counts true 0 (omega arith)) in
    (
      release_slot s2,
      goes_on counted_one (releases (omega arith)),
      omega arith,
      omega arith,
      omega arith,
      omega arith,
      omega arith,
    )

-- For any number of requests but none, a run may return while a callback has still to release its
-- slot of the semaphore, which is a variable of the function that has returned.
release_after_return :
    (total : ℕ) → 0 < total → (s : Bench) × BenchRun total s × (s.returned ≡ true) × (0 < s.counted)
unfolding send_request count_request
release_after_return zero h = absurd (omega arith)
release_after_return (suc k) h =
    let (s, run, sent, count, in_flight, counted, completed) = one_by_one (suc k) k (omega arith) in
    let s1 : Bench = send_request s in
    let s2 : Bench = count_request s1 true 0 in
    let sent_one : BenchRun (suc k) s1 = goes_on run (sends (omega arith) (omega arith)) in
    let counted_one : BenchRun (suc k) s2 = goes_on sent_one (counts true 0 (omega arith)) in
    (
      record s2 { returned = true },
      goes_on counted_one (returns (omega arith) (omega arith)),
      refl,
      omega arith,
    )
