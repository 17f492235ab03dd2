-- ===== src/Workload/Schedule.antt =====
-- The fault tolerance test ends: it sends 900 commands, and stops and starts the node 5 on the way.
use raft_distributed_consens.Workload.{
  Event, call, stop_node, start_node, phase_events, split_line, test_command, test_pass, unfinished,
  run_snapshot_test,
}
use raft_distributed_consens.Prelude.{
  ℕ, zero, suc, ◌+◌, ◌%◌, List, [], ◌∷◌, ◌++◌, none, some, Bool, true, ◌&&◌, Bytes, is_empty, ◌≡◌,
  ◌≢◌, refl, arith, All,
}

-- No line makes `std::stoi` fail.
abbrev pub IsWorkload : List Bytes → Type 0
IsWorkload lines = All (λ line. test_command (split_line line) ≢ none) lines

abbrev pub is_blank : List Bytes → Bool
is_blank [] = true
is_blank (line ∷ lines) = is_empty line && is_blank lines

-- An event without the command.
pub data Move : Type 0 where
  sent_by : ℕ → Move
  stopped started : Move

abbrev pub moves : List Event → List Move
moves [] = []
moves (call client command ∷ es) = sent_by client ∷ moves es
moves (stop_node ∷ es) = stopped ∷ moves es
moves (start_node ∷ es) = started ∷ moves es

-- `n` commands in a row by the four clients in turn, the first of them the number `total`.
abbrev pub round_robin : ℕ → ℕ → List Move
round_robin zero total = []
round_robin (suc n) total = sent_by (total % 4) ∷ round_robin n (total + 1)

-- The same with the phases between them.
abbrev plan : ℕ → ℕ → List Move
plan zero total = []
plan (suc n) total = sent_by (total % 4) ∷ (moves (phase_events (total + 1)) ++ plan n (total + 1))

-- On a file without a line the test never ends.
blank_pass :
    (lines : List Bytes) (total : ℕ)
    → is_blank lines ≡ true
    → test_pass lines total ≡ some ([], total)
unfolding test_pass
blank_pass [] total blank = refl
blank_pass (line ∷ lines) total blank = ground (arith, blank_pass lines total)

run_snapshot_test-hangs :
    (fuel : ℕ) (lines : List Bytes)
    → is_blank lines ≡ true
    → run_snapshot_test fuel lines 0 ≡ unfinished
unfolding run_snapshot_test
run_snapshot_test-hangs zero lines blank = refl
run_snapshot_test-hangs (suc fuel) lines blank =
    rw (blank_pass lines 0 blank, run_snapshot_test-hangs fuel lines blank) refl
