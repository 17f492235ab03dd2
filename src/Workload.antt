-- ===== src/Workload.antt =====
-- runCsvMode and runSnapshotTest of src/main.cpp: commands read from the lines of a file, which is
-- given. The waits and the logging are left out.
pub mod Commands
pub mod Schedule
use raft_distributed_consens.Text.{stoi}
use raft_distributed_consens.Prelude.{
  ℕ, zero, suc, ◌+◌, ◌%◌, List, [], ◌∷◌, ◌++◌, Option, none, some, ◌>>=◌, Bool, Bytes, codes,
  bytes_eq, is_empty, ℤ, pos, ltb, ◌==◌, if◌then◌else◌,
}

-- `std::getline(ss, field, ',')`: the field, and what is left of the stream.
unfoldable pub get_field : Bytes → Bytes × Bytes
get_field [] = ([], [])
get_field (c ∷ s) = let rest = get_field s in if c == b',' then ([], s) else (c ∷ rest.0, rest.1)

pub record Fields : Type 0 where
  pub cmd : Bytes
  pub arg1 : Bytes
  pub arg2 : Bytes
  pub arg3 : Bytes

unfoldable pub split_line : Bytes → Fields
unfolding get_field
split_line line =
    let (cmd, s1) = get_field line in
    let (arg1, s2) = get_field s1 in
    let (arg2, s3) = get_field s2 in
    record { cmd = cmd; arg1 = arg1; arg2 = arg2; arg3 = (get_field s3).0 }

-- The arguments of a call of `sendCommand`; the sender is "1" where none is given.
pub record Command : Type 0 where
  pub key : Bytes
  pub value : ℤ
  pub type : Bytes
  pub sender : Bytes

abbrev transfer_command : Fields → ℤ → Command
transfer_command f amt = record {
  key = f.arg2;
  value = amt;
  type = codes "TRANSFER";
  sender = f.arg1;
}

abbrev get_command : Fields → Command
get_command f = record { key = f.arg1; value = pos 0; type = codes "GET"; sender = codes "1" }

-- `none` is an exception of `std::stoi`, which ends the program; `some none` is no call.
unfoldable pub csv_command : Fields → Option (Option Command)
csv_command f =
    if bytes_eq f.cmd (codes "TRANSFER")
    then (do amt ← stoi f.arg3; some (some (transfer_command f amt)))
    else if bytes_eq f.cmd (codes "GET")
    then some (some (get_command f))
    else some none

-- The loop of `runCsvMode`: the calls, each with the position of its client.
unfoldable pub run_lines : List Bytes → ℕ → ℕ → Option (List (ℕ × Command))
unfolding csv_command split_line
run_lines [] clients count = some []
run_lines (line ∷ lines) clients count =
    let skipped = run_lines lines clients count in
    let sent = (do
      command ← csv_command (split_line line)
      rest ← run_lines lines clients (count + 1)
      some (elim command [ none ↦ rest | some c ↦ (count % clients, c) ∷ rest ])) in
    if is_empty line then skipped else sent

unfoldable pub run_csv_mode : List Bytes → ℕ → Option (List (ℕ × Command))
unfolding run_lines
run_csv_mode lines clients = if clients == 0 then some [] else run_lines lines clients 0

-- In the test every other command is a query.
unfoldable pub test_command : Fields → Option Command
test_command f =
    if bytes_eq f.cmd (codes "TRANSFER")
    then (do amt ← stoi f.arg3; some (transfer_command f amt))
    else some (get_command f)

-- What the test does: a call by the client at a position, and the node 5 that stops or starts.
pub data Event : Type 0 where
  call : ℕ → Command → Event
  stop_node start_node : Event

abbrev pub target_commands : ℕ
target_commands = 900

-- The phases that begin when `total` commands have been sent.
unfoldable pub phase_events : ℕ → List Event
phase_events total =
    if total == 300 then stop_node ∷ [] else if total == 600 then start_node ∷ [] else []

-- One pass over the file. The events, and the number of commands sent so far.
unfoldable pub test_pass : List Bytes → ℕ → Option (List Event × ℕ)
unfolding test_command split_line phase_events
test_pass [] total = some ([], total)
test_pass (line ∷ lines) total =
    let skipped = test_pass lines total in
    let sent = (do
      command ← test_command (split_line line)
      rest ← test_pass lines (total + 1)
      some (call (total % 4) command ∷ (phase_events (total + 1) ++ rest.0), rest.1)) in
    if ltb total target_commands
    then (if is_empty line then skipped else sent)
    else some ([], total)

pub data Progress : Type 0 where
  crashed unfinished : Progress
  finished : List Event → Progress

abbrev pub prepend : List Event → Progress → Progress
prepend es crashed = crashed
prepend es unfinished = unfinished
prepend es (finished fs) = finished (es ++ fs)

-- The outer loop, for as many passes as there is fuel.
unfoldable pub run_snapshot_test : ℕ → List Bytes → ℕ → Progress
unfolding test_pass
run_snapshot_test zero lines total = if ltb total target_commands then unfinished else finished []
run_snapshot_test (suc fuel) lines total =
    let again : Progress = elim (test_pass lines total) [
      | none ↦ crashed
      | some (es, sent) ↦ prepend es (run_snapshot_test fuel lines sent)
    ] in
    if ltb total target_commands then again else finished []
