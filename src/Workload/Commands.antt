-- ===== src/Workload/Commands.antt =====
-- What the lines of a workload ask for: fields without a comma come back from a line.
use raft_distributed_consens.Client.{send_command}
use raft_distributed_consens.Text.{to_string}
use raft_distributed_consens.Text.Plain.{lacks, lacks-to_string}
use raft_distributed_consens.Text.RoundTrip.{stoi-to_string}
use raft_distributed_consens.Workload.{get_field, split_line, csv_command, test_command}
use raft_distributed_consens.Messages.{ClientRequest, transfer, get_balance}
use raft_distributed_consens.Prelude.{
  ◌>>=◌, ℕ, [], ◌∷◌, ◌++◌, Option, none, some, true, Bytes, codes, bytes_eq, ℤ, pos, IsInt, ◌≡◌,
  refl, arith,
}

get_field-comma : (x s : Bytes) → lacks b',' x ≡ true → get_field (x ++ (b',' ∷ s)) ≡ (x, s)
unfolding get_field
get_field-comma [] s h = refl
get_field-comma (c ∷ x) s h = ground (arith, get_field-comma x s)

get_field-end : (x : Bytes) → lacks b',' x ≡ true → get_field x ≡ (x, [])
unfolding get_field
get_field-end [] h = refl
get_field-end (c ∷ x) h = ground (arith, get_field-end x)

abbrev pub transfer_line : Bytes → Bytes → ℤ → Bytes
transfer_line sender receiver amount =
    codes "TRANSFER" ++ (b',' ∷ (sender ++ (b',' ∷ (receiver ++ (b',' ∷ to_string amount)))))

abbrev pub get_line : Bytes → Bytes
get_line account = codes "GET" ++ (b',' ∷ account)

split-transfer_line :
    (sender receiver : Bytes) (amount : ℤ)
    → lacks b',' sender ≡ true
    → lacks b',' receiver ≡ true
    → split_line (transfer_line sender receiver amount)
      ≡ record { cmd = codes "TRANSFER"; arg1 = sender; arg2 = receiver; arg3 = to_string amount }
unfolding split_line get_field
split-transfer_line sender receiver amount hs hr =
    let rest : Bytes = receiver ++ (b',' ∷ to_string amount) in
    rw
      (
        get_field-comma sender rest hs,
        get_field-comma receiver (to_string amount) hr,
        get_field-end (to_string amount) (lacks-to_string b',' amount (omega arith)),
      )
      refl

split-get_line :
    (account : Bytes)
    → lacks b',' account ≡ true
    → split_line (get_line account)
      ≡ record { cmd = codes "GET"; arg1 = account; arg2 = []; arg3 = [] }
unfolding split_line get_field
split-get_line account h = rw (get_field-end account h) refl

-- The request that a line of the workload leads to.
abbrev pub requested : ℤ → ℕ → Bytes → Option (Option ClientRequest)
requested id rand line = do
  command ← csv_command (split_line line)
  some (elim command [
    | none ↦ none
    | some c ↦ some (send_command id rand c.key c.value c.type c.sender)
  ])

abbrev pub tested : ℤ → ℕ → Bytes → Option ClientRequest
tested id rand line = do
  c ← test_command (split_line line)
  some (send_command id rand c.key c.value c.type c.sender)

-- A line of a workload that asks for a transfer leads to the request for that transfer, and a line
-- that asks for a balance to the request for that balance, by the mode that runs a file as by the
-- test. Accounts have no comma, and the amount is in the range of `int`.
pub send-workload_lines :
    (id : ℤ) (rand : ℕ) (sender receiver : Bytes) (amount : ℤ)
    → lacks b',' sender ≡ true
    → lacks b',' receiver ≡ true
    → IsInt amount
    → let request_id : Bytes = to_string id ++ codes "-" ++ to_string (pos rand) in
      let payment : ClientRequest = record {
        request_id = request_id;
        type = transfer;
        sender_id = sender;
        receiver_id = receiver;
        amount = amount;
      } in
      let query : ClientRequest = record {
        request_id = request_id;
        type = get_balance;
        sender_id = sender;
        receiver_id = [];
        amount = pos 0;
      } in
      (requested id rand (transfer_line sender receiver amount) ≡ some (some payment))
      × (requested id rand (get_line sender) ≡ some (some query))
      × (tested id rand (transfer_line sender receiver amount) ≡ some payment)
      × (tested id rand (get_line sender) ≡ some query)
unfolding csv_command test_command send_command bytes_eq
send-workload_lines id rand sender receiver amount hs hr range = (
  rw (split-transfer_line sender receiver amount hs hr, stoi-to_string amount range) refl,
  rw (split-get_line sender hs) refl,
  rw (split-transfer_line sender receiver amount hs hr, stoi-to_string amount range) refl,
  rw (split-get_line sender hs) refl,
)
