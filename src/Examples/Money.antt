-- ===== src/Examples/Money.antt =====
-- A store in which account 1 holds 100, and what the executor does with it.
use raft_distributed_consens.Examples.Nodes.{holder, first_entry, payment}
use raft_distributed_consens.Examples.Environment.{Pairs, environment}
use raft_distributed_consens.Execution.Rounds.{
  executor_round, transfer_answered, refused_retry_succeeds,
}
use raft_distributed_consens.Execution.Batch.{AllSafe, Resumes, ledger_run}
use raft_distributed_consens.Execution.Money.{transfer_conserves, self_transfer_mints}
use raft_distributed_consens.Execution.Accounts.{Represents, transfer_refines}
use raft_distributed_consens.Execution.Ledger.{Ledger, transferred, transfer_message, total}
use raft_distributed_consens.Execution.{execute_entry, apply_entry, apply_entries, fetch_entries}
use raft_distributed_consens.Requests.{find_callback, process_client_request, early_response}
use raft_distributed_consens.Execution.PaidTwice.{retry_paid_twice, all_committed}
use raft_distributed_consens.Replication.{read_entries}
use raft_distributed_consens.Replication.Leader.{Indexed}
use raft_distributed_consens.Storage.Log.{at-append_log, get_log_entry-append_log}
use raft_distributed_consens.Storage.Keys.{
  key_bytes, acct, req, sys_last_applied, bytes_eq-key_bytes,
}
use raft_distributed_consens.Storage.{
  Store, get_request_result, result_of, at, append_log, get_balance, read_int,
  get_last_applied_index, nonneg,
}
use raft_distributed_consens.Node.{Node, leader}
use raft_distributed_consens.Messages.{LogEntry, ClientResponse}
use raft_distributed_consens.Text.RoundTrip.{stoi-to_string}
use raft_distributed_consens.Text.{to_string}
use raft_distributed_consens.Prelude.{
  [], ◌∷◌, ◌-◌, none, some, pos, ◌≡◌, ◌+◌, refl, arith, leb, ap, sym, subst, if◌then◌else◌, min,
  codes, bytes_eq, Bytes, ◌∙◌, Option, ◌>>=◌, minus_one, true,
}

abbrev rich : Store Pairs
rich = record {
  db =
      (key_bytes (acct (codes "1")), to_string (pos 100))
      ∷ (key_bytes sys_last_applied, to_string (pos 0))
      ∷ [];
  last_log_index_cache = 0;
}

abbrev balances : Ledger
balances a = if bytes_eq (codes "1") a then 100 else 0

rich-Represents : Represents rich balances
unfolding get_balance read_int
rich-Represents a =
    rw
      (bytes_eq-key_bytes (acct (codes "1")) (acct a), bytes_eq-key_bytes sys_last_applied (acct a))
      (ground (arith, stoi-to_string (pos 100) (omega arith)))

rich-Resumes : Resumes rich 0
unfolding get_last_applied_index read_int
rich-Resumes =
    rw
      (
        bytes_eq-key_bytes (acct (codes "1")) sys_last_applied,
        bytes_eq-key_bytes sys_last_applied sys_last_applied,
      )
      (ground (arith, stoi-to_string (pos 0) (omega arith)))

-- The same store behind a log with a payment of 30.
abbrev store : Store Pairs
store = append_log rich first_entry

store-Represents : Represents store balances
unfolding get_balance
store-Represents a =
    ap (read_int (pos 0)) (at-append_log rich first_entry (acct a)) ∙ rich-Represents a

store-Resumes : Resumes store 0
unfolding get_last_applied_index
store-Resumes =
    ap (λ (o : Option Bytes). do z ← read_int (pos 0) o; nonneg z)
      (at-append_log rich first_entry sys_last_applied)
    ∙ rich-Resumes

abbrev payer : Node Pairs
payer = record holder {
  storage = store;
  commit_index = 1;
  state = leader;
  pending_callbacks = (codes "r1", 4) ∷ [];
}

store-Indexed : Indexed store 0 1
store-Indexed j low high = ground (arith, get_log_entry-append_log rich first_entry j)

fetched : fetch_entries payer ≡ first_entry ∷ []
unfolding fetch_entries read_entries
fetched = ap (λ (e : LogEntry). e ∷ []) (get_log_entry-append_log rich first_entry 1)

payment-AllSafe : AllSafe balances (first_entry ∷ [])
unfolding bytes_eq
payment-AllSafe = ((30, refl, omega arith), omega arith, tt)

executor_round_example :
    (n' : Node Pairs) × (apply_entries payer (fetch_entries payer) ≡ some n')
    × Represents n'.storage (ledger_run balances (fetch_entries payer))
    × Resumes n'.storage n'.last_applied
    × (n'.last_applied ≡ min (0 + 100) 1)
executor_round_example =
    executor_round payer balances store-Represents
      (subst (AllSafe balances) (sym fetched) payment-AllSafe) (omega arith) store-Indexed
      store-Resumes

transfer_refines_example :
    (s' : Store Pairs) × (execute_entry rich first_entry
      ≡ some (s', transfer_message balances (codes "1") 30))
    × Represents s' (transferred balances (codes "1") (codes "2") 30)
unfolding bytes_eq
transfer_refines_example =
    transfer_refines rich balances first_entry 30 rich-Represents refl refl (omega arith)

transfer_conserves_example :
    (s' : Store Pairs) × (msg : Bytes) × (b' : Ledger) × (execute_entry rich first_entry
      ≡ some (s', msg))
    × Represents s' b'
    × (total b' (codes "1" ∷ codes "2" ∷ []) ≡ total balances (codes "1" ∷ codes "2" ∷ []))
unfolding bytes_eq
transfer_conserves_example =
    transfer_conserves rich balances first_entry 30 (codes "1" ∷ codes "2" ∷ []) rich-Represents
      refl refl (omega arith) refl (refl, (refl, tt)) refl refl

transfer_answered_example :
    (n' : Node Pairs) × (response : ClientResponse) × (apply_entry payer first_entry
      ≡ some (n', some (4, response)))
    × (response.success ≡ leb 30 (balances (codes "1")))
    × (find_callback (codes "r1") n'.pending_callbacks ≡ none)
unfolding find_callback bytes_eq
transfer_answered_example =
    transfer_answered payer balances first_entry 30 4 store-Represents refl refl (omega arith) refl

abbrev to_self : LogEntry
to_self = record first_entry { command = record payment { receiver_id = codes "1" } }

self_transfer_mints_example :
    (s' : Store Pairs) × (execute_entry rich to_self ≡ some (s', codes "Success"))
    × (get_balance s' (codes "1") ≡ some (pos (balances (codes "1") + 30)))
unfolding bytes_eq
self_transfer_mints_example =
    self_transfer_mints rich balances to_self 30 rich-Represents refl refl refl (omega arith)
      (omega arith)

-- The same node as a new leader, which has no callback of the payment that it holds.
abbrev elected : Node Pairs
elected = record payer { pending_callbacks = []; commit_index = 0 }

unknown_payment : get_request_result store (codes "r1") ≡ []
unfolding get_request_result result_of
unknown_payment =
    let absent : at rich (req (codes "r1")) ≡ none =
      rw
        (
          bytes_eq-key_bytes (acct (codes "1")) (req (codes "r1")),
          bytes_eq-key_bytes sys_last_applied (req (codes "r1")),
        )
        refl in
    ap (λ (o : Option Bytes). (result_of environment.proto o).result_message)
      (at-append_log rich first_entry (req (codes "r1")) ∙ absent)

retry_paid_twice_example :
    let n' = all_committed (process_client_request elected payment 9).0 in
    (n'' : Node Pairs) × (apply_entries n' (fetch_entries n') ≡ some n'')
    × (get_balance n''.storage (codes "1") ≡ some (pos (balances (codes "1") - (30 + 30))))
unfolding bytes_eq find_callback
retry_paid_twice_example =
    retry_paid_twice elected balances first_entry 30 9 refl refl
      (get_log_entry-append_log rich first_entry 1) refl unknown_payment refl store-Represents
      store-Resumes refl refl refl (omega arith) (omega arith) (omega arith)

-- Account 2 has nothing to pay with.
abbrev unfunded : LogEntry
unfunded = record first_entry {
  command = record payment { sender_id = codes "2"; receiver_id = codes "1" };
}

refused_retry_succeeds_example :
    (s' : Store Pairs) × (execute_entry store unfunded ≡ some (s', codes "Insufficient Funds"))
    × (early_response (record payer { storage = s' }) unfunded.command
        ≡ some (record {
          success = true;
          result = codes "Insufficient Funds";
          leader_hint = minus_one;
        }))
unfolding bytes_eq
refused_retry_succeeds_example =
    refused_retry_succeeds payer balances unfunded 30 store-Represents refl refl (omega arith)
      (omega arith) refl
