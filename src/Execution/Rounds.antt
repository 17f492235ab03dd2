-- ===== src/Execution/Rounds.antt =====
-- What a round of the executor makes visible: the applied index, and the answers to clients.
use raft_distributed_consens.Storage.Accounts.{get_request_result-apply_transaction}
use raft_distributed_consens.Requests.Handling.{find-erase_callback}
use raft_distributed_consens.Requests.{find_callback, early_response, erase_callback}
use raft_distributed_consens.Replication.Leader.{
  Indexed, read_entries-Consecutive, length-read_entries,
}
use raft_distributed_consens.Replication.LogShape.{Consecutive}
use raft_distributed_consens.Replication.{read_entries}
use raft_distributed_consens.Execution.Batch.{AllSafe, Resumes, ledger_run, apply_entries_refines}
use raft_distributed_consens.Execution.Accounts.{Represents, transfer_refines}
use raft_distributed_consens.Execution.Ledger.{Ledger, transfer_message}
use raft_distributed_consens.Execution.{
  execute_entry, is_success, fetch_entries, notify, apply_entry, apply_entries, maybe_compact,
  outcome,
}
use raft_distributed_consens.Node.{Node, is_leader}
use raft_distributed_consens.Storage.{Store, get_request_result}
use raft_distributed_consens.External.{External}
use raft_distributed_consens.Messages.{LogEntry, RequestType, ClientResponse}
use raft_distributed_consens.Prelude.{
  ℕ, ◌+◌, ◌-◌, ◌<◌, ◌≤◌, leb, min, some, Option, pos, Bytes, int_bound, ◌≡◌, refl, arith, true, inl,
  inr, Bool-cases, Option-cases, codes, subst, ◌∙◌, ap, none, bytes_eq, contains, bytes_eq_self,
  is_empty,
}

-- The answer to a client says whether the money was there.
is_success-transfer_message :
    (b : Ledger) (sender : Bytes) (m : ℕ)
    → is_success (transfer_message b sender m) ≡ leb m (b sender)
unfolding is_success bytes_eq contains
is_success-transfer_message b sender m = elim (Bool-cases (leb m (b sender))) [
  | inl funds ↦ rw funds refl
  | inr short ↦ rw short refl
]

module _ {Db : Type 0} ⦃env : External Db⦄ where
  -- A round takes the committed entries in order, 100 at most, and applies all of them: afterwards
  -- the applied index is the committed one, or 100 further, the accounts are those of the ledger
  -- after these commands, and a restart would resume there. The entries must stand at their own
  -- indices and be safe to run on the ledger.
  pub executor_round :
      (n : Node Db) (b : Ledger)
      → Represents n.storage b
      → AllSafe b (fetch_entries n)
      → n.last_applied ≤ n.commit_index
      → Indexed n.storage n.last_applied n.commit_index
      → Resumes n.storage n.last_applied
      → (n' : Node Db) × (apply_entries n (fetch_entries n) ≡ some n')
        × Represents n'.storage (ledger_run b (fetch_entries n))
        × Resumes n'.storage n'.last_applied
        × (n'.last_applied ≡ min (n.last_applied + 100) n.commit_index)
  unfolding fetch_entries
  executor_round n b r safe behind indexed resumes =
      let count : ℕ = min 100 (n.commit_index - n.last_applied) in
      let follows : Consecutive n.last_applied (read_entries n.storage count (n.last_applied + 1)) =
        read_entries-Consecutive n.storage count n.last_applied
          (λ j low high. indexed j low (omega arith)) in
      let (n', run, r', resumes', applied) =
        apply_entries_refines (read_entries n.storage count (n.last_applied + 1)) n b r safe follows
          resumes in
      (
        n',
        run,
        r',
        resumes',
        omega (arith, applied, length-read_entries n.storage count (n.last_applied + 1)),
      )

  notify_answer :
      (n : Node Db) (e : LogEntry) (msg : Bytes) (callback : ℕ)
      → find_callback e.command.request_id n.pending_callbacks ≡ some callback
      → notify n e msg ≡ (
        record n {
          last_applied = e.index;
          pending_callbacks = erase_callback e.command.request_id n.pending_callbacks;
        },
        some (
          callback,
          record { success = is_success msg; result = msg; leader_hint = n.leader_id },
        ),
      )
  unfolding notify
  notify_answer n e msg callback waits = rw (waits, notify) refl

  maybe_compact-pending_callbacks :
      (n : Node Db) → (maybe_compact n).pending_callbacks ≡ n.pending_callbacks
  unfolding maybe_compact
  maybe_compact-pending_callbacks n = ground arith

  -- The client that waits for a transfer of an amount that is not negative is answered when the
  -- entry is applied, with success if and only if the sender had the amount, and its callback is
  -- removed, where the receiver's balance would stay in the range of `int`.
  pub transfer_answered :
      (n : Node Db) (b : Ledger) (e : LogEntry) (m callback : ℕ)
      → Represents n.storage b
      → e.command.type ≡ RequestType.transfer
      → e.command.amount ≡ pos m
      → b e.command.receiver_id + m < int_bound
      → find_callback e.command.request_id n.pending_callbacks ≡ some callback
      → (n' : Node Db) × (response : ClientResponse) × (apply_entry n e
          ≡ some (n', some (callback, response)))
        × (response.success ≡ leb m (b e.command.sender_id))
        × (find_callback e.command.request_id n'.pending_callbacks ≡ none)
  unfolding apply_entry
  transfer_answered n b e m callback r t amount bound waits =
      let (s', run, r') = transfer_refines n.storage b e m r t amount bound in
      let n' : Node Db = record n {
        storage = s';
        last_applied = e.index;
        pending_callbacks = erase_callback e.command.request_id n.pending_callbacks;
      } in
      (
        maybe_compact n',
        record {
          success = is_success (transfer_message b e.command.sender_id m);
          result = transfer_message b e.command.sender_id m;
          leader_hint = n.leader_id;
        },
        rw run (
            ap (λ (p : Node Db × Option (ℕ × ClientResponse)). some (maybe_compact p.0, p.1))
              (notify_answer (record n { storage = s' }) e _ callback waits)),
        is_success-transfer_message b e.command.sender_id m,
        ap (find_callback e.command.request_id) (maybe_compact-pending_callbacks n')
            ∙ find-erase_callback e.command.request_id e.command.request_id n.pending_callbacks
            ∙ rw (bytes_eq_self e.command.request_id) refl,
      )

  -- What is executed is recorded under the request.
  abbrev AllRecorded : Bytes → Option (Store Db × Bytes) → Type 0
  AllRecorded id none = Unit {0}
  AllRecorded id (some (s, msg)) = get_request_result s id ≡ msg

  execute_entry-AllRecorded :
      (s : Store Db) (e : LogEntry) → AllRecorded e.command.request_id (execute_entry s e)
  unfolding execute_entry
  execute_entry-AllRecorded s e = elim (Option-cases (outcome s e.command.type e.command)) [
    | inl failed ↦ rw failed tt
    | inr (o, ran) ↦ rw ran (
        get_request_result-apply_transaction s e _ _ o.result_msg e.command.request_id
        ∙ rw (bytes_eq_self e.command.request_id) refl)
  ]

  -- A leader that has refused a transfer for want of funds answers the same request with success
  -- when the client sends it again, where the receiver's balance would stay in the range of `int`.
  pub refused_retry_succeeds :
      (n : Node Db) (b : Ledger) (e : LogEntry) (m : ℕ)
      → Represents n.storage b
      → e.command.type ≡ RequestType.transfer
      → e.command.amount ≡ pos m
      → b e.command.receiver_id + m < int_bound
      → b e.command.sender_id < m
      → is_leader n.state ≡ true
      → (s' : Store Db) × (execute_entry n.storage e ≡ some (s', codes "Insufficient Funds"))
        × (early_response (record n { storage = s' }) e.command
            ≡ some (record {
              success = true;
              result = codes "Insufficient Funds";
              leader_hint = n.leader_id;
            }))
  unfolding early_response is_empty
  refused_retry_succeeds n b e m r t amount bound short leads =
      let (s', run, r') = transfer_refines n.storage b e m r t amount bound in
      let refused : transfer_message b e.command.sender_id m ≡ codes "Insufficient Funds" =
        ground arith in
      let run' : execute_entry n.storage e ≡ some (s', codes "Insufficient Funds") =
        run ∙ ap (λ (msg : Bytes). some (s', msg)) refused in
      let recorded : get_request_result s' e.command.request_id ≡ codes "Insufficient Funds" =
        subst (AllRecorded e.command.request_id) run' (execute_entry-AllRecorded n.storage e) in
      (s', run', rw (leads, recorded) refl)
