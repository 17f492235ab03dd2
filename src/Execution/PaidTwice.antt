-- ===== src/Execution/PaidTwice.antt =====
-- A request that is sent again to a new leader, which holds the first try in its log.
use raft_distributed_consens.Execution.{ℤ, apply_entries, fetch_entries}
use raft_distributed_consens.Execution.Accounts.{Represents}
use raft_distributed_consens.Execution.Batch.{
  IsSafe, ledger_step, AllSafe, Resumes, ledger_run, apply_entries_refines,
}
use raft_distributed_consens.Execution.Ledger.{Ledger, transferred}
use raft_distributed_consens.Replication.{read_entries}
use raft_distributed_consens.Requests.{
  find_callback, process_client_request, early_response, append_request, new_entry,
}
use raft_distributed_consens.Storage.Log.{at-append_log, get_log_entry-append_log}
use raft_distributed_consens.Storage.{
  read_int, nonneg, append_log, get_balance, get_log_entry, get_request_result,
  get_last_applied_index,
}
use raft_distributed_consens.Storage.Keys.{acct, sys_last_applied}
use raft_distributed_consens.Node.{Node, leader}
use raft_distributed_consens.Messages.{LogEntry, RequestType, ClientRequest}
use raft_distributed_consens.External.{External}
use raft_distributed_consens.Prelude.{
  ℕ, ◌+◌, ◌-◌, ◌<◌, ◌≤◌, min, some, none, [], ◌∷◌, pos, Bytes, bytes_eq, bytes_eq_iff, is_empty,
  int_bound, Option, ◌>>=◌, ◌≡◌, refl, arith, false, ◌∙◌, ap, subst, sym,
}

-- Two transfers of `m`, one after the other.
transferred_twice :
    (b : Ledger) (sender receiver : Bytes) (m : ℕ)
    → bytes_eq sender receiver ≡ false
    → m + m ≤ b sender
    → transferred (transferred b sender receiver m) sender receiver m sender ≡ b sender - (m + m)
transferred_twice b sender receiver m differ funds =
    ground (
      arith,
      bytes_eq_iff sender receiver,
      bytes_eq_iff receiver sender,
      bytes_eq_iff sender sender,
    )

ledger_step-transfer :
    (b : Ledger) (t : RequestType) (cmd : ClientRequest) (m : ℕ)
    → t ≡ RequestType.transfer
    → cmd.amount ≡ pos m
    → ledger_step b t cmd ≡ transferred b cmd.sender_id cmd.receiver_id m
ledger_step-transfer b t cmd m is_transfer amount =
    ap (λ (k : RequestType). ledger_step b k cmd) is_transfer
    ∙ ap (λ (z : ℤ). ledger_step b RequestType.transfer (record cmd { amount = z })) amount

transfer-IsSafe :
    (b : Ledger) (t : RequestType) (cmd : ClientRequest) (m : ℕ)
    → t ≡ RequestType.transfer
    → cmd.amount ≡ pos m
    → b cmd.receiver_id + m < int_bound
    → IsSafe b t cmd
transfer-IsSafe b t cmd m is_transfer amount bound =
    subst (λ k. IsSafe b k cmd) (sym is_transfer) (m, amount, bound)

-- The two entries are safe to run on the ledger.
twice-AllSafe :
    (b : Ledger) (e e' : LogEntry) (m : ℕ)
    → e.command ≡ e'.command
    → e.command.type ≡ RequestType.transfer
    → e.command.amount ≡ pos m
    → b e.command.receiver_id + (m + m) < int_bound
    → e.index < int_bound
    → e'.index < int_bound
    → AllSafe b (e ∷ e' ∷ [])
twice-AllSafe b e e' m same t amount bound low high =
    let cmd = e.command in
    let step = ledger_step-transfer b cmd.type cmd m t amount in
    let credited : ledger_step b cmd.type cmd cmd.receiver_id + m < int_bound =
      rw step (ground (arith, bytes_eq_iff cmd.receiver_id cmd.receiver_id)) in
    (
      transfer-IsSafe b cmd.type cmd m t amount (omega arith),
      low,
      (
        subst (λ (c : ClientRequest). IsSafe (ledger_step b cmd.type cmd) c.type c) same
            (transfer-IsSafe (ledger_step b cmd.type cmd) cmd.type cmd m t amount credited),
        high,
        tt,
      ),
    )

module _ {Db : Type 0} ⦃env : External Db⦄ where
  -- The leader with the request at the end of its log, as if all of its log were committed.
  abbrev grown : Node Db → ClientRequest → ℕ → Node Db
  grown n req callback = record n {
    storage = append_log n.storage (new_entry n req);
    last_log_index = n.last_log_index + 1;
    last_log_term = n.current_term;
    pending_callbacks = (req.request_id, callback) ∷ n.pending_callbacks;
  }

  process_client_request-grown :
      (n : Node Db) (req : ClientRequest) (callback : ℕ)
      → n.state ≡ leader
      → get_request_result n.storage req.request_id ≡ []
      → find_callback req.request_id n.pending_callbacks ≡ none
      → (process_client_request n req callback).0 ≡ grown n req callback
  unfolding process_client_request early_response append_request is_empty
  process_client_request-grown n req callback leads unknown idle = ground arith

  abbrev pub all_committed : Node Db → Node Db
  all_committed n = record n { commit_index = n.last_log_index }

  fetch_entries-grown :
      (n : Node Db) (e : LogEntry) (callback : ℕ)
      → n.last_log_index ≡ n.last_applied + 1
      → get_log_entry n.storage n.last_log_index ≡ e
      → fetch_entries (all_committed (grown n e.command callback)) ≡ e ∷ new_entry n e.command ∷ []
  unfolding fetch_entries read_entries
  fetch_entries-grown n e callback last held =
      let e' : LogEntry = new_entry n e.command in
      let s' = append_log n.storage e' in
      let two : min 100 (n.last_log_index + 1 - n.last_applied) ≡ 2 = omega (arith, last) in
      let first : get_log_entry s' (n.last_applied + 1) ≡ e =
        ap (λ (i : ℕ). get_log_entry s' i) (sym last)
        ∙ get_log_entry-append_log n.storage e' n.last_log_index
        ∙ ground (arith, held) in
      let after : n.last_applied + 1 + 1 ≡ n.last_log_index + 1 = omega (arith, last) in
      let second : get_log_entry s' (n.last_applied + 1 + 1) ≡ e' =
        ap (λ (i : ℕ). get_log_entry s' i) after
        ∙ get_log_entry-append_log n.storage e' (n.last_log_index + 1)
        ∙ ground arith in
      rw (two, first, second) refl

  grown-Represents :
      (n : Node Db) (b : Ledger) (req : ClientRequest) (callback : ℕ)
      → Represents n.storage b
      → Represents (grown n req callback).storage b
  unfolding get_balance
  grown-Represents n b req callback r a =
      ap (read_int (pos 0)) (at-append_log n.storage (new_entry n req) (acct a)) ∙ r a

  grown-Resumes :
      (n : Node Db) (req : ClientRequest) (callback : ℕ)
      → Resumes n.storage n.last_applied
      → Resumes (grown n req callback).storage n.last_applied
  unfolding get_last_applied_index
  grown-Resumes n req callback resumes =
      ap (λ (o : Option Bytes). do z ← read_int (pos 0) o; nonneg z)
        (at-append_log n.storage (new_entry n req) sys_last_applied)
      ∙ resumes

  -- A client that gets no answer sends its transfer again, to a new leader that has the first try as
  -- the last entry of its log, not yet applied. The leader does not know the request, as it keeps
  -- callbacks only of requests that it was handed itself and results only of entries that are
  -- applied. So it appends the transfer again, and when both entries are committed the executor
  -- applies both: the sender pays twice. The sender has twice the amount, the receiver is another
  -- account, and its balance and the indices stay in the range of `int`.
  pub retry_paid_twice :
      (n : Node Db) (b : Ledger) (e : LogEntry) (m callback : ℕ)
      → n.state ≡ leader
      → n.last_log_index ≡ n.last_applied + 1
      → get_log_entry n.storage n.last_log_index ≡ e
      → e.index ≡ n.last_log_index
      → get_request_result n.storage e.command.request_id ≡ []
      → find_callback e.command.request_id n.pending_callbacks ≡ none
      → Represents n.storage b
      → Resumes n.storage n.last_applied
      → e.command.type ≡ RequestType.transfer
      → e.command.amount ≡ pos m
      → bytes_eq e.command.sender_id e.command.receiver_id ≡ false
      → m + m ≤ b e.command.sender_id
      → b e.command.receiver_id + (m + m) < int_bound
      → n.last_log_index + 1 < int_bound
      → let n' = all_committed (process_client_request n e.command callback).0 in
        (n'' : Node Db) × (apply_entries n' (fetch_entries n') ≡ some n'')
        × (get_balance n''.storage e.command.sender_id
            ≡ some (pos (b e.command.sender_id - (m + m))))
  retry_paid_twice n b e m callback leads last held own unknown idle r resumes t amount differ funds
        bound room =
      let e' : LogEntry = new_entry n e.command in
      let n' = all_committed (grown n e.command callback) in
      let (n'', run, r'', resumes'', applied) =
        apply_entries_refines (e ∷ e' ∷ []) n' b (grown-Represents n b e.command callback r)
          (twice-AllSafe b e e' m refl t amount bound (omega arith) (omega arith))
          (own ∙ last, (ap (λ (i : ℕ). i + 1) last, tt))
          (grown-Resumes n e.command callback resumes) in
      let paid : ledger_run b (e ∷ e' ∷ []) e.command.sender_id ≡ b e.command.sender_id - (m + m) =
        let cmd = e.command in
        let step : (c : Ledger)
            → ledger_step c cmd.type cmd ≡ transferred c cmd.sender_id cmd.receiver_id m =
          λ c. ledger_step-transfer c cmd.type cmd m t amount in
        ap (λ (c : Ledger). ledger_step c cmd.type cmd cmd.sender_id) (step b)
        ∙ ap (λ (c : Ledger). c cmd.sender_id)
            (step (transferred b cmd.sender_id cmd.receiver_id m))
        ∙ transferred_twice b cmd.sender_id cmd.receiver_id m differ funds in
      rw (process_client_request-grown n e.command callback leads unknown idle) (
        n'',
        rw (fetch_entries-grown n e callback last held) run,
        r'' e.command.sender_id ∙ ap (λ (i : ℕ). some (pos i)) paid,
      )
