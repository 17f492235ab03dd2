-- ===== src/Execution/Batch.antt =====
-- A batch of committed entries, run on the accounts as on the ledger.
use raft_distributed_consens.Replication.LogShape.{Consecutive}
use raft_distributed_consens.Requests.{find_callback}
use raft_distributed_consens.Execution.Accounts.{
  Represents, transfer_refines, finish, get_balance-apply_transaction,
}
use raft_distributed_consens.Execution.Ledger.{Ledger, transferred, transfer_message}
use raft_distributed_consens.Execution.{
  execute_entry, outcome, maybe_compact, balance_outcome, notify, apply_entry, apply_entries,
  Outcome,
}
use raft_distributed_consens.Node.{Node}
use raft_distributed_consens.Text.RoundTrip.{stoi-to_string}
use raft_distributed_consens.Storage.Accounts.{at-apply_transaction}
use raft_distributed_consens.Storage.Log.{at-compact_log}
use raft_distributed_consens.Storage.Keys.{acct, sys_last_applied}
use raft_distributed_consens.Storage.{
  Store, get_balance, get_last_applied_index, apply_transaction, read_int,
}
use raft_distributed_consens.External.{External}
use raft_distributed_consens.Messages.{LogEntry, RequestType, ClientRequest, ClientResponse}
use raft_distributed_consens.Prelude.{
  ℕ, ◌+◌, ◌-◌, ◌<◌, List, [], ◌∷◌, none, some, Option, ℤ, pos, negsuc, Bytes, int_bound, ◌≡◌, refl,
  arith, inl, inr, Option-cases, subst, ◌∙◌, ap, ◌>>=◌, ◌⊎◌, sym, length, minus_one,
}

-- One command on the ledger, and the entries of a log in order.
abbrev pub ledger_step : Ledger → RequestType → ClientRequest → Ledger
ledger_step b RequestType.get_balance cmd = b
ledger_step b RequestType.transfer cmd = elim cmd.amount [
  | pos m ↦ transferred b cmd.sender_id cmd.receiver_id m
  | negsuc m ↦ b
]

abbrev pub ledger_run : Ledger → List LogEntry → Ledger
ledger_run b [] = b
ledger_run b (e ∷ es) = ledger_run (ledger_step b e.command.type e.command) es

-- A command that moves no negative amount and does not lift a balance out of `int`.
abbrev pub IsSafe : Ledger → RequestType → ClientRequest → Type 0
IsSafe b RequestType.get_balance cmd = Unit {0}
IsSafe b RequestType.transfer cmd =
    (m : ℕ) × (cmd.amount ≡ pos m) × (b cmd.receiver_id + m < int_bound)

abbrev pub AllSafe : Ledger → List LogEntry → Type 0
AllSafe b [] = Unit {0}
AllSafe b (e ∷ es) =
    IsSafe b e.command.type e.command
    × (e.index < int_bound)
    × AllSafe (ledger_step b e.command.type e.command) es

type_cases : (t : RequestType) → (t ≡ RequestType.transfer) ⊎ (t ≡ RequestType.get_balance)
type_cases RequestType.transfer = inl refl
type_cases RequestType.get_balance = inr refl

module _ {Db : Type 0} ⦃env : External Db⦄ where
  -- The store keeps the index of the last applied entry.
  abbrev pub Resumes : Store Db → ℕ → Type 0
  Resumes s i = get_last_applied_index s ≡ some i

  apply_transaction-Resumes :
      (s : Store Db) (e : LogEntry) (x y : ℤ) (msg : Bytes)
      → e.index < int_bound
      → Resumes (apply_transaction s e x y msg) e.index
  unfolding get_last_applied_index read_int
  apply_transaction-Resumes s e x y msg h =
      rw (at-apply_transaction s e x y msg sys_last_applied)
        (ground (arith, stoi-to_string (pos e.index) h))

  abbrev AllResume : ℕ → Option (Store Db × Bytes) → Type 0
  AllResume i none = Unit {0}
  AllResume i (some (s, msg)) = Resumes s i

  execute_entry-Resumes :
      (s : Store Db) (e : LogEntry) → e.index < int_bound → AllResume e.index (execute_entry s e)
  unfolding execute_entry
  execute_entry-Resumes s e h = elim (Option-cases (outcome s e.command.type e.command)) [
    | inl failed ↦ rw failed tt
    | inr (o, ran) ↦ rw ran (apply_transaction-Resumes s e _ _ _ h)
  ]

  -- What an entry leads to: a store for the next ledger that would resume behind the entry.
  abbrev Executed : Store Db → Ledger → LogEntry → Type 0
  Executed s b e =
      (s' : Store Db) × (msg : Bytes) × (execute_entry s e ≡ some (s', msg))
      × Represents s' (ledger_step b e.command.type e.command)

  execute_entry-transfer_refines :
      (s : Store Db) (b : Ledger) (e : LogEntry)
      → Represents s b
      → e.command.type ≡ RequestType.transfer
      → IsSafe b RequestType.transfer e.command
      → Executed s b e
  execute_entry-transfer_refines s b e r t (m, amount, bound) =
      let (s', run, r') = transfer_refines s b e m r t amount bound in
      (s', transfer_message b e.command.sender_id m, run, rw (t, amount) r')

  execute_entry-balance_refines :
      (s : Store Db) (b : Ledger) (e : LogEntry)
      → Represents s b
      → e.command.type ≡ RequestType.get_balance
      → Executed s b e
  unfolding execute_entry outcome
  execute_entry-balance_refines s b e r t =
      let o : Outcome = balance_outcome (pos (b e.command.sender_id)) in
      (
        apply_transaction s e minus_one minus_one o.result_msg,
        o.result_msg,
        ap (λ (k : RequestType). do p ← outcome s k e.command; some (finish s e p)) t
            ∙ simp (r e.command.sender_id),
        λ a.
            get_balance-apply_transaction s e minus_one minus_one o.result_msg a (omega arith)
              (omega arith)
            ∙ r a
            ∙ ap (λ (k : RequestType). some (pos (ledger_step b k e.command a))) (sym t),
      )

  execute_entry_refines :
      (s : Store Db) (b : Ledger) (e : LogEntry)
      → Represents s b
      → IsSafe b e.command.type e.command
      → Executed s b e
  execute_entry_refines s b e r safe = elim (type_cases e.command.type) [
    | inl t ↦ execute_entry-transfer_refines s b e r t (subst (λ k. IsSafe b k e.command) t safe)
    | inr t ↦ execute_entry-balance_refines s b e r t
  ]

  -- Compaction takes nothing from the accounts.
  maybe_compact-Represents :
      (n : Node Db) (b : Ledger) → Represents n.storage b → Represents (maybe_compact n).storage b
  unfolding maybe_compact get_balance
  maybe_compact-Represents n b r a =
      ground (arith, r a, at-compact_log n.storage (n.last_applied - 100) (acct a))

  maybe_compact-Resumes :
      (n : Node Db) (i : ℕ) → Resumes n.storage i → Resumes (maybe_compact n).storage i
  unfolding maybe_compact get_last_applied_index
  maybe_compact-Resumes n i r =
      ground (arith, r, at-compact_log n.storage (n.last_applied - 100) sys_last_applied)

  maybe_compact-last_applied : (n : Node Db) → (maybe_compact n).last_applied ≡ n.last_applied
  unfolding maybe_compact
  maybe_compact-last_applied n = ground arith

  -- A notification changes nothing but the applied index and the callbacks.
  notify_effect :
      (n : Node Db) (e : LogEntry) (msg : Bytes)
      → ((notify n e msg).0.storage ≡ n.storage) × ((notify n e msg).0.last_applied ≡ e.index)
  unfolding notify
  notify_effect n e msg =
      elim (Option-cases (find_callback e.command.request_id n.pending_callbacks)) [
        | inl alone ↦ rw (alone, notify) (refl, refl)
        | inr (callback, waits) ↦ rw (waits, notify) (refl, refl)
      ]

  -- One entry in full.
  pub apply_entry_refines :
      (n : Node Db) (b : Ledger) (e : LogEntry)
      → Represents n.storage b
      → IsSafe b e.command.type e.command
      → e.index < int_bound
      → (n' : Node Db) × (o : Option (ℕ × ClientResponse)) × (apply_entry n e ≡ some (n', o))
        × Represents n'.storage (ledger_step b e.command.type e.command)
        × Resumes n'.storage e.index
        × (n'.last_applied ≡ e.index)
  unfolding apply_entry
  apply_entry_refines n b e r safe bound =
      let (s', msg, run, r') = execute_entry_refines n.storage b e r safe in
      let resumes : Resumes s' e.index =
        subst (AllResume e.index) run (execute_entry-Resumes n.storage e bound) in
      let n'' : Node Db = (notify (record n { storage = s' }) e msg).0 in
      let (kept, applied) = notify_effect (record n { storage = s' }) e msg in
      (
        maybe_compact n'',
        (notify (record n { storage = s' }) e msg).1,
        rw run refl,
        maybe_compact-Represents n'' _ (λ a. ap (λ (t : Store Db). get_balance t a) kept ∙ r' a),
        maybe_compact-Resumes n'' e.index
            (ap (λ (t : Store Db). get_last_applied_index t) kept ∙ resumes),
        maybe_compact-last_applied n'' ∙ applied,
      )

  -- A batch that follows the applied index runs as the ledger runs the commands one by one: no
  -- entry fails, the accounts are those of the ledger, the applied index is that of the last entry,
  -- and a restart would resume there.
  pub apply_entries_refines :
      (es : List LogEntry) (n : Node Db) (b : Ledger)
      → Represents n.storage b
      → AllSafe b es
      → Consecutive n.last_applied es
      → Resumes n.storage n.last_applied
      → (n' : Node Db) × (apply_entries n es ≡ some n')
        × Represents n'.storage (ledger_run b es)
        × Resumes n'.storage n'.last_applied
        × (n'.last_applied ≡ n.last_applied + length es)
  unfolding apply_entries
  apply_entries_refines [] n b r safe follows resumes = (n, refl, r, resumes, omega arith)
  apply_entries_refines (e ∷ es) n b r (safe, bound, later) (next, follows) resumes =
      let (n', o, run, r', resumes', applied) = apply_entry_refines n b e r safe bound in
      let (n'', run', r'', resumes'', applied') =
        apply_entries_refines es n' (ledger_step b e.command.type e.command) r' later
          (subst (λ i. Consecutive i es) (sym (applied ∙ next)) follows)
          (resumes' ∙ ap some (sym applied)) in
      (n'', rw run run', r'', resumes'', omega (arith, applied', applied, next))
