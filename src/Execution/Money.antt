-- ===== src/Execution/Money.antt =====
-- Whether the executor keeps the sum of all balances.
use raft_distributed_consens.Execution.Accounts.{
  Represents, transfer_refines, finish, execute_entry-transfer, get_balance-apply_transaction,
}
use raft_distributed_consens.Execution.Ledger.{
  Ledger, total, Once, occurs, total-transferred, transferred, transfer_message,
}
use raft_distributed_consens.Execution.{execute_entry, Outcome, transfer_outcome}
use raft_distributed_consens.Storage.{Store, get_balance, apply_transaction}
use raft_distributed_consens.External.{External}
use raft_distributed_consens.Messages.{LogEntry, RequestType}
use raft_distributed_consens.Prelude.{
  ℕ, true, false, ◌+◌, ◌≤◌, ◌<◌, suc, List, negsuc, pos, int_bound, Bytes, bytes_eq, some, arith,
  ◌∙◌, ◌≡◌, codes, bytes_eq_iff, ap, ◌-◌, ◌+ℤ◌, ◌-ℤ◌,
}

-- A negative amount is always covered, and the receiver's new balance is below zero if it had less.
transfer_outcome-negative :
    (x y m : ℕ)
    → y ≤ m
    → transfer_outcome (pos x) (pos y) (negsuc m) ≡ record {
      result_msg = codes "Success";
      sender_new_bal = pos (x + suc m);
      receiver_new_bal = negsuc (m - y);
    }
unfolding transfer_outcome ◌+ℤ◌ ◌-ℤ◌
transfer_outcome-negative x y m h = ground arith

module _ {Db : Type 0} ⦃env : External Db⦄ where
  -- A transfer of an amount that is not negative, between two different accounts of a list that names
  -- no account twice, keeps the sum of the balances of the list, where the receiver's balance stays in
  -- the range of `int`.
  pub transfer_conserves :
      (s : Store Db) (b : Ledger) (e : LogEntry) (m : ℕ) (accounts : List Bytes)
      → Represents s b
      → e.command.type ≡ RequestType.transfer
      → e.command.amount ≡ pos m
      → b e.command.receiver_id + m < int_bound
      → bytes_eq e.command.sender_id e.command.receiver_id ≡ false
      → Once accounts
      → occurs e.command.sender_id accounts ≡ true
      → occurs e.command.receiver_id accounts ≡ true
      → (s' : Store Db) × (msg : Bytes) × (b' : Ledger) × (execute_entry s e ≡ some (s', msg))
        × Represents s' b'
        × (total b' accounts ≡ total b accounts)
  transfer_conserves s b e m accounts r is_transfer amount bound differ once sender receiver =
      let (s', run, r') = transfer_refines s b e m r is_transfer amount bound in
      (
        s',
        transfer_message b e.command.sender_id m,
        transferred b e.command.sender_id e.command.receiver_id m,
        run,
        r',
        total-transferred b e.command.sender_id e.command.receiver_id m accounts differ once sender
            receiver,
      )

  -- A transfer from an account to itself, of an amount that it has, adds the amount to it, where the
  -- balance stays in the range of `int`.
  pub self_transfer_mints :
      (s : Store Db) (b : Ledger) (e : LogEntry) (m : ℕ)
      → Represents s b
      → e.command.type ≡ RequestType.transfer
      → e.command.amount ≡ pos m
      → e.command.sender_id ≡ e.command.receiver_id
      → m ≤ b e.command.sender_id
      → b e.command.receiver_id + m < int_bound
      → (s' : Store Db) × (execute_entry s e ≡ some (s', codes "Success"))
        × (get_balance s' e.command.sender_id ≡ some (pos (b e.command.sender_id + m)))
  self_transfer_mints s b e m r is_transfer amount same funds bound =
      let (s', run, r') = transfer_refines s b e m r is_transfer amount bound in
      (
        s',
        run ∙ ground arith,
        r' e.command.sender_id
            ∙ ground (arith, bytes_eq_iff e.command.receiver_id e.command.sender_id, same),
      )

  -- A transfer of a negative amount between two accounts, larger than what the receiver has, adds it
  -- to the sender's balance and leaves the receiver's as it was, where the balances stay in the range
  -- of `int`.
  negative_transfer_mints :
      (s : Store Db) (b : Ledger) (e : LogEntry) (m : ℕ)
      → Represents s b
      → e.command.type ≡ RequestType.transfer
      → e.command.amount ≡ negsuc m
      → b e.command.receiver_id ≤ m
      → b e.command.sender_id + suc m < int_bound
      → bytes_eq e.command.sender_id e.command.receiver_id ≡ false
      → (s' : Store Db) × (execute_entry s e ≡ some (s', codes "Success"))
        × (get_balance s' e.command.sender_id ≡ some (pos (b e.command.sender_id + suc m)))
        × (get_balance s' e.command.receiver_id ≡ some (pos (b e.command.receiver_id)))
  negative_transfer_mints s b e m r is_transfer amount low bound differ = (
    apply_transaction s e (pos (b e.command.sender_id + suc m))
        (negsuc (m - b e.command.receiver_id)) (codes "Success"),
    execute_entry-transfer s e _ _ (negsuc m) is_transfer amount (r e.command.sender_id)
          (r e.command.receiver_id)
        ∙ ap (λ (o : Outcome). some (finish s e o)) (transfer_outcome-negative _ _ m low),
    get_balance-apply_transaction s e _ _ _ _ (ground arith) (ground arith)
        ∙ ground (arith, bytes_eq_iff e.command.sender_id e.command.sender_id),
    get_balance-apply_transaction s e _ _ _ _ (ground arith) (ground arith)
        ∙ ground (arith, r e.command.receiver_id),
  )
