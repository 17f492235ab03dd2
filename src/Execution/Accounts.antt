-- ===== src/Execution/Accounts.antt =====
-- What the executor does to the accounts.
use raft_distributed_consens.Execution.{
  minus_one, codes, ◌-ℤ◌, ℕ, ◌+ℤ◌, transfer_outcome, execute_entry, outcome, Outcome,
}
use raft_distributed_consens.Execution.Ledger.{Ledger, transferred, transfer_message}
use raft_distributed_consens.Prelude.{
  ap, leb, int_bound, ◌<◌, some, ◌&&◌, ℤ, pos, leb_ℤ, IsInt, Bytes, bytes_eq, if◌then◌else◌, ◌≡◌,
  arith, ◌+ℤ◌, ◌-ℤ◌, ◌+◌, ◌-◌, ◌∙◌, inl, inr, Bool-cases, minus_one, codes, ℕ, ◌≤◌, Option, ◌>>=◌,
  none, subst,
}
use raft_distributed_consens.Text.RoundTrip.{stoi-to_string, IsIntOption, stoi-IsIntOption}
use raft_distributed_consens.Messages.{LogEntry, RequestType}
use raft_distributed_consens.External.{External}
use raft_distributed_consens.Storage.Keys.{acct}
use raft_distributed_consens.Storage.{at, Store, read_int, get_balance, apply_transaction}
use raft_distributed_consens.Storage.Accounts.{at-apply_transaction}

transfer_outcome-success :
    (x y m : ℕ)
    → m ≤ x
    → transfer_outcome (pos x) (pos y) (pos m) ≡ record {
      result_msg = codes "Success";
      sender_new_bal = pos (x - m);
      receiver_new_bal = pos (y + m);
    }
unfolding transfer_outcome ◌+ℤ◌ ◌-ℤ◌
transfer_outcome-success x y m h = ground arith

transfer_outcome-short :
    (x y m : ℕ)
    → x < m
    → transfer_outcome (pos x) (pos y) (pos m) ≡ record {
      result_msg = codes "Insufficient Funds";
      sender_new_bal = minus_one;
      receiver_new_bal = minus_one;
    }
unfolding transfer_outcome
transfer_outcome-short x y m h = ground arith

read_int-IsIntOption : (o : Option Bytes) → IsIntOption (read_int (pos 0) o)
unfolding read_int
read_int-IsIntOption none = omega arith
read_int-IsIntOption (some v) = stoi-IsIntOption v

module _ {Db : Type 0} ⦃env : External Db⦄ where
  get_balance-IsInt : (s : Store Db) (a : Bytes) (z : ℤ) → get_balance s a ≡ some z → IsInt z
  unfolding get_balance
  get_balance-IsInt s a z h = subst IsIntOption h (read_int-IsIntOption (at s (acct a)))

  -- The balances after a transaction, as they are read back.
  pub get_balance-apply_transaction :
      (s : Store Db) (e : LogEntry) (x y : ℤ) (msg a : Bytes)
      → IsInt x
      → IsInt y
      → get_balance (apply_transaction s e x y msg) a ≡ (
          if leb_ℤ (pos 0) y && bytes_eq e.command.receiver_id a
          then some y
          else if leb_ℤ (pos 0) x && bytes_eq e.command.sender_id a
          then some x
          else get_balance s a)
  unfolding get_balance read_int
  get_balance-apply_transaction s e x y msg a hx hy =
      rw (at-apply_transaction s e x y msg (acct a))
        (ground (arith, stoi-to_string x hx, stoi-to_string y hy))

  -- The balances that the store has are those of the ledger.
  abbrev pub Represents : Store Db → Ledger → Type 0
  Represents s b = (a : Bytes) → get_balance s a ≡ some (pos (b a))

  -- A balance that is read is an `int`.
  balance_bound : (s : Store Db) (b : Ledger) (a : Bytes) → Represents s b → b a < int_bound
  balance_bound s b a r = get_balance-IsInt s a (pos (b a)) (r a)

  -- The store and the result that an outcome leads to.
  abbrev pub finish : Store Db → LogEntry → Outcome → Store Db × Bytes
  finish s e o =
      (apply_transaction s e o.sender_new_bal o.receiver_new_bal o.result_msg, o.result_msg)

  pub execute_entry-transfer :
      (s : Store Db) (e : LogEntry) (x y z : ℤ)
      → e.command.type ≡ RequestType.transfer
      → e.command.amount ≡ z
      → get_balance s e.command.sender_id ≡ some x
      → get_balance s e.command.receiver_id ≡ some y
      → execute_entry s e ≡ some (finish s e (transfer_outcome x y z))
  unfolding execute_entry outcome
  execute_entry-transfer s e x y z is_transfer amount sender receiver =
      ap (λ (t : RequestType). do o ← outcome s t e.command; some (finish s e o)) is_transfer
      ∙ simp (sender, receiver, amount)

  -- A transfer of an amount that is not negative always runs, and moves money as the ledger does,
  -- unless the receiver's balance would leave the range of `int`.
  pub transfer_refines :
      (s : Store Db) (b : Ledger) (e : LogEntry) (m : ℕ)
      → Represents s b
      → e.command.type ≡ RequestType.transfer
      → e.command.amount ≡ pos m
      → b e.command.receiver_id + m < int_bound
      → (s' : Store Db) × (execute_entry s e ≡ some (s', transfer_message b e.command.sender_id m))
        × Represents s' (transferred b e.command.sender_id e.command.receiver_id m)
  transfer_refines s b e m r is_transfer amount bound =
      let run =
        execute_entry-transfer s e (pos (b e.command.sender_id)) (pos (b e.command.receiver_id))
          (pos m) is_transfer amount (r e.command.sender_id) (r e.command.receiver_id) in
      let sender_bound = balance_bound s b e.command.sender_id r in
      elim (Bool-cases (leb m (b e.command.sender_id))) [
        | inl funds ↦ rw funds (
          apply_transaction s e (pos (b e.command.sender_id - m))
              (pos (b e.command.receiver_id + m)) (codes "Success"),
          run
              ∙ ap (λ (o : Outcome). some (finish s e o))
                  (transfer_outcome-success _ _ m (ground arith)),
          λ a. get_balance-apply_transaction s e _ _ _ a (ground arith) bound ∙ ground (arith, r a),
        )
        | inr short ↦ rw short (
          apply_transaction s e minus_one minus_one (codes "Insufficient Funds"),
          run
              ∙ ap (λ (o : Outcome). some (finish s e o))
                  (transfer_outcome-short _ _ m (ground arith)),
          λ a.
              get_balance-apply_transaction s e _ _ _ a (ground arith) (ground arith)
              ∙ ground (arith, r a),
        )
      ]
