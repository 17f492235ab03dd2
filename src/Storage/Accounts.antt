-- ===== src/Storage/Accounts.antt =====
-- What `applyTransaction` changes: two balances, the result of the request, the last applied index.
use raft_distributed_consens.Prelude.{
  ◌∙◌, ap, List, ◌++◌, Option, some, ◌&&◌, Bytes, bytes_eq, ℤ, pos, leb_ℤ, if◌then◌else◌, ◌≡◌,
  arith, Bool-cases, inl, inr,
}
use raft_distributed_consens.Text.{to_string}
use raft_distributed_consens.Messages.{LogEntry}
use raft_distributed_consens.External.{External, Write, written}
use raft_distributed_consens.Storage.Keys.{
  Key, key_bytes, key_eq, acct, req, sys_last_applied, bytes_eq-key_bytes,
}
use raft_distributed_consens.Storage.{
  Store, at, balance_put, apply_transaction, get_request_result, result_of,
}

written-balance_put :
    (a : Bytes) (z : ℤ) (ops : List Write) (k : Key) (v : Option Bytes)
    → written (balance_put a z ++ ops) (key_bytes k) v
      ≡ written ops
          (key_bytes k)
          (if leb_ℤ (pos 0) z && key_eq (acct a) k then some (to_string z) else v)
written-balance_put a z ops k v = elim (Bool-cases (leb_ℤ (pos 0) z)) [
  | inl change ↦ rw change (simp bytes_eq-key_bytes)
  | inr keep ↦ rw keep
]

module _ {Db : Type 0} ⦃env : External Db⦄ where
  open env.rocks use {get-write}

  pub at-apply_transaction :
      (s : Store Db) (e : LogEntry) (x y : ℤ) (msg : Bytes) (k : Key)
      → at (apply_transaction s e x y msg) k ≡ (
          if key_eq sys_last_applied k
          then some (to_string (pos e.index))
          else if key_eq (req e.command.request_id) k
          then some (
              env.proto.serialize_result
                (record { result_message = msg; executed_at_index = e.index }))
          else if leb_ℤ (pos 0) y && key_eq (acct e.command.receiver_id) k
          then some (to_string y)
          else if leb_ℤ (pos 0) x && key_eq (acct e.command.sender_id) k
          then some (to_string x)
          else at s k)
  unfolding apply_transaction
  at-apply_transaction s e x y msg k =
      rw (get-write, written-balance_put, written-balance_put) (simp bytes_eq-key_bytes)

  -- The request is recorded with its result.
  pub get_request_result-apply_transaction :
      (s : Store Db) (e : LogEntry) (x y : ℤ) (msg r : Bytes)
      → get_request_result (apply_transaction s e x y msg) r
        ≡ (if bytes_eq e.command.request_id r then msg else get_request_result s r)
  unfolding get_request_result
  get_request_result-apply_transaction s e x y msg r =
      ap (λ (o : Option Bytes). (result_of env.proto o).result_message)
        (at-apply_transaction s e x y msg (req r))
      ∙ (unfold result_of in
          ground (
            arith,
            env.proto.parse-serialize_result
                (record { result_message = msg; executed_at_index = e.index }),
          ))
