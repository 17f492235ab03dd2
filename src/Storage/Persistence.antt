-- ===== src/Storage/Persistence.antt =====
-- The operations of the store that leave the persisted term and vote alone.
use raft_distributed_consens.Text.{to_string}
use raft_distributed_consens.Prelude.{
  ℕ, List, [], ◌∷◌, ◌++◌, Option, none, some, Bytes, ℤ, false, if◌then◌else◌, ◌≡◌, refl, ap, ◌∙◌,
  arith, bytes_eq, pos,
}
use raft_distributed_consens.Messages.{LogEntry}
use raft_distributed_consens.External.{External, Write, written, lookup}
use raft_distributed_consens.Storage.{
  Store, at, load_hard_state, append_log, truncate_log, apply_transaction, compact_log,
}
use raft_distributed_consens.Storage.Accounts.{at-apply_transaction}
use raft_distributed_consens.Storage.Keys.{
  Key, key_bytes, meta_term, meta_vote, bytes_eq-key_bytes, key_eq, sys_snapshot_term,
  sys_snapshot_index, sys_last_applied,
}
use raft_distributed_consens.Storage.Log.{at-append_log, at-truncate_log, at-compact_log}
use raft_distributed_consens.Storage.Snapshot.{apply_snapshot, parse_snapshot, puts}
use raft_distributed_consens.Storage.Snapshot.Transfer.{
  written-deletes, lookup-scan_state, is_state,
}

-- The text of a snapshot without the keys of the term and the vote, as `createSnapshot` makes it.
abbrev pub IsStateText : Bytes → Type 0
IsStateText contents =
    (lookup (key_bytes meta_term) (parse_snapshot contents) ≡ none)
    × (lookup (key_bytes meta_vote) (parse_snapshot contents) ≡ none)

written-puts_other :
    (kvs : List (Bytes × Bytes)) (ops : List Write) (k : Bytes) (v : Option Bytes)
    → lookup k kvs ≡ none
    → written (puts kvs ++ ops) k v ≡ written ops k v
unfolding puts
written-puts_other [] ops k v apart = refl
written-puts_other ((j, x) ∷ kvs) ops k v apart =
    written-puts_other kvs ops k (if bytes_eq j k then some x else v) (ground (arith, apart))
    ∙ ap (written ops k) (ground (arith, apart))

module _ {Db : Type 0} ⦃env : External Db⦄ where
  open env.rocks use {get-write}

  -- The same term and vote on disk.
  abbrev pub SameHard : Store Db → Store Db → Type 0
  SameHard s t = (at t meta_term ≡ at s meta_term) × (at t meta_vote ≡ at s meta_vote)

  pub SameHard-load_hard_state :
      (s t : Store Db) → SameHard s t → load_hard_state t ≡ load_hard_state s
  unfolding load_hard_state
  SameHard-load_hard_state s t (term, vote) = rw (term, vote) refl

  pub append_log-SameHard : (s : Store Db) (e : LogEntry) → SameHard s (append_log s e)
  append_log-SameHard s e = (at-append_log s e meta_term, at-append_log s e meta_vote)

  pub truncate_log-SameHard : (s : Store Db) (start : ℕ) → SameHard s (truncate_log s start)
  truncate_log-SameHard s start =
      (at-truncate_log s start meta_term, at-truncate_log s start meta_vote)

  pub compact_log-SameHard : (s : Store Db) (index : ℕ) → SameHard s (compact_log s index)
  compact_log-SameHard s index =
      (at-compact_log s index meta_term, at-compact_log s index meta_vote)

  pub apply_transaction-SameHard :
      (s : Store Db) (e : LogEntry) (x y : ℤ) (msg : Bytes)
      → SameHard s (apply_transaction s e x y msg)
  apply_transaction-SameHard s e x y msg = (
    at-apply_transaction s e x y msg meta_term ∙ ground arith,
    at-apply_transaction s e x y msg meta_vote ∙ ground arith,
  )

  at-apply_snapshot_apart :
      (s : Store Db) (contents : Bytes) (index term : ℕ) (k : Key)
      → is_state k ≡ false
      → lookup (key_bytes k) (parse_snapshot contents) ≡ none
      → at (apply_snapshot s contents index term) k ≡ (
          if key_eq sys_snapshot_term k
          then some (to_string (pos term))
          else if key_eq sys_snapshot_index k
          then some (to_string (pos index))
          else if key_eq sys_last_applied k
          then some (to_string (pos index))
          else at s k)
  unfolding apply_snapshot
  at-apply_snapshot_apart s contents index term k apart absent =
      rw
        (
          get-write,
          written-deletes,
          written-puts_other _ _ (key_bytes k) _ absent,
          lookup-scan_state s k,
          apart,
          bytes_eq-key_bytes,
          bytes_eq-key_bytes,
          bytes_eq-key_bytes,
        )
        refl

  pub apply_snapshot-SameHard :
      (s : Store Db) (contents : Bytes) (index term : ℕ)
      → IsStateText contents
      → SameHard s (apply_snapshot s contents index term)
  apply_snapshot-SameHard s contents index term (no_term, no_vote) = (
    at-apply_snapshot_apart s contents index term meta_term refl no_term,
    at-apply_snapshot_apart s contents index term meta_vote refl no_vote,
  )
