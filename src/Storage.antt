-- ===== src/Storage.antt =====
-- RocksDBStore of src/storage/rocksdb_store.cpp: hard state, log, accounts and request results in
-- one database. Calls that hold `db_mutex_` throughout are single steps. `none` is an exception
-- of `std::stoi` (or a negative number where the program only ever writes indices and terms).
pub mod Keys
pub mod Log
pub mod Batch
pub mod Genesis
pub mod HardState
pub mod Accounts
pub mod Snapshot
pub mod Persistence
use raft_distributed_consens.Prelude.{
  ℕ, zero, suc, ◌+◌, ◌-◌, List, [], ◌∷◌, ◌++◌, Option, none, some, Bool, true, false, Bytes, codes,
  ℤ, pos, negsuc, minus_one, leb_ℤ, ltb, max, if◌then◌else◌, ◌>>=◌,
}
use raft_distributed_consens.Text.{to_string, stoi}
use raft_distributed_consens.Messages.{empty_result, LogEntry, CommandResult, empty_entry}
use raft_distributed_consens.External.{External, Protobuf, Write, put, delete}
use Keys.{
  Key, key_bytes, log, acct, req, meta_term, meta_vote, sys_last_log_index, sys_last_applied,
  sys_snapshot_index, sys_snapshot_term,
}

pub record Store (Db : Type 0) : Type 0 where
  pub db : Db
  pub last_log_index_cache : ℕ

-- A value that may be missing, read by `std::stoi`.
unfoldable pub read_int : ℤ → Option Bytes → Option ℤ
read_int default none = some default
read_int default (some v) = stoi v

abbrev pub nonneg : ℤ → Option ℕ
nonneg (pos n) = some n
nonneg (negsuc n) = none

-- An entry that is missing is returned with term 0, a result that is missing as no result.
unfoldable pub entry_of : Protobuf → Option Bytes → LogEntry
entry_of proto none = empty_entry
entry_of proto (some value) = proto.parse_entry value

unfoldable pub result_of : Protobuf → Option Bytes → CommandResult
result_of proto none = empty_result
result_of proto (some value) = proto.parse_result value

genesis_puts : ℕ → ℕ → List Write
genesis_puts zero i = []
genesis_puts (suc n) i =
    put (key_bytes (acct (to_string (pos i)))) (codes "100000") ∷ genesis_puts n (i + 1)

-- The batch and the greatest index of the loop of `appendLogs`.
entry_puts : Protobuf → List LogEntry → List Write
entry_puts proto [] = []
entry_puts proto (e ∷ es) =
    put (key_bytes (log e.index)) (proto.serialize_entry e) ∷ entry_puts proto es

max_index : ℕ → List LogEntry → ℕ
max_index m [] = m
max_index m (e ∷ es) = max_index (if ltb m e.index then e.index else m) es

-- A balance below zero stands for "no change".
abbrev balance_put : Bytes → ℤ → List Write
balance_put account_id new_bal =
    if leb_ℤ (pos 0) new_bal then put (key_bytes (acct account_id)) (to_string new_bal) ∷ [] else []

module _ {Db : Type 0} ⦃env : External Db⦄ where
  open env.rocks use {get, write}

  -- `Get` of one key.
  abbrev pub at : Store Db → Key → Option Bytes
  at s k = get s.db (key_bytes k)

  -- The constructor.
  unfoldable pub open_store : Db → Option (Store Db)
  unfolding read_int
  open_store db = do
    z ← read_int (pos 0) (get db (key_bytes sys_last_log_index))
    n ← nonneg z
    some (record { db = db; last_log_index_cache = n })

  unfoldable pub initialize_genesis_data : Store Db → Store Db
  unfolding genesis_puts
  initialize_genesis_data s = elim (at s (acct (codes "1"))) [
    | some v ↦ s
    | none ↦ record s { db = write s.db (genesis_puts 9000 1) }
  ]

  unfoldable pub load_hard_state : Store Db → Option (ℕ × ℤ)
  unfolding read_int
  load_hard_state s = do
    z ← read_int (pos 0) (at s meta_term)
    term ← nonneg z
    voted_for ← read_int minus_one (at s meta_vote)
    some (term, voted_for)

  unfoldable pub save_hard_state : Store Db → ℕ → ℤ → Store Db
  save_hard_state s term voted_for = record s {
    db = write s.db (
        put (key_bytes meta_term) (to_string (pos term))
        ∷ put (key_bytes meta_vote) (to_string voted_for)
        ∷ []);
  }

  unfoldable pub get_last_log_index : Store Db → ℕ
  get_last_log_index s = s.last_log_index_cache

  unfoldable pub get_log_entry : Store Db → ℕ → LogEntry
  get_log_entry s index = entry_of env.proto (at s (log index))

  -- It returns `entry.index`, which no caller uses.
  unfoldable pub append_log : Store Db → LogEntry → Store Db
  append_log s entry = record {
    db = write s.db (
        put (key_bytes (log entry.index)) (env.proto.serialize_entry entry)
        ∷ put (key_bytes sys_last_log_index) (to_string (pos entry.index))
        ∷ []);
    last_log_index_cache = entry.index;
  }

  unfoldable pub append_logs : Store Db → List LogEntry → Store Db
  unfolding entry_puts max_index
  append_logs s [] = s
  append_logs s (e ∷ es) =
      let top = max_index s.last_log_index_cache (e ∷ es) in
      record {
        db = write s.db (
            entry_puts env.proto (e ∷ es)
            ++ put (key_bytes sys_last_log_index) (to_string (pos top)) ∷ []);
        last_log_index_cache = top;
      }

  -- `n` rounds of a loop that deletes the log entries from `i` on.
  unfoldable pub delete_logs : ℕ → ℕ → Db → Db
  delete_logs zero i db = db
  delete_logs (suc n) i db = delete_logs n (i + 1) (write db (delete (key_bytes (log i)) ∷ []))

  -- Called with a positive `start_index` only.
  unfoldable pub truncate_log : Store Db → ℕ → Store Db
  truncate_log s start_index = record {
    db =
        write (delete_logs (s.last_log_index_cache + 1 - start_index) start_index s.db)
          (put (key_bytes sys_last_log_index) (to_string (pos (start_index - 1))) ∷ []);
    last_log_index_cache = start_index - 1;
  }

  unfoldable pub compact_log : Store Db → ℕ → Store Db
  compact_log s compact_index = record s { db = delete_logs (compact_index + 1) 0 s.db }

  unfoldable pub get_last_applied_index : Store Db → Option ℕ
  unfolding read_int
  get_last_applied_index s = do z ← read_int (pos 0) (at s sys_last_applied); nonneg z

  unfoldable pub get_balance : Store Db → Bytes → Option ℤ
  unfolding read_int
  get_balance s account_id = read_int (pos 0) (at s (acct account_id))

  unfoldable pub get_request_index : Store Db → Bytes → ℕ
  get_request_index s request_id = (result_of env.proto (at s (req request_id))).executed_at_index

  unfoldable pub get_request_result : Store Db → Bytes → Bytes
  get_request_result s request_id = (result_of env.proto (at s (req request_id))).result_message

  unfoldable pub apply_transaction : Store Db → LogEntry → ℤ → ℤ → Bytes → Store Db
  apply_transaction s entry sender_new_bal receiver_new_bal result_msg = record s {
    db = write s.db (
        balance_put entry.command.sender_id sender_new_bal
        ++ (balance_put entry.command.receiver_id receiver_new_bal
            ++ put (key_bytes (req entry.command.request_id)) (
                env.proto.serialize_result
                  (record { result_message = result_msg; executed_at_index = entry.index }))
              ∷ put (key_bytes sys_last_applied) (to_string (pos entry.index))
              ∷ []));
  }
