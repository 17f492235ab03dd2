-- ===== src/External.antt =====
-- What the program uses of RocksDB and of Protobuf, which it does not implement, with the
-- documented behaviour that it relies on.
use raft_distributed_consens.Prelude.{
  List, [], ◌∷◌, Option, none, some, ◌≡◌, ◌≢◌, Bytes, bytes_eq, if◌then◌else◌,
}
use raft_distributed_consens.Messages.{LogEntry, CommandResult, empty_result}

-- An operation of a `rocksdb::WriteBatch`.
pub data Write : Type 0 where
  put : Bytes → Bytes → Write
  delete : Bytes → Write

-- What a batch leaves under the key `k`, where `v` stood: its operations act in order.
abbrev pub written : List Write → Bytes → Option Bytes → Option Bytes
written [] k v = v
written (put j x ∷ ops) k v = written ops k (if bytes_eq j k then some x else v)
written (delete j ∷ ops) k v = written ops k (if bytes_eq j k then none else v)

-- The value of the first pair with the key `k`.
abbrev pub lookup : Bytes → List (Bytes × Bytes) → Option Bytes
lookup k [] = none
lookup k ((j, v) ∷ kvs) = if bytes_eq j k then some v else lookup k kvs

-- No key stands twice.
abbrev pub Distinct : List (Bytes × Bytes) → Type 0
Distinct [] = Unit {0}
Distinct ((k, v) ∷ kvs) = (lookup k kvs ≡ none) × Distinct kvs

-- `get` reads one key, `write` applies a batch, and `scan` is what an iterator visits from
-- `SeekToFirst` on: each key that is there, once.
pub record RocksDb (Db : Type 0) : Type 0 where
  pub get : Db → Bytes → Option Bytes
  pub write : Db → List Write → Db
  pub scan : Db → List (Bytes × Bytes)
  pub get-write :
      (d : Db) (ops : List Write) (k : Bytes) → get (write d ops) k ≡ written ops k (get d k)
  pub lookup-scan : (d : Db) (k : Bytes) → lookup k (scan d) ≡ get d k
  pub scan-Distinct : (d : Db) → Distinct (scan d)

-- `SerializeToString` and `ParseFromString` for the two messages that are stored. A message that
-- was serialized is parsed back. A string field number 1 that is not empty is written with the tag
-- byte 0x0A, before the fields of higher numbers; the empty text is the message with no field set.
pub record Protobuf : Type 0 where
  pub serialize_entry : LogEntry → Bytes
  pub parse_entry : Bytes → LogEntry
  pub serialize_result : CommandResult → Bytes
  pub parse_result : Bytes → CommandResult
  pub parse-serialize_entry : (e : LogEntry) → parse_entry (serialize_entry e) ≡ e
  pub parse-serialize_result : (r : CommandResult) → parse_result (serialize_result r) ≡ r
  pub parse_result-nil : parse_result [] ≡ empty_result
  pub serialize_result_tag :
      (r : CommandResult) → r.result_message ≢ [] → (s : Bytes) × (serialize_result r ≡ 0x0A ∷ s)

-- Both together; `Db` is the type of the states of a database.
pub record External (Db : Type 0) : Type 0 where
  pub rocks : RocksDb Db
  pub proto : Protobuf
