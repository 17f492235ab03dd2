-- ===== src/Storage/Snapshot.antt =====
-- `createSnapshot` and `applySnapshot`: the accounts and the request results as text, a line for
-- each key and each value.
pub mod Lines
pub mod Transfer
pub mod Corruption
pub mod Survival
use raft_distributed_consens.Prelude.{
  ℕ, zero, suc, List, [], ◌∷◌, ◌++◌, Option, none, some, Bool, ◌||◌, Bytes, codes, starts_with,
  ◌==◌, if◌then◌else◌, pos, length, ◌>>=◌,
}
use raft_distributed_consens.Text.{to_string}
use raft_distributed_consens.External.{External, Write, put, delete}
use raft_distributed_consens.Storage.Keys.{
  key_bytes, sys_last_applied, sys_snapshot_index, sys_snapshot_term,
}
use raft_distributed_consens.Storage.{Store, get_log_entry, get_last_applied_index}

abbrev pub newline : ℕ
newline = 10

-- `key.rfind("acct:", 0) == 0 || key.rfind("req:", 0) == 0`
unfoldable pub is_state_key : Bytes → Bool
is_state_key key = starts_with key (codes "acct:") || starts_with key (codes "req:")

unfoldable pub state_entries : List (Bytes × Bytes) → List (Bytes × Bytes)
state_entries [] = []
state_entries ((key, value) ∷ kvs) =
    let rest = state_entries kvs in if is_state_key key then (key, value) ∷ rest else rest

-- `oss << key << "\n" << value << "\n"` for each entry.
unfoldable pub render : List (Bytes × Bytes) → Bytes
render [] = []
render ((key, value) ∷ kvs) = key ++ newline ∷ (value ++ newline ∷ render kvs)

-- A line and what follows its end; the last line may end with the text.
unfoldable pub read_line : Bytes → Bytes × Bytes
read_line [] = ([], [])
read_line (c ∷ s) = let rest = read_line s in if c == newline then ([], s) else (c ∷ rest.0, rest.1)

-- `std::getline`, which fails at the end of the text.
unfoldable pub getline : Bytes → Option (Bytes × Bytes)
unfolding read_line
getline [] = none
getline (c ∷ s) = some (read_line (c ∷ s))

-- `while (getline(iss, key) && getline(iss, value))`, on fuel: a round reads a byte or more.
unfoldable pub parse_pairs : ℕ → Bytes → List (Bytes × Bytes)
parse_pairs zero s = []
parse_pairs (suc fuel) s = elim (getline s) [
  | none ↦ []
  | some (key, s') ↦ elim (getline s') [
    | none ↦ []
    | some (value, s'') ↦ (key, value) ∷ parse_pairs fuel s''
  ]
]

unfoldable pub parse_snapshot : Bytes → List (Bytes × Bytes)
unfolding parse_pairs
parse_snapshot s = parse_pairs (length s) s

unfoldable pub deletes : List (Bytes × Bytes) → List Write
deletes [] = []
deletes ((key, _) ∷ kvs) = delete key ∷ deletes kvs

unfoldable pub puts : List (Bytes × Bytes) → List Write
puts [] = []
puts ((key, value) ∷ kvs) = put key value ∷ puts kvs

pub record SnapshotData : Type 0 where
  pub last_index : ℕ
  pub last_term : ℕ
  pub contents : Bytes

module _ {Db : Type 0} ⦃env : External Db⦄ where
  open env.rocks use {write, scan}

  unfoldable pub create_snapshot : Store Db → Option SnapshotData
  create_snapshot s = do
    last_index ← get_last_applied_index s
    some (record {
      last_index = last_index;
      last_term = (get_log_entry s last_index).term;
      contents = render (state_entries (scan s.db));
    })

  unfoldable pub apply_snapshot : Store Db → Bytes → ℕ → ℕ → Store Db
  unfolding deletes puts
  apply_snapshot s snapshot_data last_index last_term = record s {
    db = write s.db (
        deletes (state_entries (scan s.db))
        ++ (puts (parse_snapshot snapshot_data)
            ++ put (key_bytes sys_last_applied) (to_string (pos last_index))
              ∷ put (key_bytes sys_snapshot_index) (to_string (pos last_index))
              ∷ put (key_bytes sys_snapshot_term) (to_string (pos last_term))
              ∷ []));
  }
