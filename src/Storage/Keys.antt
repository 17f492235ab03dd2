-- ===== src/Storage/Keys.antt =====
-- The keys of the database, as text: `formatLogKey` and the literals of rocksdb_store.cpp.
use raft_distributed_consens.Prelude.{
  ℕ, ◌++◌, Bool, true, false, Bytes, codes, bytes_eq, bytes_eq_iff, bytes_eq-append_left, pos, ◌==◌,
  ◌≡◌, refl, arith, ◌∙◌,
}
use raft_distributed_consens.Text.{to_string, pad_zero}
use raft_distributed_consens.Text.RoundTrip.{pad_zero_injective}

pub data Key : Type 0 where
  log : ℕ → Key
  acct req : Bytes → Key
  meta_term meta_vote sys_last_log_index sys_last_applied sys_snapshot_index sys_snapshot_term : Key

unfoldable pub format_log_key : ℕ → Bytes
format_log_key index = codes "log:" ++ pad_zero 10 (to_string (pos index))

unfoldable pub key_bytes : Key → Bytes
key_bytes (log index) = format_log_key index
key_bytes (acct account_id) = codes "acct:" ++ account_id
key_bytes (req request_id) = codes "req:" ++ request_id
key_bytes meta_term = codes "meta:term"
key_bytes meta_vote = codes "meta:vote"
key_bytes sys_last_log_index = codes "sys:lastLogIndex"
key_bytes sys_last_applied = codes "sys:lastApplied"
key_bytes sys_snapshot_index = codes "sys:snapshotIndex"
key_bytes sys_snapshot_term = codes "sys:snapshotTerm"

abbrev pub key_eq : Key → Key → Bool
key_eq (log i) (log j) = i == j
key_eq (acct a) (acct b) = bytes_eq a b
key_eq (req a) (req b) = bytes_eq a b
key_eq meta_term meta_term = true
key_eq meta_vote meta_vote = true
key_eq sys_last_log_index sys_last_log_index = true
key_eq sys_last_applied sys_last_applied = true
key_eq sys_snapshot_index sys_snapshot_index = true
key_eq sys_snapshot_term sys_snapshot_term = true
key_eq _ _ = false

format_log_key_eq : (i j : ℕ) → bytes_eq (format_log_key i) (format_log_key j) ≡ (i == j)
unfolding format_log_key
format_log_key_eq i j =
    bytes_eq-append_left (codes "log:") (pad_zero 10 (to_string (pos i)))
      (pad_zero 10 (to_string (pos j)))
    ∙ (ground (
      arith,
      bytes_eq_iff (pad_zero 10 (to_string (pos i))) (pad_zero 10 (to_string (pos j))),
      pad_zero_injective 10 i j,
    ))

-- No two keys share their text: neither across the kinds nor within one.
pub bytes_eq-key_bytes : (j k : Key) → bytes_eq (key_bytes j) (key_bytes k) ≡ key_eq j k
unfolding key_bytes bytes_eq format_log_key
bytes_eq-key_bytes (log i) (log j) = format_log_key_eq i j
bytes_eq-key_bytes (acct a) (acct b) = refl
bytes_eq-key_bytes (req a) (req b) = refl
bytes_eq-key_bytes meta_term meta_term = refl
bytes_eq-key_bytes meta_vote meta_vote = refl
bytes_eq-key_bytes sys_last_log_index sys_last_log_index = refl
bytes_eq-key_bytes sys_last_applied sys_last_applied = refl
bytes_eq-key_bytes sys_snapshot_index sys_snapshot_index = refl
bytes_eq-key_bytes sys_snapshot_term sys_snapshot_term = refl
bytes_eq-key_bytes _ _ = refl
