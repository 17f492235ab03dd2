-- ===== src/Storage/Log.antt =====
-- What each log operation of the storage does to each entry, and to the rest of the database.
use raft_distributed_consens.Prelude.{
  pos, ℕ, zero, suc, ◌+◌, ◌-◌, none, some, Bool, false, ◌&&◌, ltb, leb, ◌==◌, if◌then◌else◌, ◌≡◌,
  refl, arith,
}
use raft_distributed_consens.Messages.{LogEntry, empty_entry}
use raft_distributed_consens.External.{External}
use raft_distributed_consens.Storage.Keys.{
  Key, key_bytes, key_eq, log, sys_last_log_index, bytes_eq-key_bytes,
}
use raft_distributed_consens.Storage.{
  entry_of, to_string, Store, at, delete_logs, get_log_entry, append_log, truncate_log, compact_log,
}

-- The keys that `delete_logs n i` deletes.
abbrev pub deleted : ℕ → ℕ → Key → Bool
deleted n i (log j) = leb i j && ltb j (i + n)
deleted n i _ = false

module _ {Db : Type 0} ⦃env : External Db⦄ where
  open env.rocks use {get, write, get-write}

  pub get-delete_logs :
      (n i : ℕ) (db : Db) (k : Key)
      → get (delete_logs n i db) (key_bytes k)
        ≡ (if deleted n i k then none else get db (key_bytes k))
  unfolding delete_logs
  get-delete_logs zero i db (log j) = ground arith
  get-delete_logs zero i db _ = refl
  get-delete_logs (suc n) i db (log j) =
      rw (get-delete_logs n (i + 1) _ (log j)) (simp (get-write, bytes_eq-key_bytes) (ground arith))
  get-delete_logs (suc n) i db k =
      rw (get-delete_logs n (i + 1) _ k) (simp (get-write, bytes_eq-key_bytes))

  -- The effect of each operation on every key.
  pub at-append_log :
      (s : Store Db) (e : LogEntry) (k : Key)
      → at (append_log s e) k ≡ (
          if key_eq sys_last_log_index k
          then some (to_string (pos e.index))
          else if key_eq (log e.index) k
          then some (env.proto.serialize_entry e)
          else at s k)
  unfolding append_log
  at-append_log s e k = simp (get-write, bytes_eq-key_bytes)

  pub at-truncate_log :
      (s : Store Db) (start : ℕ) (k : Key)
      → at (truncate_log s start) k ≡ (
          if key_eq sys_last_log_index k
          then some (to_string (pos (start - 1)))
          else if deleted (s.last_log_index_cache + 1 - start) start k
          then none
          else at s k)
  unfolding truncate_log
  at-truncate_log s start k = simp (get-write, bytes_eq-key_bytes, get-delete_logs)

  pub at-compact_log :
      (s : Store Db) (index : ℕ) (k : Key)
      → at (compact_log s index) k ≡ (if deleted (index + 1) 0 k then none else at s k)
  unfolding compact_log
  at-compact_log s index k = get-delete_logs (index + 1) 0 s.db k

  -- An appended entry is read back at its index, and no other entry changes.
  pub get_log_entry-append_log :
      (s : Store Db) (e : LogEntry) (i : ℕ)
      → get_log_entry (append_log s e) i ≡ (if e.index == i then e else get_log_entry s i)
  unfolding get_log_entry entry_of
  get_log_entry-append_log s e i =
      rw at-append_log (ground (arith, env.proto.parse-serialize_entry e))

  -- Truncation empties the log from `start` to its end, and keeps what stands below.
  pub get_log_entry-truncate_log :
      (s : Store Db) (start i : ℕ)
      → get_log_entry (truncate_log s start) i
        ≡ (if leb start i && leb i s.last_log_index_cache then empty_entry else get_log_entry s i)
  unfolding get_log_entry entry_of
  get_log_entry-truncate_log s start i = rw at-truncate_log (ground arith)

  -- Compaction empties the log up to `index`, and keeps what stands above.
  pub get_log_entry-compact_log :
      (s : Store Db) (index i : ℕ)
      → get_log_entry (compact_log s index) i
        ≡ (if leb i index then empty_entry else get_log_entry s i)
  unfolding get_log_entry entry_of
  get_log_entry-compact_log s index i = rw at-compact_log (ground arith)
