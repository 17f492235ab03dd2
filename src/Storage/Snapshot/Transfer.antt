-- ===== src/Storage/Snapshot/Transfer.antt =====
-- A snapshot taken from one database and applied to another: accounts and request results are
-- replaced, and nothing else but the metadata changes.
use raft_distributed_consens.Prelude.{
  ℕ, List, [], ◌∷◌, ◌++◌, Option, none, some, Bool, true, false, Bytes, bytes_eq, bytes_eq_iff,
  if◌then◌else◌, pos, ◌≡◌, refl, ap, ◌∙◌, arith, starts_with,
}
use raft_distributed_consens.Text.{to_string}
use raft_distributed_consens.External.{External, Write, written, lookup, Distinct}
use raft_distributed_consens.Storage.Keys.{
  Key, key_bytes, key_eq, bytes_eq-key_bytes, sys_last_applied, sys_snapshot_index,
  sys_snapshot_term, log, acct, req, format_log_key,
}
use raft_distributed_consens.Storage.{Store, at}
use raft_distributed_consens.Storage.Snapshot.{
  is_state_key, state_entries, deletes, puts, render, apply_snapshot,
}
use raft_distributed_consens.Storage.Snapshot.Lines.{Clean, parse_snapshot-render}

abbrev pub or_else : Option Bytes → Option Bytes → Option Bytes
or_else none v = v
or_else (some x) v = some x

pub lookup-state_entries :
    (k : Bytes) (kvs : List (Bytes × Bytes))
    → lookup k (state_entries kvs) ≡ (if is_state_key k then lookup k kvs else none)
unfolding state_entries
lookup-state_entries k [] = ground arith
lookup-state_entries k ((j, v) ∷ kvs) = ground (arith, lookup-state_entries k kvs, bytes_eq_iff j k)

pub state_entries-Distinct :
    (kvs : List (Bytes × Bytes)) → Distinct kvs → Distinct (state_entries kvs)
unfolding state_entries
state_entries-Distinct [] d = tt
state_entries-Distinct ((j, v) ∷ kvs) d =
    ground (arith, lookup-state_entries j kvs, state_entries-Distinct kvs d.1)

abbrev pub erased : Option Bytes → Option Bytes → Option Bytes
erased none v = v
erased (some x) v = none

pub written-deletes :
    (kvs : List (Bytes × Bytes)) (ops : List Write) (k : Bytes) (v : Option Bytes)
    → written (deletes kvs ++ ops) k v ≡ written ops k (erased (lookup k kvs) v)
unfolding deletes
written-deletes [] ops k v = refl
written-deletes ((j, x) ∷ kvs) ops k v =
    written-deletes kvs ops k (if bytes_eq j k then none else v) ∙ ap (written ops k) (ground arith)

pub written-puts :
    (kvs : List (Bytes × Bytes)) (ops : List Write) (k : Bytes) (v : Option Bytes)
    → Distinct kvs
    → written (puts kvs ++ ops) k v ≡ written ops k (or_else (lookup k kvs) v)
unfolding puts
written-puts [] ops k v d = refl
written-puts ((j, x) ∷ kvs) ops k v d =
    written-puts kvs ops k (if bytes_eq j k then some x else v) d.1
    ∙ ap (written ops k) (ground (arith, bytes_eq_iff j k))

abbrev pub is_state : Key → Bool
is_state (acct _) = true
is_state (req _) = true
is_state _ = false

pub is_state_key-key_bytes : (k : Key) → is_state_key (key_bytes k) ≡ is_state k
unfolding is_state_key key_bytes format_log_key starts_with
is_state_key-key_bytes (acct a) = refl
is_state_key-key_bytes (req r) = refl
is_state_key-key_bytes (log i) = refl
is_state_key-key_bytes _ = refl

module _ {Db : Type 0} ⦃env : External Db⦄ where
  open env.rocks use {get, scan, get-write, lookup-scan, scan-Distinct}

  -- What a snapshot of `s` holds under a key.
  pub lookup-scan_state :
      (s : Store Db) (k : Key)
      → lookup (key_bytes k) (state_entries (scan s.db)) ≡ (if is_state k then at s k else none)
  lookup-scan_state s k =
      lookup-state_entries (key_bytes k) (scan s.db)
      ∙ rw (is_state_key-key_bytes k, lookup-scan s.db (key_bytes k)) refl

  -- Applied to `t`, a clean snapshot of `s` leaves under each key of the state machine what `s` has
  -- there, the metadata of the snapshot, and under any other key what `t` had.
  pub at-apply_snapshot :
      (s t : Store Db) (index term : ℕ) (k : Key)
      → Clean (state_entries (scan s.db))
      → at (apply_snapshot t (render (state_entries (scan s.db))) index term) k ≡ (
          if key_eq sys_snapshot_term k
          then some (to_string (pos term))
          else if key_eq sys_snapshot_index k
          then some (to_string (pos index))
          else if key_eq sys_last_applied k
          then some (to_string (pos index))
          else if is_state k
          then at s k
          else at t k)
  unfolding apply_snapshot
  at-apply_snapshot s t index term k clean =
      rw
        (
          get-write,
          parse_snapshot-render _ clean,
          written-deletes,
          written-puts _ _ _ _ (state_entries-Distinct _ (scan-Distinct s.db)),
          lookup-scan_state,
          lookup-scan_state,
          bytes_eq-key_bytes,
          bytes_eq-key_bytes,
          bytes_eq-key_bytes,
        )
        (ground arith)
