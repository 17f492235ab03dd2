-- ===== src/Storage/Batch.antt =====
-- Appending entries as a batch (`appendLogs`) against appending them one by one (`appendLog`).
use raft_distributed_consens.Prelude.{
  ℕ, ◌+◌, List, [], ◌∷◌, ◌++◌, Option, some, Bytes, pos, ltb, Bool-cases, inl, inr, if◌then◌else◌,
  length, ◌≡◌, refl, ap, arith, ◌∙◌, sym,
}
use raft_distributed_consens.Messages.{LogEntry}
use raft_distributed_consens.Text.{to_string}
use raft_distributed_consens.External.{External, Write, put, written, delete}
use raft_distributed_consens.Storage.{Store, at, append_log, append_logs, entry_puts, max_index}
use raft_distributed_consens.Storage.Keys.{
  Key, key_bytes, key_eq, sys_last_log_index, bytes_eq-key_bytes,
}
use raft_distributed_consens.Storage.Log.{at-append_log}

-- Entries with the indices that follow `i`.
abbrev pub Consecutive : ℕ → List LogEntry → Type 0
Consecutive i [] = Unit {0}
Consecutive i (e ∷ es) = (e.index ≡ i + 1) × Consecutive (i + 1) es

max_index-Consecutive :
    (i : ℕ) (es : List LogEntry) → Consecutive i es → max_index i es ≡ i + length es
unfolding max_index
max_index-Consecutive i [] f = omega arith
max_index-Consecutive i (e ∷ es) f =
    let next : (if ltb i e.index then e.index else i) ≡ i + 1 = ground (arith, f.0) in
    rw next (omega (arith, max_index-Consecutive (i + 1) es f.1))

written-append :
    (ops more : List Write) (k : Bytes) (v : Option Bytes)
    → written (ops ++ more) k v ≡ written more k (written ops k v)
written-append [] more k v = refl
written-append (put j x ∷ ops) more k v = written-append ops more k _
written-append (delete j ∷ ops) more k v = written-append ops more k _

module _ {Db : Type 0} ⦃env : External Db⦄ where
  open env.rocks use {get, get-write}

  -- One by one.
  abbrev pub append_each : Store Db → List LogEntry → Store Db
  append_each s [] = s
  append_each s (e ∷ es) = append_each (append_log s e) es

  -- What the entries one by one leave under a key.
  at-append_each :
      (i : ℕ) (s : Store Db) (e : LogEntry) (es : List LogEntry) (k : Key)
      → Consecutive i (e ∷ es)
      → at (append_each s (e ∷ es)) k ≡ (
          if key_eq sys_last_log_index k
          then some (to_string (pos (i + length (e ∷ es))))
          else written (entry_puts env.proto (e ∷ es)) (key_bytes k) (at s k))
  unfolding entry_puts
  at-append_each i s e [] k f = at-append_log s e k ∙ rw bytes_eq-key_bytes (ground (arith, f.0))
  at-append_each i s e (e' ∷ es) k f =
      let later = at-append_each (i + 1) (append_log s e) e' es k f.1 in
      elim (Bool-cases (key_eq sys_last_log_index k)) [
        | inl last ↦ later ∙ rw last (ap (λ (n : ℕ). some (to_string (pos n))) (omega arith))
        | inr other ↦
            later
            ∙ rw (other, at-append_log, other)
                (ap (written (entry_puts env.proto (e' ∷ es)) (key_bytes k))
                  (rw bytes_eq-key_bytes refl))
      ]

  append_each-cache :
      (i : ℕ) (s : Store Db) (es : List LogEntry)
      → Consecutive i es
      → s.last_log_index_cache ≡ i
      → (append_each s es).last_log_index_cache ≡ i + length es
  append_each-cache i s [] f here = omega arith
  append_each-cache i s (e ∷ es) f here =
      omega (arith, append_each-cache (i + 1) (append_log s e) es f.1 (unfold append_log in f.0))

  -- A batch of entries that follow the end of the log leaves the store as the entries one by one do:
  -- the same value under each key, and the same index of the last entry in memory.
  pub append_logs_one_by_one :
      (s : Store Db) (es : List LogEntry) (k : Key)
      → Consecutive s.last_log_index_cache es
      → (at (append_logs s es) k ≡ at (append_each s es) k)
        × ((append_logs s es).last_log_index_cache ≡ (append_each s es).last_log_index_cache)
  unfolding append_logs
  append_logs_one_by_one s [] k f = (refl, refl)
  append_logs_one_by_one s (e ∷ es) k f =
      let old = s.last_log_index_cache in
      let top = max_index-Consecutive old (e ∷ es) f in
      (
        rw
            (
              get-write,
              written-append (entry_puts env.proto (e ∷ es)) _ (key_bytes k) _,
              top,
              at-append_each old s e es k f,
            )
            (rw (bytes_eq-key_bytes sys_last_log_index k) refl),
        top ∙ sym (append_each-cache old s (e ∷ es) f refl),
      )
