-- ===== src/Storage/Snapshot/Corruption.antt =====
-- What becomes of a request result in a snapshot. Its Protobuf text begins with the byte 0x0A,
-- which is the line end of the snapshot's format.
use raft_distributed_consens.Prelude.{
  subst, length, suc, ℕ, List, [], ◌∷◌, ◌++◌, Option, none, some, Bytes, bytes_eq_iff,
  bytes_eq_self, ◌≡◌, ◌≢◌, refl, sym, ap, ◌∙◌, arith,
}
use raft_distributed_consens.Messages.{CommandResult}
use raft_distributed_consens.External.{External, lookup, Distinct}
use raft_distributed_consens.Storage.Keys.{bytes_eq-key_bytes, key_bytes, req}
use raft_distributed_consens.Storage.{Store, at, get_request_result, result_of}
use raft_distributed_consens.Storage.Snapshot.{
  newline, state_entries, render, parse_snapshot, parse_pairs, getline, apply_snapshot,
}
use raft_distributed_consens.Storage.Snapshot.Lines.{
  parse_snapshot_fuel, Clean, NoNewline, parse_snapshot-render-newline, getline-append,
}
use raft_distributed_consens.Storage.Snapshot.Transfer.{
  written-puts, written-deletes, state_entries-Distinct, lookup-scan_state,
}

module _ (k x y : Bytes) where
  -- The value of the last entry has no part in the keys being distinct.
  lookup-append_other :
      (j : Bytes) (kvs : List (Bytes × Bytes))
      → lookup j (kvs ++ (k, x) ∷ []) ≡ none
      → lookup j (kvs ++ (k, y) ∷ []) ≡ none
  lookup-append_other j [] h = ground arith
  lookup-append_other j ((i, v) ∷ kvs) h = ground (arith, lookup-append_other j kvs)

  Distinct-append_other :
      (kvs : List (Bytes × Bytes)) → Distinct (kvs ++ (k, x) ∷ []) → Distinct (kvs ++ (k, y) ∷ [])
  Distinct-append_other [] d = (refl, tt)
  Distinct-append_other ((i, v) ∷ kvs) d =
      (lookup-append_other i kvs d.0, Distinct-append_other kvs d.1)

  lookup-append-ne-none : (kvs : List (Bytes × Bytes)) → lookup k (kvs ++ (k, x) ∷ []) ≢ none
  lookup-append-ne-none [] h = ground (arith, bytes_eq_self k)
  lookup-append-ne-none ((i, v) ∷ kvs) h = ground (arith, lookup-append-ne-none kvs)

  lookup-append_last :
      (kvs : List (Bytes × Bytes))
      → Distinct (kvs ++ (k, x) ∷ [])
      → lookup k (kvs ++ (k, y) ∷ []) ≡ some y
  lookup-append_last [] d = rw (bytes_eq_self k)
  lookup-append_last ((i, v) ∷ kvs) d =
      ground (arith, lookup-append_last kvs d.1, bytes_eq_iff i k, lookup-append-ne-none kvs)

-- A text of one line holds a key with no value.
parse_snapshot-line : (v : Bytes) → NoNewline v → parse_snapshot (v ++ newline ∷ []) ≡ []
parse_snapshot-line v h =
    sym (parse_snapshot_fuel (suc (length (v ++ newline ∷ []))) (v ++ newline ∷ []) (omega arith))
    ∙ (unfold parse_pairs getline in rw (getline-append v [] h, parse_pairs))

one_line : (v : Bytes) → NoNewline v → parse_snapshot (v ++ newline ∷ render []) ≡ []
unfolding render
one_line v h = parse_snapshot-line v h

module _ {Db : Type 0} ⦃env : External Db⦄ where
  open env.rocks use {scan, get-write, scan-Distinct}

  module _ (s : Store Db) (before : List (Bytes × Bytes)) (r : Bytes) (res : CommandResult)
      (entries : state_entries (scan s.db)
        ≡ before ++ (key_bytes (req r), env.proto.serialize_result res) ∷ []) where
    distinct : Distinct (before ++ (key_bytes (req r), env.proto.serialize_result res) ∷ [])
    distinct = subst Distinct entries (state_entries-Distinct _ (scan-Distinct s.db))

    result_at_sender : at s (req r) ≡ some (env.proto.serialize_result res)
    result_at_sender =
        sym (lookup-scan_state s (req r))
        ∙ ap (lookup (key_bytes (req r))) entries
        ∙ lookup-append_last (key_bytes (req r)) (env.proto.serialize_result res) _ before distinct

    result_at_receiver :
        (t : Store Db) (index term : ℕ) (v : Bytes)
        → env.proto.serialize_result res ≡ newline ∷ v
        → Clean before
        → NoNewline (key_bytes (req r))
        → NoNewline v
        → at (apply_snapshot t (render (state_entries (scan s.db))) index term) (req r) ≡ some []
    unfolding apply_snapshot
    result_at_receiver t index term v tag clean key_clean v_clean = rw (
      get-write,
      entries,
      tag,
      parse_snapshot-render-newline before (key_bytes (req r)) v [] clean key_clean,
      written-deletes,
      one_line v v_clean,
      written-puts _ _ _ _ (Distinct-append_other (key_bytes (req r)) _ [] before distinct),
      lookup-append_last (key_bytes (req r)) (env.proto.serialize_result res) [] before distinct,
      bytes_eq-key_bytes,
      bytes_eq-key_bytes,
      bytes_eq-key_bytes,
    )

  -- A snapshot whose last entry is the result of a request `r`, with a message that is not empty and
  -- no line end but its first byte, all other entries being clean, makes the receiver forget `r`:
  -- there is no result any more, whatever the receiver had.
  pub snapshot_forgets :
      (s t : Store Db) (index term : ℕ) (before : List (Bytes × Bytes)) (r : Bytes)
      (res : CommandResult) (full : res.result_message ≢ [])
      → state_entries (scan s.db)
        ≡ before ++ (key_bytes (req r), env.proto.serialize_result res) ∷ []
      → Clean before
      → NoNewline (key_bytes (req r))
      → NoNewline (env.proto.serialize_result_tag res full).0
      → (get_request_result s r ≡ res.result_message)
        × (get_request_result (apply_snapshot t (render (state_entries (scan s.db))) index term) r
            ≡ [])
  unfolding get_request_result
  snapshot_forgets s t index term before r res full e clean key_clean v_clean =
      let (v, tag) = env.proto.serialize_result_tag res full in
      (
        ap (λ (o : Option Bytes). (result_of env.proto o).result_message)
              (result_at_sender s before r res e)
            ∙ (unfold result_of in
                ap (λ (c : CommandResult). c.result_message)
                  (env.proto.parse-serialize_result res)),
        ap (λ (o : Option Bytes). (result_of env.proto o).result_message)
              (result_at_receiver s before r res e t index term v tag clean key_clean v_clean)
            ∙ (unfold result_of in
                ap (λ (c : CommandResult). c.result_message) env.proto.parse_result-nil),
      )
