-- ===== src/Storage/Snapshot/Survival.antt =====
-- Which accounts come through a snapshot whatever the results in it hold, line ends included.
use raft_distributed_consens.Prelude.{
  ◌⊎◌, ℕ, zero, suc, List, [], ◌∷◌, ◌++◌, Option, none, some, false, Bytes, All, ◌==◌, bytes_eq,
  if◌then◌else◌, ◌≡◌, refl, sym, ap, ◌∙◌, arith, inl, inr, length, Bool-cases, Option-cases, subst,
  pos,
}
use raft_distributed_consens.External.{External, Write, put, written, lookup, Distinct}
use raft_distributed_consens.Storage.Keys.{key_bytes, acct, bytes_eq-key_bytes}
use raft_distributed_consens.Storage.{Store, at, get_balance, read_int}
use raft_distributed_consens.Storage.Snapshot.{
  newline, state_entries, render, read_line, getline, parse_pairs, parse_snapshot, puts,
  apply_snapshot,
}
use raft_distributed_consens.Storage.Snapshot.Lines.{
  Clean, parse_snapshot-render_append, render-append,
}
use raft_distributed_consens.Storage.Snapshot.Transfer.{
  or_else, erased, written-puts, written-deletes, state_entries-Distinct, lookup-scan_state,
}
use mathlib.Core.List.{append_assoc}

-- The lines of a text, with the unfinished one at its end.
abbrev extend : ℕ → List Bytes → List Bytes
extend c [] = (c ∷ []) ∷ []
extend c (l ∷ ls) = (c ∷ l) ∷ ls

abbrev pub lines : Bytes → List Bytes
lines [] = [] ∷ []
lines (c ∷ s) = if c == newline then [] ∷ lines s else extend c (lines s)

-- No line of the text is the key.
abbrev pub NoLine : Bytes → Bytes → Type 0
NoLine k s = All (λ l. bytes_eq l k ≡ false) (lines s)

-- `std::getline` takes the first of the lines.
lines-read_line :
    (s : Bytes)
    → (rest : List Bytes) × (lines s ≡ (read_line s).0 ∷ rest)
      × ((rest ≡ lines (read_line s).1) ⊎ ((read_line s).1 ≡ []))
unfolding read_line
lines-read_line [] = ([], refl, inr refl)
lines-read_line (c ∷ s) = elim (Bool-cases (c == newline)) [
  | inl ends ↦ (lines s, rw ends refl, inl (rw ends refl))
  | inr more ↦
      let (rest, shape, behind) = lines-read_line s in (rest, rw (more, shape) refl, rw more behind)
]

module _ (k : Bytes) (full : bytes_eq [] k ≡ false) where
  -- A line that is read is not the key, and neither is one of those behind it.
  getline-NoLine :
      (s l r : Bytes) → NoLine k s → getline s ≡ some (l, r) → (bytes_eq l k ≡ false) × NoLine k r
  unfolding getline
  getline-NoLine [] l r apart h = cc
  getline-NoLine (c ∷ s) l r apart h =
      let (rest, shape, behind) = lines-read_line (c ∷ s) in
      let (first, others) : All (λ x. bytes_eq x k ≡ false) ((read_line (c ∷ s)).0 ∷ rest) =
        subst (All (λ x. bytes_eq x k ≡ false)) shape apart in
      let got : read_line (c ∷ s) ≡ (l, r) = cc in
      let remain : NoLine k (read_line (c ∷ s)).1 = elim behind [
        | inl same ↦ subst (All (λ x. bytes_eq x k ≡ false)) same others
        | inr ended ↦ subst (NoLine k) (sym ended) (full, tt)
      ] in
      (
        subst (λ (p : Bytes × Bytes). bytes_eq p.0 k ≡ false) got first,
        subst (λ (p : Bytes × Bytes). NoLine k p.1) got remain,
      )

  parse_pairs-NoLine : (fuel : ℕ) (s : Bytes) → NoLine k s → lookup k (parse_pairs fuel s) ≡ none
  unfolding parse_pairs
  parse_pairs-NoLine zero s apart = refl
  parse_pairs-NoLine (suc fuel) s apart = elim (Option-cases (getline s)) [
    | inl ended ↦ rw (ended, parse_pairs) refl
    | inr ((key, s'), got) ↦
        let (differs, apart') = getline-NoLine s key s' apart got in
        elim (Option-cases (getline s')) [
          | inl ended ↦ rw (got, parse_pairs) (rw ended refl)
          | inr ((value, s''), got') ↦
              let (_, apart'') = getline-NoLine s' value s'' apart' got' in
              rw (got, parse_pairs) (rw got' (rw differs (parse_pairs-NoLine fuel s'' apart'')))
        ]
  ]

parse_snapshot-NoLine :
    (k : Bytes)
    → bytes_eq [] k ≡ false
    → (s : Bytes) → NoLine k s
    → lookup k (parse_snapshot s) ≡ none
unfolding parse_snapshot
parse_snapshot-NoLine k full s apart = parse_pairs-NoLine k full (length s) s apart

puts-append : (xs ys : List (Bytes × Bytes)) → puts (xs ++ ys) ≡ puts xs ++ puts ys
unfolding puts
puts-append [] ys = refl
puts-append ((key, value) ∷ xs) ys = ap (◌∷◌ (put key value)) (puts-append xs ys)

-- Entries with other keys leave a key alone.
written-puts_other :
    (kvs : List (Bytes × Bytes)) (ops : List Write) (k : Bytes) (v : Option Bytes)
    → lookup k kvs ≡ none
    → written (puts kvs ++ ops) k v ≡ written ops k v
unfolding puts
written-puts_other [] ops k v none_there = refl
written-puts_other ((j, x) ∷ kvs) ops k v none_there =
    ap (written (puts kvs ++ ops) k) (ground arith) ∙ written-puts_other kvs ops k v (ground arith)

lookup-append :
    (xs ys : List (Bytes × Bytes)) (k : Bytes)
    → lookup k ys ≡ none
    → lookup k (xs ++ ys) ≡ lookup k xs
lookup-append [] ys k none_there = none_there
lookup-append ((j, x) ∷ xs) ys k none_there = ground (arith, lookup-append xs ys k none_there)

lookup-front :
    (xs ys : List (Bytes × Bytes)) (k : Bytes) → lookup k (xs ++ ys) ≡ none → lookup k xs ≡ none
lookup-front [] ys k h = refl
lookup-front ((j, x) ∷ xs) ys k h = ground (arith, lookup-front xs ys k)

Distinct-front : (xs ys : List (Bytes × Bytes)) → Distinct (xs ++ ys) → Distinct xs
Distinct-front [] ys d = tt
Distinct-front ((j, x) ∷ xs) ys d = (lookup-front xs ys j d.0, Distinct-front xs ys d.1)

-- What the writes of a batch for a snapshot leave, where the key is read in the first entries only.
or_else-erased : (o v : Option Bytes) → or_else o (erased v v) ≡ o
or_else-erased (some x) v = refl
or_else-erased none none = refl
or_else-erased none (some x) = refl

acct_full : (a : Bytes) → bytes_eq [] (key_bytes (acct a)) ≡ false
unfolding key_bytes bytes_eq
acct_full a = refl

module _ {Db : Type 0} ⦃env : External Db⦄ where
  open env.rocks use {scan, get-write, scan-Distinct}

  sent :
      (s : Store Db) (before others : List (Bytes × Bytes)) (a : Bytes)
      → state_entries (scan s.db) ≡ before ++ others
      → lookup (key_bytes (acct a)) others ≡ none
      → at s (acct a) ≡ lookup (key_bytes (acct a)) before
  sent s before others a entries absent =
      sym (lookup-scan_state s (acct a))
      ∙ ap (lookup (key_bytes (acct a))) entries
      ∙ lookup-append before others (key_bytes (acct a)) absent

  received :
      (s t : Store Db) (index term : ℕ) (before others : List (Bytes × Bytes)) (a : Bytes)
      → state_entries (scan s.db) ≡ before ++ others
      → Clean before
      → NoLine (key_bytes (acct a)) (render others)
      → at (apply_snapshot t (render (state_entries (scan s.db))) index term) (acct a)
        ≡ lookup (key_bytes (acct a)) before
  unfolding apply_snapshot
  received s t index term before others a entries clean apart =
      let k : Bytes = key_bytes (acct a) in
      let garbage : List (Bytes × Bytes) = parse_snapshot (render others) in
      let read : parse_snapshot (render (before ++ others)) ≡ before ++ garbage =
        ap parse_snapshot (render-append before others)
        ∙ parse_snapshot-render_append before (render others) clean in
      let other_keys : lookup k garbage ≡ none =
        parse_snapshot-NoLine k (acct_full a) (render others) apart in
      let distinct : Distinct before =
        Distinct-front before others
          (subst Distinct entries (state_entries-Distinct _ (scan-Distinct s.db))) in
      rw
        (
          get-write,
          entries,
          read,
          puts-append,
          append_assoc,
          written-deletes,
          written-puts before _ _ _ distinct,
          written-puts_other garbage _ _ _ other_keys,
          lookup-scan_state t (acct a),
          bytes_eq-key_bytes,
          bytes_eq-key_bytes,
          bytes_eq-key_bytes,
        )
        (or_else-erased _ (at t (acct a)))

  -- A snapshot whose text begins with clean entries, and goes on with any others, brings over the
  -- balance of each account whose key is not one of the others' and is no line of their text: the
  -- receiver then has the sender's balance, whatever it had. The others may be the results of
  -- requests, whose Protobuf text always holds a line end.
  pub balance_survives :
      (s t : Store Db) (index term : ℕ) (before others : List (Bytes × Bytes)) (a : Bytes)
      → state_entries (scan s.db) ≡ before ++ others
      → Clean before
      → lookup (key_bytes (acct a)) others ≡ none
      → NoLine (key_bytes (acct a)) (render others)
      → get_balance (apply_snapshot t (render (state_entries (scan s.db))) index term) a
        ≡ get_balance s a
  unfolding get_balance
  balance_survives s t index term before others a entries clean absent apart =
      ap (read_int (pos 0)) (
        received s t index term before others a entries clean apart
        ∙ sym (sent s before others a entries absent))
