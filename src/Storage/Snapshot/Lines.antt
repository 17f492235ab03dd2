-- ===== src/Storage/Snapshot/Lines.antt =====
-- The text of a snapshot: the loop that reads it ends, and lines come back as they were written.
use raft_distributed_consens.Prelude.{
  ◌⊎◌, ℕ, zero, suc, ◌≤◌, ◌<◌, List, [], ◌∷◌, ◌++◌, none, some, false, Bytes, All, ◌==◌, length,
  length-append, ◌≡◌, refl, sym, ap, ◌∙◌, arith, inl, inr,
}
use mathlib.Core.List.{append_assoc, append-nil}
use raft_distributed_consens.Storage.Snapshot.{
  newline, render, read_line, getline, parse_pairs, parse_snapshot,
}

abbrev pub NoNewline : Bytes → Type 0
NoNewline l = All (λ c. (c == newline) ≡ false) l

-- Keys and values that hold no line end.
abbrev pub Clean : List (Bytes × Bytes) → Type 0
Clean kvs = All (λ kv. NoNewline kv.0 × NoNewline kv.1) kvs

read_line-length : (s : Bytes) → length (read_line s).1 ≤ length s
unfolding read_line
read_line-length [] = omega arith
read_line-length (c ∷ s) = ground (arith, read_line-length s)

read_line-append : (l s : Bytes) → NoNewline l → read_line (l ++ newline ∷ s) ≡ (l, s)
unfolding read_line
read_line-append [] s h = refl
read_line-append (c ∷ l) s h = rw (h.0, read_line-append l s h.1)

pub getline-append : (l s : Bytes) → NoNewline l → getline (l ++ newline ∷ s) ≡ some (l, s)
unfolding getline
getline-append [] s h = ap some (read_line-append [] s h)
getline-append (c ∷ l) s h = ap some (read_line-append (c ∷ l) s h)

getline-cases :
    (s : Bytes)
    → (getline s ≡ none)
      ⊎ ((l : Bytes) × (r : Bytes) × (getline s ≡ some (l, r)) × (length r < length s))
unfolding getline read_line
getline-cases [] = inl refl
getline-cases (c ∷ s) =
    inr ((read_line (c ∷ s)).0, (read_line (c ∷ s)).1, refl, ground (arith, read_line-length s))

-- More fuel than the text is long changes nothing.
parse_pairs_fuel :
    (f g : ℕ) (s : Bytes) → length s ≤ f → length s ≤ g → parse_pairs f s ≡ parse_pairs g s
unfolding parse_pairs
parse_pairs_fuel zero zero s h k = refl
parse_pairs_fuel zero (suc g) [] h k = unfold getline in refl
parse_pairs_fuel zero (suc g) (c ∷ s) h k = absurd (omega arith)
parse_pairs_fuel (suc f) zero [] h k = unfold getline in refl
parse_pairs_fuel (suc f) zero (c ∷ s) h k = absurd (omega arith)
parse_pairs_fuel (suc f) (suc g) s h k = elim (getline-cases s) [
  | inl e ↦ rw (e, parse_pairs)
  | inr (l, r, e, less) ↦ elim (getline-cases r) [
    | inl e' ↦ rw (e, parse_pairs) (rw e')
    | inr (l', r', e', less') ↦
        rw (e, parse_pairs)
          (rw e' (ap (◌∷◌ (l, l')) (parse_pairs_fuel f g r' (omega arith) (omega arith))))
  ]
]

-- One round of the loop.
parse_pairs-suc :
    (f : ℕ) (key value s : Bytes)
    → NoNewline key
    → NoNewline value
    → parse_pairs (suc f) (key ++ newline ∷ (value ++ newline ∷ s)) ≡ (key, value) ∷ parse_pairs f s
unfolding parse_pairs
parse_pairs-suc f key value s hk hv =
    rw (getline-append key (value ++ newline ∷ s) hk, parse_pairs) (rw (getline-append value s hv))

-- The loop reads a clean key and a clean value, and goes on behind them.
pub parse_snapshot-append :
    (key value s : Bytes)
    → NoNewline key
    → NoNewline value
    → parse_snapshot (key ++ newline ∷ (value ++ newline ∷ s)) ≡ (key, value) ∷ parse_snapshot s
unfolding parse_snapshot
parse_snapshot-append key value s hk hv =
    let text = key ++ newline ∷ (value ++ newline ∷ s) in
    parse_pairs_fuel (length text) (suc (length text)) text (omega arith) (omega arith)
    ∙ parse_pairs-suc (length text) key value s hk hv
    ∙ ap (◌∷◌ (key, value)) (
        parse_pairs_fuel (length text) (length s) s
          (omega (
            arith,
            length-append key (newline ∷ (value ++ newline ∷ s)),
            length-append value (newline ∷ s),
          ))
          (omega arith))

-- Fuel for each byte is enough: the loop without fuel has this equation.
pub parse_snapshot_fuel : (f : ℕ) (s : Bytes) → length s ≤ f → parse_pairs f s ≡ parse_snapshot s
unfolding parse_snapshot
parse_snapshot_fuel f s h = parse_pairs_fuel f (length s) s h (omega arith)

-- Clean entries in front are read as they were written, whatever follows.
pub parse_snapshot-render_append :
    (kvs : List (Bytes × Bytes)) (s : Bytes)
    → Clean kvs
    → parse_snapshot (render kvs ++ s) ≡ kvs ++ parse_snapshot s
unfolding render
parse_snapshot-render_append [] s h = refl
parse_snapshot-render_append ((key, value) ∷ kvs) s h =
    rw (append_assoc, append_assoc)
      (parse_snapshot-append key value (render kvs ++ s) h.0.0 h.0.1
        ∙ ap (◌∷◌ (key, value)) (parse_snapshot-render_append kvs s h.1))

pub render-append : (xs ys : List (Bytes × Bytes)) → render (xs ++ ys) ≡ render xs ++ render ys
unfolding render
render-append [] ys = refl
render-append ((key, value) ∷ xs) ys = rw (render-append xs ys, append_assoc, append_assoc)

-- Clean entries come back.
pub parse_snapshot-render :
    (kvs : List (Bytes × Bytes)) → Clean kvs → parse_snapshot (render kvs) ≡ kvs
parse_snapshot-render kvs h =
    ap parse_snapshot (sym (append-nil (render kvs)))
    ∙ parse_snapshot-render_append kvs [] h
    ∙ (unfold parse_snapshot parse_pairs in append-nil kvs)

-- A value that begins with a line end is lost: its key comes back with the empty value, and the
-- rest of the value is read as further keys and values.
pub parse_snapshot-render-newline :
    (before : List (Bytes × Bytes)) (key value : Bytes) (kvs : List (Bytes × Bytes))
    → Clean before
    → NoNewline key
    → parse_snapshot (render (before ++ (key, newline ∷ value) ∷ kvs))
      ≡ before ++ (key, []) ∷ parse_snapshot (value ++ newline ∷ render kvs)
parse_snapshot-render-newline before key value kvs h hk =
    rw (render-append before ((key, newline ∷ value) ∷ kvs)) (
      parse_snapshot-render_append before _ h
      ∙ ap (◌++◌ before)
          (unfold render in parse_snapshot-append key [] (value ++ newline ∷ render kvs) hk tt))
