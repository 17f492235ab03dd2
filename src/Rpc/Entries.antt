-- ===== src/Rpc/Entries.antt =====
-- Entries of the leader's log in a peer's, with their commands, over the cycles of replication.
use raft_distributed_consens.Prelude.{
  ℕ, ◌+◌, ◌≤◌, ◌<◌, List, [], ◌∷◌, some, ℤ, ◌≡◌, refl, arith, inl, inr, All, ap, ◌∙◌, sym, subst,
  ltb, Bool-cases, true, zero, suc, ◌-◌,
}
use native.Mathlib.Decide.{dec_lt}
use raft_distributed_consens.Messages.{LogEntry, AppendEntriesArgs}
use raft_distributed_consens.External.{External}
use raft_distributed_consens.Storage.{Store, get_log_entry}
use raft_distributed_consens.Node.{Node}
use raft_distributed_consens.Replication.{
  append_entry, append_all, handle_append_entries, follow_leader, is_consistent, learn_commit,
  read_entries, make_append_args,
}
use raft_distributed_consens.Replication.Follower.{
  follow_leader-log, follow_leader-last, learn_commit-storage, learn_commit-last,
}
use raft_distributed_consens.Replication.LogShape.{
  Consecutive, append_entry-last, append_entry-below, append_entry_cases,
}
use raft_distributed_consens.Rpc.{Fate, unserved, unanswered, answered, spent, answers, replicate}
use raft_distributed_consens.Rpc.Calls.{IsWhole}
use raft_distributed_consens.Rpc.Progress.{Progress, turned, turn-Progress, round_args, batch}

module _ {Db : Type 0} ⦃env : External Db⦄ where
  -- Where the peer has the leader's term at an index, it has the leader's entry there.
  abbrev pub EntriesMatch : Store Db → ℕ → Node Db → Type 0
  EntriesMatch s top f =
      (j : ℕ)
      → 0 < j
      → j ≤ top
      → j ≤ f.last_log_index
      → (get_log_entry f.storage j).term ≡ (get_log_entry s j).term
      → get_log_entry f.storage j ≡ get_log_entry s j

  module _ (s : Store Db) (top : ℕ) where
    same_log-EntriesMatch :
        (f g : Node Db)
        → g.last_log_index ≡ f.last_log_index
        → ((j : ℕ) → get_log_entry g.storage j ≡ get_log_entry f.storage j)
        → EntriesMatch s top f
        → EntriesMatch s top g
    same_log-EntriesMatch f g last log ok = λ j low high le same.
        log j ∙ ok j low high (omega arith) (ap (λ (e : LogEntry). e.term) (sym (log j)) ∙ same)

    append_entry-EntriesMatch :
        (f : Node Db) (i : ℕ) (e : LogEntry)
        → e.index ≡ i
        → get_log_entry s i ≡ e
        → i ≤ f.last_log_index + 1
        → EntriesMatch s top f
        → EntriesMatch s top (append_entry f i e)
    append_entry-EntriesMatch f i e here own close ok = elim (append_entry_cases f i e here) [
      | inr (kept, _, _) ↦ subst (EntriesMatch s top) (sym kept) ok
      | inl (stored, ends) ↦ λ j low high le same. elim (dec_lt j i) [
        | yes below ↦
            let there = append_entry-below f i e here j below in
            there ∙ ok j low high (omega arith) (ap (λ (x : LogEntry). x.term) (sym there) ∙ same)
        | no above ↦
            let at_i : j ≡ i = omega arith in
            ap (λ (k : ℕ). get_log_entry (append_entry f i e).storage k) at_i
            ∙ stored
            ∙ sym own
            ∙ ap (λ (k : ℕ). get_log_entry s k) (sym at_i)
      ]
    ]

    -- Entries of the leader's log, each at its own index.
    abbrev pub Sent : List LogEntry → Type 0
    Sent es = All (λ e. get_log_entry s e.index ≡ e) es

    append_all-EntriesMatch :
        (f : Node Db) (i : ℕ) (es : List LogEntry)
        → Consecutive i es
        → Sent es
        → i ≤ f.last_log_index
        → EntriesMatch s top f
        → EntriesMatch s top (append_all f i es)
    unfolding append_all
    append_all-EntriesMatch f i [] c sent close ok = ok
    append_all-EntriesMatch f i (e ∷ es) c sent close ok =
        append_all-EntriesMatch (append_entry f (i + 1) e) (i + 1) es c.1 sent.1
          (append_entry-last f (i + 1) e)
          (append_entry-EntriesMatch f (i + 1) e c.0
            (ap (λ (k : ℕ). get_log_entry s k) (sym c.0) ∙ sent.0) (omega arith) ok)

    is_consistent-close :
        (f : Node Db) (a : AppendEntriesArgs)
        → is_consistent f a ≡ true
        → a.prev_log_index ≤ f.last_log_index
    unfolding is_consistent
    is_consistent-close f a h = ground arith

    pub served-EntriesMatch :
        (f : Node Db) (a : AppendEntriesArgs) (now : ℕ)
        → Consecutive a.prev_log_index a.entries
        → Sent a.entries
        → EntriesMatch s top f
        → EntriesMatch s top (handle_append_entries f a now).0
    unfolding handle_append_entries
    served-EntriesMatch f a now c sent ok =
        let f' = follow_leader f a now in
        let noted : EntriesMatch s top f' =
          same_log-EntriesMatch f f' (follow_leader-last f a now) (follow_leader-log f a now) ok in
        elim (Bool-cases (ltb a.term f.current_term)) [
          | inl old ↦ rw old ok
          | inr young ↦ elim (Bool-cases (is_consistent f' a)) [
            | inr lacks ↦ rw young (rw lacks noted)
            | inl holds ↦
                let all = append_all f' a.prev_log_index a.entries in
                rw young (
                  rw holds (
                    same_log-EntriesMatch all (learn_commit all a.leader_commit)
                      (learn_commit-last all a.leader_commit)
                      (λ j.
                        ap (λ (t : Store Db). get_log_entry t j)
                          (learn_commit-storage all a.leader_commit))
                      (append_all-EntriesMatch f' a.prev_log_index a.entries c sent
                        (is_consistent-close f' a holds) noted)))
          ]
        ]

    read_entries-Sent :
        (count i : ℕ)
        → ((j : ℕ) → i ≤ j → j < i + count → (get_log_entry s j).index ≡ j)
        → Sent (read_entries s count i)
    unfolding read_entries
    read_entries-Sent zero i own = tt
    read_entries-Sent (suc count) i own = (
      ap (λ (k : ℕ). get_log_entry s k) (own i (omega arith) (omega arith)),
      read_entries-Sent count (i + 1) (λ j low high. own j (omega arith) (omega arith)),
    )

    module _ (term : ℕ) (peer : ℤ) (whole : IsWhole s top) where
      round_args-Sent :
          (l f : Node Db) (left : ℕ)
          → Progress s top term peer whole l f left
          → Sent (round_args s top term peer whole l).entries
      unfolding make_append_args
      round_args-Sent l f left ok = read_entries-Sent _ (l.next_index peer) (λ j low high.
          whole.indexed j (omega (arith, ok.known)) (omega (arith, ok.leader_ok.ends, ok.within)))

      turned-EntriesMatch :
          (fate : Fate) (now : ℕ) (l f : Node Db) (left : ℕ)
          → Progress s top term peer whole l f left
          → EntriesMatch s top f
          → EntriesMatch s top (turned s top term peer whole fate now l f).1
      unfolding make_append_args
      turned-EntriesMatch unserved now l f left ok m = m
      turned-EntriesMatch unanswered now l f left ok m =
          served-EntriesMatch f (round_args s top term peer whole l) now
            (batch s top term peer whole l f left now ok).0 (round_args-Sent l f left ok) m
      turned-EntriesMatch answered now l f left ok m =
          served-EntriesMatch f (round_args s top term peer whole l) now
            (batch s top term peer whole l f left now ok).0 (round_args-Sent l f left ok) m

      pub replicate-EntriesMatch :
          (cycles : List (Fate × ℕ)) (l f : Node Db) (left : ℕ)
          → Progress s top term peer whole l f left
          → EntriesMatch s top f
          → (nodes : Node Db × Node Db) × (replicate cycles peer l f ≡ some nodes)
            × Progress s top term peer whole nodes.0 nodes.1 (left - answers cycles)
            × EntriesMatch s top nodes.1
      unfolding replicate
      replicate-EntriesMatch [] l f left ok m =
          ((l, f), refl, subst (Progress s top term peer whole l f) (omega arith) ok, m)
      replicate-EntriesMatch ((fate, now) ∷ cycles) l f left ok m =
          let (sends, ok') = turn-Progress s top term peer whole fate now l f left ok in
          let (nodes, went_on, ok'', m'') =
            replicate-EntriesMatch cycles _ _ (left - spent fate) ok'
              (turned-EntriesMatch fate now l f left ok m) in
          (
            nodes,
            rw sends went_on,
            subst (Progress s top term peer whole nodes.0 nodes.1) (omega arith) ok'',
            m'',
          )
