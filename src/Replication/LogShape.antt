-- ===== src/Replication/LogShape.antt =====
-- The log in memory and on disk: `lastLogIndex_` and `lastLogTerm_` describe the stored log.
pub use raft_distributed_consens.Storage.Batch.{Consecutive}
use raft_distributed_consens.Prelude.{
  ℕ, ◌+◌, ◌≤◌, ◌<◌, List, [], ◌∷◌, leb, ◌==◌, ℤ, length, All, ◌≡◌, refl, ap, ◌∙◌, arith, Bool-cases,
  inl, inr, ◌⊎◌, sym, subst,
}
use raft_distributed_consens.Messages.{LogEntry}
use raft_distributed_consens.External.{External}
use raft_distributed_consens.Storage.Keys.{log}
use raft_distributed_consens.Storage.{
  Store, get_log_entry, append_log, truncate_log, save_hard_state, entry_of,
}
use raft_distributed_consens.Storage.HardState.{at-save_hard_state}
use raft_distributed_consens.Storage.Log.{get_log_entry-append_log, get_log_entry-truncate_log}
use raft_distributed_consens.Node.{Node, become_follower}
use raft_distributed_consens.Replication.{append_entry, append_all}

module _ {Db : Type 0} ⦃env : External Db⦄ where
  pub record IsLogOk (n : Node Db) : Type 0 where
    pub cached : n.storage.last_log_index_cache ≡ n.last_log_index
    pub last_term :
        0 < n.last_log_index → (get_log_entry n.storage n.last_log_index).term ≡ n.last_log_term

  -- The hard state is no part of the log.
  pub get_log_entry-save_hard_state :
      (s : Store Db) (term : ℕ) (voted_for : ℤ) (i : ℕ)
      → get_log_entry (save_hard_state s term voted_for) i ≡ get_log_entry s i
  unfolding get_log_entry
  get_log_entry-save_hard_state s term voted_for i =
      ap (entry_of env.proto) (at-save_hard_state s term voted_for (log i))

  pub become_follower-IsLogOk :
      (n : Node Db) (term : ℕ) → IsLogOk n → IsLogOk (become_follower n term)
  unfolding become_follower
  become_follower-IsLogOk n term ok = record {
    cached = unfold save_hard_state in ok.cached;
    last_term = λ h. rw get_log_entry-save_hard_state (ok.last_term h);
  }

  module _ (n : Node Db) (i : ℕ) (e : LogEntry) (here : e.index ≡ i) where
    -- Nothing below the entry changes.
    pub append_entry-below :
        (j : ℕ) → j < i → get_log_entry (append_entry n i e).storage j ≡ get_log_entry n.storage j
    unfolding append_entry
    append_entry-below j h = ground (
      arith,
      get_log_entry-append_log n.storage e j,
      get_log_entry-append_log (truncate_log n.storage i) e j,
      get_log_entry-truncate_log n.storage i j,
    )

    pub appended-IsLogOk :
        (s : Store Db)
        → IsLogOk
            (record n { storage = append_log s e; last_log_index = i; last_log_term = e.term })
    appended-IsLogOk s = record {
      cached = unfold append_log in here;
      last_term = λ _. ground (arith, get_log_entry-append_log s e i);
    }

    pub append_entry-IsLogOk : IsLogOk n → IsLogOk (append_entry n i e)
    unfolding append_entry
    append_entry-IsLogOk ok = elim (Bool-cases (leb i n.last_log_index)) [
      | inr new ↦ rw new (appended-IsLogOk n.storage)
      | inl old ↦ elim (Bool-cases ((get_log_entry n.storage i).term == e.term)) [
        | inl same ↦ rw old (rw same ok)
        | inr differs ↦ rw old (rw differs (appended-IsLogOk (truncate_log n.storage i)))
      ]
    ]

  pub append_entry-last :
      (n : Node Db) (i : ℕ) (e : LogEntry) → i ≤ (append_entry n i e).last_log_index
  unfolding append_entry
  append_entry-last n i e = ground arith

  pub append_all-below :
      (n : Node Db) (i : ℕ) (es : List LogEntry) (j : ℕ)
      → Consecutive i es
      → j ≤ i
      → get_log_entry (append_all n i es).storage j ≡ get_log_entry n.storage j
  unfolding append_all
  append_all-below n i [] j c h = refl
  append_all-below n i (e ∷ es) j c h =
      append_all-below (append_entry n (i + 1) e) (i + 1) es j c.1 (omega arith)
      ∙ append_entry-below n (i + 1) e c.0 j (omega arith)

  -- An entry either ends the log, or the log had one of its term there and is as it was.
  pub append_entry_cases :
      (n : Node Db) (i : ℕ) (e : LogEntry)
      → e.index ≡ i
      → ((get_log_entry (append_entry n i e).storage i ≡ e)
          × ((append_entry n i e).last_log_index ≡ i))
        ⊎ ((append_entry n i e ≡ n)
            × (i ≤ n.last_log_index)
            × ((get_log_entry n.storage i).term ≡ e.term))
  unfolding append_entry
  append_entry_cases n i e here = elim (Bool-cases (leb i n.last_log_index)) [
    | inr new ↦ rw new (inl (ground (arith, here, get_log_entry-append_log n.storage e i), refl))
    | inl old ↦ elim (Bool-cases ((get_log_entry n.storage i).term == e.term)) [
      | inl same ↦ rw old (rw same (inr (refl, ground arith, ground arith)))
      | inr differs ↦
          let ends = get_log_entry-append_log (truncate_log n.storage i) e i in
          rw old (rw differs (inl (ground (arith, here, ends), refl)))
    ]
  ]

  -- The log of `n'` has the entry at its index, or what the log of `n` has there, which has its term.
  abbrev pub Holds : Node Db → Node Db → LogEntry → Type 0
  Holds n n' e =
      (get_log_entry n'.storage e.index ≡ e)
      ⊎ ((e.index ≤ n.last_log_index)
          × ((get_log_entry n.storage e.index).term ≡ e.term)
          × (get_log_entry n'.storage e.index ≡ get_log_entry n.storage e.index))

  -- Above `i` the log of `n` is that of `m`, as far as it goes.
  abbrev pub Continues : Node Db → Node Db → ℕ → Type 0
  Continues m n i =
      (j : ℕ)
      → i < j
      → j ≤ n.last_log_index
      → (j ≤ m.last_log_index) × (get_log_entry n.storage j ≡ get_log_entry m.storage j)

  -- Every entry of a batch is held afterwards.
  pub append_all-Holds :
      (m n : Node Db) (i : ℕ) (es : List LogEntry)
      → Consecutive i es
      → Continues m n i
      → All (Holds m (append_all n i es)) es
  unfolding append_all
  append_all-Holds m n i [] c above = tt
  append_all-Holds m n i (e ∷ es) c above =
      let next = append_entry n (i + 1) e in
      let rest = append_all next (i + 1) es in
      let kept : get_log_entry rest.storage e.index ≡ get_log_entry next.storage e.index =
        append_all-below next (i + 1) es e.index c.1 (omega (arith, c.0)) in
      elim (append_entry_cases n (i + 1) e c.0) [
        | inl (stored, ends) ↦ (
          inl (kept ∙ ap (λ (k : ℕ). get_log_entry next.storage k) c.0 ∙ stored),
          append_all-Holds m next (i + 1) es c.1 (λ j high low. absurd (omega arith)),
        )
        | inr (same, old, term) ↦
            let (was, there) = above (i + 1) (omega arith) old in
            (
              inr (
                omega (arith, c.0),
                ap (λ (k : ℕ). (get_log_entry m.storage k).term) c.0
                    ∙ ap (λ (x : LogEntry). x.term) (sym there)
                    ∙ term,
                kept
                    ∙ ap (λ (k : Node Db). get_log_entry k.storage e.index) same
                    ∙ ap (λ (k : ℕ). get_log_entry n.storage k) c.0
                    ∙ there
                    ∙ ap (λ (k : ℕ). get_log_entry m.storage k) (sym c.0),
              ),
              append_all-Holds m next (i + 1) es c.1 (
                  subst (λ (k : Node Db). Continues m k (i + 1)) (sym same)
                    (λ j high low. above j (omega arith) low)),
            )
      ]

  pub append_all-IsLogOk :
      (n : Node Db) (i : ℕ) (es : List LogEntry)
      → Consecutive i es
      → IsLogOk n
      → IsLogOk (append_all n i es)
  unfolding append_all
  append_all-IsLogOk n i [] c ok = ok
  append_all-IsLogOk n i (e ∷ es) c ok =
      append_all-IsLogOk (append_entry n (i + 1) e) (i + 1) es c.1
        (append_entry-IsLogOk n (i + 1) e c.0 ok)

  -- The log reaches at least to the end of the batch.
  pub append_all-last :
      (n : Node Db) (i : ℕ) (es : List LogEntry)
      → i ≤ n.last_log_index
      → i + length es ≤ (append_all n i es).last_log_index
  unfolding append_all
  append_all-last n i [] h = omega arith
  append_all-last n i (e ∷ es) h =
      omega (
        arith,
        append_all-last (append_entry n (i + 1) e) (i + 1) es (append_entry-last n (i + 1) e),
      )
