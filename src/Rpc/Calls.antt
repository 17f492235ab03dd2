-- ===== src/Rpc/Calls.antt =====
-- What is known of a peer's log before and after a call of its leader.
use native.Mathlib.Decide.{dec_lt}
use mathlib.Core.Bool.{false≢true}
use raft_distributed_consens.Replication.Follower.{
  HoldsPrev, append_success_iff, handle_append_entries-IsLogOk,
}
use raft_distributed_consens.Messages.{LogEntry, AppendEntriesArgs, AppendEntriesReply}
use raft_distributed_consens.Prelude.{
  ℕ, ◌+◌, ◌≤◌, ◌<◌, false, ◌≡◌, ◌⊎◌, arith, Bool-cases, true, sym, ◌∙◌, ap, inl, inr, subst,
}
use raft_distributed_consens.External.{External}
use raft_distributed_consens.Storage.{Store, get_log_entry}
use raft_distributed_consens.Node.{Node}
use raft_distributed_consens.Replication.{Round, make_append_args, handle_append_entries}
use raft_distributed_consens.Replication.LogShape.{IsLogOk}
use raft_distributed_consens.Replication.Leader.{Indexed, make_append_args_batch}
use raft_distributed_consens.Rpc.Turns.{Agrees, served_term, refused-log, taken-Agrees, sent_count}

module _ {Db : Type 0} ⦃env : External Db⦄ where
  -- A log with each of its entries at its own index, none of them compacted away.
  pub record IsWhole (s : Store Db) (top : ℕ) : Type 0 where
    pub indexed : Indexed s 0 top
    pub intact : (j : ℕ) → 0 < j → j ≤ top → 0 < (get_log_entry s j).term

  -- Log matching: where the peer has the leader's term at an index, it has it at each index below.
  abbrev pub LogMatches : Store Db → ℕ → Node Db → Type 0
  LogMatches s top f =
      (j : ℕ)
      → 0 < j
      → j ≤ top
      → j ≤ f.last_log_index
      → (get_log_entry f.storage j).term ≡ (get_log_entry s j).term
      → Agrees s f j

  -- What is known of the peer's log before a call: that it holds what it is taken to hold, or that it
  -- has the leader's terms up to `p`.
  abbrev pub Known : Store Db → ℕ → Node Db → ℕ → ℕ → Type 0
  Known s top f p m = (LogMatches s top f × ((m ≡ 0) ⊎ Agrees s f m)) ⊎ Agrees s f p

  module _ (s : Store Db) (top term : ℕ) (whole : IsWhole s top) where
    module _ (f g : Node Db) (last : g.last_log_index ≡ f.last_log_index)
        (log : (j : ℕ) → get_log_entry g.storage j ≡ get_log_entry f.storage j) where
      same_term : (j : ℕ) → (get_log_entry g.storage j).term ≡ (get_log_entry f.storage j).term
      same_term j = ap (λ (e : LogEntry). e.term) (log j)

      same_log-Agrees : {m : ℕ} → Agrees s f m → Agrees s g m
      same_log-Agrees (le, same) = (omega arith, λ j low high. same_term j ∙ same j low high)

      same_log-LogMatches : LogMatches s top f → LogMatches s top g
      same_log-LogMatches matches = λ j low high le same.
          same_log-Agrees (matches j low high (omega arith) (sym (same_term j) ∙ same))

    pub Agrees-below : (f : Node Db) (m p : ℕ) → p ≤ m → Agrees s f m → Agrees s f p
    Agrees-below f m p le agrees =
        (omega (arith, agrees.0), λ j low high. agrees.1 j low (omega arith))

    Agrees-none : (f : Node Db) → Agrees s f 0
    Agrees-none f = (omega arith, λ j low high. absurd (omega arith))

    Held-Agrees : (f : Node Db) (m p : ℕ) → p ≤ m → (m ≡ 0) ⊎ Agrees s f m → Agrees s f p
    Held-Agrees f m p le (inl nothing) =
        subst (λ (k : ℕ). Agrees s f k) (omega arith) (Agrees-none f)
    Held-Agrees f m p le (inr agrees) = Agrees-below f m p le agrees

    module _ (r : Round) (p : ℕ) (at_p : r.next_idx ≡ p + 1) (ends : r.last_log_index ≡ top)
        (reigns : r.current_term ≡ term) (low : p ≤ top) (f : Node Db) (now : ℕ) (ok : IsLogOk f)
        (young : f.current_term ≤ term) where
      abbrev pub args : AppendEntriesArgs
      args = make_append_args s p r

      abbrev pub after : Node Db
      after = (handle_append_entries f args now).0

      abbrev pub reply : AppendEntriesReply
      reply = (handle_append_entries f args now).1

      above_p : Indexed s 0 r.last_log_index
      above_p = λ j least high. whole.indexed j least (omega arith)

      pub call_ok : IsLogOk after × (after.current_term ≡ term) × (reply.term ≡ term)
      unfolding make_append_args
      call_ok =
          let follows =
            (make_append_args_batch s p r at_p (λ j least high. above_p j (omega arith) high)).0 in
          let terms = served_term f args now (omega arith) in
          (handle_append_entries-IsLogOk f args now ok follows, terms.0 ∙ reigns, terms.1 ∙ reigns)

      Agrees-HoldsPrev : Agrees s f p → HoldsPrev f args
      unfolding make_append_args
      Agrees-HoldsPrev (le, same) = elim (dec_lt 0 p) [
        | no none_before ↦ inl (omega arith)
        | yes positive ↦ inr (le, ground (arith, same p positive (omega arith)))
      ]

      HoldsPrev-Agrees : LogMatches s top f → HoldsPrev f args → Agrees s f p
      unfolding make_append_args
      HoldsPrev-Agrees matches holds = elim (dec_lt 0 p) [
        | no none_before ↦ (omega arith, λ j least high. absurd (omega arith))
        | yes positive ↦ elim holds [
          | inl none_before ↦ absurd (omega arith)
          | inr (le, same) ↦ matches p positive low le (ground arith)
        ]
      ]

      pub call_log :
          (m : ℕ)
          → m ≤ p
          → Known s top f p m
          → ((reply.success ≡ true) × Agrees s after (p + sent_count p r))
            ⊎ ((reply.success ≡ false)
                × (¬ Agrees s f p)
                × (m < p)
                × LogMatches s top after
                × ((m ≡ 0) ⊎ Agrees s after m))
      unfolding make_append_args
      call_log m le known =
          let taken_if : HoldsPrev f args → reply.success ≡ true =
            λ holds. (append_success_iff f args now ok).1 (omega arith, holds) in
          elim (Bool-cases reply.success) [
            | inl taken ↦
                let holds = ((append_success_iff f args now ok).0 taken).1 in
                let agrees : Agrees s f p = elim known [
                  | inl searched ↦ HoldsPrev-Agrees searched.0 holds
                  | inr found_before ↦ found_before
                ] in
                inl (taken, taken-Agrees s p r at_p above_p f now ok (omega arith) holds agrees)
            | inr refused ↦
                let (last, log) = refused-log f args now refused in
                let differs : ¬ (Agrees s f p) =
                  λ agrees. false≢true (sym refused ∙ taken_if (Agrees-HoldsPrev agrees)) in
                elim known [
                  | inr found_before ↦ absurd (differs found_before)
                  | inl (matches, held) ↦ inr (
                    refused,
                    differs,
                    elim (dec_lt m p) [
                      | yes below ↦ below
                      | no above ↦ absurd (differs (Held-Agrees f m p (omega arith) held))
                    ],
                    same_log-LogMatches f after last log matches,
                    elim held [
                      | inl nothing ↦ inl nothing
                      | inr agrees ↦ inr (same_log-Agrees f after last log agrees)
                    ],
                  )
                ]
          ]
