-- ===== src/Rpc/Kept.antt =====
-- What a cycle for one peer leaves in the leader: the other peers, what is known of the peer, and the
-- commit index.
use native.Mathlib.Decide.{dec_lt}
use raft_distributed_consens.External.{External}
use raft_distributed_consens.Messages.{LogEntry, AppendEntriesReply}
use raft_distributed_consens.Node.{Node, leader}
use raft_distributed_consens.Replication.{
  handle_append_reply, on_success, backtrack, note_match, last_index,
}
use raft_distributed_consens.Replication.Leader.{IsCommitted, advance_commit-IsCommitted}
use raft_distributed_consens.Rpc.{Fate, unserved, unanswered, answered}
use raft_distributed_consens.Rpc.Calls.{IsWhole}
use raft_distributed_consens.Rpc.Progress.{
  Progress, turned, replied, served, round_args, prev, batch, same_term, log_after, at_prev,
}
use raft_distributed_consens.Rpc.Turns.{
  replied-Leads, replied_refused, replied_taken, replied_others,
}
use raft_distributed_consens.Storage.{Store}
use raft_distributed_consens.Prelude.{
  ℕ, ◌+◌, ◌≤◌, List, [], ◌∷◌, ℤ, false, eq_ℤ, length, ◌≡◌, ◌⊎◌, refl, inl, inr, arith, Bool-cases,
  if◌then◌else◌, sym, subst,
}

module _ {Db : Type 0} ⦃env : External Db⦄ where
  -- Either there are entries to send, or the peer is known to have what was sent.
  abbrev pub IsTold : ℕ → ℤ → Node Db → Type 0
  IsTold top peer l = (l.match_index peer + 1 ≡ l.next_index peer) ⊎ (l.next_index peer ≤ top)

  backtrack-IsCommitted : (l : Node Db) (peer : ℤ) → IsCommitted l → IsCommitted (backtrack l peer)
  unfolding backtrack
  backtrack-IsCommitted l peer done = λ j le c. ground (arith, done j)

  on_success-IsCommitted :
      (l : Node Db) (peer : ℤ) (entries : List LogEntry)
      → IsCommitted l
      → IsCommitted (on_success l peer entries)
  unfolding on_success
  on_success-IsCommitted l peer [] done = done
  on_success-IsCommitted l peer (e ∷ es) done =
      advance_commit-IsCommitted (note_match l peer (last_index e es))

  replied_state :
      (l : Node Db) (peer : ℤ) (entries : List LogEntry) (reply : AppendEntriesReply)
      → l.state ≡ leader
      → reply.term ≡ l.current_term
      → handle_append_reply l peer l.current_term entries reply
        ≡ (if reply.success then on_success l peer entries else backtrack l peer)
  unfolding handle_append_reply
  replied_state l peer entries reply leads same = ground arith

  -- A reply of the leader's term leaves nothing uncommitted that may be committed.
  pub replied-IsCommitted :
      (l : Node Db) (peer : ℤ) (entries : List LogEntry) (reply : AppendEntriesReply)
      → l.state ≡ leader
      → reply.term ≡ l.current_term
      → IsCommitted l
      → IsCommitted (handle_append_reply l peer l.current_term entries reply)
  replied-IsCommitted l peer entries reply leads same done =
      subst IsCommitted (sym (replied_state l peer entries reply leads same))
        (elim (Bool-cases reply.success) [
          | inl taken ↦ rw taken (on_success-IsCommitted l peer entries done)
          | inr refused ↦ rw refused (backtrack-IsCommitted l peer done)
        ])

  pub record Kept (top : ℕ) (peer : ℤ) (l l' : Node Db) : Type 0 where
    pub others :
        (other : ℤ)
        → eq_ℤ peer other ≡ false
        → (l'.next_index other ≡ l.next_index other) × (l'.match_index other ≡ l.match_index other)
    pub config : l'.config ≡ l.config
    pub told : IsTold top peer l → IsTold top peer l'
    pub committed : IsCommitted l → IsCommitted l'

  unchanged-Kept : (top : ℕ) (peer : ℤ) (l : Node Db) → Kept top peer l l
  unchanged-Kept top peer l = record {
    others = λ other differ. (refl, refl);
    config = refl;
    told = λ told. told;
    committed = λ done. done;
  }

  module _ (s : Store Db) (top term : ℕ) (peer : ℤ) (whole : IsWhole s top) where
    replied-IsTold :
        (l f : Node Db) (left now : ℕ) (ok : Progress s top term peer whole l f left)
        → IsTold top peer l
        → IsTold top peer (replied s top term peer whole l f left now ok)
    replied-IsTold l f left now ok told =
        let entries = (round_args s top term peer whole l).entries in
        let reply = (served s top term peer whole l f left now ok).1 in
        let same = same_term s top term peer whole l f left now ok in
        let (follows, count) = batch s top term peer whole l f left now ok in
        elim (log_after s top term peer whole l f left now ok) [
          | inl (taken, agrees) ↦
              let next =
                replied_taken l peer ok.leader_ok.leads entries reply (prev s top term peer whole l)
                  same taken follows (at_prev s top term peer whole l f left now ok)
                  (omega (arith, ok.known)) in
              elim (dec_lt 0 (length entries)) [
                | yes some_sent ↦ inl (omega (arith, next, next.2 some_sent))
                | no none_sent ↦ elim told [
                  | inl known ↦ inl (omega (arith, next.0, next.3 (omega arith), ok.known))
                  | inr unsent ↦ absurd (omega (arith, count, ok.leader_ok.ends))
                ]
              ]
          | inr (refused, differs, below, matches, held) ↦
              let next =
                replied_refused l peer ok.leader_ok.leads entries reply same refused
                  (omega arith) in
              elim told [
                | inl known ↦ absurd (omega (arith, below))
                | inr unsent ↦ inr (omega (arith, next))
              ]
        ]

    replied-Kept :
        (l f : Node Db) (left now : ℕ) (ok : Progress s top term peer whole l f left)
        → Kept top peer l (replied s top term peer whole l f left now ok)
    replied-Kept l f left now ok =
        let entries = (round_args s top term peer whole l).entries in
        let reply = (served s top term peer whole l f left now ok).1 in
        let same = same_term s top term peer whole l f left now ok in
        record {
          others = replied_others l peer ok.leader_ok.leads entries reply;
          config = (replied-Leads l peer ok.leader_ok.leads entries reply same).4;
          told = replied-IsTold l f left now ok;
          committed = replied-IsCommitted l peer entries reply ok.leader_ok.leads same;
        }

    pub turned-Kept :
        (fate : Fate) (now : ℕ) (l f : Node Db) (left : ℕ)
        → Progress s top term peer whole l f left
        → Kept top peer l (turned s top term peer whole fate now l f).0
    turned-Kept unserved now l f left ok = unchanged-Kept top peer l
    turned-Kept unanswered now l f left ok = unchanged-Kept top peer l
    turned-Kept answered now l f left ok = replied-Kept l f left now ok
