-- ===== src/Rpc/Commit.antt =====
-- A leader commits its log when a quorum answers, in whatever order its threads take their cycles.
use raft_distributed_consens.Rpc.CatchUp.{finished}
use raft_distributed_consens.Rpc.Schedule.{Scheduled, Advance, Scheduled-Advance}
use raft_distributed_consens.Replication.LogShape.{IsLogOk}
use raft_distributed_consens.External.{External}
use raft_distributed_consens.Node.{Node, leader, ClusterConfig}
use raft_distributed_consens.Node.Peers.{elem}
use raft_distributed_consens.Replication.{count_matches}
use raft_distributed_consens.Replication.Leader.{IsCommitted}
use raft_distributed_consens.Rpc.{Fate, answers_to, replicate_all}
use raft_distributed_consens.Rpc.Calls.{IsWhole, LogMatches}
use raft_distributed_consens.Rpc.Kept.{IsTold}
use raft_distributed_consens.Rpc.Progress.{searching, Progress}
use raft_distributed_consens.Rpc.Turns.{Agrees}
use raft_distributed_consens.Storage.{Store, get_log_entry}
use raft_distributed_consens.Prelude.{
  ℕ, ◌≤◌, List, [], ◌∷◌, Bytes, ℤ, true, ◌≡◌, ◌⊎◌, inl, inr, arith, subst, sym, refl, Bool-cases,
  if◌then◌else◌, some, ◌∙◌, ◌/◌, length, ◌<◌, minus_one, ◌+◌, ap,
}

count_matches_mono :
    (my_id : ℤ) (m m' : ℤ → ℕ) (i : ℕ) (peers : List (ℤ × Bytes))
    → ((id : ℤ) → i ≤ m id → i ≤ m' id)
    → count_matches my_id m i peers ≤ count_matches my_id m' i peers
unfolding count_matches
count_matches_mono my_id m m' i [] more = omega arith
count_matches_mono my_id m m' i ((id, address) ∷ peers) more =
    ground (arith, more id, count_matches_mono my_id m m' i peers more)

-- The match indices when the peers of a list hold all of the log and no other holds anything.
abbrev pub caught_up_to : List ℤ → ℕ → ℤ → ℕ
caught_up_to caught top id = if elem id caught then top else 0

module _ {Db : Type 0} ⦃env : External Db⦄ where
  -- A peer to which a leader has entries to send: its memory describes its log, it is not ahead in
  -- terms, its log has the log matching property with the leader's, and it holds what the leader
  -- takes it to hold.
  pub record IsPending (l f : Node Db) (peer : ℤ) : Type 0 where
    pub known : l.match_index peer < l.next_index peer
    pub unsent : l.next_index peer ≤ l.last_log_index
    pub held : (l.match_index peer ≡ 0) ⊎ Agrees l.storage f (l.match_index peer)
    pub peer_ok : IsLogOk f
    pub young : f.current_term ≤ l.current_term
    pub matches : LogMatches l.storage l.last_log_index f

  -- With no answer left to come, the peer is known to have the log.
  matched :
      (s : Store Db) (top term : ℕ) (p : ℤ) (whole : IsWhole s top) (l f : Node Db) {left : ℕ}
      → left ≡ 0
      → Progress s top term p whole l f left × IsTold top p l
      → l.match_index p ≡ top
  matched s top term p whole l f none_left (ok, told) =
      let next = (finished s top term p whole (l, f) none_left ok).1 in
      elim told [ inl known ↦ omega arith | inr unsent ↦ absurd (omega arith) ]

  -- A leader whose last entry is of its own term commits that entry, and with it all before it, when
  -- a quorum of the peers answer often enough: whatever becomes of the other calls, and in whatever
  -- order the cycles for the peers come. The log is uncompacted, each peer that is asked is one to
  -- which there are entries to send, and nothing that may be committed has been left uncommitted.
  pub quorum_commits :
      (members caught : List ℤ) (schedule : List (ℤ × Fate × ℕ)) (l : Node Db) (nodes : ℤ → Node Db)
      → l.state ≡ leader
      → IsWhole l.storage l.last_log_index
      → 0 < l.last_log_index
      → (get_log_entry l.storage l.last_log_index).term ≡ l.current_term
      → IsCommitted l
      → ((p : ℤ) → elem p members ≡ true → IsPending l (nodes p) p)
      → Scheduled members schedule
      → ((p : ℤ)
          → elem p caught ≡ true
          → (elem p members ≡ true)
            × (l.next_index p + l.last_log_index + 1 ≤ answers_to p schedule))
      → (length l.config.peers + 1) / 2
        < 1
          + count_matches l.config.my_id
              (caught_up_to caught l.last_log_index)
              l.last_log_index
              l.config.peers
      → (done : Node Db × (ℤ → Node Db)) × (replicate_all schedule l nodes ≡ some done)
        × (done.0.state ≡ leader)
        × (l.last_log_index ≤ done.0.commit_index)
  quorum_commits members caught schedule l nodes leads whole some_log own done pending listed enough
        quorum =
      let top = l.last_log_index in
      let begins : Advance l.storage top l.current_term whole members l nodes
          (λ p. l.next_index p + top + 1) =
        record {
          each = λ p member.
              let w = pending p member in
              (
                record {
                  leader_ok = record { leads = leads; log = refl; ends = refl; reigns = refl };
                  peer_ok = w.peer_ok;
                  young = w.young;
                  known = w.known;
                  within = omega (arith, w.unsent);
                  stage = searching w.matches w.held (omega arith);
                },
                inr w.unsent,
              );
          leader_ok = λ p. record { leads = leads; log = refl; ends = refl; reigns = refl };
          committed = done;
        } in
      let (ends, ran, ok, same) =
        Scheduled-Advance l.storage top l.current_term whole members schedule l nodes _ listed
          begins in
      let reigns = ok.leader_ok minus_one in
      let holds : (p : ℤ) → top ≤ caught_up_to caught top p → top ≤ ends.0.match_index p = λ p has.
        elim (Bool-cases (elem p caught)) [
          | inl chosen ↦
              let (member, answered) = enough p chosen in
              omega (
                arith,
                matched l.storage top l.current_term p whole ends.0 (ends.1 p) (omega arith)
                    (ok.each p member),
              )
          | inr other ↦ absurd (ground arith)
        ] in
      (
        ends,
        ran,
        reigns.leads,
        ok.committed top (omega (arith, reigns.ends)) (
          ap (λ (t : Store Db). (get_log_entry t top).term) reigns.log ∙ own ∙ sym reigns.reigns,
          subst
              (λ (c : ClusterConfig).
                (length c.peers + 1) / 2 < 1 + count_matches c.my_id ends.0.match_index top c.peers)
              (sym same)
              (omega (
                arith,
                count_matches_mono l.config.my_id (caught_up_to caught top) ends.0.match_index top
                    l.config.peers holds,
              )),
        ),
      )
