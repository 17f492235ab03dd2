-- ===== src/Cluster/Tallies.antt =====
-- The step in which a candidate handles the reply of a peer, and may come to lead.
use raft_distributed_consens.Cluster.Quiet.{IsRoster-Kept}
use raft_distributed_consens.Cluster.Invariant.{
  IsSound, IsVoting, IsLed, IsCampaign, support, supports, granted,
}
use raft_distributed_consens.Cluster.Moves.{Kept, Same, Later, Counts, vote_reply_move}
use raft_distributed_consens.Cluster.Quorum.{count_mono, count_gain}
use raft_distributed_consens.Cluster.{
  Cluster, Phase, answered, counted, dropped, set_phase, set_votes, record_leader, vote_replied,
}
use raft_distributed_consens.Election.{handle_vote_reply, votes_needed}
use raft_distributed_consens.Messages.{RequestVoteReply}
use raft_distributed_consens.Node.{Node, ClusterConfig, update, candidate}
use raft_distributed_consens.External.{External}
use raft_distributed_consens.Prelude.{
  ℕ, List, ◌+◌, ◌≤◌, ℤ, arith, eq_ℤ, eq_ℤ_iff, eq_ℤ_self, true, false, ◌&&◌, ◌==◌, ◌≡◌, inl, inr,
  Bool-cases, ◌⊎◌, ltb, ◌*◌, ◌<◌, length, if◌then◌else◌,
}

-- A node of a cluster that is no larger than its list of peers and itself needs a majority.
needed_majority :
    (members : List ℤ) (config : ClusterConfig)
    → length members ≤ length config.peers + 1
    → length members < 2 * votes_needed config
unfolding votes_needed
needed_majority members config sized = omega arith

module _ {Db : Type 0} (members : List ℤ) (s : Cluster Db) (c : ℤ) (t : ℕ) (p : ℤ)
    (r : RequestVoteReply) (n : Node Db) (votes : ℕ) (sound : IsSound members s)
    (pending : s.phase c t p ≡ answered r) (kept : Kept (s.nodes c) n)
    (move : ((votes ≡ s.votes c t) × (Same (s.nodes c) n ⊎ Later (s.nodes c) n))
      ⊎ ((votes ≡ s.votes c t + 1)
          × (r.vote_granted ≡ true)
          × Counts (s.nodes c) t (s.votes c t) n)) where
  abbrev outcome : Phase
  outcome = if ltb (s.votes c t) votes then counted else dropped

  abbrev phase_after : ℤ → ℕ → ℤ → Phase
  phase_after = set_phase s.phase c t p outcome

  -- No vote is given by this step.
  granted_before :
      (d : ℤ) (u : ℕ) (q : ℤ) → granted (phase_after d u q) ≡ true → granted (s.phase d u q) ≡ true
  granted_before d u q = ground (arith, eq_ℤ_iff c d, eq_ℤ_iff p q)

  -- Nor is one taken from the counter.
  supports_after :
      (d : ℤ) (u : ℕ) (q : ℤ)
      → supports (s.phase d u q) ≡ true
      → supports (phase_after d u q) ≡ true
  supports_after d u q = ground (arith, eq_ℤ_iff c d, eq_ℤ_iff p q)

  reply_support : (d : ℤ) (u : ℕ) → support s.phase d u members ≤ support phase_after d u members
  reply_support d u =
      count_mono (λ q. supports (s.phase d u q)) (λ q. supports (phase_after d u q)) members
        (supports_after d u)

  reply_support_gain :
      s.votes c t < votes → support s.phase c t members + 1 ≤ support phase_after c t members
  reply_support_gain more =
      count_gain (λ q. supports (s.phase c t q)) (λ q. supports (phase_after c t q)) p members
        (supports_after c t) (ground arith) (ground (arith, eq_ℤ_self c, eq_ℤ_self p))
        (sound.campaigns.peers c t p (ground arith)).1

  reply-IsVoting : IsVoting (update s.nodes c n) phase_after
  reply-IsVoting = record {
    self = λ w. ground (arith, sound.voting.self w, eq_ℤ_iff c w);
    gave =
        λ d u q h. ground (arith, sound.voting.gave d u q (granted_before d u q h), eq_ℤ_iff c q);
    fresh = λ d u q. ground (arith, sound.voting.fresh d u q, eq_ℤ_iff c d, eq_ℤ_iff p q);
  }

  reply-IsLed : IsLed (update s.nodes c n) (record_leader s.led c n)
  reply-IsLed = record {
    leading = λ w. ground (arith, sound.leaders.leading w, eq_ℤ_iff c w);
    reign = λ d u. ground (arith, sound.leaders.reign d u, eq_ℤ_iff c d);
  }

  reply-IsCampaign : IsCampaign members phase_after
  reply-IsCampaign = record {
    asks = λ d u q other. ground (arith, sound.campaigns.asks d u q other);
    peers = λ d u q. ground (
      arith,
      sound.campaigns.peers d u q,
      sound.campaigns.peers c t p,
      eq_ℤ_iff c d,
      eq_ℤ_iff p q,
    );
    owns = λ d u q. ground (arith, sound.campaigns.owns d u q);
    single = λ d e u q hd he.
        sound.campaigns.single d e u q (granted_before d u q hd) (granted_before e u q he);
  }

  -- Who newly leads is the candidate, with the votes that it needs and none given away.
  record_cases :
      (d : ℤ) (u : ℕ)
      → record_leader s.led c n d u ≡ true
      → (s.led d u ≡ true)
        ⊎ ((d ≡ c)
            × (u ≡ t)
            × (s.votes c t < votes)
            × (votes ≡ votes_needed (s.nodes c).config)
            × ((s.nodes c).current_term ≡ t)
            × ((s.nodes c).state ≡ candidate))
  record_cases d u = ground (arith, sound.leaders.leading c, eq_ℤ_iff c d)

  reply_chosen :
      (d e : ℤ) (u : ℕ) → record_leader s.led c n d u ≡ true → granted (phase_after e u d) ≡ false
  reply_chosen d e u h = ground (
    arith,
    record_cases d u h,
    granted_before e u d,
    sound.elected.chosen d e u,
    sound.voting.gave e u d,
  )

  reply_quorum :
      (d : ℤ) (u : ℕ)
      → record_leader s.led c n d u ≡ true
      → length members < 2 * support phase_after d u members
  reply_quorum d u h = elim (record_cases d u h) [
    | inl old ↦ omega (arith, sound.elected.quorum d u old, reply_support d u)
    | inr (who, term, more, enough, _, _) ↦
        rw (who, term) omega
          (
            arith,
            reply_support_gain more,
            needed_majority members (s.nodes c).config (sound.roster.sized c),
            sound.elected.tally c t,
          )
  ]

  counted_tally : votes ≤ support phase_after c t members
  counted_tally = ground (arith, sound.elected.tally c t, reply_support c t, reply_support_gain)

  reply_tally : (d : ℤ) (u : ℕ) → set_votes s.votes c t votes d u ≤ support phase_after d u members
  reply_tally d u = elim (Bool-cases (eq_ℤ c d && t == u)) [
    | inl here ↦
        let who : c ≡ d = ground (arith, eq_ℤ_iff c d) in
        let term : t ≡ u = ground arith in
        rw (← who, ← term) ground (arith, eq_ℤ_self c, counted_tally)
    | inr other ↦ ground (arith, sound.elected.tally d u, reply_support d u)
  ]

  tallied-IsSound : IsSound members (record s {
    nodes = update s.nodes c n;
    phase = phase_after;
    votes = set_votes s.votes c t votes;
    led = record_leader s.led c n;
  })
  tallied-IsSound = record {
    roster = IsRoster-Kept members s.nodes c n sound.roster kept;
    voting = reply-IsVoting;
    leaders = reply-IsLed;
    campaigns = reply-IsCampaign;
    elected = record { chosen = reply_chosen; quorum = reply_quorum; tally = reply_tally };
    sent = λ args there. ground (arith, sound.sent args there);
  }

module _ {Db : Type 0} ⦃env : External Db⦄ where
  pub reply-IsSound :
      (members : List ℤ) (s : Cluster Db) (c : ℤ) (t : ℕ) (p : ℤ) (r : RequestVoteReply)
      → IsSound members s
      → s.phase c t p ≡ answered r
      → IsSound members (vote_replied s c t p r)
  unfolding vote_replied
  reply-IsSound members s c t p r sound pending =
      let (n, votes) = handle_vote_reply (s.nodes c) t (s.votes c t) r in
      let (kept, move) = vote_reply_move (s.nodes c) t (s.votes c t) r in
      tallied-IsSound members s c t p r n votes sound pending kept move
