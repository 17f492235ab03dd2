-- ===== src/Cluster/Campaigns.antt =====
-- The step in which a node begins a campaign.
use raft_distributed_consens.Cluster.Quiet.{IsRoster-Kept}
use raft_distributed_consens.Node.Peers.{elem}
use raft_distributed_consens.Cluster.Invariant.{
  IsSound, IsVoting, IsLed, IsCampaign, IsElected, support, supports, granted, roster-known,
}
use raft_distributed_consens.Cluster.Moves.{Kept}
use raft_distributed_consens.Cluster.Quorum.{count_mono, count_gain}
use raft_distributed_consens.Cluster.{Cluster, Phase, open_campaign, set_votes, campaign_begins}
use raft_distributed_consens.Election.{Campaign, begin_election}
use raft_distributed_consens.Node.{Node, update, candidate}
use raft_distributed_consens.External.{External}
use raft_distributed_consens.Prelude.{
  ℕ, List, ◌+◌, ◌≤◌, ℤ, arith, eq_ℤ, eq_ℤ_iff, eq_ℤ_self, true, false, ◌&&◌, ◌==◌, ◌≡◌, refl, inl,
  inr, Bool-cases,
}

granted-open_campaign :
    (phase : ℤ → ℕ → ℤ → Phase) (c : ℤ) (k : Campaign) (d : ℤ) (t : ℕ) (q : ℤ)
    → granted (open_campaign phase c k d t q) ≡ true
    → granted (phase d t q) ≡ true
granted-open_campaign phase c k d t q = ground arith

-- A campaign in another term or of another candidate keeps its supporters.
support-open_campaign :
    (phase : ℤ → ℕ → ℤ → Phase) (c : ℤ) (k : Campaign) (d : ℤ) (t : ℕ) (members : List ℤ)
    → ((q : ℤ) → supports (phase d t q) ≡ true → (eq_ℤ c d && k.args.term == t) ≡ false)
    → support phase d t members ≤ support (open_campaign phase c k) d t members
support-open_campaign phase c k d t members other =
    count_mono (λ q. supports (phase d t q)) (λ q. supports (open_campaign phase c k d t q)) members
      (λ q. ground (arith, other q))

-- The candidate supports itself.
support-open_campaign_own :
    (phase : ℤ → ℕ → ℤ → Phase) (c : ℤ) (k : Campaign) (d : ℤ) (t : ℕ) (members : List ℤ)
    → elem c members ≡ true
    → (eq_ℤ c d && k.args.term == t) ≡ true
    → 1 ≤ support (open_campaign phase c k) d t members
support-open_campaign_own phase c k d t members there here = omega (
  arith,
  count_gain (λ _. false) (λ q. supports (open_campaign phase c k d t q)) c members (λ q h. cc) refl
      (ground (arith, eq_ℤ_self c)) there,
)

module _ {Db : Type 0} (members : List ℤ) (s : Cluster Db) (c : ℤ) (n : Node Db) (k : Campaign)
    (sound : IsSound members s) (member : elem c members ≡ true) (kept : Kept (s.nodes c) n)
    (stands : n.state ≡ candidate) (newer : n.current_term ≡ (s.nodes c).current_term + 1)
    (own_vote : n.voted_for ≡ c) (term : k.args.term ≡ n.current_term)
    (name : k.args.candidate_id ≡ c) (targets : k.target_peers ≡ (s.nodes c).peer_stubs) where
  began-IsVoting : IsVoting (update s.nodes c n) (open_campaign s.phase c k)
  began-IsVoting = record {
    self = λ w. ground (arith, sound.voting.self w, eq_ℤ_iff c w);
    gave = λ d t p h.
        ground (
          arith,
          sound.voting.gave d t p (granted-open_campaign s.phase c k d t p h),
          eq_ℤ_iff c p,
        );
    fresh = λ d t p. ground (arith, sound.voting.fresh d t p, eq_ℤ_iff c d);
  }

  began-IsLed : IsLed (update s.nodes c n) s.led
  began-IsLed = record {
    leading = λ w. ground (arith, sound.leaders.leading w, eq_ℤ_iff c w);
    reign = λ d t. ground (arith, sound.leaders.reign d t, eq_ℤ_iff c d);
  }

  began-IsCampaign : IsCampaign members (open_campaign s.phase c k)
  began-IsCampaign = record {
    asks = λ d t p args. ground (arith, sound.campaigns.asks d t p args, eq_ℤ_iff c d);
    peers = λ d t p. ground (
      arith,
      sound.campaigns.peers d t p,
      roster-known members s.nodes sound.roster c p,
      eq_ℤ_iff c d,
      eq_ℤ_iff c p,
    );
    owns = λ d t p. ground (arith, sound.campaigns.owns d t p, eq_ℤ_iff c d, eq_ℤ_iff c p);
    single = λ d e t p hd he.
        sound.campaigns.single d e t p (granted-open_campaign s.phase c k d t p hd)
          (granted-open_campaign s.phase c k e t p he);
  }

  -- Nobody supports a candidate in a term that it has not reached.
  unopened : (q : ℤ) → supports (s.phase c k.args.term q) ≡ false
  unopened q = ground (arith, sound.voting.fresh c k.args.term q)

  elsewhere :
      (d : ℤ) (t : ℕ) (q : ℤ)
      → supports (s.phase d t q) ≡ true
      → (eq_ℤ c d && k.args.term == t) ≡ false
  elsewhere d t q h = ground (arith, unopened q, eq_ℤ_iff c d)

  began_tally :
      (d : ℤ) (t : ℕ)
      → set_votes s.votes c n.current_term 1 d t ≤ support (open_campaign s.phase c k) d t members
  began_tally d t = elim (Bool-cases (eq_ℤ c d && n.current_term == t)) [
    | inl here ↦ ground (arith, support-open_campaign_own s.phase c k d t members member)
    | inr other ↦ ground (
      arith,
      sound.elected.tally d t,
      support-open_campaign s.phase c k d t members (elsewhere d t),
    )
  ]

  began-IsElected :
      IsElected members (open_campaign s.phase c k) (set_votes s.votes c n.current_term 1) s.led
  began-IsElected = record {
    chosen = λ d e t h.
        ground (arith, sound.elected.chosen d e t h, granted-open_campaign s.phase c k e t d);
    quorum = λ d t h. omega (
      arith,
      sound.elected.quorum d t h,
      support-open_campaign s.phase c k d t members (elsewhere d t),
    );
    tally = began_tally;
  }

  began-IsSound : IsSound members (record s {
    nodes = update s.nodes c n;
    phase = open_campaign s.phase c k;
    votes = set_votes s.votes c n.current_term 1;
  })
  began-IsSound = record {
    roster = IsRoster-Kept members s.nodes c n sound.roster kept;
    voting = began-IsVoting;
    leaders = began-IsLed;
    campaigns = began-IsCampaign;
    elected = began-IsElected;
    sent = sound.sent;
  }

module _ {Db : Type 0} ⦃env : External Db⦄ where
  pub campaign-IsSound :
      (members : List ℤ) (s : Cluster Db) (c : ℤ) (now : ℕ)
      → IsSound members s
      → elem c members ≡ true
      → IsSound members (campaign_begins s c now)
  unfolding campaign_begins begin_election
  campaign-IsSound members s c now sound member =
      let (n, k) = begin_election (s.nodes c) now in
      began-IsSound members s c n k sound member (refl, refl) refl refl (sound.roster.named c) refl
        (sound.roster.named c) refl
