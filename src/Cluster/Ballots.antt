-- ===== src/Cluster/Ballots.antt =====
-- The step in which a peer handles a request for its vote.
use raft_distributed_consens.Cluster.Quiet.{IsRoster-Kept}
use raft_distributed_consens.Node.Peers.{elem}
use raft_distributed_consens.Cluster.Invariant.{
  IsSound, IsVoting, IsLed, IsCampaign, IsElected, support, supports, granted, is_open,
}
use raft_distributed_consens.Cluster.Moves.{request_vote_move, Kept, Same, Later, Grants}
use raft_distributed_consens.Cluster.Quorum.{count_mono}
use raft_distributed_consens.Cluster.{
  handle_request_vote, vote_requested, External, Cluster, Phase, asked, answered, set_phase,
}
use raft_distributed_consens.Messages.{RequestVoteArgs, RequestVoteReply}
use raft_distributed_consens.Node.{Node, update, follower, Role, candidate, leader}
use raft_distributed_consens.Prelude.{
  ◌<◌, ℕ, List, ◌≤◌, ℤ, arith, eq_ℤ_iff, true, false, ◌≡◌, refl, inl, inr, ◌≢◌, minus_one, ◌⊎◌,
}

member_proper :
    (members : List ℤ) (v : ℤ)
    → elem minus_one members ≡ false
    → elem v members ≡ true
    → v ≢ minus_one
member_proper members v proper there same = cc

granted-is_open : (x : Phase) → granted x ≡ true → is_open x ≡ true
granted-is_open x = ground arith

role_cases : (r : Role) → (r ≡ follower) ⊎ (r ≢ follower)
role_cases follower = inl refl
role_cases candidate = inr (λ h. cc)
role_cases leader = inr (λ h. cc)

module _ {Db : Type 0} (members : List ℤ) (s : Cluster Db) (c : ℤ) (t : ℕ) (p : ℤ)
    (args : RequestVoteArgs) (n : Node Db) (r : RequestVoteReply) (sound : IsSound members s)
    (pending : s.phase c t p ≡ asked args) (kept : Kept (s.nodes p) n)
    (move : ((r.vote_granted ≡ false) × (Same (s.nodes p) n ⊎ Later (s.nodes p) n))
      ⊎ ((r.vote_granted ≡ true) × Grants (s.nodes p) args n)) where
  -- The voter is a member other than the candidate.
  parties : (args.term ≡ t) × (args.candidate_id ≡ c) × (p ≢ c) × (p ≢ minus_one) × (c ≢ minus_one)
  parties =
      let (far, there, home) = sound.campaigns.peers c t p (ground arith) in
      let (term, name) = sound.campaigns.asks c t p args pending in
      (
        term,
        name,
        far,
        member_proper members p sound.roster.proper there,
        member_proper members c sound.roster.proper home,
      )

  -- A node that gives its vote follows, and had given it to nobody else.
  move_cases :
      (Same (s.nodes p) n × (r.vote_granted ≡ false))
      ⊎ (Later (s.nodes p) n × (r.vote_granted ≡ false))
      ⊎ ((r.vote_granted ≡ true)
          × (n.current_term ≡ t)
          × (n.voted_for ≡ c)
          × (n.state ≡ follower)
          × (((s.nodes p).current_term < t)
              ⊎ (((s.nodes p).current_term ≡ t)
                  × ((s.nodes p).state ≡ follower)
                  × (((s.nodes p).voted_for ≡ minus_one) ⊎ ((s.nodes p).voted_for ≡ c)))))
  move_cases = ground (arith, parties, move, role_cases (s.nodes p).state, sound.voting.self p)

  request_support :
      (d : ℤ) (u : ℕ)
      → support s.phase d u members ≤ support (set_phase s.phase c t p (answered r)) d u members
  request_support d u =
      count_mono (λ q. supports (s.phase d u q))
        (λ q. supports (set_phase s.phase c t p (answered r) d u q)) members
        (λ q. ground (arith, eq_ℤ_iff c d, eq_ℤ_iff p q))

  granted_cases :
      (d : ℤ) (u : ℕ) (q : ℤ)
      → granted (set_phase s.phase c t p (answered r) d u q) ≡ true
      → (granted (s.phase d u q) ≡ true) ⊎ ((d ≡ c) × (u ≡ t) × (q ≡ p) × (r.vote_granted ≡ true))
  granted_cases d u q = ground (arith, eq_ℤ_iff c d, eq_ℤ_iff p q)

  -- Who already has the vote of the term is the candidate.
  granted_once : (d : ℤ) → r.vote_granted ≡ true → granted (s.phase d t p) ≡ true → d ≡ c
  granted_once d given old =
      let (far, there, home) = sound.campaigns.peers d t p (granted-is_open (s.phase d t p) old) in
      ground (
        arith,
        move_cases,
        sound.voting.gave d t p old,
        member_proper members d sound.roster.proper home,
      )

  request-IsVoting : IsVoting (update s.nodes p n) (set_phase s.phase c t p (answered r))
  request-IsVoting = record {
    self = λ w. ground (arith, move_cases, sound.voting.self w, eq_ℤ_iff p w);
    gave = λ d u q h. ground (
      arith,
      move_cases,
      granted_cases d u q h,
      granted_once d,
      sound.voting.gave d u q,
      eq_ℤ_iff p q,
    );
    fresh = λ d u q.
        ground
          (arith, move_cases, sound.voting.fresh d u q, eq_ℤ_iff c d, eq_ℤ_iff p q, eq_ℤ_iff p d);
  }

  request-IsLed : IsLed (update s.nodes p n) s.led
  request-IsLed = record {
    leading = λ w. ground (arith, move_cases, sound.leaders.leading w, eq_ℤ_iff p w);
    reign = λ d u. ground (arith, parties, move_cases, sound.leaders.reign d u, eq_ℤ_iff p d);
  }

  request-IsCampaign : IsCampaign members (set_phase s.phase c t p (answered r))
  request-IsCampaign = record {
    asks = λ d u q other. ground (arith, sound.campaigns.asks d u q other);
    peers = λ d u q. ground (
      arith,
      sound.campaigns.peers d u q,
      sound.campaigns.peers c t p,
      eq_ℤ_iff c d,
      eq_ℤ_iff p q,
    );
    owns = λ d u q. ground (arith, sound.campaigns.owns d u q);
    single = λ d e u q hd he. ground (
      arith,
      granted_cases d u q hd,
      granted_cases e u q he,
      sound.campaigns.single d e u q,
      granted_once d,
      granted_once e,
    );
  }

  request-IsElected : IsElected members (set_phase s.phase c t p (answered r)) s.votes s.led
  request-IsElected = record {
    chosen = λ d e u h. ground (
      arith,
      parties,
      move_cases,
      sound.elected.chosen d e u h,
      granted_cases e u d,
      sound.leaders.reign d u h,
    );
    quorum = λ d u h. omega (arith, sound.elected.quorum d u h, request_support d u);
    tally = λ d u. omega (arith, sound.elected.tally d u, request_support d u);
  }

  cast-IsSound :
      IsSound members
        (record s { nodes = update s.nodes p n; phase = set_phase s.phase c t p (answered r) })
  cast-IsSound = record {
    roster = IsRoster-Kept members s.nodes p n sound.roster kept;
    voting = request-IsVoting;
    leaders = request-IsLed;
    campaigns = request-IsCampaign;
    elected = request-IsElected;
    sent = sound.sent;
  }

module _ {Db : Type 0} ⦃env : External Db⦄ where
  pub request-IsSound :
      (members : List ℤ) (s : Cluster Db) (c : ℤ) (t : ℕ) (p : ℤ) (args : RequestVoteArgs) (now : ℕ)
      → IsSound members s
      → s.phase c t p ≡ asked args
      → IsSound members (vote_requested s c t p args now)
  unfolding vote_requested
  request-IsSound members s c t p args now sound pending =
      let (n, r) = handle_request_vote (s.nodes p) args now in
      let (kept, move) = request_vote_move (s.nodes p) args now in
      cast-IsSound members s c t p args n r sound pending kept move
