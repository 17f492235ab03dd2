-- ===== src/Cluster/Invariant.antt =====
-- What holds of votes and leaders in every reachable cluster, and why a term has one leader.
use raft_distributed_consens.Node.Peers.{elem, ids, elem-stubs}
use raft_distributed_consens.Cluster.Quorum.{count, count_meet}
use raft_distributed_consens.Cluster.{
  Cluster, Phase, unsent, own, counted, dropped, asked, answered, Sent,
}
use raft_distributed_consens.Node.{Node, follower, leader, stubs}
use raft_distributed_consens.Messages.{RequestVoteArgs, AppendEntriesArgs}
use raft_distributed_consens.Prelude.{
  [], ℕ, ◌+◌, ◌*◌, ◌<◌, ◌≤◌, List, Bool, true, false, ℤ, minus_one, length, ◌≡◌, ◌≢◌, ◌⊎◌, arith,
  inl, inr, refl,
}

-- The peer has given its vote to the candidate.
abbrev pub granted : Phase → Bool
granted (answered r) = r.vote_granted
granted counted = true
granted _ = false

-- The counter of the candidate has the vote.
abbrev pub supports : Phase → Bool
supports own = true
supports counted = true
supports _ = false

-- A thread has been started for the peer.
abbrev pub is_open : Phase → Bool
is_open unsent = false
is_open own = false
is_open _ = true

abbrev pub support : (ℤ → ℕ → ℤ → Phase) → ℤ → ℕ → List ℤ → ℕ
support phase c t members = count (λ p. supports (phase c t p)) members

module _ {Db : Type 0} where
  -- Configurations and peers fit the list of members.
  pub record IsRoster (members : List ℤ) (nodes : ℤ → Node Db) : Type 0 where
    pub named : (v : ℤ) → (nodes v).config.my_id ≡ v
    pub listed : (v p : ℤ) → elem p (ids (nodes v).config.peers) ≡ true → elem p members ≡ true
    pub stubbed :
        (v : ℤ) → (nodes v).peer_stubs ≡ stubs (nodes v).config.my_id (nodes v).config.peers []
    pub sized : (v : ℤ) → length members ≤ length (nodes v).config.peers + 1
    pub proper : elem minus_one members ≡ false

  -- Votes against nodes. A node that gave its vote in its current term follows, and has the vote
  -- still; a candidate or leader has voted for itself.
  pub record IsVoting (nodes : ℤ → Node Db) (phase : ℤ → ℕ → ℤ → Phase) : Type 0 where
    pub self : (v : ℤ) → (nodes v).state ≢ follower → (nodes v).voted_for ≡ v
    pub gave :
        (c : ℤ) (t : ℕ) (p : ℤ)
        → granted (phase c t p) ≡ true
        → (t < (nodes p).current_term)
          ⊎ ((t ≡ (nodes p).current_term)
              × ((nodes p).voted_for ≡ c)
              × ((nodes p).state ≡ follower))
    pub fresh : (c : ℤ) (t : ℕ) (p : ℤ) → (nodes c).current_term < t → phase c t p ≡ unsent

  -- Leaders against nodes. A leader that restarts in its term follows, with its vote for itself.
  pub record IsLed (nodes : ℤ → Node Db) (led : ℤ → ℕ → Bool) : Type 0 where
    pub leading : (v : ℤ) → (nodes v).state ≡ leader → led v (nodes v).current_term ≡ true
    pub reign :
        (c : ℤ) (t : ℕ)
        → led c t ≡ true
        → (t < (nodes c).current_term)
          ⊎ ((t ≡ (nodes c).current_term)
              × (((nodes c).state ≡ leader)
                  ⊎ (((nodes c).state ≡ follower) × ((nodes c).voted_for ≡ c))))

-- Campaigns: a peer gives its vote once in a term.
pub record IsCampaign (members : List ℤ) (phase : ℤ → ℕ → ℤ → Phase) : Type 0 where
  pub asks :
      (c : ℤ) (t : ℕ) (p : ℤ) (args : RequestVoteArgs)
      → phase c t p ≡ asked args
      → (args.term ≡ t) × (args.candidate_id ≡ c)
  pub peers :
      (c : ℤ) (t : ℕ) (p : ℤ)
      → is_open (phase c t p) ≡ true
      → (p ≢ c) × (elem p members ≡ true) × (elem c members ≡ true)
  pub owns : (c : ℤ) (t : ℕ) (p : ℤ) → phase c t p ≡ own → p ≡ c
  pub single :
      (c d : ℤ) (t : ℕ) (p : ℤ)
      → granted (phase c t p) ≡ true
      → granted (phase d t p) ≡ true
      → c ≡ d

-- A leader had the votes that it needed, and has given its own to nobody else.
pub record IsElected (members : List ℤ) (phase : ℤ → ℕ → ℤ → Phase) (votes : ℤ → ℕ → ℕ)
    (led : ℤ → ℕ → Bool) : Type 0 where
  pub chosen : (c d : ℤ) (t : ℕ) → led c t ≡ true → granted (phase d t c) ≡ false
  pub quorum : (c : ℤ) (t : ℕ) → led c t ≡ true → length members < 2 * support phase c t members
  pub tally : (c : ℤ) (t : ℕ) → votes c t ≤ support phase c t members

-- The senders of what is on its way have led in the term of the message.
abbrev pub IsSent : List AppendEntriesArgs → (ℤ → ℕ → Bool) → Type 0
IsSent appends led =
    (args : AppendEntriesArgs) → Sent args appends → led args.leader_id args.term ≡ true

pub record IsSound {Db : Type 0} (members : List ℤ) (s : Cluster Db) : Type 0 where
  pub roster : IsRoster members s.nodes
  pub voting : IsVoting s.nodes s.phase
  pub leaders : IsLed s.nodes s.led
  pub campaigns : IsCampaign members s.phase
  pub elected : IsElected members s.phase s.votes s.led
  pub sent : IsSent s.appends s.led

supports_cases : (x : Phase) → supports x ≡ true → (x ≡ own) ⊎ (granted x ≡ true)
supports_cases own h = inl refl
supports_cases counted h = inr refl
supports_cases unsent h = cc
supports_cases dropped h = cc
supports_cases (asked args) h = cc
supports_cases (answered r) h = cc

-- Two who have led in a term are the same.
pub one_leader :
    (members : List ℤ) (phase : ℤ → ℕ → ℤ → Phase) (votes : ℤ → ℕ → ℕ) (led : ℤ → ℕ → Bool)
    (c d : ℤ) (t : ℕ)
    → IsCampaign members phase
    → IsElected members phase votes led
    → led c t ≡ true
    → led d t ≡ true
    → c ≡ d
one_leader members phase votes led c d t campaigns elected lc ld =
    let (p, by_c, by_d) =
      count_meet (λ q. supports (phase c t q)) (λ q. supports (phase d t q)) members
        (omega (arith, elected.quorum c t lc, elected.quorum d t ld)) in
    ground (
      arith,
      elected.chosen c d t lc,
      elected.chosen d c t ld,
      campaigns.single c d t p,
      campaigns.owns c t p,
      campaigns.owns d t p,
      supports_cases (phase c t p),
      supports_cases (phase d t p),
    )

-- The peers that a node asks are other members.
pub roster-known :
    {Db : Type 0} (members : List ℤ) (nodes : ℤ → Node Db)
    → IsRoster members nodes
    → (v p : ℤ) → elem p (nodes v).peer_stubs ≡ true
    → (elem p members ≡ true) × (p ≢ v)
roster-known members nodes roster v p h =
    let there =
      elem-stubs (nodes v).config.my_id p (nodes v).config.peers (rw (← roster.stubbed v) h) in
    (roster.listed v p there.0, ground (arith, there, roster.named v))
