-- ===== src/Cluster/Safety.antt =====
-- Election safety in every cluster that the steps reach.
use raft_distributed_consens.Cluster.Invariant.{IsSound, one_leader}
use raft_distributed_consens.Cluster.Quiet.{Internal-IsSound, append-IsSound, send-IsSound}
use raft_distributed_consens.Cluster.Restarts.{start-IsSound, restart-IsSound}
use raft_distributed_consens.Cluster.Campaigns.{campaign-IsSound}
use raft_distributed_consens.Cluster.Ballots.{request-IsSound}
use raft_distributed_consens.Cluster.Tallies.{reply-IsSound}
use raft_distributed_consens.Cluster.{
  Cluster, Step, campaign, request, reply, send, append, restart, internal, Reach, first, next,
  Sent, Run, here, after, vote_replied, campaign_begins, vote_requested,
}
use raft_distributed_consens.Messages.{AppendEntriesArgs}
use raft_distributed_consens.Node.{leader}
use raft_distributed_consens.External.{External}
use raft_distributed_consens.Prelude.{ℕ, List, ℤ, true, ◌≡◌, arith}

module _ {Db : Type 0} ⦃env : External Db⦄ (members : List ℤ) where
  Step-IsSound : {s t : Cluster Db} → IsSound members s → Step members s t → IsSound members t
  Step-IsSound {s} sound (campaign c now there) = campaign-IsSound members s c now sound there
  Step-IsSound {s} sound (request c t p args now pending) =
      request-IsSound members s c t p args now sound pending
  Step-IsSound {s} sound (reply c t p r pending) = reply-IsSound members s c t p r sound pending
  Step-IsSound {s} sound (send c peer r store prev h) =
      send-IsSound members s c peer r store prev sound h
  Step-IsSound {s} sound (append p args now there other) =
      append-IsSound members s p args now sound there other
  Step-IsSound {s} sound (restart v now persisted h) =
      restart-IsSound members s v now sound persisted h
  Step-IsSound {s} sound (internal v change) = Internal-IsSound members s v sound change

  Reach-IsSound : {s : Cluster Db} → Reach members s → IsSound members s
  Reach-IsSound (first {s} h) = start-IsSound members s h
  Reach-IsSound (next so_far step) = Step-IsSound (Reach-IsSound so_far) step

  -- A leader stays on record.
  Step-led :
      {s t : Cluster Db} (c : ℤ) (u : ℕ) → Step members s t → s.led c u ≡ true → t.led c u ≡ true
  unfolding campaign_begins vote_requested vote_replied
  Step-led c u (campaign d now there) h = h
  Step-led c u (request d t p args now pending) h = h
  Step-led {s} c u (reply d t p r pending) h = ground (arith, h)
  Step-led c u (send d peer r store prev q) h = h
  Step-led c u (append p args now there other) h = h
  Step-led c u (restart v now persisted q) h = h
  Step-led c u (internal v change) h = h

  Run-led :
      {s t : Cluster Db} (c : ℤ) (u : ℕ) → Run members s t → s.led c u ≡ true → t.led c u ≡ true
  Run-led c u here h = h
  Run-led c u (after run step) h = Step-led c u step (Run-led c u run h)

  pub Run-Reach : {s t : Cluster Db} → Reach members s → Run members s t → Reach members t
  Run-Reach so_far here = so_far
  Run-Reach so_far (after run step) = next (Run-Reach so_far run) step

  -- If a node leads in a reachable cluster, and then or after any further steps a node leads in the
  -- same term, then they are the same node.
  pub election_safety :
      {s t : Cluster Db} (c d : ℤ)
      → Reach members s
      → Run members s t
      → (s.nodes c).state ≡ leader
      → (t.nodes d).state ≡ leader
      → (s.nodes c).current_term ≡ (t.nodes d).current_term
      → c ≡ d
  election_safety {s} {t} c d so_far run leads reigns same =
      let before : IsSound members s = Reach-IsSound so_far in
      let now : IsSound members t = Reach-IsSound (Run-Reach so_far run) in
      let earlier = Run-led c (s.nodes c).current_term run (before.leaders.leading c leads) in
      one_leader members t.phase t.votes t.led c d (s.nodes c).current_term now.campaigns
        now.elected earlier (ground (arith, now.leaders.leading d reigns))

  -- In a reachable cluster two AppendEntries requests of the same term carry the same leader.
  pub appends_one_leader :
      {s : Cluster Db} (a b : AppendEntriesArgs)
      → Reach members s
      → Sent a s.appends
      → Sent b s.appends
      → a.term ≡ b.term
      → a.leader_id ≡ b.leader_id
  appends_one_leader {s} a b so_far sent_a sent_b same =
      let sound : IsSound members s = Reach-IsSound so_far in
      one_leader members s.phase s.votes s.led a.leader_id b.leader_id a.term sound.campaigns
        sound.elected (sound.sent a sent_a) (ground (arith, sound.sent b sent_b))
