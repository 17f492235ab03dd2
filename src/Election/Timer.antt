-- ===== src/Election/Timer.antt =====
-- When the election timer starts a campaign.
use raft_distributed_consens.Prelude.{
  ap, ℕ, ◌+◌, ◌≤◌, ◌<◌, List, [], ◌∷◌, some, none, length, ◌≢◌, ◌≡◌, ◌↔◌, ◌∙◌, refl, arith, true,
  subst, Bool, if◌then◌else◌,
}
use raft_distributed_consens.External.{External}
use raft_distributed_consens.Node.{Node, leader, candidate}
use raft_distributed_consens.Election.{
  Option, Campaign, listed, timer_fires, timer_pass, start_election, begin_election,
  persist_election, run_election_timer,
}

-- The terms of some campaigns are those that follow `term`.
abbrev pub TermsFrom : ℕ → List Campaign → Type 0
TermsFrom term [] = Unit {0}
TermsFrom term (c ∷ campaigns) = (c.args.term ≡ term + 1) × TermsFrom (term + 1) campaigns

module _ {Db : Type 0} ⦃env : External Db⦄ where
  -- A round starts a campaign exactly if the node does not lead and was last heard of, or gave its
  -- last vote, before the sleep, or within the delay by which the thread came late to the lock. The
  -- timeout is positive.
  timer_pass_iff :
      (n : Node Db) (began timeout late : ℕ)
      → 0 < timeout
      → ((timer_pass n began timeout late).1 ≢ none)
        ↔ ((n.state ≢ leader) × (n.last_heartbeat_time ≤ began + late))
  unfolding timer_pass timer_fires
  timer_pass_iff n began timeout late positive = (λ h. ground (arith, h), λ h. ground (arith, h))

  -- A round of a node that has not been heard of since it began.
  silent_pass :
      (n : Node Db) (began timeout late : ℕ)
      → n.state ≢ leader
      → n.last_heartbeat_time ≤ began
      → let now = began + timeout + late in
        timer_pass n began timeout late ≡ ((start_election n now).0, some (start_election n now).1)
  unfolding timer_pass timer_fires start_election
  silent_pass n began timeout late follows silent =
      let now = began + timeout + late in
      let fires : timer_fires n now timeout ≡ true = ground arith in rw (fires, timer_pass) refl

  started :
      (n : Node Db) (now : ℕ)
      → let n' = (start_election n now).0 in
        (n'.state ≡ candidate)
        × (n'.last_heartbeat_time ≡ now)
        × (n'.running ≡ n.running)
        × (n'.current_term ≡ n.current_term + 1)
        × ((start_election n now).1.args.term ≡ n.current_term + 1)
  unfolding start_election begin_election persist_election
  started n now = (refl, refl, refl, refl, refl)

  -- A round and those behind it.
  run_election_timer_step :
      (n : Node Db) (began timeout late : ℕ) (rounds : List (ℕ × ℕ)) (p : Node Db × Option Campaign)
      → n.running ≡ true
      → timer_pass n began timeout late ≡ p
      → let rest = run_election_timer p.0 (began + timeout + late) rounds in
        run_election_timer n began ((timeout, late) ∷ rounds) ≡ (rest.0, listed p.1 rest.1)
  unfolding run_election_timer
  run_election_timer_step n began timeout late rounds p runs passed =
      let ends : Node Db × Option Campaign → Node Db × List Campaign = λ q.
        let rest = run_election_timer q.0 (began + timeout + late) rounds in
        (rest.0, listed q.1 rest.1) in
      ap (λ (b : Bool). if b then ends (timer_pass n began timeout late) else (n, [])) runs
      ∙ ap ends passed

  -- A running node that does not lead, is not heard of and wins no vote starts a campaign in every
  -- round of its election timer, whatever the timeouts and delays, each in the term that follows
  -- the one before, and its own term rises by one in each. It was last heard of, or gave its last
  -- vote, before the first round, and no other thread changes the node.
  pub silent_campaigns :
      (rounds : List (ℕ × ℕ)) (n : Node Db) (began : ℕ)
      → n.running ≡ true
      → n.state ≢ leader
      → n.last_heartbeat_time ≤ began
      → let (n', campaigns) = run_election_timer n began rounds in
        (length campaigns ≡ length rounds)
        × TermsFrom n.current_term campaigns
        × (n'.current_term ≡ n.current_term + length rounds)
  silent_campaigns [] n began runs follows silent =
      unfold run_election_timer in (refl, tt, omega arith)
  silent_campaigns ((timeout, late) ∷ rounds) n began runs follows silent =
      let now = began + timeout + late in
      let next = (start_election n now).0 in
      let (stands, heard, run, term, asked) = started n now in
      let (count, terms, last) =
        silent_campaigns rounds next now (run ∙ runs) (λ e. ground arith) (omega (arith, heard)) in
      rw
        (run_election_timer_step n began timeout late rounds (next, some (start_election n now).1)
          runs (silent_pass n began timeout late follows silent))
        (
          omega (arith, count),
          (asked, subst (λ (t : ℕ). TermsFrom t (run_election_timer next now rounds).1) term terms),
          omega (arith, last, term),
        )
