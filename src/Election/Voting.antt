-- ===== src/Election/Voting.antt =====
-- The voter: when a vote is granted, and what it leaves in memory and on disk.
use raft_distributed_consens.Prelude.{
  ◌&&◌, ℕ, ◌≤◌, ◌<◌, true, int_bound, IsInt, minus_one, eq_ℤ_iff, max, ltb, ◌≡◌, ◌≢◌, ◌↔◌, ◌⊎◌, inl,
  inr, arith, Bool-cases,
}
use raft_distributed_consens.Messages.{RequestVoteArgs}
use raft_distributed_consens.External.{External}
use raft_distributed_consens.Storage.HardState.{load-save_hard_state}
use raft_distributed_consens.Node.{observe_term, Node, become_follower}
use raft_distributed_consens.Node.Roles.{observe_term-IsPersisted, IsPersisted}
use raft_distributed_consens.Election.{
  decide_vote, can_vote, is_log_up_to_date, handle_request_vote,
}

module _ {Db : Type 0} ⦃env : External Db⦄ where
  -- The vote of the term is free, or is the candidate's already.
  abbrev pub MayVote : Node Db → RequestVoteArgs → Type 0
  MayVote n args =
      (n.current_term < args.term)
      ⊎ ((n.current_term ≡ args.term)
          × ((n.voted_for ≡ minus_one) ⊎ (n.voted_for ≡ args.candidate_id)))

  -- The candidate's log is at least as new as the voter's.
  abbrev pub UpToDate : Node Db → RequestVoteArgs → Type 0
  UpToDate n args =
      (n.last_log_term < args.last_log_term)
      ⊎ ((args.last_log_term ≡ n.last_log_term) × (n.last_log_index ≤ args.last_log_index))

  decide_vote_iff :
      (n : Node Db) (args : RequestVoteArgs) (now : ℕ)
      → ((decide_vote n args now).1.vote_granted ≡ true)
        ↔ (((n.voted_for ≡ minus_one) ⊎ (n.voted_for ≡ args.candidate_id)) × UpToDate n args)
  unfolding decide_vote
  decide_vote_iff n args now = (
    λ h. ground (arith, eq_ℤ_iff n.voted_for minus_one, eq_ℤ_iff n.voted_for args.candidate_id),
    λ h. ground (arith, eq_ℤ_iff n.voted_for minus_one, eq_ℤ_iff n.voted_for args.candidate_id),
  )

  decide_vote-IsPersisted :
      (n : Node Db) (args : RequestVoteArgs) (now : ℕ)
      → IsInt args.candidate_id
      → n.current_term < int_bound
      → IsPersisted n
      → IsPersisted (decide_vote n args now).0
  unfolding decide_vote
  decide_vote-IsPersisted n args now k t p =
      elim (Bool-cases (can_vote n args && is_log_up_to_date n args)) [
        | inl grant ↦ rw grant (load-save_hard_state n.storage n.current_term args.candidate_id t k)
        | inr deny ↦ rw deny p
      ]

  module _ (n : Node Db) (args : RequestVoteArgs) (now : ℕ) where
    -- A vote is granted exactly if the voter may vote for the candidate in the candidate's term,
    -- and the candidate's log is up to date.
    pub vote_granted_iff :
        ((handle_request_vote n args now).1.vote_granted ≡ true)
        ↔ (MayVote n args × UpToDate n args)
    unfolding handle_request_vote observe_term become_follower
    vote_granted_iff = (
      λ h. ground (
        arith,
        decide_vote_iff n args now,
        decide_vote_iff (become_follower n args.term) args now,
      ),
      λ h. ground (
        arith,
        decide_vote_iff n args now,
        decide_vote_iff (become_follower n args.term) args now,
      ),
    )

    -- A granted vote is the voter's vote in the candidate's term.
    pub vote_granted_effect :
        (handle_request_vote n args now).1.vote_granted ≡ true
        → ((handle_request_vote n args now).0.current_term ≡ args.term)
          × ((handle_request_vote n args now).0.voted_for ≡ args.candidate_id)
          × ((handle_request_vote n args now).1.term ≡ args.term)
    unfolding handle_request_vote observe_term become_follower decide_vote
    vote_granted_effect h = ground arith

    -- The term becomes the greater of the two, and the reply carries it.
    pub handle_request_vote_term :
        ((handle_request_vote n args now).0.current_term ≡ max n.current_term args.term)
        × ((handle_request_vote n args now).1.term ≡ max n.current_term args.term)
    unfolding handle_request_vote observe_term become_follower decide_vote
    handle_request_vote_term = ground arith

    -- If the handler of RequestVote leaves the term as it is, then a vote that was given stays as it
    -- was: it is never given to another candidate.
    vote_stable :
        (handle_request_vote n args now).0.current_term ≡ n.current_term
        → n.voted_for ≢ minus_one
        → (handle_request_vote n args now).0.voted_for ≡ n.voted_for
    unfolding handle_request_vote observe_term become_follower decide_vote
    vote_stable h k =
        ground (arith, eq_ℤ_iff n.voted_for minus_one, eq_ℤ_iff n.voted_for args.candidate_id)

    -- If the term and the vote in memory are on disk before RequestVote is handled, then those
    -- after it are on disk when the reply is sent; terms and the candidate must be in the range of
    -- `int`.
    pub handle_request_vote-IsPersisted :
        args.term < int_bound
        → IsInt args.candidate_id
        → n.current_term < int_bound
        → IsPersisted n
        → IsPersisted (handle_request_vote n args now).0
    unfolding handle_request_vote
    handle_request_vote-IsPersisted h k t p = elim (Bool-cases (ltb args.term n.current_term)) [
      | inl old ↦ rw old p
      | inr other ↦ rw other (
          decide_vote-IsPersisted (observe_term n args.term) args now k
            (unfold observe_term become_follower in ground arith)
            (observe_term-IsPersisted n args.term h p))
    ]
