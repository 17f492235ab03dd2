-- ===== src/Cluster/Quiet.antt =====
-- Steps that leave the campaigns alone: the start, what nodes do on their own, and AppendEntries.
use raft_distributed_consens.Replication.{
  Round, begin_round, make_append_args, handle_append_entries,
}
use raft_distributed_consens.Storage.{Store}
use raft_distributed_consens.Messages.{AppendEntriesArgs}
use raft_distributed_consens.Cluster.Invariant.{IsRoster, IsVoting, IsLed, IsSound, one_leader}
use raft_distributed_consens.Cluster.Moves.{
  Kept, Same, Later, Yields, Calm, Internal-Calm, append_move,
}
use raft_distributed_consens.Cluster.{Phase, Cluster, Internal, Sent, with_node}
use raft_distributed_consens.Node.{Node, update, leader}
use raft_distributed_consens.External.{External}
use raft_distributed_consens.Prelude.{
  ℕ, List, Bool, ℤ, ◌⊎◌, arith, eq_ℤ_iff, true, false, ◌∷◌, some, ◌≡◌, ◌≢◌, inl, inr, Bool-cases,
}

module _ {Db : Type 0} where
  pub IsRoster-Kept :
      (members : List ℤ) (nodes : ℤ → Node Db) (v : ℤ) (n : Node Db)
      → IsRoster members nodes
      → Kept (nodes v) n
      → IsRoster members (update nodes v n)
  IsRoster-Kept members nodes v n roster kept = record {
    named = λ w. ground (arith, roster.named w, eq_ℤ_iff v w);
    listed = λ w p. ground (arith, roster.listed w p, eq_ℤ_iff v w);
    stubbed = λ w. ground (arith, roster.stubbed w, eq_ℤ_iff v w);
    sized = λ w. ground (arith, roster.sized w, eq_ℤ_iff v w);
    proper = roster.proper;
  }

  pub IsVoting-quiet :
      (nodes : ℤ → Node Db) (phase : ℤ → ℕ → ℤ → Phase) (v : ℤ) (n : Node Db)
      → IsVoting nodes phase
      → Same (nodes v) n ⊎ Later (nodes v) n
      → IsVoting (update nodes v n) phase
  IsVoting-quiet nodes phase v n voting change = record {
    self = λ w. ground (arith, voting.self w, eq_ℤ_iff v w);
    gave = λ c t p. ground (arith, voting.gave c t p, eq_ℤ_iff v p);
    fresh = λ c t p. ground (arith, voting.fresh c t p, eq_ℤ_iff v c);
  }

  pub IsLed-quiet :
      (nodes : ℤ → Node Db) (led : ℤ → ℕ → Bool) (v : ℤ) (n : Node Db)
      → IsLed nodes led
      → Same (nodes v) n ⊎ Later (nodes v) n
      → IsLed (update nodes v n) led
  IsLed-quiet nodes led v n leaders change = record {
    leading = λ w. ground (arith, leaders.leading w, eq_ℤ_iff v w);
    reign = λ c t. ground (arith, leaders.reign c t, eq_ℤ_iff v c);
  }

  IsVoting-Yields :
      (nodes : ℤ → Node Db) (phase : ℤ → ℕ → ℤ → Phase) (v : ℤ) (n : Node Db) (term : ℕ)
      → IsVoting nodes phase
      → Yields (nodes v) term n
      → IsVoting (update nodes v n) phase
  IsVoting-Yields nodes phase v n term voting change = record {
    self = λ w. ground (arith, voting.self w, eq_ℤ_iff v w);
    gave = λ c t p. ground (arith, voting.gave c t p, eq_ℤ_iff v p);
    fresh = λ c t p. ground (arith, voting.fresh c t p, eq_ℤ_iff v c);
  }

  IsLed-Yields :
      (nodes : ℤ → Node Db) (led : ℤ → ℕ → Bool) (v : ℤ) (n : Node Db) (term : ℕ)
      → IsLed nodes led
      → Yields (nodes v) term n
      → led v term ≡ false
      → IsLed (update nodes v n) led
  IsLed-Yields nodes led v n term leaders change unled = record {
    leading = λ w. ground (arith, leaders.leading w, eq_ℤ_iff v w);
    reign = λ c t. ground (arith, leaders.reign c t, eq_ℤ_iff v c);
  }

  -- A node other than a leader of the term has not led in it.
  unled_other :
      (members : List ℤ) (s : Cluster Db) (p leader_id : ℤ) (t : ℕ)
      → IsSound members s
      → s.led leader_id t ≡ true
      → p ≢ leader_id
      → s.led p t ≡ false
  unled_other members s p leader_id t sound reigns other = elim (Bool-cases (s.led p t)) [
    | inl also ↦ absurd (
        other (
          one_leader members s.phase s.votes s.led p leader_id t sound.campaigns sound.elected also
            reigns))
    | inr never ↦ never
  ]

  quiet-IsSound :
      (members : List ℤ) (s : Cluster Db) (v : ℤ) (n : Node Db)
      → IsSound members s
      → Calm (s.nodes v) n
      → IsSound members (with_node s v n)
  quiet-IsSound members s v n sound (kept, change) = record {
    roster = IsRoster-Kept members s.nodes v n sound.roster kept;
    voting = IsVoting-quiet s.nodes s.phase v n sound.voting change;
    leaders = IsLed-quiet s.nodes s.led v n sound.leaders change;
    campaigns = sound.campaigns;
    elected = sound.elected;
    sent = sound.sent;
  }

module _ {Db : Type 0} ⦃env : External Db⦄ where
  pub Internal-IsSound :
      (members : List ℤ) (s : Cluster Db) (v : ℤ) {n : Node Db}
      → IsSound members s
      → Internal (s.nodes v) n
      → IsSound members (with_node s v n)
  Internal-IsSound members s v {n} sound step =
      quiet-IsSound members s v n sound (Internal-Calm step)

  pub append-IsSound :
      (members : List ℤ) (s : Cluster Db) (p : ℤ) (args : AppendEntriesArgs) (now : ℕ)
      → IsSound members s
      → Sent args s.appends
      → p ≢ args.leader_id
      → IsSound members (with_node s p (handle_append_entries (s.nodes p) args now).0)
  append-IsSound members s p args now sound sent other =
      let n : Node Db = (handle_append_entries (s.nodes p) args now).0 in
      let (kept, change) = append_move (s.nodes p) args now in
      elim change [
        | inl same ↦ quiet-IsSound members s p n sound (kept, inl same)
        | inr (inl up) ↦ quiet-IsSound members s p n sound (kept, inr up)
        | inr (inr yields) ↦ record {
          roster = IsRoster-Kept members s.nodes p n sound.roster kept;
          voting = IsVoting-Yields s.nodes s.phase p n args.term sound.voting yields;
          leaders =
              IsLed-Yields s.nodes s.led p n args.term sound.leaders yields (
                unled_other members s p args.leader_id args.term sound (sound.sent args sent)
                  other);
          campaigns = sound.campaigns;
          elected = sound.elected;
          sent = sound.sent;
        }
      ]

  -- The round of a leader carries its id and its term.
  round_of_leader :
      (n : Node Db) (peer : ℤ) (r : Round)
      → begin_round n peer ≡ some r
      → (n.state ≡ leader) × (r.current_term ≡ n.current_term) × (r.my_id ≡ n.config.my_id)
  unfolding begin_round
  round_of_leader n peer r h = ground arith

  pub send-IsSound :
      (members : List ℤ) (s : Cluster Db) (c peer : ℤ) (r : Round) (store : Store Db) (prev : ℕ)
      → IsSound members s
      → begin_round (s.nodes c) peer ≡ some r
      → IsSound members (record s { appends = make_append_args store prev r ∷ s.appends })
  unfolding make_append_args
  send-IsSound members s c peer r store prev sound h = record {
    roster = sound.roster;
    voting = sound.voting;
    leaders = sound.leaders;
    campaigns = sound.campaigns;
    elected = sound.elected;
    sent = λ args there. ground (
      arith,
      round_of_leader (s.nodes c) peer r h,
      sound.roster.named c,
      sound.leaders.leading c,
      sound.sent args,
    );
  }
