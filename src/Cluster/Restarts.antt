-- ===== src/Cluster/Restarts.antt =====
-- Nodes that are constructed: the start of the cluster, and the restart of one node.
use raft_distributed_consens.Node.Recovery.{restarted, make_node-fields, restarted-fields}
use raft_distributed_consens.Node.Roles.{IsPersisted}
use raft_distributed_consens.Cluster.Invariant.{IsRoster, IsVoting, IsLed, IsSound}
use raft_distributed_consens.Cluster.{Phase, Cluster, with_node, Starts}
use raft_distributed_consens.Node.{Node, update, follower, stubs}
use raft_distributed_consens.External.{External}
use raft_distributed_consens.Prelude.{ℕ, List, [], Bool, ℤ, arith, eq_ℤ_iff, some, ◌≡◌}

module _ {Db : Type 0} where
  -- The node has been constructed again on what it left on disk.
  abbrev Revived : Node Db → Node Db → Type 0
  Revived n n' =
      (n'.config ≡ n.config)
      × (n'.peer_stubs ≡ stubs n.config.my_id n.config.peers [])
      × (n'.state ≡ follower)
      × (n'.current_term ≡ n.current_term)
      × (n'.voted_for ≡ n.voted_for)

  IsRoster-Revived :
      (members : List ℤ) (nodes : ℤ → Node Db) (v : ℤ) (n : Node Db)
      → IsRoster members nodes
      → Revived (nodes v) n
      → IsRoster members (update nodes v n)
  IsRoster-Revived members nodes v n roster back = record {
    named = λ w. ground (arith, roster.named w, eq_ℤ_iff v w);
    listed = λ w p. ground (arith, roster.listed w p, eq_ℤ_iff v w);
    stubbed = λ w. ground (arith, roster.stubbed w, eq_ℤ_iff v w);
    sized = λ w. ground (arith, roster.sized w, eq_ℤ_iff v w);
    proper = roster.proper;
  }

  IsVoting-Revived :
      (nodes : ℤ → Node Db) (phase : ℤ → ℕ → ℤ → Phase) (v : ℤ) (n : Node Db)
      → IsVoting nodes phase
      → Revived (nodes v) n
      → IsVoting (update nodes v n) phase
  IsVoting-Revived nodes phase v n voting back = record {
    self = λ w. ground (arith, voting.self w, eq_ℤ_iff v w);
    gave = λ c t p. ground (arith, voting.gave c t p, eq_ℤ_iff v p);
    fresh = λ c t p. ground (arith, voting.fresh c t p, eq_ℤ_iff v c);
  }

  IsLed-Revived :
      (nodes : ℤ → Node Db) (phase : ℤ → ℕ → ℤ → Phase) (led : ℤ → ℕ → Bool) (v : ℤ) (n : Node Db)
      → IsVoting nodes phase
      → IsLed nodes led
      → Revived (nodes v) n
      → IsLed (update nodes v n) led
  IsLed-Revived nodes phase led v n voting leaders back = record {
    leading = λ w. ground (arith, leaders.leading w, eq_ℤ_iff v w);
    reign = λ c t. ground (arith, leaders.reign c t, voting.self c, eq_ℤ_iff v c);
  }

module _ {Db : Type 0} ⦃env : External Db⦄ where
  pub restart-IsSound :
      (members : List ℤ) (s : Cluster Db) (v : ℤ) (now : ℕ) {n : Node Db}
      → IsSound members s
      → IsPersisted (s.nodes v)
      → restarted (s.nodes v) now ≡ some n
      → IsSound members (with_node s v n)
  restart-IsSound members s v now {n} sound persisted h =
      let back = restarted-fields (s.nodes v) n now persisted h in
      record {
        roster = IsRoster-Revived members s.nodes v n sound.roster back;
        voting = IsVoting-Revived s.nodes s.phase v n sound.voting back;
        leaders = IsLed-Revived s.nodes s.phase s.led v n sound.voting sound.leaders back;
        campaigns = sound.campaigns;
        elected = sound.elected;
        sent = sound.sent;
      }

  start_fields :
      (members : List ℤ) (s : Cluster Db) (v : ℤ)
      → Starts members s
      → ((s.nodes v).state ≡ follower)
        × ((s.nodes v).peer_stubs ≡ stubs (s.nodes v).config.my_id (s.nodes v).config.peers [])
  start_fields members s v h =
      let (storage, now, made) = h.made v in
      ground (arith, make_node-fields (s.nodes v).config storage now (s.nodes v) made)

  pub start-IsSound : (members : List ℤ) (s : Cluster Db) → Starts members s → IsSound members s
  start-IsSound members s h = record {
    roster = record {
      named = h.named;
      listed = h.listed;
      stubbed = λ v. (start_fields members s v h).1;
      sized = h.sized;
      proper = h.proper;
    };
    voting = record {
      self = λ v. ground (arith, start_fields members s v h);
      gave = λ c t p. ground (arith, h.quiet c t p);
      fresh = λ c t p later. h.quiet c t p;
    };
    leaders = record {
      leading = λ v. ground (arith, start_fields members s v h);
      reign = λ c t. ground (arith, h.unled c t);
    };
    campaigns = record {
      asks = λ c t p args. ground (arith, h.quiet c t p);
      peers = λ c t p. ground (arith, h.quiet c t p);
      owns = λ c t p. ground (arith, h.quiet c t p);
      single = λ c d t p. ground (arith, h.quiet c t p);
    };
    elected = record {
      chosen = λ c d t. ground (arith, h.unled c t);
      quorum = λ c t. ground (arith, h.unled c t);
      tally = λ c t. ground (arith, h.uncounted c t);
    };
    sent = λ args there. ground (arith, h.silent);
  }
