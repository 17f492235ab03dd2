-- ===== src/Cluster.antt =====
-- The nodes of a cluster, the threads that ask for votes (src/raft/election.cpp), the
-- AppendEntries on their way (src/raft/replication.cpp) and restarts (src/raft/node.cpp), interleaved
-- in any order. A node restarts only where its term and vote in memory are those on disk.
pub mod Quorum
pub mod Moves
pub mod Invariant
pub mod Quiet
pub mod Campaigns
pub mod Ballots
pub mod Tallies
pub mod Restarts
pub mod Safety
use raft_distributed_consens.Node.Recovery.{restarted}
use raft_distributed_consens.Node.Roles.{IsPersisted}
use raft_distributed_consens.Node.Peers.{elem, ids}
use raft_distributed_consens.Execution.{notify, maybe_compact}
use raft_distributed_consens.Requests.{process_client_request}
use raft_distributed_consens.Transfer.{handle_snapshot_reply, handle_install_snapshot}
use raft_distributed_consens.Replication.{
  Round, begin_round, make_append_args, handle_append_reply, handle_append_entries, claim_peer,
  release_peer,
}
use raft_distributed_consens.Election.{
  Campaign, begin_election, persist_election, handle_vote_reply, handle_request_vote,
}
use raft_distributed_consens.Node.{Node, update, is_leader, make_node, start, stop}
use raft_distributed_consens.Storage.{Store}
use raft_distributed_consens.External.{External}
use raft_distributed_consens.Messages.{
  RequestVoteArgs, RequestVoteReply, AppendEntriesArgs, AppendEntriesReply, InstallSnapshotArgs,
  InstallSnapshotReply, LogEntry, ClientRequest,
}
use raft_distributed_consens.Prelude.{
  ℕ, ◌+◌, ◌≤◌, List, [], ◌∷◌, Bool, true, false, ◌&&◌, ◌||◌, ℤ, eq_ℤ, minus_one, if◌then◌else◌,
  length, ◌≡◌, ◌≢◌, ◌⊎◌, some, ◌==◌, ltb, Bytes,
}

-- The thread that asks the peer `p` for its vote in a campaign: nothing is sent, the request is on
-- its way, the reply is, the reply has been handled and has counted, or has not. `own` stands at the
-- candidate itself, whose vote the counter starts with.
pub data Phase : Type 0 where
  unsent own counted dropped : Phase
  asked : RequestVoteArgs → Phase
  answered : RequestVoteReply → Phase

-- `phase c t p` and `votes c t` (`*votesReceived`) belong to the campaign of `c` in the term `t`.
-- `led c t` records that `c` has been leader in the term `t`; no step reads it.
pub record Cluster (Db : Type 0) : Type 0 where
  pub nodes : ℤ → Node Db
  pub phase : ℤ → ℕ → ℤ → Phase
  pub votes : ℤ → ℕ → ℕ
  pub led : ℤ → ℕ → Bool
  pub appends : List AppendEntriesArgs

abbrev pub set_phase : (ℤ → ℕ → ℤ → Phase) → ℤ → ℕ → ℤ → Phase → ℤ → ℕ → ℤ → Phase
set_phase phase c t p x d u q = if eq_ℤ c d && t == u && eq_ℤ p q then x else phase d u q

abbrev pub set_votes : (ℤ → ℕ → ℕ) → ℤ → ℕ → ℕ → ℤ → ℕ → ℕ
set_votes votes c t n d u = if eq_ℤ c d && t == u then n else votes d u

-- The threads that `startElection` starts.
abbrev pub open_campaign : (ℤ → ℕ → ℤ → Phase) → ℤ → Campaign → ℤ → ℕ → ℤ → Phase
open_campaign phase c campaign d u q =
    if eq_ℤ c d && campaign.args.term == u
    then (if eq_ℤ c q
        then own
        else if elem q campaign.target_peers
        then asked campaign.args
        else unsent)
    else phase d u q

-- `args` has been sent.
abbrev pub Sent : AppendEntriesArgs → List AppendEntriesArgs → Type 0
Sent args [] = ⊥
Sent args (a ∷ sent) = (args ≡ a) ⊎ Sent args sent

module _ {Db : Type 0} where
  -- A node that leads is recorded.
  abbrev pub record_leader : (ℤ → ℕ → Bool) → ℤ → Node Db → ℤ → ℕ → Bool
  record_leader led c n d u = (eq_ℤ c d && n.current_term == u && is_leader n.state) || led d u

  abbrev pub with_node : Cluster Db → ℤ → Node Db → Cluster Db
  with_node s v n = record s { nodes = update s.nodes v n }

module _ {Db : Type 0} ⦃env : External Db⦄ where
  -- The node `c` begins a campaign: its timer may have fired before it came to lead.
  unfoldable pub campaign_begins : Cluster Db → ℤ → ℕ → Cluster Db
  campaign_begins s c now =
      let (n, campaign) = begin_election (s.nodes c) now in
      record s {
        nodes = update s.nodes c n;
        phase = open_campaign s.phase c campaign;
        votes = set_votes s.votes c n.current_term 1;
      }

  -- The peer `p` handles the request of the campaign of `c` in the term `t`.
  unfoldable pub vote_requested : Cluster Db → ℤ → ℕ → ℤ → RequestVoteArgs → ℕ → Cluster Db
  vote_requested s c t p args now =
      let (n, reply) = handle_request_vote (s.nodes p) args now in
      record s { nodes = update s.nodes p n; phase = set_phase s.phase c t p (answered reply) }

  -- The candidate handles the reply of `p`.
  unfoldable pub vote_replied : Cluster Db → ℤ → ℕ → ℤ → RequestVoteReply → Cluster Db
  vote_replied s c t p reply =
      let (n, votes) = handle_vote_reply (s.nodes c) t (s.votes c t) reply in
      record s {
        nodes = update s.nodes c n;
        phase = set_phase s.phase c t p (if ltb (s.votes c t) votes then counted else dropped);
        votes = set_votes s.votes c t votes;
        led = record_leader s.led c n;
      }

  -- What a node does on its own or on a message whose content does not matter for elections.
  pub data Internal (n : Node Db) : Node Db → Type 0 where
    persist : (term : ℕ) (voted_for : ℤ) → Internal n (persist_election n term voted_for)
    append_replied :
        (peer : ℤ) (sent_term : ℕ) (entries : List LogEntry) (reply : AppendEntriesReply)
        → Internal n (handle_append_reply n peer sent_term entries reply)
    snapshot_replied :
        (peer : ℤ) (last_index : ℕ) (reply : InstallSnapshotReply)
        → Internal n (handle_snapshot_reply n peer last_index reply)
    snapshot_installed :
        (args : InstallSnapshotArgs) (now : ℕ) → Internal n (handle_install_snapshot n args now).0
    requested :
        (request : ClientRequest) (callback : ℕ)
        → Internal n (process_client_request n request callback).0
    applied : (entry : LogEntry) (msg : Bytes) → Internal n (maybe_compact (notify n entry msg).0)
    stored : (storage : Store Db) → Internal n (record n { storage = storage })
    claimed : (peer : ℤ) → Internal n (claim_peer n peer).0
    released : (peer : ℤ) → Internal n (release_peer n peer)
    started : Internal n (start n)
    stopped : Internal n (stop n)

  -- One step of the cluster with the given members. A request is sent to a peer once; what a leader
  -- has sent may be received by its peers any number of times, and late.
  pub data Step (members : List ℤ) (s : Cluster Db) : Cluster Db → Type 0 where
    campaign : (c : ℤ) (now : ℕ) → elem c members ≡ true → Step members s (campaign_begins s c now)
    request :
        (c : ℤ) (t : ℕ) (p : ℤ) (args : RequestVoteArgs) (now : ℕ)
        → s.phase c t p ≡ asked args
        → Step members s (vote_requested s c t p args now)
    reply :
        (c : ℤ) (t : ℕ) (p : ℤ) (r : RequestVoteReply)
        → s.phase c t p ≡ answered r
        → Step members s (vote_replied s c t p r)
    send :
        (c peer : ℤ) (r : Round) (store : Store Db) (prev : ℕ)
        → begin_round (s.nodes c) peer ≡ some r
        → Step members s (record s { appends = make_append_args store prev r ∷ s.appends })
    append :
        (p : ℤ) (args : AppendEntriesArgs) (now : ℕ)
        → Sent args s.appends
        → p ≢ args.leader_id
        → Step members s (with_node s p (handle_append_entries (s.nodes p) args now).0)
    restart :
        (v : ℤ) (now : ℕ) {n : Node Db}
        → IsPersisted (s.nodes v)
        → restarted (s.nodes v) now ≡ some n
        → Step members s (with_node s v n)
    internal : (v : ℤ) {n : Node Db} → Internal (s.nodes v) n → Step members s (with_node s v n)

  -- The cluster when all nodes have been constructed, each on a store of its own. The peers of each
  -- configuration are members, and at least all of them but one.
  pub record Starts (members : List ℤ) (s : Cluster Db) : Type 0 where
    pub made :
        (v : ℤ)
        → (storage : Store Db) × (now : ℕ) × (make_node (s.nodes v).config storage now
            ≡ some (s.nodes v))
    pub quiet : (c : ℤ) (t : ℕ) (p : ℤ) → s.phase c t p ≡ unsent
    pub uncounted : (c : ℤ) (t : ℕ) → s.votes c t ≡ 0
    pub unled : (c : ℤ) (t : ℕ) → s.led c t ≡ false
    pub silent : s.appends ≡ []
    pub named : (v : ℤ) → (s.nodes v).config.my_id ≡ v
    pub listed : (v p : ℤ) → elem p (ids (s.nodes v).config.peers) ≡ true → elem p members ≡ true
    pub sized : (v : ℤ) → length members ≤ length (s.nodes v).config.peers + 1
    pub proper : elem minus_one members ≡ false

  pub data Reach (members : List ℤ) : Cluster Db → Type 0 where
    first : {s : Cluster Db} → Starts members s → Reach members s
    next : {s t : Cluster Db} → Reach members s → Step members s t → Reach members t

  -- Any number of further steps.
  pub data Run (members : List ℤ) (s : Cluster Db) : Cluster Db → Type 0 where
    here : Run members s s
    after : {t u : Cluster Db} → Run members s t → Step members t u → Run members s u
