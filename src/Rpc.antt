-- ===== src/Rpc.antt =====
-- src/rpc/peer_client.cpp and src/rpc/grpc_service.cpp: a call from one node to another, and the two
-- functions of a node that are made of such calls, `replicateToPeer` of src/raft/replication.cpp
-- and `sendSnapshot` of src/raft/snapshot.cpp, as they run when no other thread comes in between.
-- gRPC decides what becomes of a call; deadlines are left out.
pub mod Turns
pub mod Calls
pub mod Progress
pub mod Kept
pub mod CatchUp
pub mod Entries
pub mod Schedule
pub mod Commit
use raft_distributed_consens.Prelude.{
  ◌+◌, ℕ, List, [], ◌∷◌, Option, none, some, ℤ, if◌then◌else◌, ◌>>=◌, eq_ℤ,
}
use raft_distributed_consens.Messages.{
  RequestVoteArgs, RequestVoteReply, AppendEntriesArgs, AppendEntriesReply, InstallSnapshotArgs,
  InstallSnapshotReply, LogEntry,
}
use raft_distributed_consens.External.{External}
use raft_distributed_consens.Storage.Snapshot.{SnapshotData, create_snapshot}
use raft_distributed_consens.Node.{Node, update}
use raft_distributed_consens.Election.{handle_request_vote}
use raft_distributed_consens.Replication.{
  handle_append_entries, handle_append_reply, prev_index, needs_snapshot, begin_round, Round,
  make_append_args,
}
use raft_distributed_consens.Transfer.{
  make_snapshot_args, handle_snapshot_reply, handle_install_snapshot,
}

-- What becomes of a call: the request does not arrive, it is served but the caller does not get the
-- reply in time, or the caller gets the reply. Only in the last case is the status of the call OK.
pub data Fate : Type 0 where
  unserved unanswered answered : Fate

-- The replies of a sequence of calls.
abbrev pub spent : Fate → ℕ
spent answered = 1
spent _ = 0

abbrev pub answers : List (Fate × ℕ) → ℕ
answers [] = 0
answers ((fate, now) ∷ cycles) = spent fate + answers cycles

abbrev pub answers_to : ℤ → List (ℤ × Fate × ℕ) → ℕ
answers_to p [] = 0
answers_to p ((peer, fate, now) ∷ schedule) =
    (if eq_ℤ peer p then spent fate else 0) + answers_to p schedule

-- The server after a call, and the reply if the call returns true.
abbrev pub called {ℓ κ} : {N : Type ℓ} {R : Type κ} → Fate → N → N × R → N × Option R
called unserved n served = (n, none)
called unanswered n served = (served.0, none)
called answered n served = (served.0, some served.1)

module _ {Db : Type 0} ⦃env : External Db⦄ where
  -- The service: each method hands its request to the node.
  abbrev pub serve_request_vote : Node Db → RequestVoteArgs → ℕ → Node Db × RequestVoteReply
  serve_request_vote n args now = handle_request_vote n args now

  abbrev pub serve_append_entries : Node Db → AppendEntriesArgs → ℕ → Node Db × AppendEntriesReply
  serve_append_entries n args now = handle_append_entries n args now

  abbrev pub serve_install_snapshot :
      Node Db → InstallSnapshotArgs → ℕ → Node Db × InstallSnapshotReply
  serve_install_snapshot n args now = handle_install_snapshot n args now

  -- The client's calls. The first node is the one that is called.
  abbrev pub send_request_vote :
      Fate → Node Db → RequestVoteArgs → ℕ → Node Db × Option RequestVoteReply
  send_request_vote fate n args now = called fate n (serve_request_vote n args now)

  abbrev pub send_append_entries :
      Fate → Node Db → AppendEntriesArgs → ℕ → Node Db × Option AppendEntriesReply
  send_append_entries fate n args now = called fate n (serve_append_entries n args now)

  abbrev pub send_install_snapshot :
      Fate → Node Db → InstallSnapshotArgs → ℕ → Node Db × Option InstallSnapshotReply
  send_install_snapshot fate n args now = called fate n (serve_install_snapshot n args now)

  -- `if (success) …`, after the call.
  abbrev pub on_append_reply : Node Db → ℤ → ℕ → List LogEntry → Option AppendEntriesReply → Node Db
  on_append_reply l peer sent_term entries none = l
  on_append_reply l peer sent_term entries (some reply) =
      handle_append_reply l peer sent_term entries reply

  abbrev pub on_snapshot_reply : Node Db → ℤ → ℕ → Option InstallSnapshotReply → Node Db
  on_snapshot_reply l peer last_index none = l
  on_snapshot_reply l peer last_index (some reply) = handle_snapshot_reply l peer last_index reply

  -- The caller is `l` and the peer's node is `f`; both are returned. `none` is an exception of
  -- `createSnapshot`.
  unfoldable pub send_snapshot : Fate → ℕ → ℤ → Node Db → Node Db → Option (Node Db × Node Db)
  send_snapshot fate now peer l f = do
    snap ← create_snapshot l.storage
    let sent = send_install_snapshot fate f (make_snapshot_args l snap) now
    some (on_snapshot_reply l peer snap.last_index sent.1, sent.0)

  -- The calls and the reply of a round that has begun.
  unfoldable pub send_round : Fate → ℕ → ℤ → Node Db → Node Db → ℕ → Round → Node Db × Node Db
  send_round fate now peer l f prev r =
      let args = make_append_args l.storage prev r in
      let sent = send_append_entries fate f args now in
      (on_append_reply l peer r.current_term args.entries sent.1, sent.0)

  unfoldable pub replicate_to_peer : Fate → ℕ → ℤ → Node Db → Node Db → Option (Node Db × Node Db)
  unfolding send_round
  replicate_to_peer fate now peer l f = elim (prev_index l peer) [
    | none ↦ some (l, f)
    | some prev ↦
        let snapshot = send_snapshot fate now peer l f in
        if needs_snapshot l.storage prev then snapshot else elim (begin_round l peer) [
          | none ↦ some (l, f)
          | some r ↦ some (send_round fate now peer l f prev r)
        ]
  ]

  -- The cycles of the replication thread for one peer, one after the other. The cycles' times are
  -- those at which the peer serves the calls.
  unfoldable pub replicate : List (Fate × ℕ) → ℤ → Node Db → Node Db → Option (Node Db × Node Db)
  replicate [] peer l f = some (l, f)
  replicate ((fate, now) ∷ cycles) peer l f = do
    nodes ← replicate_to_peer fate now peer l f
    replicate cycles peer nodes.0 nodes.1

  -- Cycles for several peers, in the order in which they come; the nodes of the peers are at their
  -- ids. A cycle runs without another in between.
  unfoldable pub replicate_all :
      List (ℤ × Fate × ℕ) → Node Db → (ℤ → Node Db) → Option (Node Db × (ℤ → Node Db))
  replicate_all [] l nodes = some (l, nodes)
  replicate_all ((peer, fate, now) ∷ schedule) l nodes = do
    done ← replicate_to_peer fate now peer l (nodes peer)
    replicate_all schedule done.0 (update nodes peer done.1)
