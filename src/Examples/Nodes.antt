-- ===== src/Examples/Nodes.antt =====
-- Nodes of a cluster of three, at rest and with one entry.
use raft_distributed_consens.Examples.Environment.{Pairs, environment}
use raft_distributed_consens.Replication.Leader.{Indexed}
use raft_distributed_consens.Replication.LogShape.{IsLogOk, appended-IsLogOk}
use raft_distributed_consens.Storage.Log.{get_log_entry-append_log}
use raft_distributed_consens.Storage.{Store, append_log, get_log_entry}
use raft_distributed_consens.Node.{ClusterConfig, Node, follower, leader}
use raft_distributed_consens.Messages.{ClientRequest, LogEntry, transfer}
use raft_distributed_consens.Prelude.{
  ℕ, [], ◌∷◌, pos, minus_one, codes, true, false, ◌≡◌, refl, arith, if◌then◌else◌, ◌==◌,
}

abbrev pub cluster : ClusterConfig
cluster = record {
  my_id = pos 1;
  tcp_port = 9001;
  rpc_port = 50051;
  peers = (pos 1, codes "a:1") ∷ (pos 2, codes "b:2") ∷ (pos 3, codes "c:3") ∷ [];
}

abbrev pub empty_store : Store Pairs
empty_store = record { db = []; last_log_index_cache = 0 }

abbrev pub fresh : Node Pairs
fresh = record {
  config = cluster;
  storage = empty_store;
  peer_stubs = pos 2 ∷ pos 3 ∷ [];
  current_term = 1;
  voted_for = minus_one;
  last_log_index = 0;
  last_log_term = 0;
  state = follower;
  leader_id = minus_one;
  running = true;
  commit_index = 0;
  last_applied = 0;
  last_heartbeat_time = 0;
  next_index = λ _. 1;
  match_index = λ _. 0;
  pending_callbacks = [];
  replication_active = λ _. false;
}

abbrev pub payment : ClientRequest
payment = record {
  request_id = codes "r1";
  type = transfer;
  sender_id = codes "1";
  receiver_id = codes "2";
  amount = pos 30;
}

abbrev pub first_entry : LogEntry
first_entry = record { term = 1; index = 1; command = payment }

-- A node with one entry.
abbrev pub holder : Node Pairs
holder = record fresh {
  storage = append_log empty_store first_entry;
  last_log_index = 1;
  last_log_term = 1;
}

-- The leader whose entry the others hold.
abbrev pub head : Node Pairs
head = record holder {
  state = leader;
  leader_id = pos 1;
  next_index = λ _. 2;
  match_index = λ _. 1;
}

pub fresh-IsLogOk : IsLogOk fresh
fresh-IsLogOk = record { cached = refl; last_term = λ h. absurd (omega arith) }

pub holder-IsLogOk : IsLogOk holder
holder-IsLogOk = appended-IsLogOk fresh 1 first_entry refl empty_store

pub holder-entry :
    (i : ℕ)
    → get_log_entry holder.storage i ≡ (if 1 == i then first_entry else get_log_entry empty_store i)
holder-entry i = get_log_entry-append_log empty_store first_entry i

pub holder-Indexed : Indexed holder.storage 0 1
holder-Indexed j low high = ground (arith, holder-entry j)
