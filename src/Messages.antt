-- ===== src/Messages.antt =====
-- The messages of protos/client.proto and protos/raft.proto, as the generated classes hold them.
-- Terms, indices and offsets are natural numbers; node ids, hints and amounts are signed.
-- `conflictIndex` and `conflictTerm` of AppendEntriesReply are never set nor read, and left out.
use raft_distributed_consens.Prelude.{ℕ, ℤ, pos, Bool, List, [], Bytes}

pub data RequestType : Type 0 where
  get_balance transfer : RequestType

pub record ClientRequest : Type 0 where
  pub request_id : Bytes
  pub type : RequestType
  pub sender_id : Bytes
  pub receiver_id : Bytes
  pub amount : ℤ

pub record ClientResponse : Type 0 where
  pub success : Bool
  pub result : Bytes
  pub leader_hint : ℤ

pub record LogEntry : Type 0 where
  pub term : ℕ
  pub index : ℕ
  pub command : ClientRequest

pub record CommandResult : Type 0 where
  pub result_message : Bytes
  pub executed_at_index : ℕ

-- Messages with every field at its default.
abbrev pub empty_request : ClientRequest
empty_request = record {
  request_id = [];
  type = get_balance;
  sender_id = [];
  receiver_id = [];
  amount = pos 0;
}

abbrev pub empty_entry : LogEntry
empty_entry = record { term = 0; index = 0; command = empty_request }

abbrev pub empty_result : CommandResult
empty_result = record { result_message = []; executed_at_index = 0 }

pub record RequestVoteArgs : Type 0 where
  pub term : ℕ
  pub candidate_id : ℤ
  pub last_log_index : ℕ
  pub last_log_term : ℕ

pub record RequestVoteReply : Type 0 where
  pub term : ℕ
  pub vote_granted : Bool

pub record AppendEntriesArgs : Type 0 where
  pub term : ℕ
  pub leader_id : ℤ
  pub prev_log_index : ℕ
  pub prev_log_term : ℕ
  pub entries : List LogEntry
  pub leader_commit : ℕ

pub record AppendEntriesReply : Type 0 where
  pub term : ℕ
  pub success : Bool

pub record InstallSnapshotArgs : Type 0 where
  pub term : ℕ
  pub leader_id : ℤ
  pub last_included_index : ℕ
  pub last_included_term : ℕ
  pub snapshot_data : Bytes
  pub offset : ℕ
  pub done : Bool

pub record InstallSnapshotReply : Type 0 where
  pub term : ℕ
