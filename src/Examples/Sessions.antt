-- ===== src/Examples/Sessions.antt =====
-- A client of a node that does not lead, and a client that sends no message at all.
use raft_distributed_consens.Node.{Node, leader}
use raft_distributed_consens.Storage.{get_request_result, result_of}
use raft_distributed_consens.Client.{run_attempts, find_peer, answered}
use raft_distributed_consens.Requests.{find_callback}
use raft_distributed_consens.Exchange.Redirect.{redirected_to_leader, IsServed}
use raft_distributed_consens.Exchange.{attempt, gateway}
use raft_distributed_consens.Examples.Environment.{
  Pairs, environment, print_entry, read_entry, read-print_entry, sign, sign_of, sign_lem,
}
use raft_distributed_consens.Examples.Nodes.{fresh, payment}
use raft_distributed_consens.Gateway.{ClientProto, Session, reading, read_loop}
use raft_distributed_consens.Gateway.Service.{stream, serve, outcome, read_loop-serve}
use raft_distributed_consens.Gateway.Ends.{read_loop-ends}
use raft_distributed_consens.Messages.{ClientRequest, ClientResponse, LogEntry}
use raft_distributed_consens.Prelude.{
  true, List, false, [], ◌∷◌, Bytes, some, ap, Bool-cases, inl, ◌==◌, if◌then◌else◌, ◌≡◌, ◌≢◌, refl,
  arith, pos, ℕ, ℤ, codes, eq_ℤ, Option, none, inr,
}

-- The messages between client and gateway, written in the same way.
abbrev pub print_request : ClientRequest → Bytes
print_request r = print_entry (record { term = 0; index = 0; command = r })

abbrev pub print_response : ClientResponse → Bytes
print_response r =
    (if r.success then 1 else 0) ∷ (sign r.leader_hint).0 ∷ (sign r.leader_hint).1 ∷ r.result

abbrev pub read_response : Bytes → ClientResponse
read_response (c ∷ s ∷ n ∷ m) = record { success = c == 1; result = m; leader_hint = sign_of s n }
read_response _ = record { success = false; result = []; leader_hint = pos 0 }

pub read-print_response : (r : ClientResponse) → read_response (print_response r) ≡ r
read-print_response r = elim (Bool-cases r.success) [
  | inl ok ↦ rw (ok, sign_lem) refl
  | inr refused ↦ rw (refused, sign_lem) refl
]

abbrev pub client_proto : ClientProto
client_proto = record {
  serialize_request = print_request;
  parse_request = λ b. some (read_entry b).command;
  serialize_response = print_response;
  parse_response = read_response;
  parse-serialize_request = λ r.
      ap (λ (e : LogEntry). some e.command)
        (read-print_entry (record { term = 0; index = 0; command = r }));
  parse-serialize_response = read-print_response;
}

abbrev greeting : Session
greeting = record {
  input = stream print_request (payment ∷ payment ∷ []);
  started = [];
  status = reading;
}

read_loop-serve_example :
    read_loop 3 client_proto 4 fresh greeting
    ≡ outcome client_proto greeting (serve 4 fresh (payment ∷ payment ∷ []))
read_loop-serve_example =
    read_loop-serve client_proto 4 fresh (payment ∷ payment ∷ []) []
      (omega arith, (omega arith, tt))

abbrev noise : Session
noise = record { input = 0 ∷ 0 ∷ 0 ∷ 9 ∷ 1 ∷ []; started = []; status = reading }

read_loop-ends_example : (read_loop 6 client_proto 4 fresh noise).1.status ≢ reading
read_loop-ends_example = read_loop-ends client_proto 4 fresh noise

-- The client of two gateways, the second of which leads to a leader, which applies the payment.
abbrev gateways : ℕ → Node Pairs
gateways i = if i == 1 then record fresh { state = leader } else record fresh { leader_id = pos 2 }

abbrev paid : ClientResponse
paid = record { success = true; result = codes "Success"; leader_hint = pos 2 }

abbrev later : ℕ → Option ClientResponse
later i = if i == 1 then some paid else none

abbrev two_peers : List (ℤ × ℕ)
two_peers = (pos 1, 9001) ∷ (pos 2, 9002) ∷ []

second_found : find_peer (pos 2) 0 two_peers ≡ some 1
unfolding find_peer eq_ℤ
second_found = refl

new_to_leader : IsServed (gateways 1) payment (later 1) paid
unfolding get_request_result result_of find_callback
new_to_leader = inr (refl, refl, refl)

redirected_to_leader_example :
    let network =
      λ (i : ℕ). attempt client_proto payment (gateway client_proto 4 (gateways i) (later i)) in
    (network 1 ≡ answered paid) × (run_attempts 5 two_peers (λ _ i. network i) 0 ≡ (1, true))
redirected_to_leader_example =
    redirected_to_leader client_proto payment 4 3 0 1 two_peers gateways later paid (omega arith)
      (omega arith) (omega arith) (λ e. cc) (λ e. ground arith) second_found refl new_to_leader refl
