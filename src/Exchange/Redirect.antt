-- ===== src/Exchange/Redirect.antt =====
-- A client that asks the wrong node is sent to the leader, over the bytes of the connections.
use raft_distributed_consens.Exchange.{read_reply, attempt, gateway, parse_reply}
use raft_distributed_consens.Client.{answered, find_peer, run_attempts}
use raft_distributed_consens.Client.Retry.{hint_followed}
use raft_distributed_consens.Gateway.{ClientProto, respond}
use raft_distributed_consens.Gateway.Service.{read_loop-one, read_loop-wait}
use raft_distributed_consens.Network.{frame, header, read_exactly, max_body}
use raft_distributed_consens.Network.Framing.{header_value, read_exactly-append}
use raft_distributed_consens.Requests.{
  append_request, find_callback, process_client_request, early_response, not_leader,
}
use raft_distributed_consens.Storage.{get_request_result}
use raft_distributed_consens.Node.{Node, leader}
use raft_distributed_consens.Messages.{ClientRequest, ClientResponse}
use raft_distributed_consens.External.{External}
use mathlib.Core.List.{append-nil}
use raft_distributed_consens.Prelude.{
  ℕ, suc, ◌+◌, ◌^◌, ◌<◌, ◌≤◌, List, [], some, true, ℤ, minus_one, Bytes, length, is_empty, ◌≡◌, ◌≢◌,
  refl, arith, ap, sym, ◌∙◌, Option, none, ◌⊎◌, inl, inr,
}

read_exactly_all : (b : Bytes) → read_exactly (length b) b ≡ some (b, [])
read_exactly_all b = ap (read_exactly (length b)) (sym (append-nil b)) ∙ read_exactly-append b []

length-frame : (payload : Bytes) → length (frame payload) ≡ suc (length payload + 3)
unfolding frame header
length-frame payload = omega arith

read_reply-frame :
    (proto : ClientProto) (payload : Bytes)
    → length payload < 2 ^ 32
    → read_reply proto (frame payload) ≡ answered (proto.parse_response payload)
unfolding read_reply frame header
read_reply-frame proto payload h =
    ap (λ (size : ℕ). parse_reply proto (read_exactly size payload))
      (header_value (length payload) h)
    ∙ ap (parse_reply proto) (read_exactly_all payload)

module _ {Db : Type 0} ⦃env : External Db⦄ where
  -- A request is answered at once, or waits and is answered by its callback in time.
  abbrev pub IsAnswered :
      Node Db → ClientRequest → ℕ → Option ClientResponse → ClientResponse → Type 0
  IsAnswered n req callback later resp =
      ((process_client_request n req callback).1 ≡ some resp)
      ⊎ (((process_client_request n req callback).1 ≡ none) × (later ≡ some resp))

  module _ (proto : ClientProto) (req : ClientRequest) (callback : ℕ) (n : Node Db)
      (later : Option ClientResponse) (resp : ClientResponse)
      (small : length (proto.serialize_request req) ≤ max_body)
      (ends : IsAnswered n req callback later resp) where
    gateway-one :
        gateway proto callback n later (frame (proto.serialize_request req))
        ≡ some (frame (proto.serialize_response resp))
    unfolding gateway respond
    gateway-one =
        let size = length-frame (proto.serialize_request req) in
        let fuel = length (proto.serialize_request req) + 3 in
        elim ends [
          | inl now ↦ rw (size, read_loop-one fuel proto callback n req small resp now) refl
          | inr (waits, comes) ↦
              rw (size, read_loop-wait fuel proto callback n req small waits, comes) refl
        ]

    -- The client gets the response.
    attempt-gateway :
        length (proto.serialize_response resp) < 2 ^ 32
        → attempt proto req (gateway proto callback n later) ≡ answered resp
    unfolding attempt
    attempt-gateway fits =
        rw (gateway-one, attempt)
          (read_reply-frame proto (proto.serialize_response resp) fits
            ∙ ap (λ (r : ClientResponse). answered r) (proto.parse-serialize_response resp))

  refused_at_once :
      (n : Node Db) (req : ClientRequest) (callback : ℕ)
      → n.state ≢ leader
      → (process_client_request n req callback).1 ≡ some (not_leader n.leader_id)
  unfolding process_client_request early_response
  refused_at_once n req callback h = ground arith

  -- The response to a request that has been executed.
  abbrev pub recorded : Node Db → ClientRequest → ClientResponse
  recorded n req = record {
    success = true;
    result = get_request_result n.storage req.request_id;
    leader_hint = n.leader_id;
  }

  recorded_at_once :
      (n : Node Db) (req : ClientRequest) (callback : ℕ)
      → n.state ≡ leader
      → get_request_result n.storage req.request_id ≢ []
      → (process_client_request n req callback).1 ≡ some (recorded n req)
  unfolding process_client_request early_response is_empty
  recorded_at_once n req callback lead h = ground arith

  -- A new request on the leader waits.
  waits_at_once :
      (n : Node Db) (req : ClientRequest) (callback : ℕ)
      → n.state ≡ leader
      → get_request_result n.storage req.request_id ≡ []
      → find_callback req.request_id n.pending_callbacks ≡ none
      → (process_client_request n req callback).1 ≡ none
  unfolding process_client_request early_response append_request is_empty
  waits_at_once n req callback lead fresh idle = ground arith

  -- The leader has executed the request and answers with the recorded result, or the request is new
  -- to it and the callback is called in time.
  abbrev pub IsServed : Node Db → ClientRequest → Option ClientResponse → ClientResponse → Type 0
  IsServed n req later resp =
      ((get_request_result n.storage req.request_id ≢ []) × (resp ≡ recorded n req))
      ⊎ ((get_request_result n.storage req.request_id ≡ [])
          × (find_callback req.request_id n.pending_callbacks ≡ none)
          × (later ≡ some resp))

  IsServed-IsAnswered :
      (n : Node Db) (req : ClientRequest) (callback : ℕ) (later : Option ClientResponse)
      (resp : ClientResponse)
      → n.state ≡ leader
      → IsServed n req later resp
      → IsAnswered n req callback later resp
  IsServed-IsAnswered n req callback later resp lead (inl (done, same)) =
      inl (recorded_at_once n req callback lead done ∙ ap some (sym same))
  IsServed-IsAnswered n req callback later resp lead (inr (fresh, idle, comes)) =
      inr (waits_at_once n req callback lead fresh idle, comes)

  -- A client asks the gateway of a node that does not lead, and that knows as the leader the peer
  -- at position `k`. The node there leads, and either has executed the request, or the request is
  -- new to it and its callback is called with a successful response before the client's timeout.
  -- Then the client's second attempt goes to `k` and gets this response, in the first case a success
  -- with the recorded result, over the bytes that are exchanged, and the client ends at `k` with a
  -- success. The request has at most 10 MB, and the responses are shorter than 4 GB.
  pub redirected_to_leader :
      (proto : ClientProto) (req : ClientRequest) (callback attempts j k : ℕ) (peers : List (ℤ × ℕ))
      (nodes : ℕ → Node Db) (later : ℕ → Option ClientResponse) (resp : ClientResponse)
      → length (proto.serialize_request req) ≤ max_body
      → length (proto.serialize_response (not_leader (nodes j).leader_id)) < 2 ^ 32
      → length (proto.serialize_response resp) < 2 ^ 32
      → (nodes j).state ≢ leader
      → (nodes j).leader_id ≢ minus_one
      → find_peer (nodes j).leader_id 0 peers ≡ some k
      → (nodes k).state ≡ leader
      → IsServed (nodes k) req (later k) resp
      → resp.success ≡ true
      → let network = λ (i : ℕ). attempt proto req (gateway proto callback (nodes i) (later i)) in
        (network k ≡ answered resp)
        × (run_attempts (suc (suc attempts)) peers (λ _ i. network i) j ≡ (k, true))
  redirected_to_leader proto req callback attempts j k peers nodes later resp small fits_j fits_k
        follows known found lead served granted =
      let refusal = not_leader (nodes j).leader_id in
      let asked =
        attempt-gateway proto req callback (nodes j) (later j) refusal small
          (inl (refused_at_once (nodes j) req callback follows)) fits_j in
      let came =
        attempt-gateway proto req callback (nodes k) (later k) resp small
          (IsServed-IsAnswered (nodes k) req callback (later k) resp lead served) fits_k in
      (
        came,
        hint_followed attempts k peers
            (λ _ i. attempt proto req (gateway proto callback (nodes i) (later i))) j refusal resp
            asked refl known found came granted,
      )
