-- ===== src/Gateway/Service.antt =====
-- A session serves the requests of a stream in order, one at a time.
use raft_distributed_consens.Gateway.{
  ClientProto, reading, waiting, closed, Session, respond, read_request, read_loop,
}
use raft_distributed_consens.Network.{frame, read_message, max_body}
use raft_distributed_consens.Network.Framing.{read_message-frame}
use raft_distributed_consens.Requests.{process_client_request}
use raft_distributed_consens.Node.{Node}
use raft_distributed_consens.Messages.{ClientRequest, ClientResponse}
use raft_distributed_consens.External.{External}
use mathlib.Core.List.{append-nil, append_assoc}
use raft_distributed_consens.Prelude.{
  ap, sym, ◌∙◌, ℕ, zero, suc, ◌≤◌, List, [], ◌∷◌, ◌++◌, Option, none, some, Bytes, length, All, ◌≡◌,
  refl, Option-cases, inl, inr, ◌⊎◌,
}

-- What is written for some messages.
abbrev pub stream {ℓ} : {A : Type ℓ} → (A → Bytes) → List A → Bytes
stream serialize [] = []
stream serialize (x ∷ xs) = frame (serialize x) ++ stream serialize xs

-- The frame of each message.
abbrev pub frames {ℓ} : {A : Type ℓ} → (A → Bytes) → List A → List Bytes
frames serialize [] = []
frames serialize (x ∷ xs) = frame (serialize x) ∷ frames serialize xs

-- The session after some responses; `left` are the requests behind one that waits.
abbrev pub served :
    ClientProto → Session → List ClientResponse → Option (List ClientRequest) → Session
served proto session responses left = record {
  input = elim left [ none ↦ [] | some reqs ↦ stream proto.serialize_request reqs ];
  started = session.started ++ frames proto.serialize_response responses;
  status = elim left [ none ↦ closed | some reqs ↦ waiting ];
}

module _ {Db : Type 0} ⦃env : External Db⦄ where
  -- Requests in order, up to one that has to wait: the responses, and the requests behind that one.
  abbrev pub serve :
      ℕ → Node Db → List ClientRequest → Node Db × List ClientResponse × Option (List ClientRequest)
  serve callback n [] = (n, [], none)
  serve callback n (req ∷ reqs) =
      let (n', response) = process_client_request n req callback in
      let (n'', responses, left) = serve callback n' reqs in
      elim response [ none ↦ (n', [], some reqs) | some resp ↦ (n'', resp ∷ responses, left) ]

  serve_waits :
      (callback : ℕ) (n : Node Db) (req : ClientRequest) (reqs : List ClientRequest)
      → (process_client_request n req callback).1 ≡ none
      → serve callback n (req ∷ reqs) ≡ ((process_client_request n req callback).0, [], some reqs)
  serve_waits callback n req reqs waits = rw (waits, serve) refl

  serve_answers :
      (callback : ℕ) (n : Node Db) (req : ClientRequest) (reqs : List ClientRequest)
      (resp : ClientResponse)
      → (process_client_request n req callback).1 ≡ some resp
      → serve callback n (req ∷ reqs) ≡ (
        (serve callback (process_client_request n req callback).0 reqs).0,
        resp ∷ (serve callback (process_client_request n req callback).0 reqs).1,
        (serve callback (process_client_request n req callback).0 reqs).2,
      )
  serve_answers callback n req reqs resp answered = rw (answered, serve) refl

  -- The outcome of a session whose requests were served.
  abbrev pub outcome :
      ClientProto
      → Session
      → Node Db × List ClientResponse × Option (List ClientRequest)
      → Node Db × Session
  outcome proto session (n, responses, left) = (n, served proto session responses left)

  pub read_loop_idle :
      (fuel : ℕ) (proto : ClientProto) (callback : ℕ) (n : Node Db) (session : Session)
      → (session.status ≡ waiting) ⊎ (session.status ≡ closed)
      → read_loop fuel proto callback n session ≡ (n, session)
  unfolding read_loop
  read_loop_idle zero proto callback n session idle = refl
  read_loop_idle (suc fuel) proto callback n session (inl h) = rw h refl
  read_loop_idle (suc fuel) proto callback n session (inr h) = rw h refl

  -- One read, where the client has closed the connection, and where a request has come.
  read_request_end :
      (proto : ClientProto) (callback : ℕ) (n : Node Db) (started : List Bytes)
      → read_request proto callback n (record { input = []; started = started; status = reading })
        ≡ (n, record { input = []; started = started; status = closed })
  unfolding read_request read_message
  read_request_end proto callback n started = refl

  read_request-frame :
      (proto : ClientProto) (callback : ℕ) (n : Node Db) (req : ClientRequest) (behind : Bytes)
      (started : List Bytes)
      → length (proto.serialize_request req) ≤ max_body
      → read_request proto callback n (record {
        input = frame (proto.serialize_request req) ++ behind;
        started = started;
        status = reading;
      })
        ≡ (
          (process_client_request n req callback).0,
          elim (process_client_request n req callback).1 [
            | none ↦ record { input = behind; started = started; status = waiting }
            | some resp ↦ record {
              input = behind;
              started = started ++ (frame (proto.serialize_response resp) ∷ []);
              status = reading;
            }
          ],
        )
  unfolding read_request respond
  read_request-frame proto callback n req behind started small =
      let got = read_message-frame (proto.serialize_request req) behind small in
      let known = proto.parse-serialize_request req in
      elim (Option-cases (process_client_request n req callback).1) [
        | inl waits ↦ rw (got, read_request) (rw (known, waits) refl)
        | inr (resp, answered) ↦ rw (got, read_request) (rw (known, answered) refl)
      ]

  pub read_loop_next :
      (fuel : ℕ) (proto : ClientProto) (callback : ℕ) (n n' : Node Db) (input : Bytes)
      (started : List Bytes) (session : Session)
      → read_request proto callback n
          (record { input = input; started = started; status = reading })
        ≡ (n', session)
      → read_loop
          (suc fuel)
          proto
          callback
          n
          (record { input = input; started = started; status = reading })
        ≡ read_loop fuel proto callback n' session
  unfolding read_loop
  read_loop_next fuel proto callback n n' input started session step =
      ap (λ (p : Node Db × Session). read_loop fuel proto callback p.0 p.1) step

  -- One request on a connection, and what `processClientRequest` makes of it.
  module _ (fuel : ℕ) (proto : ClientProto) (callback : ℕ) (n : Node Db) (req : ClientRequest)
      (small : length (proto.serialize_request req) ≤ max_body) where
    abbrev asked : Session
    asked = record { input = frame (proto.serialize_request req); started = []; status = reading }

    abbrev next : Node Db
    next = (process_client_request n req callback).0

    read_request-asked :
        (session : Session)
        → elim (process_client_request n req callback).1 [
          | none ↦ record { input = []; started = []; status = waiting }
          | some resp ↦ record {
            input = [];
            started = frame (proto.serialize_response resp) ∷ [];
            status = reading;
          }
        ]
          ≡ session
        → read_request proto callback n asked ≡ (next, session)
    read_request-asked session came =
        rw (← append-nil (frame (proto.serialize_request req))) (
          read_request-frame proto callback n req [] [] small
          ∙ ap (λ (t : Session). (next, t)) came)

    -- It is answered at once.
    pub read_loop-one :
        (resp : ClientResponse)
        → (process_client_request n req callback).1 ≡ some resp
        → (read_loop (suc (suc fuel)) proto callback n asked).1 ≡ record {
          input = [];
          started = frame (proto.serialize_response resp) ∷ [];
          status = closed;
        }
    read_loop-one resp answered =
        let written : List Bytes = frame (proto.serialize_response resp) ∷ [] in
        ap (λ (p : Node Db × Session). p.1)
          (read_loop_next (suc fuel) proto callback n next asked.input [] _ (
              read_request-asked (record { input = []; started = written; status = reading })
                (rw answered refl))
            ∙ read_loop_next fuel proto callback next next [] written _
                (read_request_end proto callback next written)
            ∙ read_loop_idle fuel proto callback next _ (inr refl))

    -- Its callback is waited for.
    pub read_loop-wait :
        (process_client_request n req callback).1 ≡ none
        → (read_loop (suc (suc fuel)) proto callback n asked).1
          ≡ record { input = []; started = []; status = waiting }
    read_loop-wait waits =
        ap (λ (p : Node Db × Session). p.1)
          (read_loop_next (suc fuel) proto callback n next asked.input [] _ (
              read_request-asked (record { input = []; started = []; status = waiting })
                (rw waits refl))
            ∙ read_loop_idle (suc fuel) proto callback next _ (inl refl))

  -- If a client sends some requests of at most 10 MB each and closes the connection, then the
  -- session hands them to the node in order, up to one whose callback has to be waited for. It has
  -- started a write for each response to those before, in order, has the requests behind it still to
  -- read, and closes where none had to wait. Nothing is said of when the writes end, or of their bytes
  -- where two are under way at once.
  pub read_loop-serve :
      (proto : ClientProto) (callback : ℕ) (n : Node Db) (reqs : List ClientRequest)
      (started : List Bytes)
      → All (λ req. length (proto.serialize_request req) ≤ max_body) reqs
      → let session : Session = record {
        input = stream proto.serialize_request reqs;
        started = started;
        status = reading;
      } in
        read_loop (suc (length reqs)) proto callback n session
        ≡ outcome proto session (serve callback n reqs)
  read_loop-serve proto callback n [] started small =
      read_loop_next 0 proto callback n n [] started _ (read_request_end proto callback n started)
      ∙ read_loop_idle 0 proto callback n _ (inr refl)
      ∙ (ap (λ (out : List Bytes). (n, record { input = []; started = out; status = closed }))
          (sym (append-nil started)))
  read_loop-serve proto callback n (req ∷ reqs) started small =
      let behind : Bytes = stream proto.serialize_request reqs in
      let n' : Node Db = (process_client_request n req callback).0 in
      let session : Bytes → Session =
        λ input. record { input = input; started = started; status = reading } in
      let step = read_request-frame proto callback n req behind started small.0 in
      elim (Option-cases (process_client_request n req callback).1) [
        | inl waits ↦
            read_loop_next (suc (length reqs)) proto callback n n' _ started
              (record { input = behind; started = started; status = waiting })
              (step ∙ rw waits refl)
            ∙ read_loop_idle (suc (length reqs)) proto callback n' _ (inl refl)
            ∙ ap
                (λ (out : List Bytes).
                  (n', record { input = behind; started = out; status = waiting }))
                (sym (append-nil started))
            ∙ ap (outcome proto (session behind)) (sym (serve_waits callback n req reqs waits))
        | inr (resp, answered) ↦
            let rest = serve callback n' reqs in
            let written : List Bytes = started ++ (frame (proto.serialize_response resp) ∷ []) in
            read_loop_next (suc (length reqs)) proto callback n n' _ started
              (record { input = behind; started = written; status = reading })
              (step ∙ rw answered refl)
            ∙ read_loop-serve proto callback n' reqs written small.1
            ∙ ap
                (λ (out : List Bytes).
                  (rest.0, record (served proto (session behind) rest.1 rest.2) { started = out }))
                (append_assoc started (frame (proto.serialize_response resp) ∷ [])
                  (frames proto.serialize_response rest.1))
            ∙ ap (outcome proto (session behind))
                (sym (serve_answers callback n req reqs resp answered))
      ]
