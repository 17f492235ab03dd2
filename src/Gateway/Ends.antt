-- ===== src/Gateway/Ends.antt =====
-- A session comes to an end or waits, whatever a client sends.
use raft_distributed_consens.Gateway.Service.{read_loop_idle, read_loop_next}
use raft_distributed_consens.Gateway.{
  ClientProto, Status, reading, waiting, closed, Session, respond, read_request, read_loop,
}
use raft_distributed_consens.Network.{read_message, read_exactly}
use raft_distributed_consens.Requests.{process_client_request}
use raft_distributed_consens.Node.{Node}
use raft_distributed_consens.External.{External}
use raft_distributed_consens.Prelude.{
  ap, sym, ◌∙◌, ℕ, zero, suc, ◌+◌, ◌*◌, ◌^◌, ◌≤◌, ◌<◌, [], ◌∷◌, some, Bytes, List, length, ◌≡◌, ◌≢◌,
  ◌⊎◌, refl, arith, Option-cases, inl, inr,
}

Status-cases : (s : Status) → (s ≡ reading) ⊎ (s ≡ waiting) ⊎ (s ≡ closed)
Status-cases reading = inl refl
Status-cases waiting = inr (inl refl)
Status-cases closed = inr (inr refl)

read_exactly-shorter :
    (k : ℕ) (s body rest : Bytes) → read_exactly k s ≡ some (body, rest) → length rest ≤ length s
unfolding read_exactly
read_exactly-shorter zero s body rest h = ground arith
read_exactly-shorter (suc k) [] body rest h = ground arith
read_exactly-shorter (suc k) (c ∷ s) body rest h = elim (Option-cases (read_exactly k s)) [
  | inl ended ↦ ground (arith, ended)
  | inr ((b, r), found) ↦ ground (arith, found, read_exactly-shorter k s b r found)
]

-- A read takes the four bytes of the length at least.
read_message-shorter :
    (s body rest : Bytes) → read_message s ≡ some (body, rest) → length rest < length s
unfolding read_message
read_message-shorter (b3 ∷ b2 ∷ b1 ∷ b0 ∷ s) body rest h =
    let size : ℕ = b3 * 2 ^ 24 + b2 * 2 ^ 16 + b1 * 2 ^ 8 + b0 in
    ground (arith, read_exactly-shorter size s body rest)
read_message-shorter [] body rest h = cc
read_message-shorter (b3 ∷ []) body rest h = cc
read_message-shorter (b3 ∷ b2 ∷ []) body rest h = cc
read_message-shorter (b3 ∷ b2 ∷ b1 ∷ []) body rest h = cc

module _ {Db : Type 0} ⦃env : External Db⦄ where
  read_request-shorter :
      (proto : ClientProto) (callback : ℕ) (n : Node Db) (session : Session)
      → let session' = (read_request proto callback n session).1 in
        (session'.status ≢ reading) ⊎ (length session'.input < length session.input)
  unfolding respond read_request
  read_request-shorter proto callback n session = elim (Option-cases (read_message session.input)) [
    | inl ended ↦ rw (ended, read_request) (inl (λ h. cc))
    | inr ((body, rest), got) ↦
        let less = read_message-shorter session.input body rest got in
        elim (Option-cases (proto.parse_request body)) [
          | inl broken ↦ rw (got, broken, read_request) (inl (λ h. cc))
          | inr (req, known) ↦ elim (Option-cases (process_client_request n req callback).1) [
            | inl waits ↦ rw (got, known, waits, read_request) (inl (λ h. cc))
            | inr (resp, answered) ↦ rw (got, known, answered, read_request) (inr less)
          ]
        ]
  ]

  read_loop_idle_ends :
      (proto : ClientProto) (callback fuel : ℕ) (n : Node Db) (session : Session)
      → (session.status ≡ waiting) ⊎ (session.status ≡ closed)
      → (read_loop fuel proto callback n session).1.status ≢ reading
  read_loop_idle_ends proto callback fuel n session idle = λ e.
      let came : session.status ≡ reading =
        ap (λ (p : Node Db × Session). p.1.status)
          (sym (read_loop_idle fuel proto callback n session idle))
        ∙ e in
      ground (arith, came, idle)

  read_loop_ends :
      (proto : ClientProto) (callback fuel : ℕ) (n : Node Db) (input : Bytes) (started : List Bytes)
      (status : Status)
      → length input < fuel
      → (read_loop fuel proto callback n
          (record { input = input; started = started; status = status })).1.status
        ≢ reading
  read_loop_ends proto callback zero n input started status h = absurd (omega arith)
  read_loop_ends proto callback fuel n input started waiting h =
      read_loop_idle_ends proto callback fuel n _ (inl refl)
  read_loop_ends proto callback fuel n input started closed h =
      read_loop_idle_ends proto callback fuel n _ (inr refl)
  read_loop_ends proto callback (suc fuel) n input started reading h = λ e.
      let session : Session = record { input = input; started = started; status = reading } in
      let (n', rest) = read_request proto callback n session in
      let next = read_loop_next fuel proto callback n n' input started rest refl in
      let came = ap (λ (p : Node Db × Session). p.1.status) (sym next) ∙ e in
      elim (Status-cases rest.status) [
        | inl more ↦
            read_loop_ends proto callback fuel n' rest.input rest.started rest.status
              (ground (arith, h, more, read_request-shorter proto callback n session)) came
        | inr idle ↦ read_loop_idle_ends proto callback fuel n' rest idle came
      ]

  -- Whatever bytes a client sends, the session ends up waiting for a callback or closed after as many
  -- reads as there are bytes, and one.
  pub read_loop-ends :
      (proto : ClientProto) (callback : ℕ) (n : Node Db) (session : Session)
      → (read_loop (suc (length session.input)) proto callback n session).1.status ≢ reading
  read_loop-ends proto callback n session =
      read_loop_ends proto callback (suc (length session.input)) n session.input session.started
        session.status (omega arith)
