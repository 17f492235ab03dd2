-- ===== src/Client/Retry.antt =====
-- The client never looks beyond its list of peers, and follows a hint to the peer that it names.
use raft_distributed_consens.Client.{
  Attempt, find_peer, redirect, run_attempts, failed, answered, next_peer,
}
use raft_distributed_consens.Messages.{ClientResponse}
use raft_distributed_consens.Prelude.{
  ℕ, zero, suc, ◌+◌, ◌<◌, List, [], ◌∷◌, some, ℤ, eq_ℤ, minus_one, length, ◌≡◌, arith, Bool-cases,
  Option-cases, inl, inr, ◌⊎◌, ◌≢◌, refl, true, false, eq_ℤ_iff, ap, ◌∙◌,
}

find_peer-bound :
    (id : ℤ) (i k : ℕ) (peers : List (ℤ × ℕ)) → find_peer id i peers ≡ some k → k < i + length peers
unfolding find_peer
find_peer-bound id i k [] h = cc
find_peer-bound id i k ((j, port) ∷ peers) h = ground (arith, find_peer-bound id (i + 1) k peers)

next_peer-bound :
    (peers : List (ℤ × ℕ)) (current : ℕ)
    → current < length peers
    → next_peer peers current < length peers
next_peer-bound peers current h = omega arith

redirect-bound :
    (peers : List (ℤ × ℕ)) (current : ℕ) (resp : ClientResponse)
    → current < length peers
    → redirect peers current resp < length peers
unfolding redirect
redirect-bound peers current resp h = elim (Bool-cases (eq_ℤ resp.leader_hint minus_one)) [
  | inl unknown ↦ rw unknown (next_peer-bound peers current h)
  | inr known ↦ elim (Option-cases (find_peer resp.leader_hint 0 peers)) [
    | inl absent ↦ rw (known, absent) h
    | inr (k, found) ↦
        rw (known, found) (omega (arith, find_peer-bound resp.leader_hint 0 k peers found))
  ]
]

Attempt-cases : (a : Attempt) → (a ≡ failed) ⊎ ((resp : ClientResponse) × (a ≡ answered resp))
Attempt-cases failed = inl refl
Attempt-cases (answered resp) = inr (resp, refl)

-- Whatever the network brings in any number of attempts: if the client starts at a position in its
-- list of peers, then the position that it has afterwards is in the list.
run_attempts-bound :
    (attempts : ℕ) (peers : List (ℤ × ℕ)) (network : ℕ → ℕ → Attempt) (current : ℕ)
    → current < length peers
    → (run_attempts attempts peers network current).0 < length peers
unfolding run_attempts
run_attempts-bound zero peers network current h = h
run_attempts-bound (suc attempts) peers network current h =
    elim (Attempt-cases (network attempts current)) [
      | inl lost ↦
          rw (lost, run_attempts)
            (run_attempts-bound attempts peers network (next_peer peers current)
              (next_peer-bound peers current h))
      | inr (resp, came) ↦ elim (Bool-cases resp.success) [
        | inl done ↦ rw (came, run_attempts) (rw done h)
        | inr refused ↦
            rw (came, run_attempts)
              (rw refused (
                run_attempts-bound attempts peers network (redirect peers current resp)
                  (redirect-bound peers current resp h)))
      ]
    ]

redirect_hinted :
    (k : ℕ) (peers : List (ℤ × ℕ)) (current : ℕ) (resp : ClientResponse)
    → resp.leader_hint ≢ minus_one
    → find_peer resp.leader_hint 0 peers ≡ some k
    → redirect peers current resp ≡ k
unfolding redirect
redirect_hinted k peers current resp hint found =
    let known : eq_ℤ resp.leader_hint minus_one ≡ false =
      ground (arith, eq_ℤ_iff resp.leader_hint minus_one) in
    rw (known, found) refl

-- With two attempts or more, a client that asks a node which refuses and names the peer at position
-- `k` as the leader, where `k` answers the next attempt with success, ends at `k` with a success.
pub hint_followed :
    (attempts k : ℕ) (peers : List (ℤ × ℕ)) (network : ℕ → ℕ → Attempt) (current : ℕ)
    (refusal resp : ClientResponse)
    → network (suc attempts) current ≡ answered refusal
    → refusal.success ≡ false
    → refusal.leader_hint ≢ minus_one
    → find_peer refusal.leader_hint 0 peers ≡ some k
    → network attempts k ≡ answered resp
    → resp.success ≡ true
    → run_attempts (suc (suc attempts)) peers network current ≡ (k, true)
unfolding run_attempts
hint_followed attempts k peers network current refusal resp asked declined hint found came granted =
    let hinted = redirect_hinted k peers current refusal hint found in
    let there : network attempts (redirect peers current refusal) ≡ answered resp =
      ap (network attempts) hinted ∙ came in
    rw (asked, run_attempts)
      (rw declined (rw (there, run_attempts) (rw granted (ap (λ (i : ℕ). (i, true)) hinted))))
