-- ===== src/Replication/Manager/Workers.antt =====
-- A peer has at most one worker at a time.
use raft_distributed_consens.Prelude.{
  true, ℕ, ◌+◌, List, [], ◌∷◌, ◌++◌, ℤ, eq_ℤ, eq_ℤ_iff, if◌then◌else◌, ◌≡◌, ap, arith, ◌↔◌, ◌≤◌,
}
use raft_distributed_consens.External.{External}
use raft_distributed_consens.Replication.{claim_peer, release_peer}
use raft_distributed_consens.Replication.Manager.{
  Manager, begin_pass, visit_peer, finish_worker, ManagerStep, begins_pass, visits, finishes,
  changes, idle, then_step, Managed,
}

-- How many workers a peer has.
abbrev pub workers_of : ℤ → List ℤ → ℕ
workers_of peer [] = 0
workers_of peer (p ∷ ps) = (if eq_ℤ p peer then 1 else 0) + workers_of peer ps

workers_of-append :
    (peer : ℤ) (xs ys : List ℤ)
    → workers_of peer (xs ++ ys) ≡ workers_of peer xs + workers_of peer ys
workers_of-append peer [] ys = omega arith
workers_of-append peer (x ∷ xs) ys = omega (arith, workers_of-append peer xs ys)

module _ {Db : Type 0} ⦃env : External Db⦄ where
  -- A peer's flag is set exactly while it has its one worker.
  abbrev IsFlagged : Manager Db → ℤ → Type 0
  IsFlagged m peer = workers_of peer m.workers ≡ (if m.node.replication_active peer then 1 else 0)

  step-IsFlagged :
      {m m' : Manager Db} (peer : ℤ)
      → ((p : ℤ) → IsFlagged m p)
      → ManagerStep m m'
      → IsFlagged m' peer
  unfolding begin_pass visit_peer finish_worker claim_peer release_peer
  step-IsFlagged {m} peer flagged (begins_pass runs h) = flagged peer
  step-IsFlagged {m} peer flagged (visits {peer = p} h) =
      ground (arith, flagged peer, flagged p, eq_ℤ_iff p peer)
  step-IsFlagged {m} peer flagged (finishes before p after h) = ground (
    arith,
    flagged peer,
    flagged p,
    eq_ℤ_iff p peer,
    workers_of-append peer before (p ∷ after),
    workers_of-append peer before after,
    ap (workers_of peer) h,
  )
  step-IsFlagged {m} peer flagged (changes node same) = ground (arith, flagged peer, same peer)

  Managed-IsFlagged : {m : Manager Db} → Managed m → (peer : ℤ) → IsFlagged m peer
  Managed-IsFlagged (idle free) peer = ground (arith, free peer)
  Managed-IsFlagged (then_step run step) peer = step-IsFlagged peer (Managed-IsFlagged run) step

  -- In whatever order the replication thread, the threads that it starts and the other parts of the
  -- node take their steps, a peer has at most one thread that replicates to it, and its flag is set
  -- exactly while it has one.
  pub one_worker :
      {m : Manager Db} (peer : ℤ)
      → Managed m
      → (workers_of peer m.workers ≤ 1)
        × ((m.node.replication_active peer ≡ true) ↔ (workers_of peer m.workers ≡ 1))
  one_worker {m} peer run =
      let flagged = Managed-IsFlagged run peer in
      (ground (arith, flagged), (λ h. ground (arith, flagged), λ h. ground (arith, flagged)))
