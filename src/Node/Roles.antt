-- ===== src/Node/Roles.antt =====
-- Changes of role keep the persisted term and vote those in memory.
use raft_distributed_consens.Prelude.{
  Bool-cases, ℕ, ◌<◌, List, [], ◌∷◌, some, true, Bytes, ℤ, int_bound, minus_one, eq_ℤ, ◌≡◌, ◌⊎◌,
  inl, inr, arith,
}
use raft_distributed_consens.External.{External}
use raft_distributed_consens.Storage.{load_hard_state}
use raft_distributed_consens.Storage.HardState.{load-save_hard_state}
use raft_distributed_consens.Node.{ltb, observe_term, Node, update, set_all, become_follower}

-- A peer of the configuration.
abbrev pub IsPeer : ℤ → List (ℤ × Bytes) → Type 0
IsPeer id [] = ⊥
IsPeer id ((j, address) ∷ peers) = (eq_ℤ j id ≡ true) ⊎ IsPeer id peers

set_all_kept :
    (v : ℕ) (peers : List (ℤ × Bytes)) (m : ℤ → ℕ) (id : ℤ) → m id ≡ v → set_all v peers m id ≡ v
unfolding set_all
set_all_kept v [] m id h = h
set_all_kept v ((j, address) ∷ peers) m id h = set_all_kept v peers (update m j v) id (ground arith)

pub set_all-IsPeer :
    (v : ℕ) (peers : List (ℤ × Bytes)) (m : ℤ → ℕ) (id : ℤ)
    → IsPeer id peers
    → set_all v peers m id ≡ v
unfolding set_all
set_all-IsPeer v [] m id h = absurd h
set_all-IsPeer v ((j, address) ∷ peers) m id (inl same) =
    set_all_kept v peers (update m j v) id (rw same)
set_all-IsPeer v ((j, address) ∷ peers) m id (inr later) =
    set_all-IsPeer v peers (update m j v) id later

module _ {Db : Type 0} ⦃env : External Db⦄ where
  -- What the database would be loaded to is what the node has in memory.
  abbrev pub IsPersisted : Node Db → Type 0
  IsPersisted n = load_hard_state n.storage ≡ some (n.current_term, n.voted_for)

  pub become_follower-IsPersisted :
      (n : Node Db) (term : ℕ) → term < int_bound → IsPersisted (become_follower n term)
  unfolding become_follower
  become_follower-IsPersisted n term h =
      load-save_hard_state n.storage term minus_one h (omega arith)

  pub observe_term-IsPersisted :
      (n : Node Db) (term : ℕ)
      → term < int_bound
      → IsPersisted n
      → IsPersisted (observe_term n term)
  unfolding observe_term
  observe_term-IsPersisted n term h p = elim (Bool-cases (ltb n.current_term term)) [
    | inl new ↦ rw new (become_follower-IsPersisted n term h)
    | inr old ↦ rw old p
  ]
