-- ===== src/Storage/HardState.antt =====
-- The persisted term and vote: what `saveHardState` changes, and that `loadHardState` reads it.
use raft_distributed_consens.Prelude.{
  Option, Bytes, ap, ℕ, ◌<◌, some, ℤ, pos, int_bound, IsInt, if◌then◌else◌, ◌≡◌,
}
use raft_distributed_consens.Text.{to_string}
use raft_distributed_consens.Text.RoundTrip.{stoi-to_string}
use raft_distributed_consens.External.{External}
use raft_distributed_consens.Storage.Keys.{
  req, Key, key_eq, meta_term, meta_vote, bytes_eq-key_bytes,
}
use raft_distributed_consens.Storage.{
  result_of, get_request_result, Store, at, read_int, load_hard_state, save_hard_state,
}

module _ {Db : Type 0} ⦃env : External Db⦄ where
  open env.rocks use {get-write}

  pub at-save_hard_state :
      (s : Store Db) (term : ℕ) (voted_for : ℤ) (k : Key)
      → at (save_hard_state s term voted_for) k ≡ (
          if key_eq meta_vote k
          then some (to_string voted_for)
          else if key_eq meta_term k
          then some (to_string (pos term))
          else at s k)
  unfolding save_hard_state
  at-save_hard_state s term voted_for k = simp (get-write, bytes_eq-key_bytes)

  -- A saved term and vote, in the range of `int`, are what the next boot loads.
  pub load-save_hard_state :
      (s : Store Db) (term : ℕ) (voted_for : ℤ)
      → term < int_bound
      → IsInt voted_for
      → load_hard_state (save_hard_state s term voted_for) ≡ some (term, voted_for)
  unfolding load_hard_state
  load-save_hard_state s term voted_for t v =
      rw
        (
          at-save_hard_state s term voted_for meta_term,
          at-save_hard_state s term voted_for meta_vote,
        )
        (unfold read_int in rw (stoi-to_string (pos term) t, stoi-to_string voted_for v))

  -- The results of requests are apart from the hard state.
  pub get_request_result-save_hard_state :
      (s : Store Db) (term : ℕ) (voted_for : ℤ) (r : Bytes)
      → get_request_result (save_hard_state s term voted_for) r ≡ get_request_result s r
  unfolding get_request_result
  get_request_result-save_hard_state s term voted_for r =
      ap (λ (o : Option Bytes). (result_of env.proto o).result_message)
        (at-save_hard_state s term voted_for (req r))
