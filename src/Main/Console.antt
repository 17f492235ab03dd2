-- ===== src/Main/Console.antt =====
-- enterVerificationMode of src/main.cpp: the rows that it prints for an account, one for each node.
use raft_distributed_consens.Storage.{get_balance, get_last_log_index}
use raft_distributed_consens.Node.{Node, Role, follower, candidate, leader}
use raft_distributed_consens.External.{External}
use raft_distributed_consens.Prelude.{
  ℕ, List, [], ◌∷◌, Option, some, ◌>>=◌, Bytes, codes, bytes_eq, if◌then◌else◌, ℤ,
}

pub record Row : Type 0 where
  pub node : ℤ
  pub role : Bytes
  pub balance : ℤ
  pub log_index : ℕ

unfoldable pub role_str : Role → Bytes
role_str follower = codes "FOLLOWER"
role_str candidate = codes "CANDIDATE"
role_str leader = codes "LEADER"

module _ {Db : Type 0} ⦃env : External Db⦄ where
  -- `none` is an exception of `std::stoi` on a balance.
  unfoldable pub check_node : Bytes → Node Db → Option Row
  unfolding role_str
  check_node user_input node = do
    bal ← get_balance node.storage user_input
    some (record {
      node = node.config.my_id;
      role = role_str node.state;
      balance = bal;
      log_index = get_last_log_index node.storage;
    })

  -- The loop over the nodes, for one account.
  unfoldable pub check_user : Bytes → List (Node Db) → Option (List Row)
  unfolding check_node
  check_user user_input [] = some []
  check_user user_input (node ∷ nodes) = do
    row ← check_node user_input node
    rows ← check_user user_input nodes
    some (row ∷ rows)

  -- The whole: the checks up to `exit`. Each input comes with the nodes as they stand then.
  unfoldable pub enter_verification_mode : List (Bytes × List (Node Db)) → Option (List (List Row))
  unfolding check_user
  enter_verification_mode [] = some []
  enter_verification_mode ((user_input, nodes) ∷ inputs) =
      let checked = (do
        rows ← check_user user_input nodes
        later ← enter_verification_mode inputs
        some (rows ∷ later)) in
      if bytes_eq user_input (codes "exit") then some [] else checked
