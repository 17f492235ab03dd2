-- ===== src/Examples/Workloads.antt =====
-- Lines of config/workload.csv, and the test on them.
use raft_distributed_consens.Workload.Commands.{
  transfer_line, get_line, requested, tested, send-workload_lines,
}
use raft_distributed_consens.Text.{to_string}
use raft_distributed_consens.Messages.{transfer, get_balance}
use raft_distributed_consens.Prelude.{
  List, [], ◌∷◌, ◌++◌, Bytes, codes, pos, some, ◌≡◌, refl, arith,
}

abbrev payment_line : Bytes
payment_line = transfer_line (codes "1") (codes "2") (pos 30)

abbrev query_line : Bytes
query_line = get_line (codes "1")

send-workload_lines_example :
    let request_id : Bytes = to_string (pos 1) ++ codes "-" ++ to_string (pos 7) in
    (requested (pos 1) 7 payment_line
      ≡ some (
          some (record {
            request_id = request_id;
            type = transfer;
            sender_id = codes "1";
            receiver_id = codes "2";
            amount = pos 30;
          })))
    × (requested (pos 1) 7 query_line
        ≡ some (
            some (record {
              request_id = request_id;
              type = get_balance;
              sender_id = codes "1";
              receiver_id = [];
              amount = pos 0;
            })))
    × (tested (pos 1) 7 payment_line
        ≡ some (record {
          request_id = request_id;
          type = transfer;
          sender_id = codes "1";
          receiver_id = codes "2";
          amount = pos 30;
        }))
    × (tested (pos 1) 7 query_line
        ≡ some (record {
          request_id = request_id;
          type = get_balance;
          sender_id = codes "1";
          receiver_id = [];
          amount = pos 0;
        }))
send-workload_lines_example =
    send-workload_lines (pos 1) 7 (codes "1") (codes "2") (pos 30) refl refl (omega arith)

abbrev file : List Bytes
file = query_line ∷ [] ∷ query_line ∷ []
