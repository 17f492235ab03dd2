-- ===== src/Rpc/CatchUp.antt =====
-- A leader that stays the leader brings a peer's log to its own, whichever calls are lost.
use raft_distributed_consens.Storage.{Store, get_log_entry}
use raft_distributed_consens.Prelude.{ℕ, ◌+◌, ◌≤◌, ◌<◌, List, some, ℤ, ◌≡◌, refl, arith, inl, subst}
use raft_distributed_consens.External.{External}
use raft_distributed_consens.Node.{Node, leader}
use raft_distributed_consens.Replication.LogShape.{IsLogOk}
use raft_distributed_consens.Rpc.{Fate, answers, replicate}
use raft_distributed_consens.Rpc.Turns.{Agrees}
use raft_distributed_consens.Rpc.Calls.{IsWhole, LogMatches}
use raft_distributed_consens.Rpc.Entries.{EntriesMatch, replicate-EntriesMatch}
use raft_distributed_consens.Rpc.Progress.{Progress, searching, found}

module _ {Db : Type 0} ⦃env : External Db⦄ where
  -- With nothing left to do the peer has the leader's log.
  pub finished :
      (s : Store Db) (top term : ℕ) (peer : ℤ) (whole : IsWhole s top) (nodes : Node Db × Node Db)
      {left : ℕ}
      → left ≡ 0
      → Progress s top term peer whole nodes.0 nodes.1 left
      → Agrees s nodes.1 top × (nodes.0.next_index peer ≡ top + 1)
  finished s top term peer whole nodes none_left ok = elim ok.stage [
    | searching _ _ bound ↦ absurd (omega arith)
    | found agrees bound ↦
        let next : nodes.0.next_index peer ≡ top + 1 = omega (arith, ok.within) in
        (subst (Agrees s nodes.1) (omega arith) agrees, next)
  ]

  -- A leader with an uncompacted log that knows nothing of a peer brings the peer's log to its own:
  -- after cycles in which enough calls are answered, its next index for the peer is behind the end
  -- of its log, and up to there the peer's log has the leader's entries, commands included. Any of
  -- the other calls may be lost, before or after they are served. The peer is not ahead in terms,
  -- its memory describes its log, and the two logs have the log matching property: where the peer
  -- has the leader's term at an index, it has the leader's entry there, and the leader's terms below.
  -- Nothing else changes the two nodes.
  pub caught_up :
      (cycles : List (Fate × ℕ)) (peer : ℤ) (l f : Node Db)
      → l.state ≡ leader
      → IsWhole l.storage l.last_log_index
      → l.match_index peer ≡ 0
      → 0 < l.next_index peer
      → l.next_index peer ≤ l.last_log_index + 1
      → IsLogOk f
      → f.current_term ≤ l.current_term
      → LogMatches l.storage l.last_log_index f
      → EntriesMatch l.storage l.last_log_index f
      → l.next_index peer + l.last_log_index + 1 ≤ answers cycles
      → (nodes : Node Db × Node Db) × (replicate cycles peer l f ≡ some nodes)
        × (nodes.0.state ≡ leader)
        × (nodes.0.next_index peer ≡ l.last_log_index + 1)
        × (l.last_log_index ≤ nodes.1.last_log_index)
        × ((j : ℕ)
            → 0 < j
            → j ≤ l.last_log_index
            → get_log_entry nodes.1.storage j ≡ get_log_entry l.storage j)
  caught_up cycles peer l f leads whole unmet low high ok young matches entries enough =
      let top = l.last_log_index in
      let begins : Progress l.storage top l.current_term peer whole l f (answers cycles) = record {
        leader_ok = record { leads = leads; log = refl; ends = refl; reigns = refl };
        peer_ok = ok;
        young = young;
        known = omega arith;
        within = high;
        stage = searching matches (inl unmet) enough;
      } in
      let (nodes, ran, ends, held) =
        replicate-EntriesMatch l.storage top l.current_term peer whole cycles l f (answers cycles)
          begins entries in
      let (agrees, next) =
        finished l.storage top l.current_term peer whole nodes (omega arith) ends in
      (
        nodes,
        ran,
        ends.leader_ok.leads,
        next,
        agrees.0,
        λ j positive within.
            held j positive within (omega (arith, agrees.0)) (agrees.1 j positive within),
      )
