-- ===== src/Rpc/Progress.antt =====
-- What is left to do for a leader that brings a peer's log to its own, before and after each cycle.
use raft_distributed_consens.Replication.Leader.{make_append_args_batch}
use raft_distributed_consens.Messages.{AppendEntriesArgs, AppendEntriesReply}
use raft_distributed_consens.Rpc.Calls.{IsWhole, LogMatches, Known, call_ok, call_log, Agrees-below}
use raft_distributed_consens.Prelude.{
  inr, inl, ℕ, ◌+◌, ◌-◌, ◌≤◌, ◌<◌, ◌==◌, ◌&&◌, ltb, some, ℤ, false, ◌≡◌, ◌⊎◌, refl, arith, sym, ◌∙◌,
  true, length, subst,
}
use raft_distributed_consens.External.{External}
use raft_distributed_consens.Storage.{Store, get_log_entry}
use raft_distributed_consens.Node.{Node, leader}
use raft_distributed_consens.Replication.{
  Round, prev_index, needs_snapshot, begin_round, make_append_args, handle_append_entries,
  handle_append_reply,
}
use raft_distributed_consens.Replication.LogShape.{IsLogOk, Consecutive}
use raft_distributed_consens.Rpc.{
  Fate, answered, send_round, replicate_to_peer, send_append_entries, on_append_reply, spent,
  unserved, unanswered,
}
use raft_distributed_consens.Rpc.Turns.{
  Agrees, sent_count, replied-Leads, replied_refused, replied_taken,
}

module _ {Db : Type 0} ⦃env : External Db⦄ where
  module _ (s : Store Db) (top term : ℕ) (peer : ℤ) (whole : IsWhole s top) where
    -- A leader of the term, with this log.
    pub record Reigns (l : Node Db) : Type 0 where
      pub leads : l.state ≡ leader
      pub log : l.storage ≡ s
      pub ends : l.last_log_index ≡ top
      pub reigns : l.current_term ≡ term

    -- The leader has not yet met the peer's log, or knows it up to the next index. The number is of
    -- answers that are enough.
    pub data Stage (l f : Node Db) (left : ℕ) : Type 0 where
      searching :
          LogMatches s top f
          → (l.match_index peer ≡ 0) ⊎ Agrees s f (l.match_index peer)
          → l.next_index peer + top + 1 ≤ left
          → Stage l f left
      found :
          Agrees s f (l.next_index peer - 1) → top + 1 ≤ l.next_index peer + left → Stage l f left

    pub record Progress (l f : Node Db) (left : ℕ) : Type 0 where
      pub leader_ok : Reigns l
      pub peer_ok : IsLogOk f
      pub young : f.current_term ≤ term
      pub known : l.match_index peer < l.next_index peer
      pub within : l.next_index peer ≤ top + 1
      pub stage : Stage l f left

    abbrev pub round : Node Db → Round
    round l = record {
      next_idx = l.next_index peer;
      current_term = l.current_term;
      commit_index = l.commit_index;
      last_log_index = l.last_log_index;
      my_id = l.config.my_id;
    }

    abbrev pub prev : Node Db → ℕ
    prev l = l.next_index peer - 1

    abbrev pub round_args : Node Db → AppendEntriesArgs
    round_args l = make_append_args s (prev l) (round l)

    -- Such a leader sends entries, and no snapshot.
    replicate_to_peer-sends :
        (fate : Fate) (now : ℕ) (l f : Node Db)
        → Reigns l
        → 0 < l.next_index peer
        → l.next_index peer ≤ top + 1
        → let sent = send_append_entries fate f (round_args l) now in
          replicate_to_peer fate now peer l f
          ≡ some (on_append_reply l peer l.current_term (round_args l).entries sent.1, sent.0)
    unfolding replicate_to_peer send_round prev_index needs_snapshot begin_round
    replicate_to_peer-sends fate now l f ok low high =
        let held : (ltb 0 (prev l) && (get_log_entry s (prev l)).term == 0) ≡ false =
          ground (arith, whole.intact (prev l)) in
        rw (ok.leads, ok.log, held) refl

    module _ (l f : Node Db) (left : ℕ) (now : ℕ) (ok : Progress l f left) where
      pub at_prev : l.next_index peer ≡ prev l + 1
      at_prev = omega (arith, ok.known)

      abbrev pub served : Node Db × AppendEntriesReply
      served = handle_append_entries f (round_args l) now

      peer_before : Known s top f (prev l) (l.match_index peer)
      peer_before = elim ok.stage [
        | searching matches held bound ↦ inl (matches, held)
        | found agrees bound ↦ inr agrees
      ]

      stage_bound : top + 1 ≤ l.next_index peer + left
      stage_bound = elim ok.stage [
        | searching matches held bound ↦ omega arith
        | found agrees bound ↦ bound
      ]

      pub peer_after : IsLogOk served.0 × (served.0.current_term ≡ term) × (served.1.term ≡ term)
      peer_after =
          call_ok s top term whole (round l) (prev l) at_prev ok.leader_ok.ends ok.leader_ok.reigns
            (omega (arith, ok.within)) f now ok.peer_ok ok.young

      pub log_after :
          ((served.1.success ≡ true) × Agrees s served.0 (prev l + sent_count (prev l) (round l)))
          ⊎ ((served.1.success ≡ false)
              × (¬ Agrees s f (prev l))
              × (l.match_index peer < prev l)
              × LogMatches s top served.0
              × ((l.match_index peer ≡ 0) ⊎ Agrees s served.0 (l.match_index peer)))
      log_after =
          call_log s top term whole (round l) (prev l) at_prev ok.leader_ok.ends ok.leader_ok.reigns
            (omega (arith, ok.within)) f now ok.peer_ok ok.young (l.match_index peer)
            (omega (arith, ok.known)) peer_before

      -- The reply is lost.
      unanswered-Progress : Progress l served.0 left
      unanswered-Progress = record {
        leader_ok = ok.leader_ok;
        peer_ok = peer_after.0;
        young = omega (arith, peer_after.1);
        known = ok.known;
        within = ok.within;
        stage = elim log_after [
          | inl (taken, agrees) ↦
              found (Agrees-below s top term whole served.0 _ (prev l) (omega arith) agrees)
                stage_bound
          | inr (refused, differs, below, matches, held) ↦ elim ok.stage [
            | searching _ _ bound ↦ searching matches held bound
            | found agrees bound ↦ absurd (differs agrees)
          ]
        ];
      }

      abbrev pub replied : Node Db
      replied = handle_append_reply l peer l.current_term (round_args l).entries served.1

      pub same_term : served.1.term ≡ l.current_term
      same_term = peer_after.2 ∙ sym ok.leader_ok.reigns

      replied-Reigns : Reigns replied
      replied-Reigns =
          let (state, storage, last, reign, _) =
            replied-Leads l peer ok.leader_ok.leads (round_args l).entries served.1 same_term in
          record {
            leads = state ∙ ok.leader_ok.leads;
            log = storage ∙ ok.leader_ok.log;
            ends = last ∙ ok.leader_ok.ends;
            reigns = reign ∙ ok.leader_ok.reigns;
          }

      pub batch :
          Consecutive (prev l) (round_args l).entries
          × (length (round_args l).entries ≡ sent_count (prev l) (round l))
      unfolding make_append_args
      batch =
          make_append_args_batch s (prev l) (round l) at_prev
            (λ j low high. whole.indexed j (omega arith) (omega (arith, ok.leader_ok.ends)))

      taken-Progress :
          served.1.success ≡ true
          → Agrees s served.0 (prev l + sent_count (prev l) (round l))
          → Progress replied served.0 (left - 1)
      taken-Progress taken agrees =
          let (next, matched, _, _) =
            replied_taken l peer ok.leader_ok.leads (round_args l).entries served.1 (prev l)
              same_term taken batch.0 at_prev (omega (arith, ok.known)) in
          record {
            leader_ok = replied-Reigns;
            peer_ok = peer_after.0;
            young = omega (arith, peer_after.1);
            known = omega arith;
            within = omega (arith, batch.1, ok.leader_ok.ends, ok.within);
            stage =
                found (Agrees-below s top term whole served.0 _ _ (omega (arith, batch.1)) agrees)
                  (omega (arith, batch.1, ok.leader_ok.ends, ok.within, stage_bound));
          }

      refused-Progress :
          served.1.success ≡ false
          → (¬ Agrees s f (prev l))
          → l.match_index peer < prev l
          → LogMatches s top served.0
          → (l.match_index peer ≡ 0) ⊎ Agrees s served.0 (l.match_index peer)
          → Progress replied served.0 (left - 1)
      refused-Progress refused differs below matches held =
          let (next, matched) =
            replied_refused l peer ok.leader_ok.leads (round_args l).entries served.1 same_term
              refused (omega arith) in
          record {
            leader_ok = replied-Reigns;
            peer_ok = peer_after.0;
            young = omega (arith, peer_after.1);
            known = omega arith;
            within = omega (arith, ok.within);
            stage = elim ok.stage [
              | searching _ _ bound ↦
                  searching matches
                    (subst (λ (m : ℕ). (m ≡ 0) ⊎ Agrees s served.0 m) (sym matched) held)
                    (omega arith)
              | found agrees bound ↦ absurd (differs agrees)
            ];
          }

      pub answered-Progress : Progress replied served.0 (left - 1)
      answered-Progress = elim log_after [
        | inl (taken, agrees) ↦ taken-Progress taken agrees
        | inr (refused, differs, below, matches, held) ↦
            refused-Progress refused differs below matches held
      ]

    -- The two nodes after a cycle.
    abbrev pub turned : Fate → ℕ → Node Db → Node Db → Node Db × Node Db
    turned fate now l f =
        let sent = send_append_entries fate f (round_args l) now in
        (on_append_reply l peer l.current_term (round_args l).entries sent.1, sent.0)

    -- What is left to do after the call, whatever becomes of it.
    turned-Progress :
        (fate : Fate) (now : ℕ) (l f : Node Db) (left : ℕ)
        → Progress l f left
        → Progress (turned fate now l f).0 (turned fate now l f).1 (left - spent fate)
    turned-Progress unserved now l f left ok = subst (Progress l f) (omega arith) ok
    turned-Progress unanswered now l f left ok =
        subst (Progress l _) (omega arith) (unanswered-Progress l f left now ok)
    turned-Progress answered now l f left ok = answered-Progress l f left now ok

    pub turn-Progress :
        (fate : Fate) (now : ℕ) (l f : Node Db) (left : ℕ)
        → Progress l f left
        → (replicate_to_peer fate now peer l f ≡ some (turned fate now l f))
          × Progress (turned fate now l f).0 (turned fate now l f).1 (left - spent fate)
    turn-Progress fate now l f left ok = (
      replicate_to_peer-sends fate now l f ok.leader_ok (omega (arith, ok.known)) ok.within,
      turned-Progress fate now l f left ok,
    )
