-- ===== src/Rpc/Schedule.antt =====
-- The cycles for several peers, in whatever order they come.

use raft_distributed_consens.External.{External}
use raft_distributed_consens.Node.{Node, update}
use raft_distributed_consens.Node.Peers.{elem}
use raft_distributed_consens.Replication.Leader.{IsCommitted}
use raft_distributed_consens.Rpc.{Fate, spent, answers_to, replicate_all}
use raft_distributed_consens.Rpc.Calls.{IsWhole}
use raft_distributed_consens.Rpc.Kept.{IsTold, Kept, turned-Kept}
use raft_distributed_consens.Rpc.Progress.{
  Reigns, searching, found, Progress, turned, turn-Progress,
}
use raft_distributed_consens.Rpc.Turns.{Agrees}
use raft_distributed_consens.Storage.{Store}
use raft_distributed_consens.Prelude.{
  ℕ, ◌-◌, List, [], ◌∷◌, ℤ, true, false, eq_ℤ, ◌≡◌, ◌⊎◌, inl, inr, arith, subst, sym, refl,
  Bool-cases, eq_ℤ_iff, if◌then◌else◌, some, ◌∙◌,
}

-- Each cycle is for a member.
abbrev pub Scheduled : List ℤ → List (ℤ × Fate × ℕ) → Type 0
Scheduled members [] = Unit {0}
Scheduled members ((peer, fate, now) ∷ schedule) =
    (elem peer members ≡ true) × Scheduled members schedule

eq_ℤ_self : (p : ℤ) → eq_ℤ p p ≡ true
eq_ℤ_self p = (eq_ℤ_iff p p).1 refl

module _ {Db : Type 0} ⦃env : External Db⦄ where
  module _ (s : Store Db) (top term : ℕ) (whole : IsWhole s top) (members : List ℤ) where
    -- Every member is on its way, with so many answers left to come at most.
    pub record Advance (l : Node Db) (nodes : ℤ → Node Db) (left : ℤ → ℕ) : Type 0 where
      pub each :
          (p : ℤ)
          → elem p members ≡ true
          → Progress s top term p whole l (nodes p) (left p) × IsTold top p l
      pub leader_ok : (p : ℤ) → Reigns s top term p whole l
      pub committed : IsCommitted l

    same_Reigns :
        (peer p : ℤ) (l : Node Db) → Reigns s top term peer whole l → Reigns s top term p whole l
    same_Reigns peer p l ok = record {
      leads = ok.leads;
      log = ok.log;
      ends = ok.ends;
      reigns = ok.reigns;
    }

    -- A cycle for one peer leaves the others on their way.
    other-Progress :
        (peer p : ℤ) (l l' f : Node Db) (left : ℕ)
        → Kept top peer l l'
        → eq_ℤ peer p ≡ false
        → Reigns s top term peer whole l'
        → Progress s top term p whole l f left × IsTold top p l
        → Progress s top term p whole l' f left × IsTold top p l'
    other-Progress peer p l l' f left kept differ reigns (ok, told) =
        let (next, matched) = kept.others p differ in
        (
          record {
            leader_ok = same_Reigns peer p l' reigns;
            peer_ok = ok.peer_ok;
            young = ok.young;
            known = omega (arith, ok.known);
            within = omega (arith, ok.within);
            stage = elim ok.stage [
              | searching matches held bound ↦
                  searching matches (subst (λ (m : ℕ). (m ≡ 0) ⊎ Agrees s f m) (sym matched) held)
                    (omega arith)
              | found agrees bound ↦
                  found (subst (λ (k : ℕ). Agrees s f (k - 1)) (sym next) agrees) (omega arith)
            ];
          },
          elim told [ inl known ↦ inl (omega arith) | inr unsent ↦ inr (omega arith) ],
        )

    -- What is left after a cycle for `peer`.
    abbrev left_after : ℤ → Fate → (ℤ → ℕ) → ℤ → ℕ
    left_after peer fate left p = left p - (if eq_ℤ peer p then spent fate else 0)

    turned-Advance :
        (peer : ℤ) (fate : Fate) (now : ℕ) (l : Node Db) (nodes : ℤ → Node Db) (left : ℤ → ℕ)
        → elem peer members ≡ true
        → Advance l nodes left
        → let done = turned s top term peer whole fate now l (nodes peer) in
          Advance done.0 (update nodes peer done.1) (left_after peer fate left)
    turned-Advance peer fate now l nodes left member ok =
        let (progress, told) = ok.each peer member in
        let done = turned s top term peer whole fate now l (nodes peer) in
        let kept = turned-Kept s top term peer whole fate now l (nodes peer) (left peer) progress in
        let went =
          (turn-Progress s top term peer whole fate now l (nodes peer) (left peer) progress).1 in
        record {
          each = λ p listed. elim (Bool-cases (eq_ℤ peer p)) [
            | inl same ↦
                subst
                  (λ (q : ℤ).
                    Progress s top term q whole done.0 (update nodes peer done.1 q)
                      (left_after peer fate left q)
                    × IsTold top q done.0)
                  ((eq_ℤ_iff peer p).0 same) (rw (eq_ℤ_self peer) (went, kept.told told))
            | inr differ ↦ rw differ (
                subst
                  (λ (k : ℕ). Progress s top term p whole done.0 (nodes p) k × IsTold top p done.0)
                  (omega arith)
                  (other-Progress peer p l done.0 (nodes p) (left p) kept differ went.leader_ok
                    (ok.each p listed)))
          ];
          leader_ok = λ p. same_Reigns peer p done.0 went.leader_ok;
          committed = kept.committed ok.committed;
        }

    -- The schedule runs through, and the answers are counted off.
    pub Scheduled-Advance :
        (schedule : List (ℤ × Fate × ℕ)) (l : Node Db) (nodes : ℤ → Node Db) (left : ℤ → ℕ)
        → Scheduled members schedule
        → Advance l nodes left
        → (done : Node Db × (ℤ → Node Db)) × (replicate_all schedule l nodes ≡ some done)
          × Advance done.0 done.1 (λ p. left p - answers_to p schedule)
          × (done.0.config ≡ l.config)
    unfolding replicate_all
    Scheduled-Advance [] l nodes left listed ok = (
      (l, nodes),
      refl,
      record {
        each = λ p member.
            subst (λ (k : ℕ). Progress s top term p whole l (nodes p) k × IsTold top p l)
              (omega arith) (ok.each p member);
        leader_ok = ok.leader_ok;
        committed = ok.committed;
      },
      refl,
    )
    Scheduled-Advance ((peer, fate, now) ∷ schedule) l nodes left (member, listed) ok =
        let (progress, told) = ok.each peer member in
        let done = turned s top term peer whole fate now l (nodes peer) in
        let sends =
          (turn-Progress s top term peer whole fate now l (nodes peer) (left peer) progress).0 in
        let kept = turned-Kept s top term peer whole fate now l (nodes peer) (left peer) progress in
        let (ends, ran, ok', same) =
          Scheduled-Advance schedule done.0 (update nodes peer done.1) (left_after peer fate left)
            listed (turned-Advance peer fate now l nodes left member ok) in
        (
          ends,
          rw sends ran,
          record {
            each = λ p chosen.
                subst
                  (λ (k : ℕ). Progress s top term p whole ends.0 (ends.1 p) k × IsTold top p ends.0)
                  (omega arith) (ok'.each p chosen);
            leader_ok = ok'.leader_ok;
            committed = ok'.committed;
          },
          same ∙ kept.config,
        )
