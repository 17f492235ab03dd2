-- ===== src/Cluster/Quorum.antt =====
-- Members of a list that satisfy a test, and why two majorities meet.
use raft_distributed_consens.Node.Peers.{elem}
use raft_distributed_consens.Prelude.{
  ℕ, ◌+◌, ◌≤◌, ◌<◌, List, [], ◌∷◌, Bool, true, false, ◌&&◌, ℤ, eq_ℤ_iff, if◌then◌else◌, length, ◌≡◌,
  arith, Bool-cases, inl, inr,
}

abbrev pub count : (ℤ → Bool) → List ℤ → ℕ
count f [] = 0
count f (q ∷ qs) = (if f q then 1 else 0) + count f qs

pub count_mono :
    (f g : ℤ → Bool) (qs : List ℤ) → ((q : ℤ) → f q ≡ true → g q ≡ true) → count f qs ≤ count g qs
count_mono f g [] keep = omega arith
count_mono f g (q ∷ qs) keep = ground (arith, keep q, count_mono f g qs keep)

-- One more member satisfies the test, and none fewer.
pub count_gain :
    (f g : ℤ → Bool) (p : ℤ) (qs : List ℤ)
    → ((q : ℤ) → f q ≡ true → g q ≡ true)
    → f p ≡ false
    → g p ≡ true
    → elem p qs ≡ true
    → count f qs + 1 ≤ count g qs
count_gain f g p [] keep old new there = cc
count_gain f g p (q ∷ qs) keep old new there =
    ground (arith, eq_ℤ_iff q p, keep q, count_mono f g qs keep, count_gain f g p qs keep old new)

-- Two sets that together are larger than the list have a member in common.
pub count_meet :
    (f g : ℤ → Bool) (qs : List ℤ)
    → length qs < count f qs + count g qs
    → (p : ℤ) × (f p ≡ true) × (g p ≡ true)
count_meet f g [] h = absurd (omega arith)
count_meet f g (q ∷ qs) h = elim (Bool-cases (f q && g q)) [
  | inl both ↦ (q, ground arith, ground arith)
  | inr apart ↦ count_meet f g qs (ground arith)
]
