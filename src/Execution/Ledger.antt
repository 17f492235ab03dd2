-- ===== src/Execution/Ledger.antt =====
-- The abstract machine that the executor implements: a ledger of balances.
use raft_distributed_consens.Prelude.{
  bytes_eq_iff, arith, ◌≤◌, ◌||◌, ◌-◌, ◌≡◌, false, ◌+◌, bytes_eq, Bool, ◌∷◌, if◌then◌else◌, List,
  Bytes, ℕ, [], refl, leb, codes, true, inl, inr, Bool-cases,
}

abbrev pub Ledger : Type 0
Ledger = Bytes → ℕ

-- The transfer of `m`. The receiver is credited last, on the balance from before.
abbrev pub moved : Ledger → Bytes → Bytes → ℕ → Ledger
moved b sender receiver m a =
    if bytes_eq receiver a then b receiver + m else if bytes_eq sender a then b sender - m else b a

-- What a transfer of `m` does, and its result.
abbrev pub transferred : Ledger → Bytes → Bytes → ℕ → Ledger
transferred b sender receiver m = if leb m (b sender) then moved b sender receiver m else b

abbrev pub transfer_message : Ledger → Bytes → ℕ → Bytes
transfer_message b sender m =
    if leb m (b sender) then codes "Success" else codes "Insufficient Funds"

-- The sum of the balances of some accounts.
abbrev pub total : Ledger → List Bytes → ℕ
total b [] = 0
total b (a ∷ accounts) = b a + total b accounts

abbrev pub occurs : Bytes → List Bytes → Bool
occurs a [] = false
occurs a (x ∷ xs) = bytes_eq x a || occurs a xs

-- No account is listed twice.
abbrev pub Once : List Bytes → Type 0
Once [] = Unit {0}
Once (a ∷ accounts) = (occurs a accounts ≡ false) × Once accounts

-- What the accounts of a list hold after a transfer.
total-moved :
    (b : Ledger) (sender receiver : Bytes) (m : ℕ) (accounts : List Bytes)
    → bytes_eq sender receiver ≡ false
    → m ≤ b sender
    → Once accounts
    → total (moved b sender receiver m) accounts + (if occurs sender accounts then m else 0)
      ≡ total b accounts + (if occurs receiver accounts then m else 0)
total-moved b sender receiver m [] differ funds once = refl
total-moved b sender receiver m (a ∷ accounts) differ funds once = ground (
  arith,
  total-moved b sender receiver m accounts differ funds once.1,
  bytes_eq_iff receiver a,
  bytes_eq_iff sender a,
  bytes_eq_iff a sender,
  bytes_eq_iff a receiver,
)

pub total-transferred :
    (b : Ledger) (sender receiver : Bytes) (m : ℕ) (accounts : List Bytes)
    → bytes_eq sender receiver ≡ false
    → Once accounts
    → occurs sender accounts ≡ true
    → occurs receiver accounts ≡ true
    → total (transferred b sender receiver m) accounts ≡ total b accounts
total-transferred b sender receiver m accounts differ once s r =
    elim (Bool-cases (leb m (b sender))) [
      | inl funds ↦
          rw funds
            (ground (arith, total-moved b sender receiver m accounts differ (ground arith) once))
      | inr short ↦ rw short refl
    ]
