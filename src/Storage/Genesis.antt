-- ===== src/Storage/Genesis.antt =====
-- The accounts that `initializeGenesisData` creates.
use raft_distributed_consens.Storage.Keys.{Key, key_bytes, key_eq, acct, bytes_eq-key_bytes}
use raft_distributed_consens.Storage.{
  Store, at, read_int, get_balance, initialize_genesis_data, genesis_puts,
}
use raft_distributed_consens.External.{External, written}
use raft_distributed_consens.Text.RoundTrip.{stoi-to_string}
use raft_distributed_consens.Text.{to_string}
use native.Mathlib.Decide.{dec_lt}
use raft_distributed_consens.Prelude.{
  ℕ, false, zero, suc, ◌+◌, ◌<◌, ◌≤◌, Option, none, some, pos, Bytes, bytes_eq, bytes_eq_self,
  codes, if◌then◌else◌, ◌≡◌, ◌⊎◌, inl, inr, refl, arith, ap, ◌∙◌, Option-cases, ◌≢◌,
}

abbrev initial : Bytes
initial = codes "100000"

same :
    (i j : ℕ) (v : Option Bytes)
    → i ≡ j
    → (if bytes_eq (to_string (pos i)) (to_string (pos j)) then some initial else v) ≡ some initial
same i j v e = rw (e, bytes_eq_self (to_string (pos j))) refl

-- Later writes of the batch do not change an account that it has created,
written-genesis_puts_kept :
    (n i : ℕ) (k : Bytes) → written (genesis_puts n i) k (some initial) ≡ some initial
unfolding genesis_puts
written-genesis_puts_kept zero i k = refl
written-genesis_puts_kept (suc n) i k =
    ap (written (genesis_puts n (i + 1)) k) (ground arith) ∙ written-genesis_puts_kept n (i + 1) k

-- so each of the accounts has the initial balance.
written-genesis_puts :
    (n i j : ℕ) (v : Option Bytes)
    → i ≤ j
    → j < i + n
    → written (genesis_puts n i) (key_bytes (acct (to_string (pos j)))) v ≡ some initial
unfolding genesis_puts
written-genesis_puts zero i j v low high = absurd (omega arith)
written-genesis_puts (suc n) i j v low high = elim (dec_lt i j) [
  | yes above ↦ written-genesis_puts n (i + 1) j _ (omega arith) (omega arith)
  | no here ↦
      ap (written (genesis_puts n (i + 1)) (key_bytes (acct (to_string (pos j))))) (
        rw (bytes_eq-key_bytes (acct (to_string (pos i))) (acct (to_string (pos j))))
          (same i j _ (omega arith)))
      ∙ written-genesis_puts_kept n (i + 1) (key_bytes (acct (to_string (pos j))))
]

unwritten :
    (a : Bytes) (k : Key) (v : Option Bytes)
    → key_eq (acct a) k ≡ false
    → (if bytes_eq (key_bytes (acct a)) (key_bytes k) then some initial else v) ≡ v
unwritten a k v other = rw (bytes_eq-key_bytes (acct a) k, other) refl

-- No other key is written.
written-genesis_puts_other :
    (n i : ℕ) (k : Key) (v : Option Bytes)
    → ((a : Bytes) → key_eq (acct a) k ≡ false)
    → written (genesis_puts n i) (key_bytes k) v ≡ v
unfolding genesis_puts
written-genesis_puts_other zero i k v other = refl
written-genesis_puts_other (suc n) i k v other =
    ap (written (genesis_puts n (i + 1)) (key_bytes k))
      (unwritten (to_string (pos i)) k v (other (to_string (pos i))))
    ∙ written-genesis_puts_other n (i + 1) k v other

module _ {Db : Type 0} ⦃env : External Db⦄ where
  open env.rocks use {get-write}

  initial_balance :
      (s : Store Db) (a : Bytes)
      → at s (acct a) ≡ some initial
      → get_balance s a ≡ some (pos 100000)
  unfolding get_balance read_int to_string
  initial_balance s a h = rw h (stoi-to_string (pos 100000) (omega arith))

  -- In a database without the account 1, each of the accounts 1 to 9000 gets the balance 100000.
  -- In one that has it nothing changes.
  pub genesis_balances :
      (s : Store Db) (j : ℕ)
      → 1 ≤ j
      → j ≤ 9000
      → ((at s (acct (codes "1")) ≡ none)
          × (get_balance (initialize_genesis_data s) (to_string (pos j)) ≡ some (pos 100000)))
        ⊎ ((at s (acct (codes "1")) ≢ none) × (initialize_genesis_data s ≡ s))
  unfolding initialize_genesis_data
  genesis_balances s j low high = elim (Option-cases (at s (acct (codes "1")))) [
    | inl fresh ↦ inl (
      fresh,
      initial_balance (initialize_genesis_data s) (to_string (pos j)) (
          rw (fresh, initialize_genesis_data)
            (get-write s.db _ _ ∙ written-genesis_puts 9000 1 j _ low (omega arith))),
    )
    | inr (v, there) ↦ inr (λ e. ground arith, rw (there, initialize_genesis_data) refl)
  ]

  -- The accounts are all that changes.
  pub at-initialize_genesis_data :
      (s : Store Db) (k : Key)
      → ((a : Bytes) → key_eq (acct a) k ≡ false)
      → at (initialize_genesis_data s) k ≡ at s k
  unfolding initialize_genesis_data
  at-initialize_genesis_data s k other = elim (Option-cases (at s (acct (codes "1")))) [
    | inl fresh ↦
        rw (fresh, initialize_genesis_data)
          (get-write s.db _ _ ∙ written-genesis_puts_other 9000 1 k _ other)
    | inr (v, there) ↦ rw (there, initialize_genesis_data) refl
  ]
