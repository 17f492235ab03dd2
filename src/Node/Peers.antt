-- ===== src/Node/Peers.antt =====
-- The peers of a configuration and the stubs that the constructor makes for them.
use raft_distributed_consens.Prelude.{
  List, [], ◌∷◌, Bool, true, false, Bytes, ℤ, eq_ℤ, eq_ℤ_iff, ◌≡◌, ◌≢◌, ◌⊎◌, ◌||◌, arith, inl, inr,
  Bool-cases,
}
use raft_distributed_consens.Node.{stubs, insert_stub}

abbrev pub elem : ℤ → List ℤ → Bool
elem p [] = false
elem p (q ∷ qs) = eq_ℤ q p || elem p qs

abbrev pub ids : List (ℤ × Bytes) → List ℤ
ids [] = []
ids ((id, address) ∷ peers) = id ∷ ids peers

elem-insert_stub :
    (p id : ℤ) (js : List ℤ) → elem p (insert_stub id js) ≡ true → (p ≡ id) ⊎ (elem p js ≡ true)
unfolding insert_stub
elem-insert_stub p id [] = ground (arith, eq_ℤ_iff id p)
elem-insert_stub p id (j ∷ js) = ground (arith, eq_ℤ_iff id p, elem-insert_stub p id js)

elem-stubs_from :
    (my_id p : ℤ) (peers : List (ℤ × Bytes)) (js : List ℤ)
    → elem p (stubs my_id peers js) ≡ true
    → (elem p js ≡ true) ⊎ ((elem p (ids peers) ≡ true) × (p ≢ my_id))
unfolding stubs
elem-stubs_from my_id p [] js = ground arith
elem-stubs_from my_id p ((id, address) ∷ peers) js = elim (Bool-cases (eq_ℤ id my_id)) [
  | inl self ↦ ground (arith, elem-stubs_from my_id p peers js)
  | inr other ↦ ground (
    arith,
    elem-stubs_from my_id p peers (insert_stub id js),
    elem-insert_stub p id js,
    eq_ℤ_iff id p,
    eq_ℤ_iff id my_id,
  )
]

-- A node asks only the peers of its configuration, and never itself.
pub elem-stubs :
    (my_id p : ℤ) (peers : List (ℤ × Bytes))
    → elem p (stubs my_id peers []) ≡ true
    → (elem p (ids peers) ≡ true) × (p ≢ my_id)
elem-stubs my_id p peers h = ground (arith, elem-stubs_from my_id p peers [] h)
