-- ===== src/Text/Plain.antt =====
-- A printed number has digits and a sign only.
use raft_distributed_consens.Text.{decimal, to_string}
use raft_distributed_consens.Prelude.{
  ℕ, zero, suc, ◌+◌, ◌/◌, ◌%◌, ◌<◌, [], ◌∷◌, Bool, true, ◌&&◌, not, Bytes, ℤ, pos, negsuc, ◌==◌,
  ◌≡◌, refl, arith,
}

-- The byte does not occur.
abbrev pub lacks : ℕ → Bytes → Bool
lacks c [] = true
lacks c (x ∷ s) = not (x == c) && lacks c s

lacks-decimal :
    (c f n : ℕ) (out : Bytes) → c < b'-' → lacks c out ≡ true → lacks c (decimal f n out) ≡ true
unfolding decimal
lacks-decimal c zero n out low h = h
lacks-decimal c (suc f) n out low h =
    ground (arith, lacks-decimal c f (n / 10) ((b'0' + n % 10) ∷ out) low)

pub lacks-to_string : (c : ℕ) (z : ℤ) → c < b'-' → lacks c (to_string z) ≡ true
unfolding to_string
lacks-to_string c (pos n) low = lacks-decimal c (suc n) n [] low refl
lacks-to_string c (negsuc n) low = ground (arith, lacks-decimal c (suc (suc n)) (suc n) [] low refl)
