-- ===== src/Text.antt =====
-- The standard library's conversions between `int` and text that the program uses:
-- `std::to_string`, `std::stoi`, and `std::setw` with `std::setfill('0')`.
pub mod RoundTrip
pub mod Plain
use raft_distributed_consens.Prelude.{
  ℕ, zero, suc, ◌+◌, ◌-◌, ◌*◌, ◌/◌, ◌%◌, ◌++◌, List, [], ◌∷◌, Bool, Option, none, some, ◌&&◌, Bytes,
  ℤ, pos, negsuc, int_bound, ltb, leb, ◌==◌, if◌then◌else◌, length, replicate, ◌>>=◌,
}

-- The decimal digits of `n` in front of `out`; `n + 1` rounds are enough.
decimal : ℕ → ℕ → Bytes → Bytes
decimal zero n out = out
decimal (suc fuel) n out =
    let rest = decimal fuel (n / 10) ((b'0' + n % 10) ∷ out) in
    if ltb n 10 then (b'0' + n) ∷ out else rest

unfoldable pub to_string : ℤ → Bytes
unfolding decimal
to_string (pos n) = decimal (suc n) n []
to_string (negsuc n) = b'-' ∷ decimal (suc (suc n)) (suc n) []

is_digit : ℕ → Bool
is_digit c = leb b'0' c && leb c b'9'

is_space : ℕ → Bool
is_space c = if c == b' ' then Bool.true else leb 9 c && leb c 13

skip_space : Bytes → Bytes
unfolding is_space
skip_space [] = []
skip_space (c ∷ s) = let rest = skip_space s in if is_space c then rest else c ∷ s

-- The value of the leading digits, on top of `n`.
read_digits : ℕ → Bytes → ℕ
unfolding is_digit
read_digits n [] = n
read_digits n (c ∷ s) =
    let rest = read_digits (n * 10 + (c - b'0')) s in if is_digit c then rest else n

-- `none` is the exception `invalid_argument`: there is no digit.
unsigned : Bytes → Option ℕ
unfolding read_digits
unsigned [] = none
unsigned (c ∷ s) = if is_digit c then some (read_digits 0 (c ∷ s)) else none

-- `none` is the exception `out_of_range`.
in_range : ℤ → Option ℤ
in_range (pos n) = if ltb n int_bound then some (pos n) else none
in_range (negsuc n) = if ltb n int_bound then some (negsuc n) else none

minus : ℕ → ℤ
minus zero = pos 0
minus (suc n) = negsuc n

signed : Bytes → Option ℤ
unfolding unsigned minus
signed [] = none
signed (c ∷ s) =
    if c == b'-'
    then (do n ← unsigned s; some (minus n))
    else if c == b'+'
    then (do n ← unsigned s; some (pos n))
    else (do n ← unsigned (c ∷ s); some (pos n))

unfoldable pub stoi : Bytes → Option ℤ
unfolding skip_space signed in_range
stoi s = do n ← signed (skip_space s); in_range n

-- `oss << std::setw(w) << std::setfill('0') << n`
unfoldable pub pad_zero : ℕ → Bytes → Bytes
pad_zero w s = replicate (w - length s) b'0' ++ s
