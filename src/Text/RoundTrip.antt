-- ===== src/Text/RoundTrip.antt =====
-- Printing and reading an `int` are inverse, and padding with zeros keeps the value.
use raft_distributed_consens.Prelude.{
  Option, Option-cases, int_bound, ltb→lt, ℕ, zero, suc, ◌+◌, ◌-◌, ◌*◌, ◌/◌, ◌%◌, ◌<◌, ◌++◌, [],
  ◌∷◌, true, some, Bytes, ℤ, pos, negsuc, IsInt, ltb, length, replicate, arith, ◌≡◌, refl, sym, ap,
  ◌∙◌, inl, inr, Bool-cases, lt→ltb, some, none,
}
use raft_distributed_consens.Text.{
  in_range, decimal, to_string, is_digit, skip_space, read_digits, unsigned, minus, signed, stoi,
  pad_zero,
}

is_digit-add : (d : ℕ) → d < 10 → is_digit (b'0' + d) ≡ true
unfolding is_digit
is_digit-add d h = ground arith

read_digits-cons :
    (a d : ℕ) (out : Bytes)
    → d < 10
    → read_digits a ((b'0' + d) ∷ out) ≡ read_digits (a * 10 + d) out
unfolding read_digits
read_digits-cons a d out h = rw (is_digit-add d h) (ap (λ (m : ℕ). read_digits m out) (omega arith))

-- What is printed in front of `out` is read back before `out` is read.
read_digits-decimal :
    (f n : ℕ) (out : Bytes) → n < f → read_digits 0 (decimal f n out) ≡ read_digits n out
unfolding decimal
read_digits-decimal zero n out h = elim h [ ]
read_digits-decimal (suc f) n out h = elim (Bool-cases (ltb n 10)) [
  | inl small ↦ rw small (
      read_digits-cons 0 n out (ltb→lt n 10 small)
      ∙ ap (λ (m : ℕ). read_digits m out) (omega arith))
  | inr big ↦ rw big (
      read_digits-decimal f (n / 10) _ (ground arith)
      ∙ read_digits-cons (n / 10) (n % 10) out (omega arith)
      ∙ ap (λ (m : ℕ). read_digits m out) (omega arith))
]

-- A text that begins with a digit.
abbrev StartsDigit : Bytes → Type 0
StartsDigit [] = ⊥
StartsDigit (c ∷ s) = is_digit c ≡ true

decimal-StartsDigit : (f n : ℕ) (out : Bytes) → StartsDigit out → StartsDigit (decimal f n out)
unfolding decimal
decimal-StartsDigit zero n out h = h
decimal-StartsDigit (suc f) n out h = elim (Bool-cases (ltb n 10)) [
  | inl small ↦ rw small (is_digit-add n (ltb→lt n 10 small))
  | inr big ↦
      rw big (
        decimal-StartsDigit f (n / 10) ((b'0' + n % 10) ∷ out)
          (is_digit-add (n % 10) (omega arith)))
]

decimal-suc-StartsDigit : (f n : ℕ) → StartsDigit (decimal (suc f) n [])
unfolding decimal
decimal-suc-StartsDigit f n = elim (Bool-cases (ltb n 10)) [
  | inl small ↦ rw small (is_digit-add n (ltb→lt n 10 small))
  | inr big ↦
      rw big (
        decimal-StartsDigit f (n / 10) ((b'0' + n % 10) ∷ []) (is_digit-add (n % 10) (omega arith)))
]

unsigned-digits : (s : Bytes) → StartsDigit s → unsigned s ≡ some (read_digits 0 s)
unfolding unsigned
unsigned-digits [] h = absurd h
unsigned-digits (c ∷ s) h = rw h

-- Text that begins with a digit has no blank and no sign.
signed-digits : (s : Bytes) → StartsDigit s → signed (skip_space s) ≡ some (pos (read_digits 0 s))
unfolding signed skip_space is_digit
signed-digits [] h = absurd h
signed-digits (c ∷ s) h = ground (arith, unsigned-digits (c ∷ s) h)

signed-minus :
    (s : Bytes) → StartsDigit s → signed (skip_space (b'-' ∷ s)) ≡ some (minus (read_digits 0 s))
unfolding signed skip_space
signed-minus s h = rw (unsigned-digits s h)

-- Reading back the text of an `int` gives the `int`.
pub stoi-to_string : (z : ℤ) → IsInt z → stoi (to_string z) ≡ some z
unfolding stoi to_string
stoi-to_string (pos n) h =
    rw
      (
        signed-digits _ (decimal-suc-StartsDigit n n),
        read_digits-decimal (suc n) n [] (omega arith),
      )
      (unfold read_digits in rw (lt→ltb n int_bound h))
stoi-to_string (negsuc n) h =
    rw
      (
        signed-minus _ (decimal-suc-StartsDigit (suc n) (suc n)),
        read_digits-decimal (suc (suc n)) (suc n) [] (omega arith),
      )
      (unfold read_digits minus in rw (lt→ltb n int_bound h))

read_digits-pad : (k : ℕ) (s : Bytes) → read_digits 0 (replicate k b'0' ++ s) ≡ read_digits 0 s
read_digits-pad zero s = refl
read_digits-pad (suc k) s =
    read_digits-cons 0 0 (replicate k b'0' ++ s) (omega arith) ∙ read_digits-pad k s

-- Two numbers with the same padded text are the same.
pub pad_zero_injective :
    (w m n : ℕ) → pad_zero w (to_string (pos m)) ≡ pad_zero w (to_string (pos n)) → m ≡ n
unfolding pad_zero to_string read_digits
pad_zero_injective w m n e = sym (read m) ∙ ap (read_digits 0) e ∙ read n
  where
    read : (k : ℕ) → read_digits 0 (pad_zero w (to_string (pos k))) ≡ k
    read k =
        read_digits-pad (w - length (to_string (pos k))) _
        ∙ read_digits-decimal (suc k) k [] (omega arith)

-- What passes the range test is an `int`.
abbrev pub IsIntOption : Option ℤ → Type 0
IsIntOption none = Unit {0}
IsIntOption (some z) = IsInt z

in_range-IsInt : (z : ℤ) → IsIntOption (in_range z)
unfolding in_range
in_range-IsInt (pos n) = ground arith
in_range-IsInt (negsuc n) = ground arith

pub stoi-IsIntOption : (s : Bytes) → IsIntOption (stoi s)
unfolding stoi
stoi-IsIntOption s = elim (Option-cases (signed (skip_space s))) [
  | inl e ↦ rw e tt
  | inr (n, e) ↦ rw e (in_range-IsInt n)
]
