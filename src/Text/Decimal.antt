-- ===== src/Text/Decimal.antt =====
-- A printed number is read back.
use p2p_server_file_storage.Prelude.{
  ℕ, zero, suc, ◌+◌, ◌/◌, ◌%◌, ◌<◌, ◌≡◌, inl, inr, true, false, [], ◌∷◌, some, arith, All, All-mono,
  Bool-cases, length, ◌≤◌, ◌==◌, ◌^◌, pos, lt→ltb,
}
use p2p_server_file_storage.Text.{
  Text, digits, to_string, int_to_string, is_digit, is_empty, is_space, read_digits,
  starts_with_digit, skip_spaces, take_sign, stoull, stoi, u64_mod,
}
use p2p_server_file_storage.Text.Words.{IsWord}

read_last_digit :
    (n : ℕ) (out : Text) → read_digits ((b'0' + n % 10) ∷ out) (n / 10) ≡ read_digits out n
unfolding read_digits
read_last_digit n out = ground arith

read_digits-digits :
    (f n : ℕ) (out : Text) → n < f → read_digits (digits f n out) 0 ≡ read_digits out n
unfolding digits
read_digits-digits zero n out h = elim h [ ]
read_digits-digits (suc f) n out h =
    ground (arith, read_last_digit n out, read_digits-digits f (n / 10) ((b'0' + n % 10) ∷ out))

read_digits-to_string : (n : ℕ) → read_digits (to_string n) 0 ≡ n
unfolding to_string read_digits
read_digits-to_string n = read_digits-digits (suc n) n [] (omega arith)

is_digit_last : (n : ℕ) → is_digit (b'0' + n % 10) ≡ true
unfolding is_digit
is_digit_last n = ground arith

-- The digits of a number and those behind it.
All-digits :
    (f n : ℕ) (out : Text)
    → All (λ c. is_digit c ≡ true) out
    → All (λ c. is_digit c ≡ true) (digits f n out)
unfolding digits
All-digits zero n out h = h
All-digits (suc f) n out h = elim (Bool-cases (n / 10 == 0)) [
  | inl e ↦ rw e (is_digit_last n, h)
  | inr e ↦ rw e (All-digits f (n / 10) _ (is_digit_last n, h))
]

digits-nonempty : (f n : ℕ) (out : Text) → is_empty out ≡ false → is_empty (digits f n out) ≡ false
unfolding digits
digits-nonempty zero n out h = h
digits-nonempty (suc f) n out h = ground (arith, digits-nonempty f (n / 10) ((b'0' + n % 10) ∷ out))

to_string-nonempty : (n : ℕ) → is_empty (to_string n) ≡ false
unfolding to_string digits
to_string-nonempty n = ground (arith, digits-nonempty n (n / 10) ((b'0' + n % 10) ∷ []))

All-to_string : (n : ℕ) → All (λ c. is_digit c ≡ true) (to_string n)
unfolding to_string
All-to_string n = All-digits (suc n) n [] tt

digit_not_space : (c : ℕ) → is_digit c ≡ true → is_space c ≡ false
unfolding is_digit is_space
digit_not_space c h = ground arith

-- A printed number is one word of a message.
pub to_string-IsWord : (n : ℕ) → IsWord (to_string n)
to_string-IsWord n = (to_string-nonempty n, All-mono digit_not_space _ (All-to_string n))

take_digits :
    (s : Text)
    → is_empty s ≡ false
    → All (λ c. is_digit c ≡ true) s
    → (take_sign (skip_spaces s) ≡ (false, s)) × (starts_with_digit s ≡ true)
unfolding take_sign skip_spaces starts_with_digit is_digit
take_digits [] e h = cc
take_digits (c ∷ s) e (hc, h) = (ground arith, hc)

pub stoull-to_string : (n : ℕ) → n < u64_mod → stoull (to_string n) ≡ some n
unfolding stoull
stoull-to_string n h =
    let (taken, starts) = take_digits (to_string n) (to_string-nonempty n) (All-to_string n) in
    rw (taken, starts, read_digits-to_string n, lt→ltb n u64_mod h)

pub stoi-int_to_string : (n : ℕ) → n < 2 ^ 31 → stoi (int_to_string (pos n)) ≡ some (pos n)
unfolding stoi int_to_string
stoi-int_to_string n h =
    let (taken, starts) = take_digits (to_string n) (to_string-nonempty n) (All-to_string n) in
    rw (taken, starts, read_digits-to_string n, lt→ltb n (2 ^ 31) h)

length-digits :
    (k f n : ℕ) (out : Text) → n < 10 ^ suc k → length (digits f n out) ≤ suc k + length out
unfolding digits
length-digits k zero n out h = omega arith
length-digits zero (suc f) n out h =
    let one : (n / 10 == 0) ≡ true = ground arith in rw one (omega arith)
length-digits (suc k) (suc f) n out h =
    let fewer : n / 10 < 10 ^ suc k = omega (arith, h) in
    elim (Bool-cases (n / 10 == 0)) [
      | inl e ↦ rw e (omega arith)
      | inr e ↦ rw e (omega (arith, length-digits k f (n / 10) ((b'0' + n % 10) ∷ out) fewer))
    ]

-- A 64-bit number has twenty digits at most.
pub length-to_string : (n : ℕ) → n < u64_mod → length (to_string n) ≤ 20
unfolding to_string
length-to_string n h = omega (arith, length-digits 19 (suc n) n [] (omega (arith, h)))
