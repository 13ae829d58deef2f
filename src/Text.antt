-- ===== src/Text.antt =====
-- std::string as a list of byte values, and what the program takes from the standard library for
-- text: comparison, `std::to_string` and `operator<<` for numbers, `std::stoull` and `std::stoi`.
-- `Words` is the token loop `while (ss >> token)`, `Lines` the loop over `std::getline`,
-- `Decimal` proves that a printed number is read back.
pub mod Words
pub mod Lines
pub mod Decimal
pub mod Messages
use Prim.Native.Char.{code}
use Prim.Native.String.{String}
use p2p_server_file_storage.Prelude.{
  ℕ, zero, suc, ◌+◌, ◌-◌, ◌*◌, ◌/◌, ◌%◌, ◌^◌, ◌≡◌, refl, ◌↔◌, Bool, true, false, ◌&&◌, ◌||◌, List,
  [], ◌∷◌, ◌++◌, Option, none, some, arith, ltb, leb, ◌==◌, if◌then◌else◌, ℤ, pos, negsuc,
}

abbrev pub Text : Type 0
Text = List ℕ

-- The bytes of an ASCII literal.
abbrev pub codes : String → Text
codes String.[] = []
codes (String.◌∷◌ c s) = code c ∷ codes s

abbrev pub is_empty {ℓ} : {A : Type ℓ} → List A → Bool
is_empty [] = true
is_empty (x ∷ xs) = false

abbrev pub space : ℕ
space = 32

abbrev pub carriage_return : ℕ
carriage_return = 13

abbrev pub newline : ℕ
newline = 10

abbrev pub crlf : Text
crlf = carriage_return ∷ newline ∷ []

-- `std::isspace` in the C locale.
unfoldable pub is_space : ℕ → Bool
is_space c = c == space || (leb 9 c && leb c 13)

unfoldable pub str_eq : Text → Text → Bool
str_eq [] [] = true
str_eq [] (y ∷ ys) = false
str_eq (x ∷ xs) [] = false
str_eq (x ∷ xs) (y ∷ ys) = x == y && str_eq xs ys

pub str_eq_iff : (s t : Text) → (str_eq s t ≡ true) ↔ (s ≡ t)
unfolding str_eq
str_eq_iff [] [] = ground arith
str_eq_iff [] (y ∷ ys) = ground arith
str_eq_iff (x ∷ xs) [] = ground arith
str_eq_iff (x ∷ xs) (y ∷ ys) = ground (arith, str_eq_iff xs ys)

pub str_eq_refl : (s : Text) → str_eq s s ≡ true
str_eq_refl s = (str_eq_iff s s).1 refl

-- `s.find(prefix) == 0`.
unfoldable pub starts_with : Text → Text → Bool
starts_with [] s = true
starts_with (p ∷ ps) [] = false
starts_with (p ∷ ps) (c ∷ s) = p == c && starts_with ps s

-- `s.find(part) != npos`.
unfoldable pub contains : Text → Text → Bool
unfolding starts_with
contains part [] = starts_with part []
contains part (c ∷ s) = starts_with part (c ∷ s) || contains part s

abbrev pub u64_mod : ℕ
u64_mod = 2 ^ 64

-- The decimal digits of `n` in front of `out`, on fuel.
unfoldable pub digits : ℕ → ℕ → Text → Text
digits zero n out = out
digits (suc f) n out =
    let more = digits f (n / 10) ((b'0' + n % 10) ∷ out) in
    if n / 10 == 0 then (b'0' + n % 10) ∷ out else more

-- `std::to_string`, and `operator<<` for an unsigned number.
unfoldable pub to_string : ℕ → Text
unfolding digits
to_string n = digits (suc n) n []

-- `operator<<` for an `int`.
unfoldable pub int_to_string : ℤ → Text
unfolding to_string
int_to_string (pos n) = to_string n
int_to_string (negsuc n) = b'-' ∷ to_string (suc n)

unfoldable pub is_digit : ℕ → Bool
is_digit c = leb b'0' c && leb c b'9'

-- The number that the leading digits spell behind `n`, with no bound.
read_digits : Text → ℕ → ℕ
unfolding is_digit
read_digits [] n = n
read_digits (c ∷ s) n = if is_digit c then read_digits s (n * 10 + (c - b'0')) else n

starts_with_digit : Text → Bool
unfolding is_digit
starts_with_digit [] = false
starts_with_digit (c ∷ s) = is_digit c

skip_spaces : Text → Text
unfolding is_space
skip_spaces [] = []
skip_spaces (c ∷ s) = if is_space c then skip_spaces s else c ∷ s

-- An optional sign: whether it is a minus, and what follows it.
take_sign : Text → Bool × Text
take_sign [] = (false, [])
take_sign (c ∷ s) =
    if c == b'-' then (true, s) else if c == b'+' then (false, s) else (false, c ∷ s)

-- `std::stoull`: leading white space, a sign and trailing text are accepted, a minus negates
-- modulo 2^64; `none` is `invalid_argument` or `out_of_range`.
unfoldable pub stoull : Text → Option ℕ
unfolding skip_spaces take_sign starts_with_digit read_digits
stoull s =
    let (minus, t) = take_sign (skip_spaces s) in
    if starts_with_digit t && ltb (read_digits t 0) u64_mod
    then some (if minus then (u64_mod - read_digits t 0) % u64_mod else read_digits t 0)
    else none

negate : ℕ → ℤ
negate zero = pos 0
negate (suc n) = negsuc n

-- `std::stoi`, with a 32-bit `int`.
unfoldable pub stoi : Text → Option ℤ
unfolding skip_spaces take_sign starts_with_digit read_digits negate
stoi s =
    let (minus, t) = take_sign (skip_spaces s) in
    if starts_with_digit t && ltb (read_digits t 0) (if minus then 2 ^ 31 + 1 else 2 ^ 31)
    then some (if minus then negate (read_digits t 0) else pos (read_digits t 0))
    else none

print_test : to_string 1048576 ≡ codes "1048576"
unfolding to_string
print_test = refl

stoull_tests :
    (stoull (codes "42x") ≡ some 42)
    × (stoull (codes "-1") ≡ some (2 ^ 64 - 1))
    × (stoull (codes "18446744073709551616") ≡ none)
    × (stoull (codes "x") ≡ none)
unfolding stoull
stoull_tests = (refl, refl, refl, refl)

stoi_tests : (stoi (codes "-7") ≡ some (negsuc 6)) × (stoi (codes "2147483648") ≡ none)
unfolding stoi
stoi_tests = (refl, refl)
