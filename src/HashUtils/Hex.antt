-- ===== src/HashUtils/Hex.antt =====
-- Hexadecimal text: its length, and that it determines the bytes, whatever the case of its letters.
use p2p_server_file_storage.Prelude.{
  ℕ, ◌*◌, ◌/◌, ◌%◌, ◌<◌, ◌≡◌, refl, sym, ◌∙◌, List, [], ◌∷◌, All, arith, length,
}
use p2p_server_file_storage.Client.ChunkProcessor.{lower, to_lower}
use p2p_server_file_storage.HashUtils.{hex_digit, hex_number, filled, hex_string}

-- The values of a byte.
abbrev pub IsByte : ℕ → Type 0
IsByte b = b < 256

filled-hex_number :
    (b : ℕ) → IsByte b → filled (hex_number b) ≡ hex_digit (b / 16) ∷ hex_digit (b % 16) ∷ []
unfolding filled hex_number hex_digit
filled-hex_number b h = ground arith

hex_string_cons :
    (b : ℕ) (bs : List ℕ)
    → IsByte b
    → hex_string (b ∷ bs) ≡ hex_digit (b / 16) ∷ hex_digit (b % 16) ∷ hex_string bs
unfolding hex_string
hex_string_cons b bs h = rw (filled-hex_number b h) refl

-- Two characters for a byte.
pub length-hex_string : (bs : List ℕ) → All IsByte bs → length (hex_string bs) ≡ 2 * length bs
length-hex_string [] h = unfold hex_string in omega arith
length-hex_string (b ∷ bs) (hb, h) =
    rw (hex_string_cons b bs hb) (omega (arith, length-hex_string bs h))

hex_digit_injective : (m n : ℕ) → m < 16 → n < 16 → hex_digit m ≡ hex_digit n → m ≡ n
unfolding hex_digit
hex_digit_injective m n hm hn e = ground (arith, e)

to_lower-hex_digit : (n : ℕ) → n < 16 → to_lower (hex_digit n) ≡ hex_digit n
unfolding to_lower hex_digit
to_lower-hex_digit n h = ground arith

-- The letters are lower case.
pub lower-hex_string : (bs : List ℕ) → All IsByte bs → lower (hex_string bs) ≡ hex_string bs
unfolding lower
lower-hex_string [] h = unfold hex_string in refl
lower-hex_string (b ∷ bs) (hb, h) =
    rw
      (
        hex_string_cons b bs hb,
        to_lower-hex_digit (b / 16) (omega (arith, hb)),
        to_lower-hex_digit (b % 16) (omega arith),
        lower-hex_string bs h,
      )
      refl

-- Bytes with the same hexadecimal text are the same.
pub hex_string_injective :
    (bs cs : List ℕ) → All IsByte bs → All IsByte cs → hex_string bs ≡ hex_string cs → bs ≡ cs
hex_string_injective [] [] h k e = refl
hex_string_injective [] (c ∷ cs) h (hc, k) e =
    unfold hex_string in ground (arith, e, hex_string_cons c cs hc)
hex_string_injective (b ∷ bs) [] (hb, h) k e =
    unfold hex_string in ground (arith, e, hex_string_cons b bs hb)
hex_string_injective (b ∷ bs) (c ∷ cs) (hb, h) (hc, k) e =
    let both : hex_digit (b / 16) ∷ hex_digit (b % 16) ∷ hex_string bs
        ≡ hex_digit (c / 16) ∷ hex_digit (c % 16) ∷ hex_string cs =
      sym (hex_string_cons b bs hb) ∙ e ∙ hex_string_cons c cs hc in
    let high : b / 16 ≡ c / 16 =
      hex_digit_injective (b / 16) (c / 16) (omega (arith, hb)) (omega (arith, hc)) (cc both) in
    let low : b % 16 ≡ c % 16 =
      hex_digit_injective (b % 16) (c % 16) (omega arith) (omega arith) (cc both) in
    let same : b ≡ c = omega (arith, high, low) in
    rw (same, hex_string_injective bs cs h k (cc both)) refl
