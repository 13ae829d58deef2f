-- ===== src/Text/Messages.antt =====
-- Lines of words: what the two message formats, words and lines, have to do with one another.
use p2p_server_file_storage.Prelude.{
  ℕ, ◌≡◌, ◌≢◌, refl, ap, false, List, [], ◌∷◌, ◌++◌, arith, All, All-append, All-mono, length,
}
use p2p_server_file_storage.Text.{Text, newline, space, is_space, is_empty, str_eq, str_eq_iff}
use p2p_server_file_storage.Text.Words.{IsWord, spaced}
use p2p_server_file_storage.Text.Lines.{IsLine}

not_newline : (c : ℕ) → is_space c ≡ false → c ≢ newline
unfolding is_space
not_newline c h e = ground arith

spaced-All : (ws : List Text) → All IsWord ws → All (λ c. c ≢ newline) (spaced ws)
spaced-All [] h = tt
spaced-All (w ∷ ws) (hw, h) =
    (omega arith, All-append _ w (spaced ws) (All-mono not_newline w hw.1) (spaced-All ws h))

is_empty-append : (s t : Text) → is_empty s ≡ false → is_empty (s ++ t) ≡ false
is_empty-append [] t h = cc
is_empty-append (c ∷ s) t h = refl

-- Words with a space between them are one line.
pub spaced-IsLine : (w : Text) (ws : List Text) → IsWord w → All IsWord ws → IsLine (w ++ spaced ws)
spaced-IsLine w ws hw h = (
  is_empty-append w (spaced ws) hw.0,
  All-append _ w (spaced ws) (All-mono not_newline w hw.1) (spaced-All ws h),
)

-- Texts of different lengths differ.
pub str_eq-length : (s t : Text) → length s ≢ length t → str_eq s t ≡ false
str_eq-length s t h = ground (arith, str_eq_iff s t, λ (e : s ≡ t). h (ap length e))

-- A text with a space in it is none without.
pub str_eq-spaced :
    (w rest t : Text) → All (λ c. is_space c ≡ false) t → str_eq (w ++ space ∷ rest) t ≡ false
unfolding str_eq is_space
str_eq-spaced [] rest [] h = refl
str_eq-spaced [] rest (c ∷ t) h = ground (arith, h.0)
str_eq-spaced (d ∷ w) rest [] h = refl
str_eq-spaced (d ∷ w) rest (c ∷ t) h = ground (arith, str_eq-spaced w rest t h.1)
