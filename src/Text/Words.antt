-- ===== src/Text/Words.antt =====
-- `ParseCommand` of protocol_handler.cpp and metadata_client.cpp: the words of a text.
use p2p_server_file_storage.Prelude.{
  Bool, not, ◌&&◌, arith, ◌≡◌, refl, inl, inr, true, false, List, [], ◌∷◌, ◌++◌, append-nil,
  append_assoc, All, All-append, Bool-cases,
}
use p2p_server_file_storage.Text.{Text, codes, is_space, space, is_empty}

-- A finished token is kept if it is not empty.
flush : Text → List Text → List Text
flush [] ts = ts
flush (c ∷ s) ts = (c ∷ s) ∷ ts

-- `while (ss >> token) tokens.push_back(token);` with the token read so far.
read_tokens : Text → Text → List Text
unfolding flush is_space
read_tokens [] cur = flush cur []
read_tokens (c ∷ s) cur = elim (is_space c) [
  | true ↦ flush cur (read_tokens s [])
  | false ↦ read_tokens s (cur ++ c ∷ [])
]

unfoldable pub parse_command : Text → List Text
unfolding read_tokens
parse_command s = read_tokens s []

-- A word: not empty, and with no white space.
abbrev pub IsWord : Text → Type 0
IsWord w = (is_empty w ≡ false) × All (λ c. is_space c ≡ false) w

-- The test behind `IsWord`, which a literal passes by computation.
unfoldable pub unspaced : Text → Bool
unspaced [] = true
unspaced (c ∷ s) = not (is_space c) && unspaced s

unspaced-All : (s : Text) → unspaced s ≡ true → All (λ c. is_space c ≡ false) s
unfolding unspaced
unspaced-All [] h = tt
unspaced-All (c ∷ s) h = (ground (arith, h), unspaced-All s (ground (arith, h)))

pub unspaced-IsWord : (w : Text) → is_empty w ≡ false → unspaced w ≡ true → IsWord w
unspaced-IsWord w e h = (e, unspaced-All w h)

-- Texts each behind a space.
abbrev pub spaced : List Text → Text
spaced [] = []
spaced (w ∷ ws) = space ∷ (w ++ spaced ws)

pub spaced-append : (vs ws : List Text) → spaced (vs ++ ws) ≡ spaced vs ++ spaced ws
spaced-append [] ws = refl
spaced-append (v ∷ vs) ws = simp (spaced-append vs ws, append_assoc)

read_tokens-append :
    (w rest cur : Text)
    → All (λ c. is_space c ≡ false) w
    → read_tokens (w ++ rest) cur ≡ read_tokens rest (cur ++ w)
unfolding read_tokens
read_tokens-append [] rest cur h = rw append-nil
read_tokens-append (c ∷ w) rest cur (hc, h) =
    rw (hc, read_tokens) (rw (read_tokens-append w rest (cur ++ c ∷ []) h, append_assoc))

flush_word : (w : Text) (ts : List Text) → is_empty w ≡ false → flush w ts ≡ w ∷ ts
unfolding flush
flush_word [] ts h = cc
flush_word (c ∷ w) ts h = refl

pub parse_command_word : (w : Text) → IsWord w → parse_command w ≡ w ∷ []
unfolding parse_command
parse_command_word w (ne, h) =
    rw (← append-nil w) (rw (read_tokens-append w [] [] h) (rw append-nil (flush_word w [] ne)))

pub parse_command_cons :
    (w rest : Text) → IsWord w → parse_command (w ++ space ∷ rest) ≡ w ∷ parse_command rest
unfolding parse_command is_space
parse_command_cons w rest (ne, h) =
    rw (read_tokens-append w (space ∷ rest) [] h) (flush_word w (read_tokens rest []) ne)

-- The words of a line of words with one space between them are those words.
pub parse_command-spaced :
    (w : Text) (ws : List Text) → IsWord w → All IsWord ws → parse_command (w ++ spaced ws) ≡ w ∷ ws
parse_command-spaced w [] h hs = rw append-nil (parse_command_word w h)
parse_command-spaced w (v ∷ ws) h (hv, hs) =
    rw (parse_command_cons w (v ++ spaced ws) h, parse_command-spaced v ws hv hs)

flush-All :
    (w : Text) (ts : List Text)
    → All (λ c. is_space c ≡ false) w
    → All IsWord ts
    → All IsWord (flush w ts)
unfolding flush
flush-All [] ts h hs = hs
flush-All (c ∷ w) ts h hs = ((refl, h), hs)

read_tokens-All :
    (s cur : Text) → All (λ c. is_space c ≡ false) cur → All IsWord (read_tokens s cur)
unfolding read_tokens
read_tokens-All [] cur h = flush-All cur [] h tt
read_tokens-All (c ∷ s) cur h = elim (Bool-cases (is_space c)) [
  | inl e ↦ rw (e, read_tokens) (flush-All cur _ h (read_tokens-All s [] tt))
  | inr e ↦
      rw (e, read_tokens) (read_tokens-All s (cur ++ c ∷ []) (All-append _ cur (c ∷ []) h (e, tt)))
]

-- Every token is a word, whatever the request.
pub parse_command-All : (s : Text) → All IsWord (parse_command s)
unfolding parse_command
parse_command-All s = read_tokens-All s [] tt

words_test :
    parse_command (codes "  KEEP_ALIVE \t node1\r") ≡ codes "KEEP_ALIVE" ∷ codes "node1" ∷ []
unfolding parse_command
words_test = refl
