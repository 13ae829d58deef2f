-- ===== src/Text/Lines.antt =====
-- `SplitLines` of protocol_handler.cpp and metadata_client.cpp.
use p2p_server_file_storage.Prelude.{
  ◌≡◌, refl, subst, true, false, List, [], ◌∷◌, ◌++◌, append-nil, append_assoc, arith, All,
  All-append, ◌==◌, if◌then◌else◌, ◌≢◌,
}
use p2p_server_file_storage.Text.{Text, codes, newline, carriage_return, crlf, is_empty}

-- `std::getline` until the end: a last line without a newline counts if it is not empty.
get_lines : Text → Text → List Text
get_lines [] cur = if is_empty cur then [] else cur ∷ []
get_lines (c ∷ s) cur = elim (c == newline) [
  | true ↦ cur ∷ get_lines s []
  | false ↦ get_lines s (cur ++ c ∷ [])
]

-- `if (line.back() == '\r') line.pop_back();`
unfoldable pub pop_carriage_return : Text → Text
pop_carriage_return [] = []
pop_carriage_return (c ∷ []) = if c == carriage_return then [] else c ∷ []
pop_carriage_return (c ∷ d ∷ s) = c ∷ pop_carriage_return (d ∷ s)

keep_lines : List Text → List Text
unfolding pop_carriage_return
keep_lines [] = []
keep_lines (l ∷ ls) =
    if is_empty (pop_carriage_return l)
    then keep_lines ls
    else pop_carriage_return l ∷ keep_lines ls

unfoldable pub split_lines : Text → List Text
unfolding get_lines keep_lines
split_lines t = keep_lines (get_lines t [])

-- A line: not empty, and with no newline inside.
abbrev pub IsLine : Text → Type 0
IsLine l = (is_empty l ≡ false) × All (λ c. c ≢ newline) l

-- Lines as the program writes them, each with its CRLF.
abbrev pub unlines : List Text → Text
unlines [] = []
unlines (l ∷ ls) = l ++ (crlf ++ unlines ls)

pub unlines-append : (ks ls : List Text) → unlines (ks ++ ls) ≡ unlines ks ++ unlines ls
unlines-append [] ls = refl
unlines-append (k ∷ ks) ls = rw (unlines-append ks ls) (simp append_assoc)

get_lines-append :
    (l rest cur : Text)
    → All (λ c. c ≢ newline) l
    → get_lines (l ++ newline ∷ rest) cur ≡ (cur ++ l) ∷ get_lines rest []
unfolding get_lines
get_lines-append [] rest cur h = rw append-nil
get_lines-append (c ∷ l) rest cur (hc, h) =
    ground (arith, get_lines-append l rest (cur ++ c ∷ []) h, append_assoc cur (c ∷ []) l)

pub pop_carriage_return-append : (l : Text) → pop_carriage_return (l ++ carriage_return ∷ []) ≡ l
unfolding pop_carriage_return
pop_carriage_return-append [] = refl
pop_carriage_return-append (c ∷ []) = refl
pop_carriage_return-append (c ∷ d ∷ l) = rw (pop_carriage_return-append (d ∷ l))

All-ends_in_return :
    (l : Text) → All (λ c. c ≢ newline) l → All (λ c. c ≢ newline) (l ++ carriage_return ∷ [])
All-ends_in_return l h = All-append _ l (carriage_return ∷ []) h (omega arith)

pub split_lines_cons :
    (l rest : Text) → IsLine l → split_lines (l ++ (crlf ++ rest)) ≡ l ∷ split_lines rest
unfolding split_lines
split_lines_cons l rest (ne, h) =
    subst (λ t. split_lines t ≡ l ∷ split_lines rest)
      (append_assoc l (carriage_return ∷ []) (newline ∷ rest))
      (rw (get_lines-append (l ++ carriage_return ∷ []) rest [] (All-ends_in_return l h))
        (rw (pop_carriage_return-append l, ne, keep_lines)))

-- Lines written with their CRLF are split into the same lines.
pub split_lines-unlines : (ls : List Text) → All IsLine ls → split_lines (unlines ls) ≡ ls
split_lines-unlines [] h = unfold split_lines in refl
split_lines-unlines (l ∷ ls) (hl, h) =
    rw (split_lines_cons l (unlines ls) hl, split_lines-unlines ls h)

lines_test : split_lines (codes "a\r\n\r\nb\nc\r") ≡ codes "a" ∷ codes "b" ∷ codes "c" ∷ []
unfolding split_lines
lines_test = refl
