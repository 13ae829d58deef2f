-- ===== src/Session/FileLines.antt =====
-- The lines of the response to LIST_FILES, as the client reads them: it takes the first two words of
-- a line for the name and the size.
use p2p_server_file_storage.Prelude.{
  ℕ, ◌≤◌, ◌<◌, ◌≡◌, refl, sym, ap, ◌∙◌, subst, List, [], ◌∷◌, ◌++◌, append_assoc, none, some,
  Option-cases, arith, length, length-append, All, All-append, inl, inr,
}
use p2p_server_file_storage.Text.{Text, codes, is_space, str_eq_refl, to_string, stoull, u64_mod}
use p2p_server_file_storage.Text.Words.{
  IsWord, unspaced, unspaced-IsWord, spaced, spaced-append, parse_command, parse_command-spaced,
}
use p2p_server_file_storage.Text.Lines.{IsLine}
use p2p_server_file_storage.Text.Decimal.{to_string-IsWord, stoull-to_string, length-to_string}
use p2p_server_file_storage.Text.Messages.{spaced-IsLine, str_eq-spaced}
use p2p_server_file_storage.UnorderedMap.{UnorderedMap, Entries}
use p2p_server_file_storage.Files.{FileMetadata}
use p2p_server_file_storage.Client.MetadataClient.Listing.{file_entry, keep, parse_file_lines}
use p2p_server_file_storage.Client.MetadataClient.Received.{IsInner}

-- A file under a name of words with one space between, that a line can hold.
pub record IsSpelled (name : Text) (f : FileMetadata) : Type 0 where
  pub first : Text
  pub others : List Text
  pub spelled : name ≡ first ++ spaced others
  pub first_word : IsWord first
  pub other_words : All IsWord others
  pub short : length name ≤ 4000
  pub size_fits : f.total_size < u64_mod

-- What a line with these words becomes: a name of one word stands with its size; of a longer name
-- only the first word is left, with the number that the second begins with, if it begins with one.
abbrev pub listed : Text → List Text → ℕ → List (Text × ℕ)
listed first [] size = (first, size) ∷ []
listed first (w ∷ words) size = elim (stoull w) [ none ↦ [] | some n ↦ (first, n) ∷ [] ]

abbrev pub listed_files :
    (files : UnorderedMap FileMetadata) → Entries IsSpelled files → List (Text × ℕ)
listed_files [] h = []
listed_files ((name, f) ∷ files) (h, hs) =
    listed h.first h.others f.total_size ++ listed_files files hs

abbrev pub file_text : Text → FileMetadata → Text
file_text name f = name ++ spaced (to_string f.total_size ∷ [])

abbrev pub end_files : Text
end_files = codes "END_FILES"

abbrev pub file_texts : UnorderedMap FileMetadata → List Text
file_texts [] = []
file_texts ((name, f) ∷ files) = file_text name f ∷ file_texts files

module _ (name : Text) (f : FileMetadata) (h : IsSpelled name f) where
  abbrev text_words : List Text
  text_words = h.others ++ to_string f.total_size ∷ []

  text_words-All : All IsWord text_words
  text_words-All =
      All-append IsWord h.others (to_string f.total_size ∷ []) h.other_words
        (to_string-IsWord f.total_size, tt)

  file_text_words : file_text name f ≡ h.first ++ spaced text_words
  file_text_words =
      ap (λ t. t ++ spaced (to_string f.total_size ∷ [])) h.spelled
      ∙ append_assoc h.first (spaced h.others) (spaced (to_string f.total_size ∷ []))
      ∙ ap (λ t. h.first ++ t) (sym (spaced-append h.others (to_string f.total_size ∷ [])))

  pub file_text-IsLine : IsLine (file_text name f)
  file_text-IsLine =
      subst IsLine (sym file_text_words)
        (spaced-IsLine h.first text_words h.first_word text_words-All)

  file_text_read : parse_command (file_text name f) ≡ h.first ∷ text_words
  file_text_read =
      ap parse_command file_text_words
      ∙ parse_command-spaced h.first text_words h.first_word text_words-All

  pub file_text-IsInner : IsInner end_files (file_text name f)
  unfolding unspaced is_space
  file_text-IsInner = record {
    is_line = file_text-IsLine;
    short = omega (
      arith,
      h.short,
      length-append name (spaced (to_string f.total_size ∷ [])),
      length-append (to_string f.total_size) [],
      length-to_string f.total_size h.size_fits,
    );
    other =
        str_eq-spaced name (to_string f.total_size ++ []) end_files
          (unspaced-IsWord end_files refl refl).1;
  }

  file_text_entry :
      (ls : List Text)
      → parse_file_lines (file_text name f ∷ ls)
        ≡ listed h.first h.others f.total_size ++ parse_file_lines ls
  unfolding parse_file_lines keep file_entry
  file_text_entry ls = rw (file_text_read, file_text-IsInner.other, parse_file_lines) (go h.others)
    where
      go :
          (others : List Text)
          → keep
              (file_entry (h.first ∷ (others ++ to_string f.total_size ∷ [])))
              (parse_file_lines ls)
            ≡ listed h.first others f.total_size ++ parse_file_lines ls
      go [] = rw (stoull-to_string f.total_size h.size_fits, file_entry, keep) refl
      go (w ∷ words) = elim (Option-cases (stoull w)) [
        | inl e ↦ rw (e, file_entry, keep, listed) refl
        | inr (n, e) ↦ rw (e, file_entry, keep, listed) refl
      ]

pub parse_file_lines-texts :
    (files : UnorderedMap FileMetadata) (h : Entries IsSpelled files)
    → parse_file_lines (file_texts files ++ end_files ∷ []) ≡ listed_files files h
parse_file_lines-texts [] h = unfold parse_file_lines in rw (str_eq_refl end_files) refl
parse_file_lines-texts ((name, f) ∷ files) (h, hs) =
    file_text_entry name f h (file_texts files ++ end_files ∷ [])
    ∙ ap (λ l. listed h.first h.others f.total_size ++ l) (parse_file_lines-texts files hs)
