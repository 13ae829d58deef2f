-- ===== src/Session/FileList.antt =====
-- LIST_FILES, from the register of the server to the list of the client. A name is looked up by
-- `GetFileMetadata`, which sanitizes it and writes its access time.
use p2p_server_file_storage.Prelude.{
  ℕ, ◌+◌, ◌<◌, ◌≡◌, refl, sym, ap, ◌∙◌, subst, [], ◌∷◌, ◌++◌, append_assoc, some, Option-cases,
  arith, length, All, Bool-cases, inl, inr,
}
use p2p_server_file_storage.Text.{
  Text, codes, crlf, is_space, str_eq, str_eq_refl, str_eq_iff, to_string, u64_mod,
}
use p2p_server_file_storage.Text.Words.{IsWord, unspaced, unspaced-IsWord, spaced}
use p2p_server_file_storage.Text.Lines.{IsLine, unlines, split_lines-unlines}
use p2p_server_file_storage.Text.Messages.{spaced-IsLine}
use p2p_server_file_storage.UnorderedMap.{
  UnorderedMap, find, modify, keys, Distinct, Entries, find-modify,
}
use p2p_server_file_storage.Network.Sockets.{Connection}
use p2p_server_file_storage.Files.{
  FileMetadata, MetadataManager, get_file_metadata, sanitize_filename,
}
use p2p_server_file_storage.Files
use p2p_server_file_storage.Files.Names.{sanitize_filename-IsClean}
use p2p_server_file_storage.Files.Invariant.{IsAccurate, IsStored}
use p2p_server_file_storage.Protocol.{Server, Environment, line, list_file_lines, handle_list_files}
use p2p_server_file_storage.Client.MetadataClient.Listing.{parse_list_files, list_files_lines}
use p2p_server_file_storage.Client.MetadataClient.Exchanges.{Address, list_files, read_files}
use p2p_server_file_storage.Client.MetadataClient.Received.{
  IsAnsweredWith, IsInner, IsLast, request_lines-unlines,
}
use p2p_server_file_storage.Session.Header.{
  ok_header, ok_header-IsLine, ok_header_short, is_ok-ok_header, ok_header_lem,
}
use p2p_server_file_storage.Session.FileLines.{
  IsSpelled, listed_files, end_files, file_texts, file_text-IsLine, file_text-IsInner,
  parse_file_lines-texts,
}

-- Each name finds, when it is looked up, a record with this size.
abbrev IsFound : MetadataManager → Text → FileMetadata → Type 0
IsFound m name f =
    (sanitize_filename name ≡ name)
    × (g : FileMetadata) × (find name m.files ≡ some g)
    × (g.total_size ≡ f.total_size)

module _ (name : Text) (now : ℕ) (m : MetadataManager) where
  abbrev access : FileMetadata → FileMetadata
  access g = record g { last_accessed = now }

  get_file_metadata_found :
      (g : FileMetadata)
      → sanitize_filename name ≡ name
      → find name m.files ≡ some g
      → (get_file_metadata name now m).1 ≡ some (access g)
  unfolding get_file_metadata
  get_file_metadata_found g clean found = rw (clean, found, get_file_metadata) refl

  find-access :
      (other : Text) (g : FileMetadata)
      → find other m.files ≡ some g
      → (g' : FileMetadata) × (find other (modify (sanitize_filename name) access m.files)
          ≡ some g')
        × (g'.total_size ≡ g.total_size)
  find-access other g found =
      let e = find-modify (sanitize_filename name) other access m.files in
      elim (Bool-cases (str_eq (sanitize_filename name) other)) [
        | inl same ↦ (access g, ground (arith, e, same, found), refl)
        | inr apart ↦ (g, ground (arith, e, apart, found), refl)
      ]

  get_file_metadata-IsFound :
      (other : Text) (f : FileMetadata)
      → IsFound m other f
      → IsFound (get_file_metadata name now m).0 other f
  unfolding get_file_metadata
  get_file_metadata-IsFound other f (clean, g, found, size) =
      elim (Option-cases (find (sanitize_filename name) m.files)) [
        | inl e ↦ rw (e, get_file_metadata) (clean, g, found, size)
        | inr (a, e) ↦
            let (g', found', size') = find-access other g found in
            rw (e, get_file_metadata) (clean, g', found', size' ∙ size)
      ]

  get_file_metadata-Entries :
      (files : UnorderedMap FileMetadata)
      → Entries (IsFound m) files
      → Entries (IsFound (get_file_metadata name now m).0) files
  get_file_metadata-Entries [] h = tt
  get_file_metadata-Entries ((other, f) ∷ files) (h, hs) =
      (get_file_metadata-IsFound other f h, get_file_metadata-Entries files hs)

list_file_lines-texts :
    (files : UnorderedMap FileMetadata) (i : ℕ) (env : Environment) (m : MetadataManager)
    → Entries (IsFound m) files
    → (list_file_lines (keys files) i env m).1 ++ line end_files
      ≡ unlines (file_texts files ++ end_files ∷ [])
unfolding list_file_lines keys
list_file_lines-texts [] i env m h = refl
list_file_lines-texts ((name, f) ∷ files) i env m ((clean, g, found, size), hs) =
    let m' = (get_file_metadata name (env.clock i) m).0 in
    let text = (list_file_lines (keys files) (i + 1) env m').1 in
    let size_text = spaced (to_string f.total_size ∷ []) in
    let rest =
      list_file_lines-texts files (i + 1) env m'
        (get_file_metadata-Entries name (env.clock i) m files hs) in
    rw (get_file_metadata_found name (env.clock i) m g clean found, size, list_file_lines)
      (append_assoc name (size_text ++ (crlf ++ text)) (line end_files)
        ∙ ap (λ t. name ++ t)
            (append_assoc size_text (crlf ++ text) (line end_files)
              ∙ ap (λ t. size_text ++ (crlf ++ t)) rest)
        ∙ sym (append_assoc name size_text (crlf ++ unlines (file_texts files ++ end_files ∷ []))))

-- In a register without errors each name finds its own record.
find_all :
    (m : MetadataManager) (files : UnorderedMap FileMetadata)
    → Distinct files
    → Entries (λ name f. sanitize_filename name ≡ name) files
    → ((name : Text) (f : FileMetadata) → find name files ≡ some f → find name m.files ≡ some f)
    → Entries (IsFound m) files
unfolding find
find_all m [] d clean h = tt
find_all m ((name, f) ∷ files) (new, d) (c, clean) h = (
  (c, f, h name f (rw (str_eq_refl name) refl), refl),
  find_all m files d clean λ other g e. h other g (elim (Bool-cases (str_eq name other)) [
    | inr apart ↦ rw apart e
    | inl same ↦ ground (arith, new, e, str_eq_iff name other, same)
  ]),
)

clean_names :
    (files : UnorderedMap FileMetadata)
    → Entries IsStored files
    → Entries (λ name f. sanitize_filename name ≡ name) files
clean_names [] h = tt
clean_names ((name, f) ∷ files) (h, hs) =
    ((sanitize_filename-IsClean name).1 h.clean, clean_names files hs)

abbrev title : Text
title = codes "LIST_FILES_RESPONSE"

title-IsWord : IsWord title
unfolding unspaced is_space
title-IsWord = unspaced-IsWord title refl refl

end_line : IsLast end_files
unfolding unspaced is_space
end_line = (spaced-IsLine end_files [] (unspaced-IsWord end_files refl refl) tt, omega arith)

length-keys : (files : UnorderedMap FileMetadata) → length (keys files) ≡ length files
unfolding keys
length-keys [] = refl
length-keys ((name, f) ∷ files) = omega (arith, length-keys files)

response_text : UnorderedMap FileMetadata → Text
response_text files =
    unlines (ok_header title (length files) ∷ (file_texts files ++ end_files ∷ []))

handle_list_files_lem :
    (env : Environment) (s : Server)
    → IsAccurate s.files
    → (handle_list_files env s).1 ≡ response_text s.files.files
unfolding handle_list_files Files.list_files response_text
handle_list_files_lem env s h =
    let files = s.files.files in
    let found = find_all s.files files h.distinct (clean_names files h.stored) (λ name f e. e) in
    let text = (list_file_lines (keys files) 0 env s.files).1 in
    ok_header_lem title (length (keys files)) (text ++ line end_files)
    ∙ ap (λ t. ok_header title (length (keys files)) ++ (crlf ++ t))
        (list_file_lines-texts files 0 env s.files found)
    ∙ ap (λ n. ok_header title n ++ (crlf ++ unlines (file_texts files ++ end_files ∷ [])))
        (length-keys files)

file_texts-All :
    (files : UnorderedMap FileMetadata)
    → Entries IsSpelled files
    → All (IsInner end_files) (file_texts files)
file_texts-All [] h = tt
file_texts-All ((name, f) ∷ files) (h, hs) = (file_text-IsInner name f h, file_texts-All files hs)

texts-All :
    (files : UnorderedMap FileMetadata)
    → Entries IsSpelled files
    → All IsLine (file_texts files ++ end_files ∷ [])
texts-All [] h = (end_line.0, tt)
texts-All ((name, f) ∷ files) (h, hs) = (file_text-IsLine name f h, texts-All files hs)

parse_list_files-text :
    (files : UnorderedMap FileMetadata) (h : Entries IsSpelled files)
    → parse_list_files (response_text files) ≡ listed_files files h
unfolding parse_list_files list_files_lines response_text
parse_list_files-text files h =
    rw
      (split_lines-unlines (ok_header title (length files) ∷ (file_texts files ++ end_files ∷ []))
        (ok_header-IsLine title (length files) title-IsWord, texts-All files h))
      (rw (is_ok-ok_header title (length files) title-IsWord, list_files_lines)
        (parse_file_lines-texts files h))

-- Where the server is reached, takes the request and answers with its response to LIST_FILES from a
-- register without errors (`IsAccurate`), in which each name is words with one space between that a
-- line can hold, `ListFiles` gives every file whose name is one word, in order, with its size; of a
-- longer name it gives only the first word, with the number that the second word begins with, and
-- nothing where that word begins with no number.
pub list_files-handle_list_files :
    (k : Connection) (a : Address) (env : Environment) (s : Server)
    → IsAnsweredWith k a (codes "LIST_FILES") (handle_list_files env s).1
    → IsAccurate s.files
    → (h : Entries IsSpelled s.files.files) → length s.files.files < u64_mod
    → list_files k a ≡ listed_files s.files.files h
unfolding list_files read_files response_text
list_files-handle_list_files k a env s answered accurate h fits =
    let files = s.files.files in
    ap read_files (
      request_lines-unlines k a (codes "LIST_FILES") end_files (ok_header title (length files))
        (file_texts files)
        (subst (IsAnsweredWith k a (codes "LIST_FILES")) (handle_list_files_lem env s accurate)
          answered)
        end_line (ok_header-IsLine title (length files) title-IsWord)
        (ok_header_short title (length files) (omega arith) fits) (file_texts-All files h))
    ∙ parse_list_files-text files h
