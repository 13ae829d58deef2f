-- ===== src/Session/Header.antt =====
-- The first line of a response that lists something: its name, OK and the number of entries.
use p2p_server_file_storage.Prelude.{
  ℕ, ◌+◌, ◌≤◌, ◌<◌, ◌≡◌, refl, ap, sym, ◌∙◌, true, [], ◌∷◌, ◌++◌, append-nil, append_assoc, arith,
  length, length-append, All,
}
use p2p_server_file_storage.Text.{Text, codes, crlf, is_space, str_eq_refl, to_string, u64_mod}
use p2p_server_file_storage.Text.Words.{
  IsWord, unspaced, unspaced-IsWord, spaced, parse_command, parse_command-spaced,
}
use p2p_server_file_storage.Text.Lines.{IsLine}
use p2p_server_file_storage.Text.Decimal.{to_string-IsWord, length-to_string}
use p2p_server_file_storage.Text.Messages.{spaced-IsLine}
use p2p_server_file_storage.Network.{max_message}
use p2p_server_file_storage.Client.MetadataClient.{is_ok}

module _ (name : Text) (count : ℕ) where
  abbrev pub ok_header : Text
  ok_header = name ++ spaced (codes "OK" ∷ to_string count ∷ [])

  header_words : All IsWord (codes "OK" ∷ to_string count ∷ [])
  unfolding unspaced is_space
  header_words = (unspaced-IsWord (codes "OK") refl refl, (to_string-IsWord count, tt))

  pub ok_header-IsLine : IsWord name → IsLine ok_header
  ok_header-IsLine h = spaced-IsLine name (codes "OK" ∷ to_string count ∷ []) h header_words

  pub ok_header_short : length name ≤ 100 → count < u64_mod → length ok_header + 1 < max_message
  ok_header_short h fits = omega (
    arith,
    h,
    length-append name (spaced (codes "OK" ∷ to_string count ∷ [])),
    length-append (to_string count) [],
    length-to_string count fits,
  )

  pub is_ok-ok_header : IsWord name → is_ok 3 name (parse_command ok_header) ≡ true
  unfolding is_ok
  is_ok-ok_header h =
      rw (parse_command-spaced name (codes "OK" ∷ to_string count ∷ []) h header_words)
        (rw (str_eq_refl name, str_eq_refl (codes "OK"), is_ok) refl)

  -- The text as the server writes it.
  pub ok_header_lem :
      (t : Text)
      → name ++ (codes " OK " ++ (to_string count ++ (crlf ++ t))) ≡ ok_header ++ (crlf ++ t)
  ok_header_lem t =
      ap (λ u. name ++ (codes " OK " ++ (u ++ (crlf ++ t)))) (sym (append-nil (to_string count)))
      ∙ sym (append_assoc name (spaced (codes "OK" ∷ to_string count ∷ [])) (crlf ++ t))
