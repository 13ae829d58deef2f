-- ===== src/MetadataServer/Uploaded.antt =====
-- The response to UPLOAD_COMPLETE ends in CRLF.
use p2p_server_file_storage.Prelude.{
  Bool, true, false, List, [], ◌∷◌, ◌++◌, Option, Option-cases, if_cases, inl, inr,
}
use p2p_server_file_storage.Text.{Text, codes, crlf, str_eq}
use p2p_server_file_storage.Text.Words.{parse_command}
use p2p_server_file_storage.Text.Lines.{split_lines}
use p2p_server_file_storage.Network.{Recv}
use p2p_server_file_storage.Files.{MetadataManager, returns, relocks, Outcome}
use p2p_server_file_storage.Protocol.{
  Server, Environment, upload_response, upload_words, upload_lines, handle_upload_complete,
  expected_upload, process_multiline_request, read_multiline_request,
}
use p2p_server_file_storage.MetadataServer.Responses.{
  EndsCrlf, Answers, line-EndsCrlf, error-EndsCrlf,
}

module _ (env : Environment) (s : Server) where
  upload_response-Answers : (r : Outcome (MetadataManager × Bool)) → Answers (upload_response s r)
  unfolding upload_response
  upload_response-Answers relocks = tt
  upload_response-Answers (returns (files, true)) =
      line-EndsCrlf (codes "UPLOAD_COMPLETE_RESPONSE OK")
  upload_response-Answers (returns (files, false)) =
      line-EndsCrlf (codes "UPLOAD_COMPLETE_RESPONSE ERROR REGISTRATION_FAILED")

  abbrev invalid_format : EndsCrlf (codes "UPLOAD_COMPLETE_RESPONSE ERROR INVALID_FORMAT" ++ crlf)
  invalid_format = line-EndsCrlf (codes "UPLOAD_COMPLETE_RESPONSE ERROR INVALID_FORMAT")

  upload_lines-Answers : (lines : List Text) → Answers (upload_lines env lines s)
  unfolding upload_lines
  upload_lines-Answers [] = invalid_format
  upload_lines-Answers (l ∷ ls) = go (parse_command l)
    where
      go : (words : List Text) → Answers (upload_words env words ls s)
      go [] = unfold upload_words in invalid_format
      go (command ∷ []) = unfold upload_words in invalid_format
      go (command ∷ w ∷ ws) =
          unfold upload_words in
          if_cases Answers (str_eq command (codes "UPLOAD_COMPLETE")) (upload_response-Answers _)
            invalid_format

  handle_upload_complete-Answers :
      (first_line : Text) (input : List Recv)
      → Answers (handle_upload_complete env first_line input s)
  unfolding handle_upload_complete
  handle_upload_complete-Answers first_line input =
      elim (Option-cases (read_multiline_request first_line input).0) [
        | inl e ↦
            rw (e, handle_upload_complete)
              (line-EndsCrlf (codes "UPLOAD_COMPLETE_RESPONSE ERROR READ_ERROR"))
        | inr (request, e) ↦
            rw (e, handle_upload_complete) (upload_lines-Answers (split_lines request))
      ]

  expected_upload-Answers :
      (reply : Option (Server × Text)) (words : List Text)
      → Answers reply
      → Answers (expected_upload reply words s)
  unfolding expected_upload
  expected_upload-Answers reply [] h =
      error-EndsCrlf (codes "INVALID_COMMAND") (codes "Expected UPLOAD_COMPLETE")
  expected_upload-Answers reply (command ∷ args) h =
      if_cases Answers (str_eq command (codes "UPLOAD_COMPLETE")) h
        (error-EndsCrlf (codes "INVALID_COMMAND") (codes "Expected UPLOAD_COMPLETE"))

  pub process_multiline_request-Answers :
      (first_line : Text) (input : List Recv)
      → Answers (process_multiline_request env first_line input s)
  unfolding process_multiline_request
  process_multiline_request-Answers first_line input =
      expected_upload-Answers (handle_upload_complete env first_line input s)
        (parse_command first_line) (handle_upload_complete-Answers first_line input)
