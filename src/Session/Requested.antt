-- ===== src/Session/Requested.antt =====
-- RequestUploadNodes, from the request of the client to the nodes that it reads in the response.
use p2p_server_file_storage.Prelude.{
  ℕ, ◌+◌, ◌≤◌, ◌<◌, ◌≡◌, refl, sym, ap, ◌∙◌, true, false, List, [], ◌∷◌, ◌++◌, append-nil,
  append_assoc, map, some, arith, length, length-append, All, if◌then◌else◌, ltb,
}
use p2p_server_file_storage.Text.{Text, codes, is_space, to_string, u64_mod}
use p2p_server_file_storage.Text.Words.{
  IsWord, unspaced, unspaced-IsWord, parse_command, parse_command-spaced,
}
use p2p_server_file_storage.Text.Decimal.{to_string-IsWord, stoull-to_string}
use p2p_server_file_storage.Network.{send_message}
use p2p_server_file_storage.Network.Binary.{concat}
use p2p_server_file_storage.Network.Sockets.{Connection}
use p2p_server_file_storage.Nodes.Queries.{get_available_nodes}
use p2p_server_file_storage.Protocol.{
  Server, Environment, back, required_nodes, handle_request_upload, chunk_size, replication_factor,
}
use p2p_server_file_storage.Client.MetadataClient.{
  request_upload_message, receive_full_response, parse_upload_response,
}
use p2p_server_file_storage.Client.MetadataClient.Exchanges.{
  Address, connect_to_server, request_upload_nodes,
}
use p2p_server_file_storage.Session.Offered.{IsNameable, offered, parse_upload_response_lem}

-- A response of at most 4096 bytes is received whole, in whatever parts it comes.
receive_full_response-concat :
    (parts : List Text) (response : Text)
    → length response + length (concat parts) ≤ 4096
    → receive_full_response (map some parts) response ≡ response ++ concat parts
unfolding receive_full_response
receive_full_response-concat [] response h = sym (append-nil response)
receive_full_response-concat (part ∷ parts) response h =
    let size : length (response ++ part) + length (concat parts) ≤ 4096 =
      omega (arith, h, length-append response part, length-append part (concat parts)) in
    let room : ltb 4096 (length (response ++ part)) ≡ false = ground (arith, size) in
    rw room (
      receive_full_response-concat parts (response ++ part) size
      ∙ append_assoc response part (concat parts))

-- The words that the server reads in the request.
request_words :
    (name : Text) (size : ℕ)
    → IsWord name
    → parse_command (request_upload_message name size)
      ≡ codes "REQUEST_UPLOAD" ∷ name ∷ to_string size ∷ []
unfolding request_upload_message unspaced is_space
request_words name size word =
    ap (λ t. parse_command (codes "REQUEST_UPLOAD " ++ (name ++ (codes " " ++ t))))
      (sym (append-nil (to_string size)))
    ∙ parse_command-spaced (codes "REQUEST_UPLOAD") (name ∷ to_string size ∷ [])
        (unspaced-IsWord (codes "REQUEST_UPLOAD") refl refl) (word, (to_string-IsWord size, tt))

-- Where the server is reached, takes the request for a name that is one word and a size that fits 64
-- bits, and answers it, in whatever parts, with its response of at most 4096 bytes, `RequestUploadNodes`
-- returns the nodes that `GetAvailableNodes` gives, in order, with their ids, addresses, ports and
-- spaces, where each fits a line (`IsNameable`); and no node where there are fewer than two.
pub request_upload_nodes-handle_request_upload :
    (k : Connection) (a : Address) (env : Environment) (s : Server) (name : Text) (size : ℕ)
    (parts : List Text)
    → (connect_to_server k a).0 ≡ true
    → send_message k.send (request_upload_message name size) ≡ true
    → IsWord name
    → size < u64_mod
    → concat parts ≡ handle_request_upload env (parse_command (request_upload_message name size)) s
    → length (concat parts) ≤ 4096
    → All IsNameable (get_available_nodes (env.clock 0) (required_nodes size) chunk_size s.nodes)
    → let nodes = get_available_nodes (env.clock 0) (required_nodes size) chunk_size s.nodes in
      (request_upload_nodes k a (map some parts) name size).0
      ≡ (if ltb (length nodes) replication_factor then [] else map offered nodes)
unfolding request_upload_nodes back
request_upload_nodes-handle_request_upload k a env s name size parts reached taken word fits
      answered short nameable =
    let received = receive_full_response-concat parts [] (omega (arith, short)) in
    let spoken = ap (λ ws. handle_request_upload env ws s) (request_words name size word) in
    rw (reached, taken)
      (ap parse_upload_response (received ∙ answered ∙ spoken)
        ∙ parse_upload_response_lem env (codes "REQUEST_UPLOAD") name (to_string size) [] size s
            (stoull-to_string size fits) nameable)
