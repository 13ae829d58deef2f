-- ===== src/Client/NodeClient/Stored.antt =====
-- What `StoreChunk` hands to a storage node.
use p2p_server_file_storage.Prelude.{
  Option, ℕ, ◌+◌, ◌^◌, ◌≤◌, ◌<◌, ◌≡◌, refl, sym, ap, ◌∙◌, Bool, true, false, List, [], ◌∷◌, ◌++◌,
  some, arith, length, take_all, length-append, append-nil, append_assoc, subst, All, if_cases,
  Bool-cases, inl, inr,
}
use p2p_server_file_storage.Text.{Text, codes, crlf, is_space, to_string, u64_mod}
use p2p_server_file_storage.Text.Words.{
  IsWord, spaced, unspaced, unspaced-IsWord, parse_command, parse_command-spaced,
}
use p2p_server_file_storage.Text.Lines.{IsLine}
use p2p_server_file_storage.Text.Decimal.{to_string-IsWord, length-to_string}
use p2p_server_file_storage.Text.Messages.{spaced-IsLine}
use p2p_server_file_storage.Client.NodeClient.Delivered.{receive_binary_data-recv_parts}
use p2p_server_file_storage.Network.{Recv, message_text, send_message, receive_message, max_message}
use p2p_server_file_storage.Network.Binary.{GetsOn, receive_binary_data, send_binary_data_lem}
use p2p_server_file_storage.Network.Delivery.{
  bytes, bytes-append, receive_message-line, message_text-IsLine, send_message_lem,
}
use p2p_server_file_storage.Client.MetadataClient.{StorageNodeInfo}
use p2p_server_file_storage.Network.Sockets.{
  Connection, Event, opened, handed, closed, taken, hand_over,
}
use p2p_server_file_storage.Client.NodeClient.{
  connect_to_node, store_answer, store_chunk, recv_parts, response_contains, store_command,
}

pub hand_over-send_message :
    (k : Connection) (command : Text)
    → length (message_text command) < 2 ^ 31
    → send_message k.send command ≡ true
    → hand_over k command ≡ handed (message_text command)
unfolding hand_over taken
hand_over-send_message k command short e =
    rw (send_message_lem k.send command short e)
      (ap handed (take_all (length (message_text command)) (message_text command) (omega arith)))

-- What the node has been handed, and has answered, where `StoreChunk` returns true.
pub record IsStored (k : Connection) (id : Text) (d : List ℕ) (events : List Event) : Type 0 where
  pub commanded : send_message k.send (store_command id d) ≡ true
  pub spelled :
      events ≡ opened ∷ handed (message_text (store_command id d)) ∷ handed d ∷ closed ∷ []
  pub confirmed :
      response_contains (codes "STORE_RESPONSE OK") (receive_message max_message k.input) ≡ true

-- A command with an id of at most 1024 bytes and a size that fits 64 bits is short.
store_command_short :
    (id : Text) (d : List ℕ)
    → length id ≤ 1024
    → length d < u64_mod
    → length (store_command id d) + 1 < max_message
unfolding store_command
store_command_short id d h fits = omega (
  arith,
  length-append id (codes " " ++ to_string (length d)),
  length-to_string (length d) fits,
  h,
)

store_text_short :
    (id : Text) (d : List ℕ)
    → length id ≤ 1024
    → length d < u64_mod
    → length (message_text (store_command id d)) < 2 ^ 31
unfolding message_text
store_text_short id d h fits =
    let short = store_command_short id d h fits in
    let longer : length (store_command id d ++ crlf) < 2 ^ 31 =
      omega (arith, short, length-append (store_command id d) crlf) in
    let same : length (store_command id d) < 2 ^ 31 = omega (arith, short) in
    if_cases (λ (t : Text). length t < 2 ^ 31) _ longer same

store_answer_lem :
    (k : Connection) (id : Text) (d : List ℕ) (success : Bool) (sent : List ℕ)
    → length id ≤ 1024
    → length d < u64_mod
    → send_message k.send (store_command id d) ≡ true
    → (success ≡ true → sent ≡ d)
    → (done : Bool) × (events : List Event) × (store_answer k
          (hand_over k (store_command id d))
          (some (success, sent))
        ≡ some (done, events))
      × (done ≡ true → IsStored k id d events)
unfolding store_answer
store_answer_lem k id d false sent named fits c whole = (
  false,
  opened ∷ hand_over k (store_command id d) ∷ handed sent ∷ closed ∷ [],
  refl,
  λ t. ground arith,
)
store_answer_lem k id d true sent named fits c whole = (
  response_contains (codes "STORE_RESPONSE OK") (receive_message max_message k.input),
  opened ∷ hand_over k (store_command id d) ∷ handed sent ∷ closed ∷ [],
  refl,
  λ t. record {
    commanded = c;
    spelled =
        rw
          (
            hand_over-send_message k (store_command id d) (store_text_short id d named fits) c,
            whole refl,
          )
          refl;
    confirmed = t;
  },
)

-- Where the id has at most 1024 bytes and the size fits 64 bits, every `send` of data fails or takes a
-- byte at least, and as many calls are made as there are bytes, `StoreChunk` returns; and if it returns true, the socket was handed exactly the command and
-- the data, and was closed, and the answer holds `STORE_RESPONSE OK`.
pub store_chunk_lem :
    (k : Connection) (node : StorageNodeInfo) (id : Text) (d : List ℕ)
    → All GetsOn k.sends
    → length d ≤ length k.sends
    → length id ≤ 1024
    → length d < u64_mod
    → (success : Bool) × (events : List Event) × (store_chunk k node id d ≡ some (success, events))
      × (success ≡ true → IsStored k id d events)
unfolding store_chunk
store_chunk_lem k node id d gets_on calls named fits =
    elim (Bool-cases (connect_to_node k node).0) [
      | inr e ↦ (false, (connect_to_node k node).1, rw e refl, λ t. ground arith)
      | inl e ↦ elim (Bool-cases (send_message k.send (store_command id d))) [
        | inr c ↦ (
          false,
          opened ∷ hand_over k (store_command id d) ∷ closed ∷ [],
          rw (e, c) refl,
          λ t. ground arith,
        )
        | inl c ↦
            let (success, sent, result, whole) = send_binary_data_lem k.sends d gets_on calls in
            let (done, events, returned, h) =
              store_answer_lem k id d success sent named fits c whole in
            (done, events, rw (e, c, result) returned, h)
      ]
    ]

-- The bytes that the socket took, in order.
abbrev pub handed_bytes : List Event → List ℕ
handed_bytes [] = []
handed_bytes (handed sent ∷ events) = sent ++ handed_bytes events
handed_bytes (event ∷ events) = handed_bytes events

module _ (id : Text) (d : List ℕ) (id-IsWord : IsWord id) where
  size_words : All IsWord (id ∷ to_string (length d) ∷ [])
  size_words = (id-IsWord, (to_string-IsWord (length d), tt))

  store-IsWord : IsWord (codes "STORE_CHUNK")
  unfolding unspaced is_space
  store-IsWord = unspaced-IsWord (codes "STORE_CHUNK") refl refl

  store_command_words :
      store_command id d ≡ codes "STORE_CHUNK" ++ spaced (id ∷ to_string (length d) ∷ [])
  unfolding store_command
  store_command_words = rw (append-nil (to_string (length d))) refl

  store_command-IsLine : IsLine (store_command id d)
  store_command-IsLine =
      rw store_command_words (
        spaced-IsLine (codes "STORE_CHUNK") (id ∷ to_string (length d) ∷ []) store-IsWord
          size_words)

  pub parse_command-store_command :
      parse_command (store_command id d) ≡ codes "STORE_CHUNK" ∷ id ∷ to_string (length d) ∷ []
  parse_command-store_command = rw store_command_words (
      parse_command-spaced (codes "STORE_CHUNK") (id ∷ to_string (length d) ∷ []) store-IsWord
        size_words)

-- Where `StoreChunk` returns true, for an id that is a word of at most 1024 bytes and fewer than 2^31
-- bytes of data, over a socket whose sends get on, a node that reads
-- the bytes handed over with `ReceiveMessage` and `ReceiveBinaryData` gets the words `STORE_CHUNK`,
-- the id and the size, and behind them, in whatever parts they arrive, the data.
pub store_chunk_received :
    (k : Connection) (node : StorageNodeInfo) (id : Text) (d : List ℕ) (events : List Event)
    (large : ℕ → Option ℕ) (grains : List ℕ)
    → All GetsOn k.sends
    → length d ≤ length k.sends
    → store_chunk k node id d ≡ some (true, events)
    → IsWord id
    → length id ≤ 1024
    → length d < 2 ^ 31
    → length d ≤ length grains
    → let r = receive_message max_message (bytes (handed_bytes events)) in
      (r.success ≡ true)
      × (parse_command r.message ≡ codes "STORE_CHUNK" ∷ id ∷ to_string (length d) ∷ [])
      × (receive_binary_data (recv_parts large grains (length d) r.rest) (length d)
          ≡ some (true, d))
store_chunk_received k node id d events large grains gets_on calls e w short fits enough =
    let small : length d < u64_mod = omega (arith, fits) in
    let (done, events', returned, h) = store_chunk_lem k node id d gets_on calls short small in
    let both : some (true, events) ≡ some (done, events') = sym e ∙ returned in
    let stored : IsStored k id d events =
      subst (IsStored k id d) (ground (arith, both)) (h (ground (arith, both))) in
    let line = store_command-IsLine id d w in
    let read =
      receive_message-line max_message (store_command id d) (bytes d) line
        (store_command_short id d short small) in
    let input : bytes (handed_bytes events)
        ≡ bytes (store_command id d) ++ (bytes crlf ++ bytes d) =
      rw
        (
          stored.spelled,
          message_text-IsLine (store_command id d) line,
          append-nil d,
          append_assoc (store_command id d) crlf d,
          bytes-append (store_command id d) (crlf ++ d),
        )
        refl in
    rw (input, read)
      (
        refl,
        parse_command-store_command id d w,
        subst
            (λ (rest : List Recv).
              receive_binary_data (recv_parts large grains (length d) rest) (length d)
              ≡ some (true, d))
            (append-nil (bytes d)) (receive_binary_data-recv_parts large grains d [] enough fits),
      )
