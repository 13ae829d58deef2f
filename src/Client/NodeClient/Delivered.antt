-- ===== src/Client/NodeClient/Delivered.antt =====
-- A chunk that a storage node sends arrives at `GetChunk` whole, in whatever parts.
use p2p_server_file_storage.Prelude.{
  ℕ, zero, suc, ◌+◌, ◌%◌, ◌^◌, ◌≤◌, ◌<◌, ◌≡◌, refl, sym, ap, ◌∙◌, true, false, List, [], ◌∷◌, ◌++◌,
  All, Option, none, some, arith, ltb, ◌==◌, length, length-append, length-take, length-drop, take,
  drop, min, append-nil, append_assoc, take-append-drop,
}
use p2p_server_file_storage.Text.{Text, is_space, str_eq, codes, crlf, to_string, u64_mod}
use p2p_server_file_storage.Text.Words.{
  IsWord, parse_command, spaced, unspaced, unspaced-IsWord, parse_command-spaced,
}
use p2p_server_file_storage.Text.Messages.{spaced-IsLine}
use p2p_server_file_storage.Text.Decimal.{to_string-IsWord, length-to_string, stoull-to_string}
use p2p_server_file_storage.Network.{Recv, receive_message, max_message, send_message}
use p2p_server_file_storage.Network.Binary.{receive_binary_loop, receive_binary_data}
use p2p_server_file_storage.Network.Delivery.{bytes, receive_message-line}
use p2p_server_file_storage.Client.MetadataClient.{StorageNodeInfo, is_ok}
use p2p_server_file_storage.Network.Sockets.{Connection, opened, closed, hand_over}
use p2p_server_file_storage.Client.NodeClient.{
  connect_to_node, asked, leading, recv_part, recv_parts, fetched, failed, get_answer, get_data,
  third_number, got_data, get_command, get_chunk,
}

leading-bytes :
    (n : ℕ) (d : List ℕ) (rest : List Recv) → n ≤ length d → leading n (bytes d ++ rest) ≡ take n d
unfolding leading
leading-bytes zero d rest h = refl
leading-bytes (suc n) [] rest h = absurd (omega (arith, h))
leading-bytes (suc n) (c ∷ d) rest h = rw (leading-bytes n d rest (omega (arith, h))) refl

drop-bytes :
    (n : ℕ) (d : List ℕ) (rest : List Recv)
    → n ≤ length d
    → drop n (bytes d ++ rest) ≡ bytes (drop n d) ++ rest
drop-bytes zero d rest h = refl
drop-bytes (suc n) [] rest h = absurd (omega (arith, h))
drop-bytes (suc n) (c ∷ d) rest h = drop-bytes n d rest (omega (arith, h))

recv_part-bytes :
    (n : ℕ) (d : List ℕ) (rest : List Recv)
    → 0 < n
    → n ≤ length d
    → recv_part n (bytes d ++ rest) ≡ some (take n d)
unfolding recv_part leading
recv_part-bytes n [] rest pos h = absurd (omega (arith, pos, h))
recv_part-bytes n (c ∷ d) rest pos h = ap some (leading-bytes n (c ∷ d) rest h)

receive_loop_full :
    (parts : List (Option (List ℕ))) (size : ℕ) (buffer : List ℕ)
    → ltb (length buffer) size ≡ false
    → receive_binary_loop parts size buffer ≡ some (true, buffer)
unfolding receive_binary_loop
receive_loop_full [] size buffer e = rw e refl
receive_loop_full (none ∷ parts) size buffer e = rw e refl
receive_loop_full (some part ∷ parts) size buffer e = rw e refl

receive_loop_more :
    (part : List ℕ) (parts : List (Option (List ℕ))) (size : ℕ) (buffer : List ℕ)
    → ltb (length buffer) size ≡ true
    → 0 < length part
    → receive_binary_loop (some part ∷ parts) size buffer
      ≡ receive_binary_loop parts size (buffer ++ part)
unfolding receive_binary_loop
receive_loop_more [] parts size buffer e h = elim h [ ]
receive_loop_more (c ∷ part) parts size buffer e h = rw e refl

asked-length :
    (large : ℕ → Option ℕ) (wanted : ℕ) → wanted < 2 ^ 31 → asked large wanted ≡ some wanted
unfolding asked
asked-length large wanted h =
    let e : wanted % 2 ^ 32 ≡ wanted = omega (arith, h) in ground (arith, e, h)

recv_parts_cons :
    (large : ℕ → Option ℕ) (g : ℕ) (grains : List ℕ) (d : List ℕ) (rest : List Recv)
    → 0 < length d
    → length d < 2 ^ 31
    → let n = min (suc g) (length d) in
      recv_parts large (g ∷ grains) (length d) (bytes d ++ rest)
      ≡ some (take n d) ∷ recv_parts large grains (length (drop n d)) (bytes (drop n d) ++ rest)
unfolding recv_parts
recv_parts_cons large g grains d rest h fits =
    let n : ℕ = min (suc g) (length d) in
    let within : n ≤ length d = omega arith in
    let here : leading n (bytes d ++ rest) ≡ take n d = leading-bytes n d rest within in
    let count : length (take n d) ≡ n = omega (arith, length-take n d, within) in
    rw
      (
        asked-length large (length d) fits,
        recv_parts,
        here,
        count,
        recv_part-bytes n d rest (omega (arith, h)) within,
        drop-bytes n d rest within,
        sym (length-drop n d),
      )
      refl

receive_loop-recv_parts :
    (large : ℕ → Option ℕ) (grains : List ℕ) (d : List ℕ) (rest : List Recv) (size : ℕ)
    (buffer : List ℕ)
    → length buffer + length d ≡ size
    → length d ≤ length grains
    → length d < 2 ^ 31
    → receive_binary_loop (recv_parts large grains (length d) (bytes d ++ rest)) size buffer
      ≡ some (true, buffer ++ d)
receive_loop-recv_parts large grains [] rest size buffer e h fits =
    receive_loop_full (recv_parts large grains 0 rest) size buffer (ground (arith, e))
    ∙ ap (λ l. some (true, l)) (sym (append-nil buffer))
receive_loop-recv_parts large [] (c ∷ d) rest size buffer e h fits = absurd (omega (arith, h))
receive_loop-recv_parts large (g ∷ grains) (c ∷ d) rest size buffer e h fits =
    let n : ℕ = min (suc g) (length (c ∷ d)) in
    let part : List ℕ = take n (c ∷ d) in
    let left : List ℕ = drop n (c ∷ d) in
    let split : length part + length left ≡ length (c ∷ d) =
      omega (arith, length-append part left, ap (λ l. length l) (take-append-drop n (c ∷ d))) in
    let count : length part ≡ n = omega (arith, length-take n (c ∷ d)) in
    ap (λ ps. receive_binary_loop ps size buffer)
      (recv_parts_cons large g grains (c ∷ d) rest (omega arith) fits)
    ∙ receive_loop_more part (recv_parts large grains (length left) (bytes left ++ rest)) size
        buffer (ground (arith, e)) (omega (arith, count))
    ∙ receive_loop-recv_parts large grains left rest size (buffer ++ part)
        (omega (arith, e, split, length-append buffer part)) (omega (arith, h, split, count))
        (omega (arith, fits, split))
    ∙ ap (λ l. some (true, l))
        (append_assoc buffer part left ∙ ap (λ l. buffer ++ l) (take-append-drop n (c ∷ d)))

pub receive_binary_data-recv_parts :
    (large : ℕ → Option ℕ) (grains : List ℕ) (d : List ℕ) (rest : List Recv)
    → length d ≤ length grains
    → length d < 2 ^ 31
    → receive_binary_data (recv_parts large grains (length d) (bytes d ++ rest)) (length d)
      ≡ some (true, d)
unfolding receive_binary_data
receive_binary_data-recv_parts large grains [] rest h fits = refl
receive_binary_data-recv_parts large grains (c ∷ d) rest h fits =
    let some_data : (length (c ∷ d) == 0) ≡ false = ground arith in
    rw some_data
      (receive_loop-recv_parts large grains (c ∷ d) rest (length (c ∷ d)) [] (omega arith) h fits)

-- The line that a storage node sends before the data of a chunk.
abbrev pub get_response : List ℕ → Text
get_response d = codes "GET_RESPONSE" ++ spaced (codes "OK" ∷ to_string (length d) ∷ [])

-- The node is reached, its `send` takes the whole command, and it answers with these bytes, in
-- whatever parts; there is memory for them, and they are fewer than 2^31.
pub record IsAnsweredBy (k : Connection) (node : StorageNodeInfo) (id : Text) (d : List ℕ)
    : Type 0 where
  pub reached : (connect_to_node k node).0 ≡ true
  pub commanded : send_message k.send (codes "GET_CHUNK " ++ id) ≡ true
  pub rest : List Recv
  pub answered : k.input ≡ bytes (get_response d) ++ (bytes crlf ++ (bytes d ++ rest))
  pub calls : length d ≤ length k.grains
  pub memory : k.allocates (length d) ≡ true
  pub fits : length d < 2 ^ 31

module _ (d : List ℕ) (fits : length d < u64_mod) where
  keyword-IsWord : IsWord (codes "GET_RESPONSE")
  unfolding unspaced is_space
  keyword-IsWord = unspaced-IsWord (codes "GET_RESPONSE") refl refl

  words-IsWord : All IsWord (codes "OK" ∷ to_string (length d) ∷ [])
  unfolding unspaced is_space
  words-IsWord = (unspaced-IsWord (codes "OK") refl refl, (to_string-IsWord (length d), tt))

  get_response_read :
      (rest : List Recv)
      → receive_message max_message (bytes (get_response d) ++ (bytes crlf ++ rest))
        ≡ record { success = true; message = get_response d; rest = rest }
  get_response_read rest =
      receive_message-line max_message (get_response d) rest
        (spaced-IsLine (codes "GET_RESPONSE") (codes "OK" ∷ to_string (length d) ∷ [])
          keyword-IsWord words-IsWord)
        (omega (arith, length-append (to_string (length d)) [], length-to_string (length d) fits))

  parse_command-get_response :
      parse_command (get_response d) ≡ codes "GET_RESPONSE" ∷ codes "OK" ∷ to_string (length d) ∷ []
  parse_command-get_response =
      parse_command-spaced (codes "GET_RESPONSE") (codes "OK" ∷ to_string (length d) ∷ [])
        keyword-IsWord words-IsWord

-- Where the node is reached, its socket takes the whole command, and it answers with `GET_RESPONSE OK`,
-- the size and then fewer than 2^31 bytes for which there is memory, `GetChunk` returns true with exactly
-- those bytes, in whatever parts they come, and closes the socket.
pub get_chunk_lem :
    (k : Connection) (node : StorageNodeInfo) (id : Text) (d : List ℕ)
    → IsAnsweredBy k node id d
    → get_chunk k node id
      ≡ (fetched d, opened ∷ hand_over k (codes "GET_CHUNK " ++ id) ∷ closed ∷ [])
unfolding get_chunk get_command get_answer third_number got_data get_data is_ok str_eq
get_chunk_lem k node id d h =
    let fits : length d < u64_mod = omega (arith, h.fits) in
    let read = get_response_read d fits (bytes d ++ h.rest) in
    let parsed = parse_command-get_response d fits in
    rw
      (
        h.reached,
        h.commanded,
        h.answered,
        read,
        parsed,
        stoull-to_string (length d) fits,
        h.memory,
        receive_binary_data-recv_parts k.large k.grains d h.rest h.calls h.fits,
      )
      refl

-- Where the node is reached and does not take the whole command, `GetChunk` returns false.
pub get_chunk_refused :
    (k : Connection) (node : StorageNodeInfo) (id : Text)
    → (connect_to_node k node).0 ≡ true
    → send_message k.send (codes "GET_CHUNK " ++ id) ≡ false
    → (get_chunk k node id).0 ≡ failed
unfolding get_chunk get_command
get_chunk_refused k node id reached part = rw (reached, part) refl
