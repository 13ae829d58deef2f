-- ===== src/Tests/Servers.antt =====
-- The theorems on the server's life, the command line, the hashes, the file handler and the window.
use p2p_server_file_storage.Prelude.{
  ℕ, ◌+◌, ◌≤◌, ◌<◌, ◌^◌, ◌≡◌, ◌↔◌, refl, true, false, List, [], ◌∷◌, ◌++◌, map, none, some, arith,
  length, pos, take,
}
use p2p_server_file_storage.Text.{codes, crlf, str_eq}
use p2p_server_file_storage.Network.{Recv}
use p2p_server_file_storage.Network.Delivery.{bytes}
use p2p_server_file_storage.Client.ChunkProcessor.{lower, to_lower}
use p2p_server_file_storage.HashUtils.{
  Evp, Crypt, hex_string, hex_digit, calculate_sha256_evp, calculate_sha256_crypt, verify_hash,
}
use p2p_server_file_storage.HashUtils.Verified.{
  IsDigest, EvpWorks, CryptWorks, platforms_agree, verify_hash_iff,
}
use p2p_server_file_storage.Protocol.{Environment}
use p2p_server_file_storage.Protocol.Serving.{IsSound}
use p2p_server_file_storage.MetadataServer.{
  constructed, System, initialize, Arrival, accept_error, connection, shut_down, handled, run,
}
use p2p_server_file_storage.MetadataServer.Lifecycle.{
  IsListening, born, before_shutdown, initialize_iff, run-Life,
}
use p2p_server_file_storage.Client.CommandLine.{Calls, main, exit_code}
use p2p_server_file_storage.Client.CommandLine.Outcomes.{options, is_plain, main_commands}
use p2p_server_file_storage.FileHandler.{Windows, read_file, write_file}
use p2p_server_file_storage.FileHandler.Whole.{Takes, file_whole}
use p2p_server_file_storage.MainWindow.{Answers, created, connect_button, on_message}
use p2p_server_file_storage.MainWindow.Consistent.{IsConsistent, fresh, used, Uses-IsConsistent}
use p2p_server_file_storage.MainWindow.Layout.{
  Places, layout_controls, IsLeftOf, IsAbove, AllButtons, layout_controls_lem,
}

abbrev zeros : List ℕ
zeros = 0 ∷ 0 ∷ 0 ∷ 0 ∷ 0 ∷ 0 ∷ 0 ∷ 0 ∷ 0 ∷ 0 ∷ 0 ∷ 0 ∷ 0 ∷ 0 ∷ 0 ∷ []

abbrev digest : List ℕ → List ℕ
digest d = 171 ∷ (zeros ++ (7 ∷ (zeros)))

digest-IsDigest : IsDigest digest
digest-IsDigest = record { bytewise = λ d. ground arith; sized = λ d. refl }

abbrev evp : Evp
evp = record { creates = true; starts = true; updates = λ d. true; finishes = λ d. some (digest d) }

abbrev crypt : Crypt
crypt = record {
  acquires = true;
  creates = true;
  takes = λ d. true;
  hash_size = some 32;
  hash_value = λ d n. some (digest d);
}

evp-EvpWorks : EvpWorks digest evp
evp-EvpWorks = record { creates = refl; starts = refl; updates = λ d. refl; finishes = λ d. refl }

crypt-CryptWorks : CryptWorks digest crypt
crypt-CryptWorks = record {
  acquires = refl;
  creates = refl;
  takes = λ d. refl;
  hash_size = refl;
  hash_value = λ d. refl;
}

platforms_agree_example :
    (calculate_sha256_evp evp (1 ∷ []) ≡ calculate_sha256_crypt crypt (1 ∷ []))
    × (length (calculate_sha256_crypt crypt (1 ∷ [])) ≡ 64)
platforms_agree_example =
    platforms_agree digest evp crypt (1 ∷ []) evp-EvpWorks crypt-CryptWorks digest-IsDigest
      (omega arith)

verify_hash_iff_example :
    (verify_hash (calculate_sha256_evp evp) (1 ∷ []) (codes "AB0c") ≡ true)
    ↔ (digest (1 ∷ []) ≡ 171 ∷ 12 ∷ [])
unfolding lower to_lower hex_string hex_digit
verify_hash_iff_example =
    verify_hash_iff digest evp (1 ∷ []) (171 ∷ 12 ∷ []) (codes "AB0c") evp-EvpWorks digest-IsDigest
      (omega arith, (omega arith, tt)) refl

abbrev env : Environment
env = record { draws = []; clock = λ i. i }

abbrev request : List Recv
request = bytes (codes "KEEP_ALIVE n1" ++ crlf)

abbrev arrivals : List Arrival
arrivals = connection 4 ∷ accept_error ∷ connection 5 ∷ shut_down ∷ connection 6 ∷ []

run-Life_example :
    ((run arrivals (constructed (pos 80))).1 ≡ map handled (before_shutdown arrivals))
    × IsSound (constructed (pos 80)).server
run-Life_example = run-Life arrivals (born (pos 80))

abbrev system : System
system = record { winsock = true; creates = true; reuses = true; binds = λ n. true; listens = true }

initialize_iff_example :
    ((initialize system (constructed (pos 65616))).0 ≡ true)
    × ((initialize system (constructed (pos 65616))).0 ≡ true
        → IsListening (initialize system (constructed (pos 65616))).1 (pos 65616))
initialize_iff_example = initialize_iff system (pos 65616)

abbrev calls : Calls
calls = record {
  test_connection = λ t p. true;
  upload_file = λ a b. str_eq a (codes "C:\\a.txt");
  download_file = λ a b. false;
}

main_commands_example :
    (main calls
        (options (codes "127.0.0.1") 8080 (codes "upload" ∷ codes "C:\\a.txt" ∷ codes "a.txt" ∷ []))
      ≡ some (exit_code (calls.upload_file (codes "C:\\a.txt") (codes "a.txt"))))
    × (main calls (
          options
            (codes "127.0.0.1")
            8080
            (codes "download" ∷ codes "a.txt" ∷ codes "C:\\a.txt" ∷ []))
        ≡ some (exit_code (calls.download_file (codes "a.txt") (codes "C:\\a.txt"))))
unfolding is_plain str_eq
main_commands_example =
    main_commands calls (codes "127.0.0.1") (codes "C:\\a.txt") (codes "a.txt") 8080 refl
      (omega arith) (omega arith) refl refl

abbrev windows : Windows
windows = record {
  attributes = some 32;
  opens = true;
  creates = true;
  file_size = some 3;
  reads = λ n. some (take n (1 ∷ 2 ∷ 3 ∷ []));
  writes = λ part. some (length part);
  deletes = true;
  makes_directory = false;
  times = none;
}

windows-Takes : Takes windows
windows-Takes = record { creates = refl; bounded = λ part n e. ground (arith, e) }

file_whole_example :
    (3 < 2 ^ 32 → read_file windows ≡ (true, 1 ∷ 2 ∷ 3 ∷ []))
    × (2 ^ 32 ≤ 3 → (read_file windows).0 ≡ false)
    × ((write_file windows (4 ∷ 5 ∷ [])).0 ≡ true
        → (write_file windows (4 ∷ 5 ∷ [])).1 ≡ 4 ∷ 5 ∷ [])
file_whole_example =
    file_whole windows (1 ∷ 2 ∷ 3 ∷ []) (4 ∷ 5 ∷ [])
      (record { opens = refl; sized = refl; reads = λ n. refl }) windows-Takes

abbrev answers : Answers
answers = record {
  reaches = λ t n. true;
  list_files = (codes "a.txt", 7) ∷ [];
  chunk_count = λ t. 1;
  list_nodes = [];
}

Uses-IsConsistent_example :
    IsConsistent (on_message answers (connect_button (codes "127.0.0.1") (codes "8080")) created)
Uses-IsConsistent_example =
    Uses-IsConsistent (used fresh answers (connect_button (codes "127.0.0.1") (codes "8080")))

layout_controls_lem_example :
    (p : Places) × (layout_controls 984 661 23 ≡ some p)
    × (200 ≤ p.file_list.width)
    × (200 ≤ p.node_list.width)
    × (100 ≤ p.file_list.height)
    × (p.node_list.height ≡ p.file_list.height)
    × IsLeftOf p.file_list p.node_list
    × AllButtons (IsAbove p.file_list) p
    × AllButtons (IsAbove p.node_list) p
    × AllButtons (λ b. b.y ≡ p.upload_button.y) p
    × IsLeftOf p.upload_button p.download_button
    × IsLeftOf p.download_button p.chunks_button
    × IsLeftOf p.chunks_button p.refresh_button
    × (430 ≤ 984 → p.node_list.x + p.node_list.width ≤ 984)
    × (250 + 23 ≤ 661 → AllButtons (λ b. b.y + b.height + 23 ≤ 661) p)
layout_controls_lem_example = layout_controls_lem 984 661 23 (omega arith) (omega arith)
