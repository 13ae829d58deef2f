-- ===== src/HashUtils.antt =====
-- HashUtils of common/src/hash_utils.cpp: the SHA-256 of some data as hexadecimal text. What the
-- platform's library answers, OpenSSL on Linux and CryptoAPI on Windows, is a parameter.
pub mod Hex
pub mod Verified
use p2p_server_file_storage.Prelude.{
  ℕ, ◌+◌, ◌-◌, ◌*◌, ◌/◌, ◌%◌, ◌^◌, Bool, true, false, not, List, [], ◌∷◌, ◌++◌, Option, none, some,
  ltb, if◌then◌else◌, length, take,
}
use p2p_server_file_storage.Text.{Text, is_empty, str_eq}
use p2p_server_file_storage.Client.ChunkProcessor.{lower}

unfoldable pub hex_digit : ℕ → ℕ
hex_digit n = if ltb n 10 then b'0' + n else b'a' + (n - 10)

-- A byte under `std::hex`.
unfoldable pub hex_number : ℕ → Text
unfolding hex_digit
hex_number b = if ltb b 16 then hex_digit b ∷ [] else hex_digit (b / 16) ∷ hex_digit (b % 16) ∷ []

-- `std::setw(2) << std::setfill('0')`.
unfoldable pub filled : Text → Text
filled t = if ltb (length t) 2 then b'0' ∷ t else t

-- The loop over the bytes of the hash.
unfoldable pub hex_string : List ℕ → Text
unfolding hex_number filled
hex_string [] = []
hex_string (b ∷ bs) = filled (hex_number b) ++ hex_string bs

-- What OpenSSL answers: whether `EVP_MD_CTX_new` gives a context, `EVP_DigestInit_ex` and
-- `EVP_DigestUpdate` succeed, and the hash of `EVP_DigestFinal_ex`.
pub record Evp : Type 0 where
  pub creates : Bool
  pub starts : Bool
  pub updates : List ℕ → Bool
  pub finishes : List ℕ → Option (List ℕ)

hex_of : Option (List ℕ) → Text
hex_of none = []
hex_of (some hash) = hex_string hash

-- `CalculateSHA256` on Linux.
unfoldable pub calculate_sha256_evp : Evp → List ℕ → Text
unfolding hex_of
calculate_sha256_evp e input =
    if not e.creates
    then []
    else if not e.starts
    then []
    else if not (e.updates input)
    then []
    else hex_of (e.finishes input)

-- What CryptoAPI answers: whether there is a context and a hash object, whether it takes the data,
-- the size of the hash and, for a buffer of that size, the hash.
pub record Crypt : Type 0 where
  pub acquires : Bool
  pub creates : Bool
  pub takes : List ℕ → Bool
  pub hash_size : Option ℕ
  pub hash_value : List ℕ → ℕ → Option (List ℕ)

hex_value : Crypt → List ℕ → Option ℕ → Text
unfolding hex_of
hex_value c input none = []
hex_value c input (some size) = hex_of (c.hash_value input size)

-- `CalculateSHA256` on Windows; the size of the data is cut to a DWORD.
unfoldable pub calculate_sha256_crypt : Crypt → List ℕ → Text
unfolding hex_value
calculate_sha256_crypt c input =
    let hashed = take (length input % 2 ^ 32) input in
    if not c.acquires
    then []
    else if not c.creates
    then []
    else if not (c.takes hashed)
    then []
    else hex_value c hashed c.hash_size

-- `CalculateSHA256` of a file, which cannot be opened (`none`) or has some content.
unfoldable pub calculate_sha256_file : (List ℕ → Text) → Option (List ℕ) → Text
calculate_sha256_file calculate none = []
calculate_sha256_file calculate (some content) = if is_empty content then [] else calculate content

-- `VerifyHash`.
unfoldable pub verify_hash : (List ℕ → Text) → List ℕ → Text → Bool
verify_hash calculate input expected = str_eq (lower (calculate input)) (lower expected)
