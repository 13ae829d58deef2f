-- ===== src/HashUtils/Verified.antt =====
-- The two implementations of SHA-256, and `VerifyHash`.
use p2p_server_file_storage.Prelude.{
  ℕ, ◌%◌, ◌^◌, ◌<◌, ◌≡◌, ◌↔◌, refl, sym, ap, ◌∙◌, true, List, some, All, arith, length, take,
  take_all,
}
use p2p_server_file_storage.Text.{Text, str_eq_iff}
use p2p_server_file_storage.Client.ChunkProcessor.{lower}
use p2p_server_file_storage.HashUtils.{
  hex_string, Evp, hex_of, calculate_sha256_evp, Crypt, hex_value, calculate_sha256_crypt,
  verify_hash,
}
use p2p_server_file_storage.HashUtils.Hex.{
  IsByte, length-hex_string, lower-hex_string, hex_string_injective,
}

-- The hash: 32 bytes.
module _ (sha256 : List ℕ → List ℕ) where
  pub record IsDigest : Type 0 where
    pub bytewise : (d : List ℕ) → All IsByte (sha256 d)
    pub sized : (d : List ℕ) → length (sha256 d) ≡ 32

  -- OpenSSL has a context, fails nowhere and gives the hash.
  pub record EvpWorks (e : Evp) : Type 0 where
    pub creates : e.creates ≡ true
    pub starts : e.starts ≡ true
    pub updates : (d : List ℕ) → e.updates d ≡ true
    pub finishes : (d : List ℕ) → e.finishes d ≡ some (sha256 d)

  -- CryptoAPI fails nowhere, and gives a hash of 32 bytes.
  pub record CryptWorks (c : Crypt) : Type 0 where
    pub acquires : c.acquires ≡ true
    pub creates : c.creates ≡ true
    pub takes : (d : List ℕ) → c.takes d ≡ true
    pub hash_size : c.hash_size ≡ some 32
    pub hash_value : (d : List ℕ) → c.hash_value d 32 ≡ some (sha256 d)

  pub calculate_sha256_evp-hex_string :
      (e : Evp) (d : List ℕ) → EvpWorks e → calculate_sha256_evp e d ≡ hex_string (sha256 d)
  unfolding calculate_sha256_evp hex_of
  calculate_sha256_evp-hex_string e d h = rw (h.creates, h.starts, h.updates d, h.finishes d) refl

  calculate_sha256_crypt-hex_string :
      (c : Crypt) (d : List ℕ)
      → CryptWorks c
      → length d < 2 ^ 32
      → calculate_sha256_crypt c d ≡ hex_string (sha256 d)
  unfolding calculate_sha256_crypt hex_of hex_value
  calculate_sha256_crypt-hex_string c d h short =
      let whole : take (length d % 2 ^ 32) d ≡ d =
        take_all (length d % 2 ^ 32) d (omega (arith, short)) in
      rw (h.acquires, h.creates, whole, h.takes d, h.hash_size, h.hash_value d) refl

  pub length-calculate_sha256_evp :
      (e : Evp) → EvpWorks e → IsDigest → (d : List ℕ) → length (calculate_sha256_evp e d) ≡ 64
  length-calculate_sha256_evp e h digest d =
      rw (calculate_sha256_evp-hex_string e d h)
        (omega (arith, length-hex_string (sha256 d) (digest.bytewise d), digest.sized d))

-- Where the library of each platform works and gives the same hash of 32 bytes, the two versions of
-- `CalculateSHA256` give, for less than 4 GiB of data, the same text of 64 characters.
pub platforms_agree :
    (sha256 : List ℕ → List ℕ) (e : Evp) (c : Crypt) (d : List ℕ)
    → EvpWorks sha256 e
    → CryptWorks sha256 c
    → IsDigest sha256
    → length d < 2 ^ 32
    → (calculate_sha256_evp e d ≡ calculate_sha256_crypt c d)
      × (length (calculate_sha256_crypt c d) ≡ 64)
platforms_agree sha256 e c d he hc digest short =
    let linux = calculate_sha256_evp-hex_string sha256 e d he in
    let windows = calculate_sha256_crypt-hex_string sha256 c d hc short in
    (
      linux ∙ sym windows,
      ap (λ t. length t) (windows ∙ sym linux) ∙ length-calculate_sha256_evp sha256 e he digest d,
    )

-- Where OpenSSL works and gives a hash of bytes, `VerifyHash` accepts the hexadecimal text of some
-- bytes, in either case, exactly if they are the hash of the data.
pub verify_hash_iff :
    (sha256 : List ℕ → List ℕ) (e : Evp) (d hash : List ℕ) (expected : Text)
    → EvpWorks sha256 e
    → IsDigest sha256
    → All IsByte hash
    → lower expected ≡ hex_string hash
    → (verify_hash (calculate_sha256_evp e) d expected ≡ true) ↔ (sha256 d ≡ hash)
unfolding verify_hash
verify_hash_iff sha256 e d hash expected h digest byte_hash spelled =
    let calculated : lower (calculate_sha256_evp e d) ≡ hex_string (sha256 d) =
      ap lower (calculate_sha256_evp-hex_string sha256 e d h)
      ∙ lower-hex_string (sha256 d) (digest.bytewise d) in
    let test = str_eq_iff (lower (calculate_sha256_evp e d)) (lower expected) in
    (
      λ t.
          hex_string_injective (sha256 d) hash (digest.bytewise d) byte_hash
            (sym calculated ∙ test.0 t ∙ spelled),
      λ same. test.1 (calculated ∙ ap hex_string same ∙ sym spelled),
    )
