-- ===== src/Crypto.antt =====
-- internal/common/crypto.go: key derivation, the AES-GCM envelope of the server, random values.
-- The algorithms themselves (SHA-256, HKDF, PBKDF2, AES-GCM) and the random source are parameters.
pub mod Envelope
pub mod Keys
use burnafter.Prelude.{
  ℕ, ◌+◌, ◌/◌, ◌%◌, ◌≤◌, ◌≡◌, Bool, Option, none, some, List, [], ◌∷◌, ◌++◌, map, ltb,
  if◌then◌else◌, length, take, drop,
}
use burnafter.Bytes.{Bytes, codes}
use burnafter.Result.{Result, ok, err, errorf, or_error, ◌>>=◌}

-- The cryptographic libraries. `none` is an error of the call.
pub record Primitives : Type 1 where
  pub Block : Type 0
  pub Aead : Type 0
  pub sha256 : Bytes → Bytes
  -- `io.ReadFull(hkdf.New(sha256.New, ikm, salt, info), key)` for a key of `n` bytes
  pub hkdf_read : (ikm salt info : Bytes) (n : ℕ) → Option Bytes
  -- `pbkdf2.Key(input, salt, iterations, n, sha256.New)`
  pub pbkdf2_key : (input salt : Bytes) (iterations n : ℕ) → Bytes
  pub new_cipher : Bytes → Option Block
  pub new_gcm : Block → Option Aead
  pub nonce_size : Aead → ℕ
  -- `Seal(nil, nonce, plaintext, nil)` and `Open(nil, nonce, ciphertext, nil)`
  pub seal : Aead → (nonce plaintext : Bytes) → Bytes
  pub unseal : Aead → (nonce ciphertext : Bytes) → Option Bytes

-- What the libraries document.
pub record IsSound (P : Primitives) : Type 0 where
  pub sha256_length : (b : Bytes) → length (P.sha256 b) ≡ 32
  pub hkdf_reads :
      (i s f : Bytes) (n : ℕ)
      → n ≤ 8160
      → (k : Bytes) × (P.hkdf_read i s f n ≡ some k) × (length k ≡ n)
  pub pbkdf2_length : (i s : Bytes) (t n : ℕ) → length (P.pbkdf2_key i s t n) ≡ n
  pub cipher_32 : (k : Bytes) → length k ≡ 32 → (b : P.Block) × (P.new_cipher k ≡ some b)
  pub gcm_of : (b : P.Block) → (g : P.Aead) × (P.new_gcm b ≡ some g)
  pub nonce_12 : (g : P.Aead) → P.nonce_size g ≡ 12
  pub unseal_seal :
      (g : P.Aead) (n p : Bytes) → length n ≡ P.nonce_size g → P.unseal g n (P.seal g n p) ≡ some p
  -- the authentication tag: what opens was sealed
  pub seal_unseal : (g : P.Aead) (n c p : Bytes) → P.unseal g n c ≡ some p → c ≡ P.seal g n p

-- One call of `rand.Read` on a buffer of `n` bytes.
abbrev pub Reader : Type 0
Reader = ℕ → Option Bytes

abbrev pub IsReader : Reader → Type 0
IsReader r = (n : ℕ) (b : Bytes) → r n ≡ some b → length b ≡ n

-- `hex.EncodeToString`
abbrev pub hex_digit : ℕ → ℕ
hex_digit n = if ltb n 10 then b'0' + n else 87 + n

unfoldable pub hex_encode : Bytes → Bytes
hex_encode [] = []
hex_encode (b ∷ bs) = hex_digit (b / 16) ∷ hex_digit (b % 16) ∷ hex_encode bs

-- `ZeroBytes`
unfoldable pub zero_bytes : Bytes → Bytes
zero_bytes [] = []
zero_bytes (b ∷ bs) = 0 ∷ zero_bytes bs

unfoldable pub generate_salt : Reader → Result Bytes
generate_salt rand = or_error "failed to generate salt" (rand 32)

unfoldable pub generate_session_id : Reader → Result Bytes
unfolding hex_encode
generate_session_id rand = do
  session_bytes ← or_error "failed to generate session ID" (rand 32)
  ok (hex_encode session_bytes)

-- The concatenation that `DeriveKey` hands to HKDF.
unfoldable pub key_material : (hash nonce session name : Bytes) → Bytes
key_material hash nonce session name = hash ++ (nonce ++ (session ++ name))

module _ (P : Primitives) where
  open P use {Aead, hkdf_read, new_cipher, new_gcm, nonce_size, seal, unseal}

  unfoldable pub derive_key : (hash nonce session name salt : Bytes) → Result Bytes
  unfolding key_material
  derive_key hash nonce session name salt =
      or_error "failed to derive key"
        (hkdf_read (key_material hash nonce session name) salt (codes "burnafter-v1") 32)

  -- The two constructor calls at the head of `Encrypt`, `Decrypt` and `newGCM`.
  unfoldable pub build_gcm : Bytes → Result Aead
  build_gcm key = do
    block ← or_error "creating cipher" (new_cipher key)
    or_error "creating GCM" (new_gcm block)

  -- `gcm.Seal(nonce, nonce, …)` appends the ciphertext to the nonce.
  unfoldable pub encrypt : (plaintext key : Bytes) → Reader → Result Bytes
  unfolding build_gcm
  encrypt plaintext key rand = do
    gcm ← build_gcm key
    nonce ← or_error "generating nonce" (rand (nonce_size gcm))
    ok (nonce ++ seal gcm nonce plaintext)

  unfoldable pub decrypt : (ciphertext key : Bytes) → Result Bytes
  unfolding build_gcm
  decrypt ciphertext key = do
    gcm ← build_gcm key
    let size = nonce_size gcm
    if ltb (length ciphertext) size
        then err (errorf "ciphertext too short")
        else or_error "decrypting secret" (unseal gcm (take size ciphertext) (drop size ciphertext))
