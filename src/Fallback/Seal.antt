-- ===== src/Fallback/Seal.antt =====
-- The encryption that the file and the in-memory stores share: `deriveKey`, `newGCM`, `seal` and
-- `open` of fallback.go.
use burnafter.Prelude.{ℕ, ◌++◌}
use burnafter.Bytes.{Bytes}
use burnafter.Crypto.{Primitives, Reader}
use burnafter.Result.{Result, ok, context, or_error, ◌>>=◌}
use burnafter.Verify.{Machine, get_current_binary_hash}

abbrev pub pbkdf2_iterations : ℕ
pbkdf2_iterations = 100_000

abbrev pub aes_key_size : ℕ
aes_key_size = 32

module _ (P : Primitives) where
  unfoldable pub new_gcm : Bytes → Result P.Aead
  new_gcm key = do
    block ← or_error "failed to create cipher" (P.new_cipher key)
    or_error "failed to create GCM" (P.new_gcm block)

  -- Client nonce, binary hash and secret name; the salt is the hash of the name.
  unfoldable pub key_for : (client_nonce binary_hash secret_name : Bytes) → Bytes
  key_for client_nonce binary_hash secret_name =
      P.pbkdf2_key (client_nonce ++ (binary_hash ++ secret_name)) (P.sha256 secret_name)
        pbkdf2_iterations aes_key_size

  module _ (os : Machine) (client_nonce : Bytes) where
    unfoldable pub derive_key : Bytes → Result Bytes
    unfolding key_for
    derive_key secret_name = do
      binary_hash ← context "failed to get binary hash" (get_current_binary_hash P os)
      ok (key_for client_nonce binary_hash secret_name)

    unfoldable pub seal : Reader → Bytes → Bytes → Result (Bytes × Bytes)
    seal rand secret_name secret = do
      key ← derive_key secret_name
      gcm ← new_gcm key
      nonce ← or_error "failed to generate nonce" (rand 12)
      ok (nonce, P.seal gcm nonce secret)

    -- `open`
    unfoldable pub unseal : Bytes → (nonce ciphertext : Bytes) → Result Bytes
    unseal secret_name nonce ciphertext = do
      key ← derive_key secret_name
      gcm ← new_gcm key
      or_error "failed to decrypt" (P.unseal gcm nonce ciphertext)
