-- ===== src/Crypto/Envelope.antt =====
-- internal/common/crypto.go: `Encrypt` and `Decrypt` together.
use burnafter.Prelude.{
  ◌≤◌, ◌≡◌, sym, ap, ◌∙◌, some, ◌++◌, arith, ltb, le→ltb_false, length, take, drop, length-append,
  take-append, drop-append, take-append-drop, length-take, if◌then◌else◌,
}
use burnafter.Bytes.{Bytes}
use burnafter.Result.{ok, err, errorf, or_error, >>=-eq-ok, or_error-eq-ok}
use burnafter.Crypto.{Primitives, IsSound, Reader, IsReader, build_gcm, encrypt, decrypt}

module _ (P : Primitives) (sound : IsSound P) where
  open P use {Aead, nonce_size, seal, unseal}

  opened_parts :
      (c : Bytes) (g : Aead) (p : Bytes)
      → (if ltb (length c) 12
          then err (errorf "ciphertext too short")
          else or_error "decrypting secret" (unseal g (take 12 c) (drop 12 c)))
        ≡ ok p
      → (12 ≤ length c) × (unseal g (take 12 c) (drop 12 c) ≡ some p)
  opened_parts c g p h = ground arith

  -- A key of 32 bytes gives a GCM.
  pub build_gcm_total : (key : Bytes) → length key ≡ 32 → (g : Aead) × (build_gcm P key ≡ ok g)
  unfolding build_gcm
  build_gcm_total key h =
      let (b, eb) = sound.cipher_32 key h in let (g, eg) = sound.gcm_of b in (g, rw (eb, eg))

  -- What `Decrypt` does to a nonce followed by anything.
  decrypt-append :
      (key nonce body : Bytes) (g : Aead)
      → build_gcm P key ≡ ok g
      → length nonce ≡ nonce_size g
      → decrypt P (nonce ++ body) key ≡ or_error "decrypting secret" (unseal g nonce body)
  unfolding decrypt
  decrypt-append key nonce body g eg en = rw (
    eg,
    le→ltb_false (length (nonce ++ body)) (nonce_size g) (omega (arith, length-append nonce body)),
    take-append (nonce_size g) nonce body en,
    drop-append (nonce_size g) nonce body en,
  )

  -- With sound primitives and a key of 32 bytes, encryption succeeds when the random source does,
  -- and decryption with the same key gives the plaintext back.
  pub decrypt-encrypt :
      (plaintext key nonce : Bytes) (rand : Reader)
      → IsReader rand
      → length key ≡ 32
      → rand 12 ≡ some nonce
      → (c : Bytes) × (encrypt P plaintext key rand ≡ ok c) × (decrypt P c key ≡ ok plaintext)
  unfolding encrypt
  decrypt-encrypt plaintext key nonce rand reads hk hr =
      let (g, eg) = build_gcm_total key hk in
      let size : length nonce ≡ nonce_size g = reads 12 nonce hr ∙ sym (sound.nonce_12 g) in
      (
        nonce ++ seal g nonce plaintext,
        rw (eg, sound.nonce_12 g, hr),
        rw (
          decrypt-append key nonce (seal g nonce plaintext) g eg size,
          sound.unseal_seal g nonce plaintext size,
        ),
      )

  -- Whatever was encrypted decrypts, with the same key.
  pub decrypt_of_encrypt :
      (plaintext key c : Bytes) (rand : Reader)
      → IsReader rand
      → encrypt P plaintext key rand ≡ ok c
      → decrypt P c key ≡ ok plaintext
  unfolding encrypt
  decrypt_of_encrypt plaintext key c rand reads h =
      let (g, eg, h1) = >>=-eq-ok (build_gcm P key) _ h in
      let (nonce, en, h2) = >>=-eq-ok (or_error "generating nonce" (rand (nonce_size g))) _ h1 in
      let size : length nonce ≡ nonce_size g =
        reads (nonce_size g) nonce (or_error-eq-ok _ (rand (nonce_size g)) en) in
      let whole : nonce ++ seal g nonce plaintext ≡ c = cc in
      rw (
        ← whole,
        decrypt-append key nonce (seal g nonce plaintext) g eg size,
        sound.unseal_seal g nonce plaintext size,
      )

  -- With sound primitives, whatever decrypts is a 12-byte nonce followed by the plaintext sealed
  -- under that nonce and key.
  pub decrypt-authentic :
      (c key p : Bytes)
      → decrypt P c key ≡ ok p
      → (g : Aead) × (build_gcm P key ≡ ok g)
        × (length (take 12 c) ≡ 12)
        × (c ≡ take 12 c ++ seal g (take 12 c) p)
  unfolding decrypt
  decrypt-authentic c key p h =
      let (g, eg, opened) = >>=-eq-ok (build_gcm P key) _ h in
      let fits : (12 ≤ length c) × (unseal g (take 12 c) (drop 12 c) ≡ some p) =
        opened_parts c g p (rw (sound.nonce_12 g) at opened) in
      (
        g,
        eg,
        omega (arith, length-take 12 c, fits.0),
        sym (take-append-drop 12 c) ∙ ap (λ x. take 12 c ++ x) (sound.seal_unseal g _ _ p fits.1),
      )
