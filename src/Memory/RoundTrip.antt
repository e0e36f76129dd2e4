-- ===== src/Memory/RoundTrip.antt =====
-- memory.go: putting a secret into either backend and reading it.
use burnafter.Prelude.{ℕ, ◌^◌, ◌<◌, ◌≡◌, refl, ◌∙◌, true, false, some, length, []}
use burnafter.Bytes.{Bytes, bytes_eq_refl}
use burnafter.Int.{pos}
use burnafter.GoMap.{lookup-insert}
use burnafter.Clock.{Time, unix}
use burnafter.Crypto.{Primitives, IsSound, Reader, IsReader}
use burnafter.Result.{errorf, ok, err}
use burnafter.Storage.{Payload, found, Storage, IsReliable}
use burnafter.Server.RoundTrip.{found_of_payload}
use burnafter.Verify.{Machine, get_current_binary_hash}
use burnafter.Fallback.{is_expired}
use burnafter.Fallback.Written.{unseal-seal}
use burnafter.Memory.{
  SecretStore, heap_store, keyring_store, put, get, del, put_keyring, fetched_secret, put_sealed,
  store_in_memory, get_fetched, open_unexpired, get_from_memory,
}
use burnafter.Memory.Blob.{MemSecret, marshal_mem_secret, unmarshal-marshal}

module _ (B : Storage) (reliable : IsReliable B) where
  -- Both backends, the keyring's if it is reliable, take a secret with a 12-byte nonce and an
  -- expiry that fits 63 bits, and return it under its name.
  get-put :
      (name nonce ciphertext : Bytes) (t : ℕ) (mem : SecretStore B)
      → length nonce ≡ 12
      → t < 2 ^ 63
      → let s : MemSecret = record { nonce = nonce; ciphertext = ciphertext; expiry = pos t } in
        ((put B name s mem).0 ≡ ok tt) × (get B name (put B name s mem).1 ≡ ok (some s))
  unfolding put get
  get-put name nonce ciphertext t (heap_store m) twelve fits =
      (refl, rw (lookup-insert name name _ m, bytes_eq_refl name))
  get-put name nonce ciphertext t (keyring_store k) twelve fits =
      let s : MemSecret = record { nonce = nonce; ciphertext = ciphertext; expiry = pos t } in
      let p : Payload = record {
        encrypted_data = marshal_mem_secret s;
        salt = [];
        client_binary_hash = [];
      } in
      let there : B.get name (B.store name p k).1 ≡ found p =
        found_of_payload (B.get name (B.store name p k).1) p
          (reliable.view_store name p k name ∙ rw (bytes_eq_refl name)) in
      rw (reliable.store_ok name p k, put_keyring, get)
        (refl, rw (there, fetched_secret, unmarshal-marshal s twelve fits))

  module _ (P : Primitives) (sound : IsSound P) (os : Machine) (client_nonce hash : Bytes)
      (hashed : get_current_binary_hash P os ≡ ok hash) where
    -- With sound primitives and a reliable keyring, where the binary can be hashed, the random
    -- source answers and the expiry fits 63 bits, `storeInMemory` succeeds in either backend, and
    -- `getFromMemory` returns the secret up to its expiry and leaves it there.
    pub get-store_in_memory :
        (rand : Reader) (name secret nonce : Bytes) (expiry now : Time) (t : ℕ)
        (mem : SecretStore B)
        → IsReader rand
        → rand 12 ≡ some nonce
        → unix expiry ≡ pos t
        → t < 2 ^ 63
        → is_expired now (pos t) ≡ false
        → let (done, mem') = store_in_memory B P os client_nonce rand name secret expiry mem in
          (done ≡ ok tt) × (get_from_memory B P os client_nonce now name mem' ≡ (ok secret, mem'))
    unfolding store_in_memory get_from_memory
    get-store_in_memory rand name secret nonce expiry now t mem reads drawn dated fits fresh =
        let (c, es, eu) =
          unseal-seal P sound os client_nonce hash hashed rand name secret nonce reads drawn in
        let (done, there) = get-put name nonce c t mem (reads 12 nonce drawn) fits in
        rw (es, put_sealed, dated) (done, rw (there, get_fetched, open_unexpired, fresh, eu))

    -- With sound primitives and a reliable keyring, where the binary can be hashed, the random
    -- source answers and the expiry fits 63 bits, `storeInMemory` succeeds in either backend, and
    -- after the expiry `getFromMemory` fails and deletes the secret.
    get-store_in_memory_expired :
        (rand : Reader) (name secret nonce : Bytes) (expiry now : Time) (t : ℕ)
        (mem : SecretStore B)
        → IsReader rand
        → rand 12 ≡ some nonce
        → unix expiry ≡ pos t
        → t < 2 ^ 63
        → is_expired now (pos t) ≡ true
        → let (done, mem') = store_in_memory B P os client_nonce rand name secret expiry mem in
          (done ≡ ok tt)
          × (get_from_memory B P os client_nonce now name mem'
              ≡ (err (errorf "secret expired"), del B name mem'))
    unfolding store_in_memory get_from_memory
    get-store_in_memory_expired rand name secret nonce expiry now t mem reads drawn dated fits
          late =
        let (c, es, eu) =
          unseal-seal P sound os client_nonce hash hashed rand name secret nonce reads drawn in
        let (done, there) = get-put name nonce c t mem (reads 12 nonce drawn) fits in
        rw (es, put_sealed, dated) (done, rw (there, get_fetched, open_unexpired, late))
