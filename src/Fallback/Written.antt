-- ===== src/Fallback/Written.antt =====
-- fallback.go: what a store that succeeds leaves in the directory.
use burnafter.Prelude.{ℕ, ◌^◌, ◌<◌, ◌≡◌, refl, sym, ◌∙◌, true, none, some, length}
use burnafter.Bytes.{Bytes, bytes_eq_refl}
use burnafter.Int.{pos}
use burnafter.GoMap.{
  NodupKeys, insert-NodupKeys, erase-NodupKeys, lookup, insert, erase, lookup-insert, lookup-erase,
}
use burnafter.Clock.{Time, unix}
use burnafter.Crypto.{Primitives, IsSound, Reader, IsReader}
use burnafter.Result.{ok}
use burnafter.Verify.{Machine, get_current_binary_hash}
use burnafter.Fallback.{file_path, build_file, write_built, encrypt_secret}
use burnafter.Fallback.TempDir.{
  Disk, file, Io, remove, can_replace, owner_only, replace_file, read_file, contents,
}
use burnafter.Fallback.Format.{SecretFile, parse}
use burnafter.Fallback.Codec.{secret_file, parse-serialize}
use burnafter.Fallback.Seal.{new_gcm, key_for, derive_key, seal, unseal}

-- Every call that writes the file succeeds.
pub record Succeeds (io : Io) (tmp : Bytes) : Type 0 where
  pub created : io.created ≡ some tmp
  pub wrote : io.write_ok ≡ true
  pub closed : io.close_ok ≡ true
  pub changed : io.chmod_ok ≡ true
  pub renamed : io.rename_ok ≡ true

replace_file_written :
    (io : Io) (tmp path buf : Bytes) (disk : Disk)
    → Succeeds io tmp
    → can_replace (lookup path disk) ≡ true
    → replace_file io path buf disk ≡ (ok tt, insert path (file owner_only buf) (erase tmp disk))
unfolding replace_file
replace_file_written io tmp path buf disk s free =
    rw (s.created, s.wrote, s.closed, s.changed, s.renamed, free)

pub read_file_present :
    (io : Io) (path buf : Bytes) (mode : ℕ) (disk : Disk)
    → lookup path disk ≡ some (file mode buf)
    → io.readable path ≡ true
    → read_file io path disk ≡ contents buf
unfolding read_file
read_file_present io path buf mode disk there readable = rw (there, read_file, readable)

pub lookup-remove :
    (io : Io) (path : Bytes) (disk : Disk)
    → io.removed path ≡ true
    → lookup path (remove io path disk) ≡ none
unfolding remove
lookup-remove io path disk removable =
    rw removable (lookup-erase path path disk ∙ rw (bytes_eq_refl path))

module _ (P : Primitives) (sound : IsSound P) (os : Machine) (client_nonce : Bytes) where
  new_gcm_total : (key : Bytes) → length key ≡ 32 → (g : P.Aead) × (new_gcm P key ≡ ok g)
  unfolding new_gcm
  new_gcm_total key h =
      let (b, eb) = sound.cipher_32 key h in let (g, eg) = sound.gcm_of b in (g, rw (eb, eg))

  module _ (hash : Bytes) (hashed : get_current_binary_hash P os ≡ ok hash) where
    derive_key_lem :
        (name : Bytes) → derive_key P os client_nonce name ≡ ok (key_for P client_nonce hash name)
    unfolding derive_key
    derive_key_lem name = rw hashed

    -- `seal` succeeds if the random source does, and `open` undoes it.
    pub unseal-seal :
        (rand : Reader) (name secret nonce : Bytes)
        → IsReader rand
        → rand 12 ≡ some nonce
        → (c : Bytes) × (seal P os client_nonce rand name secret ≡ ok (nonce, c))
          × (unseal P os client_nonce name nonce c ≡ ok secret)
    unfolding seal unseal
    unseal-seal rand name secret nonce reads drawn =
        let key = key_for P client_nonce hash name in
        let (g, eg) = new_gcm_total key (unfold key_for in sound.pbkdf2_length _ _ _ 32) in
        (
          P.seal g nonce secret,
          rw (derive_key_lem name, eg, drawn),
          rw (
            derive_key_lem name,
            eg,
            sound.unseal_seal g nonce secret (reads 12 nonce drawn ∙ sym (sound.nonce_12 g)),
          ),
        )

    -- The file that a secret is in.
    pub build_file_total :
        (rand : Reader) (name secret nonce path : Bytes) (expiry : Time) (t : ℕ)
        → IsReader rand
        → rand 12 ≡ some nonce
        → file_path P os name ≡ ok path
        → unix expiry ≡ pos t
        → t < 2 ^ 63
        → (b : Bytes) × (f : SecretFile) × (build_file P os client_nonce rand name secret expiry
            ≡ ok (path, b))
          × (parse b ≡ ok f)
          × (f.expiry ≡ pos t)
          × (unseal P os client_nonce name f.nonce f.ciphertext ≡ ok secret)
    unfolding build_file
    build_file_total rand name secret nonce path expiry t reads drawn located dated fits =
        let (c, es, eu) = unseal-seal rand name secret nonce reads drawn in
        let twelve = reads 12 nonce drawn in
        let (b, eb, ep) = parse-serialize nonce c t twelve fits in
        (b, secret_file nonce c t twelve, rw (es, located, dated, eb), ep, refl, eu)

    -- The directory after a successful store has the new file, readable by its owner only.
    pub lookup-encrypt_secret :
        (io : Io) (rand : Reader) (name secret path tmp b : Bytes) (expiry : Time) (disk : Disk)
        → build_file P os client_nonce rand name secret expiry ≡ ok (path, b)
        → Succeeds io tmp
        → can_replace (lookup path disk) ≡ true
        → ((encrypt_secret P os client_nonce io rand name secret expiry disk).0 ≡ ok tt)
          × (lookup path (encrypt_secret P os client_nonce io rand name secret expiry disk).1
              ≡ some (file owner_only b))
    unfolding encrypt_secret
    lookup-encrypt_secret io rand name secret path tmp b expiry disk built s free =
        rw (built, write_built, replace_file_written io tmp path b disk s free)
          (
            refl,
            lookup-insert path path (file owner_only b) (erase tmp disk) ∙ rw (bytes_eq_refl path),
          )

    -- Which file the directory then has, once under its name.
    pub encrypt_secret_there :
        (io : Io) (rand : Reader) (name secret nonce path tmp : Bytes) (expiry : Time) (t : ℕ)
        (disk : Disk)
        → IsReader rand
        → rand 12 ≡ some nonce
        → file_path P os name ≡ ok path
        → unix expiry ≡ pos t
        → t < 2 ^ 63
        → Succeeds io tmp
        → can_replace (lookup path disk) ≡ true
        → NodupKeys disk
        → let disk' = (encrypt_secret P os client_nonce io rand name secret expiry disk).1 in
          NodupKeys disk'
          × (b : Bytes) × (f : SecretFile) × (lookup path disk' ≡ some (file owner_only b))
          × (parse b ≡ ok f)
          × (f.expiry ≡ pos t)
    unfolding encrypt_secret
    encrypt_secret_there io rand name secret nonce path tmp expiry t disk reads drawn located dated
          fits s free u =
        let (b, f, built, parsed, ef, opens) =
          build_file_total rand name secret nonce path expiry t reads drawn located dated fits in
        (
          rw (built, write_built, replace_file_written io tmp path b disk s free)
              (insert-NodupKeys path _ (erase tmp disk) (erase-NodupKeys tmp disk u)),
          b,
          f,
          (lookup-encrypt_secret io rand name secret path tmp b expiry disk built s free).1,
          parsed,
          ef,
        )
