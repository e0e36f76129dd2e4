-- ===== src/Fallback/RoundTrip.antt =====
-- fallback.go: reading a stored secret, before and after its expiry.
use burnafter.Prelude.{ℕ, ◌^◌, ◌<◌, ◌≡◌, refl, ◌∙◌, true, false, none, some}
use burnafter.Bytes.{Bytes}
use burnafter.Int.{pos}
use burnafter.GoMap.{lookup}
use burnafter.Clock.{Time, unix}
use burnafter.Crypto.{Primitives, IsSound, Reader, IsReader}
use burnafter.Result.{errorf, ok, err}
use burnafter.Verify.{Machine, get_current_binary_hash}
use burnafter.Fallback.{
  file_path, encrypt_secret, is_expired, decrypt_file, decrypt_read, decrypt_at, decrypt_secret,
}
use burnafter.Fallback.TempDir.{Disk, Io, can_replace, owner_only}
use burnafter.Fallback.Written.{
  Succeeds, read_file_present, lookup-remove, build_file_total, lookup-encrypt_secret,
}

module _ (P : Primitives) (sound : IsSound P) (os : Machine) (client_nonce : Bytes) (hash : Bytes)
    (hashed : get_current_binary_hash P os ≡ ok hash) where
  module _ (io : Io) (rand : Reader) (name secret nonce path tmp : Bytes) (expiry : Time) (t : ℕ)
      (disk : Disk) (io' : Io) (now : Time) (disk' : Disk) where
    -- Where all calls succeed, with sound primitives and an expiry that fits 63 bits, a secret is
    -- stored, and a read of its file, however the other files have changed since, returns it up to
    -- its expiry and changes nothing.
    pub decrypt_secret-encrypt_secret :
        IsReader rand
        → rand 12 ≡ some nonce
        → file_path P os name ≡ ok path
        → unix expiry ≡ pos t
        → t < 2 ^ 63
        → Succeeds io tmp
        → can_replace (lookup path disk) ≡ true
        → lookup path disk'
          ≡ lookup path (encrypt_secret P os client_nonce io rand name secret expiry disk).1
        → io'.readable path ≡ true
        → is_expired now (pos t) ≡ false
        → ((encrypt_secret P os client_nonce io rand name secret expiry disk).0 ≡ ok tt)
          × (decrypt_secret P os client_nonce io' now name disk' ≡ (ok secret, disk'))
    unfolding decrypt_secret
    decrypt_secret-encrypt_secret reads drawn located dated fits s free same readable fresh =
        let (b, f, built, parsed, ef, opens) =
          build_file_total P sound os client_nonce hash hashed rand name secret nonce path expiry t
            reads drawn located dated fits in
        let (done, there) =
          lookup-encrypt_secret P sound os client_nonce hash hashed io rand name secret path tmp b
            expiry disk built s free in
        (
          done,
          rw (
            located,
            decrypt_at,
            read_file_present io' path b owner_only disk' (same ∙ there) readable,
            decrypt_read,
            parsed,
            decrypt_file,
            ef,
            fresh,
            opens,
          ),
        )

    -- Where the calls that write, read and remove the file succeed, with sound primitives and an
    -- expiry that fits 63 bits: a read after the expiry fails, and the file is gone.
    pub decrypt_expired :
        IsReader rand
        → rand 12 ≡ some nonce
        → file_path P os name ≡ ok path
        → unix expiry ≡ pos t
        → t < 2 ^ 63
        → Succeeds io tmp
        → can_replace (lookup path disk) ≡ true
        → lookup path disk'
          ≡ lookup path (encrypt_secret P os client_nonce io rand name secret expiry disk).1
        → io'.readable path ≡ true
        → io'.removed path ≡ true
        → is_expired now (pos t) ≡ true
        → ((decrypt_secret P os client_nonce io' now name disk').0 ≡ err (errorf "secret expired"))
          × (lookup path (decrypt_secret P os client_nonce io' now name disk').1 ≡ none)
    unfolding decrypt_secret
    decrypt_expired reads drawn located dated fits s free same readable removable late =
        let (b, f, built, parsed, ef, opens) =
          build_file_total P sound os client_nonce hash hashed rand name secret nonce path expiry t
            reads drawn located dated fits in
        let (done, there) =
          lookup-encrypt_secret P sound os client_nonce hash hashed io rand name secret path tmp b
            expiry disk built s free in
        rw
          (
            located,
            decrypt_at,
            read_file_present io' path b owner_only disk' (same ∙ there) readable,
            decrypt_read,
            parsed,
            decrypt_file,
            ef,
            late,
          )
          (refl, lookup-remove io' path disk' removable)
