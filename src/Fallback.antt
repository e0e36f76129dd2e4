-- ===== src/Fallback.antt =====
-- fallback.go: secrets in encrypted files. The sealing and the file format are in `Seal` and `Format`
-- below; here are the operations on the temporary directory.
pub mod TempDir
pub mod Format
pub mod Seal
pub mod Codec
pub mod Atomic
pub mod Written
pub mod RoundTrip
pub mod Cleanup
use burnafter.Prelude.{
  ℕ, ◌+◌, Bool, true, false, not, ◌&&◌, ◌||◌, Option, none, some, List, [], ◌∷◌, ◌++◌, ltb,
  if◌then◌else◌, length, take, drop,
}
use burnafter.Bytes.{Bytes, codes, bytes_eq, uint64}
use burnafter.Int.{ℤ, pos, ltb_ℤ}
use burnafter.GoMap.{lookup, insert, erase}
use burnafter.Clock.{Time, unix}
use burnafter.Crypto.{Primitives, Reader, hex_encode}
use burnafter.Result.{Error, errorf, Result, ok, err, context, or_error, ◌>>=◌}
use burnafter.Verify.{Machine, get_current_binary_hash}
use burnafter.Fallback.TempDir.{
  Disk, Node, file, directory, Io, remove, read_file, Read, absent, failed, contents, replace_file,
}
use burnafter.Fallback.Format.{SecretFile, serialize, parse, file_version, header_size, max_int64}
use burnafter.Fallback.Seal.{seal, unseal}

-- `burnafter-{binary_hash[:16]}-`
unfoldable pub file_prefix : Bytes → Bytes
file_prefix binary_hash = codes "burnafter-" ++ (take 16 binary_hash ++ codes "-")

-- Does the name begin with the prefix?
unfoldable pub has_prefix : Bytes → Bytes → Bool
has_prefix prefix name =
    not (ltb (length name) (length prefix) || not (bytes_eq (take (length prefix) name) prefix))

-- `time.Now().Unix() > expiry`
abbrev pub is_expired : Time → ℤ → Bool
is_expired now expiry = ltb_ℤ expiry (unix now)

-- The expiry that `cleanupExpiredFallbackFiles` reads; it does not look at the version.
unfoldable pub expiry_of : Bytes → Option ℤ
expiry_of b =
    if ltb (length b) header_size
    then none
    else let expiry = uint64 (take 8 (drop 13 b)) in
      if ltb max_int64 expiry then none else some (pos expiry)

unfoldable pub is_stale : ℤ → Option ℤ → Bool
is_stale now none = false
is_stale now (some expiry) = ltb_ℤ expiry now

abbrev pub clean_read : Io → ℤ → Bytes → Read → Disk → Disk
clean_read io now name absent disk = disk
clean_read io now name failed disk = disk
clean_read io now name (contents b) disk =
    if is_stale now (expiry_of b) then remove io name disk else disk

abbrev pub is_directory : Node → Bool
is_directory directory = true
is_directory (file mode b) = false

-- One entry of the listing.
unfoldable pub clean_entry : Io → ℤ → Bytes → Bytes × Node → Disk → Disk
clean_entry io now prefix (name, node) disk =
    if is_directory node || not (has_prefix prefix name)
    then disk
    else clean_read io now name (read_file io name disk) disk

unfoldable pub clean_entries : Io → ℤ → Bytes → Disk → Disk → Disk
clean_entries io now prefix [] disk = disk
clean_entries io now prefix (entry ∷ entries) disk =
    clean_entries io now prefix entries (clean_entry io now prefix entry disk)

module _ (P : Primitives) (os : Machine) where
  unfoldable pub file_path : Bytes → Result Bytes
  file_path secret_name = do
    binary_hash ← context "failed to get binary hash" (get_current_binary_hash P os)
    ok (file_prefix binary_hash ++ hex_encode (take 16 (P.sha256 secret_name)))

  module _ (client_nonce : Bytes) where
    -- `encryptSecret` up to the file system: the path and the bytes of the file.
    unfoldable pub build_file : Reader → Bytes → Bytes → Time → Result (Bytes × Bytes)
    build_file rand secret_name secret expiry_time = do
      (nonce, ciphertext) ← seal P os client_nonce rand secret_name secret
      path ← file_path secret_name
      buf ← serialize (record {
        version = file_version;
        nonce = nonce;
        expiry = unix expiry_time;
        ciphertext = ciphertext;
      })
      ok (path, buf)

    abbrev pub write_built : Io → Result (Bytes × Bytes) → Disk → Result (Unit {0}) × Disk
    write_built io (err e) disk = (err e, disk)
    write_built io (ok (path, buf)) disk = replace_file io path buf disk

    unfoldable pub encrypt_secret :
        Io → Reader → Bytes → Bytes → Time → Disk → Result (Unit {0}) × Disk
    encrypt_secret io rand secret_name secret expiry_time disk =
        write_built io (build_file rand secret_name secret expiry_time) disk

    -- `decryptSecret` from the parsed file on
    abbrev pub decrypt_file :
        Io → Time → Bytes → Bytes → Result SecretFile → Disk → Result Bytes × Disk
    decrypt_file io now secret_name path (err e) disk = (err e, disk)
    decrypt_file io now secret_name path (ok f) disk =
        if is_expired now f.expiry
        then (err (errorf "secret expired"), remove io path disk)
        else (unseal P os client_nonce secret_name f.nonce f.ciphertext, disk)

    abbrev pub decrypt_read : Io → Time → Bytes → Bytes → Read → Disk → Result Bytes × Disk
    decrypt_read io now secret_name path absent disk = (err (errorf "secret not found"), disk)
    decrypt_read io now secret_name path failed disk = (err (errorf "failed to read file"), disk)
    decrypt_read io now secret_name path (contents b) disk =
        decrypt_file io now secret_name path (parse b) disk

    abbrev pub decrypt_at : Io → Time → Bytes → Result Bytes → Disk → Result Bytes × Disk
    decrypt_at io now secret_name (err e) disk = (err e, disk)
    decrypt_at io now secret_name (ok path) disk =
        decrypt_read io now secret_name path (read_file io path disk) disk

    unfoldable pub decrypt_secret : Io → Time → Bytes → Disk → Result Bytes × Disk
    decrypt_secret io now secret_name disk =
        decrypt_at io now secret_name (file_path secret_name) disk

  abbrev pub delete_at : Io → Result Bytes → Disk → Result (Unit {0}) × Disk
  delete_at io (err e) disk = (err e, disk)
  delete_at io (ok path) disk = elim (lookup path disk) [
    | none ↦ (err (errorf "secret not found"), disk)
    | some node ↦ (
      if io.removed path then ok tt else err (errorf "failed to delete file"),
      remove io path disk,
    )
  ]

  unfoldable pub delete_fallback_secret : Io → Bytes → Disk → Result (Unit {0}) × Disk
  delete_fallback_secret io secret_name disk = delete_at io (file_path secret_name) disk

  abbrev pub clean_as : Io → Time → Result Bytes → Disk → Result (Unit {0}) × Disk
  clean_as io now (err e) disk = (err e, disk)
  clean_as io now (ok binary_hash) disk =
      if io.listed
      then (ok tt, clean_entries io (unix now) (file_prefix binary_hash) disk disk)
      else (err (errorf "failed to read temp directory"), disk)

  unfoldable pub cleanup_expired_fallback_files : Io → Time → Disk → Result (Unit {0}) × Disk
  cleanup_expired_fallback_files io now disk = clean_as io now (get_current_binary_hash P os) disk
