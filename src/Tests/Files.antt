-- ===== src/Tests/Files.antt =====
-- The theorems on the file fallback, at one small directory.
use burnafter.Prelude.{
  ◌≡◌, refl, [], ◌∷◌, ◌++◌, arith, replicate, take, some, none, true, false, ◌*◌, if◌then◌else◌,
}
use burnafter.Bytes.{Bytes, codes, bytes_eq, put_uint64, uint64}
use burnafter.Clock.{unix, second}
use burnafter.Crypto.{hex_encode}
use burnafter.GoMap.{lookup, NodupKeys}
use burnafter.Int.{pos, floor_div}
use burnafter.Result.{ok, err, errorf}
use burnafter.Verify.{get_current_binary_hash, hash_file}
use burnafter.Fallback.{
  file_path, file_prefix, has_prefix, expiry_of, is_stale, build_file, encrypt_secret,
  decrypt_secret, cleanup_expired_fallback_files, is_expired,
}
use burnafter.Fallback.TempDir.{Disk, file, Io, replace_file, owner_only}
use burnafter.Fallback.Format.{serialize}
use burnafter.Fallback.Seal.{seal, key_for, derive_key, new_gcm}
use burnafter.Fallback.Codec.{layout}
use burnafter.Fallback.Atomic.{IsFresh, encrypt_secret_refused}
use burnafter.Fallback.Written.{Succeeds}
use burnafter.Fallback.RoundTrip.{decrypt_expired}
use burnafter.Fallback.Cleanup.{is_doomed, cleanup_files_exact}
use burnafter.Tests.Toy.{toy, toy-IsSound, zeros, zeros-IsReader}
use burnafter.Tests.World.{machine}

abbrev pub hash_app : Bytes
hash_app = hex_encode (toy.sha256 (codes "/usr/bin/app"))

pub hashed_app : get_current_binary_hash toy machine ≡ ok hash_app
unfolding get_current_binary_hash hash_file
hashed_app = refl

abbrev pub name : Bytes
name = codes "api-key"

abbrev pub secret : Bytes
secret = codes "hunter2"

abbrev pub path : Bytes
path = file_prefix hash_app ++ hex_encode (take 16 (toy.sha256 name))

pub located_path : file_path toy machine name ≡ ok path
unfolding file_path get_current_binary_hash hash_file
located_path = refl

abbrev pub tmp : Bytes
tmp = codes ".burnafter-1"

-- No call fails.
abbrev pub smooth : Io
smooth = record {
  created = some tmp;
  write_ok = true;
  written = [];
  close_ok = true;
  chmod_ok = true;
  rename_ok = true;
  removed = λ j. true;
  readable = λ j. true;
  listed = true;
}

pub smooth-Succeeds : Succeeds smooth tmp
smooth-Succeeds = record {
  created = refl;
  wrote = refl;
  closed = refl;
  changed = refl;
  renamed = refl;
}

pub unix_1000 : unix (pos (1000 * second)) ≡ pos 1000
unfolding unix floor_div
unix_1000 = refl

abbrev nonce_0 : Bytes
nonce_0 = replicate 12 0

abbrev written_disk : Disk
written_disk =
    (encrypt_secret toy machine (codes "n") smooth zeros name secret (pos (1000 * second)) []).1

current : is_expired (pos (999 * second)) (pos 1000) ≡ false
unfolding unix floor_div
current = refl

late : is_expired (pos (1001 * second)) (pos 1000) ≡ true
unfolding unix floor_div
late = refl

decrypt_expired_example :
    ((decrypt_secret toy machine (codes "n") smooth (pos (1001 * second)) name written_disk).0
      ≡ err (errorf "secret expired"))
    × (lookup path
          (decrypt_secret toy machine (codes "n") smooth (pos (1001 * second)) name written_disk).1
        ≡ none)
decrypt_expired_example =
    decrypt_expired toy toy-IsSound machine (codes "n") hash_app hashed_app smooth zeros name secret
      nonce_0 path tmp (pos (1000 * second)) 1000 [] smooth (pos (1001 * second)) written_disk
      zeros-IsReader refl located_path unix_1000 (omega arith) smooth-Succeeds
      (unfold lookup in refl) refl refl refl late

-- The rename fails.
abbrev stuck : Io
stuck = record smooth { rename_ok = false }

abbrev others : Disk
others = (codes "other", file owner_only (codes "data")) ∷ []

stuck-IsFresh : IsFresh stuck others
unfolding lookup bytes_eq
stuck-IsFresh = record {
  unused = λ t e. let same : tmp ≡ t = cc in rw (← same) refl;
  removable = λ t e. refl;
}

refused :
    (encrypt_secret toy machine (codes "n") stuck zeros name secret (pos (1000 * second)) others).0
    ≡ err (errorf "failed to rename file")
unfolding encrypt_secret build_file seal derive_key new_gcm key_for file_path
    get_current_binary_hash hash_file unix floor_div serialize replace_file hex_encode
refused = refl

encrypt_secret_refused_example :
    lookup
      (codes "other")
      (encrypt_secret toy machine
        (codes "n")
        stuck
        zeros
        name
        secret
        (pos (1000 * second))
        others).1
    ≡ lookup (codes "other") others
encrypt_secret_refused_example =
    encrypt_secret_refused stuck others toy machine (codes "n") zeros name secret
      (pos (1000 * second)) (codes "other") (errorf "failed to rename file") stuck-IsFresh refused

-- A file of this binary that expired at second 1000.
abbrev old_disk : Disk
old_disk = (path, file owner_only (layout nonce_0 (codes "sealed") 1000 refl)) ∷ others

old-NodupKeys : NodupKeys old_disk
unfolding lookup file_prefix bytes_eq hex_encode
old-NodupKeys = (refl, (refl, tt))

cleanup_files_exact_example :
    ((cleanup_expired_fallback_files toy machine smooth (pos (1001 * second)) old_disk).0 ≡ ok tt)
    × (lookup path
          (cleanup_expired_fallback_files toy machine smooth (pos (1001 * second)) old_disk).1
        ≡ (if is_doomed smooth
              (unix (pos (1001 * second)))
              (file_prefix hash_app)
              path
              (lookup path old_disk)
            then none
            else lookup path old_disk))
cleanup_files_exact_example =
    cleanup_files_exact toy machine smooth (pos (1001 * second)) old_disk hash_app path hashed_app
      refl old-NodupKeys

-- Its file is one of those that go.
doomed :
    is_doomed smooth (unix (pos (1001 * second))) (file_prefix hash_app) path (lookup path old_disk)
    ≡ true
unfolding lookup file_prefix has_prefix expiry_of is_stale unix floor_div bytes_eq hex_encode
    put_uint64 uint64
doomed = refl
