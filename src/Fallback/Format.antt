-- ===== src/Fallback/Format.antt =====
-- The file format of fallback.go: [version:1][nonce:12][expiry:8][ciphertext+tag].
use burnafter.Prelude.{
  ℕ, ◌+◌, ◌-◌, ◌^◌, [], ◌∷◌, ltb, ◌==◌, not, if◌then◌else◌, length, take, drop, replicate,
}
use burnafter.Bytes.{Bytes, copy_at, put_uint64, uint64}
use burnafter.Int.{ℤ, pos, pos_part, ltb_ℤ}
use burnafter.Result.{Result, ok, err, errorf}

pub record SecretFile : Type 0 where
  pub version : ℕ
  pub nonce : Bytes
  pub expiry : ℤ
  pub ciphertext : Bytes

abbrev pub file_version : ℕ
file_version = 1

abbrev pub gcm_nonce_size : ℕ
gcm_nonce_size = 12

-- 1 + gcmNonceSize + 8
abbrev pub header_size : ℕ
header_size = 21

-- `math.MaxInt64`
abbrev pub max_int64 : ℕ
max_int64 = 2 ^ 63 - 1

unfoldable pub serialize : SecretFile → Result Bytes
serialize f =
    let buf = replicate (header_size + length f.ciphertext) 0 in
    let buf1 = copy_at 0 (f.version ∷ []) buf in
    let buf2 = copy_at 1 f.nonce buf1 in
    if ltb_ℤ f.expiry (pos 0)
    then err (errorf "invalid expiry time")
    else ok (copy_at 21 f.ciphertext (copy_at 13 (put_uint64 (pos_part f.expiry)) buf2))

-- `data[0]`
abbrev pub first_byte : Bytes → ℕ
first_byte [] = 0
first_byte (b ∷ bs) = b

-- The parsing part of `decryptSecret`
unfoldable pub parse : Bytes → Result SecretFile
parse b =
    if ltb (length b) header_size
    then err (errorf "invalid file format: too small")
    else if not (first_byte b == file_version)
    then err (errorf "unsupported file version")
    else let expiry = uint64 (take 8 (drop 13 b)) in
      if ltb max_int64 expiry
      then err (errorf "invalid expiry time in file")
      else ok (record {
        version = first_byte b;
        nonce = take 12 (drop 1 b);
        expiry = pos expiry;
        ciphertext = drop 21 b;
      })
