-- ===== src/Verify.antt =====
-- internal/common/verify.go, verify_linux.go and verify_darwin.go: the hash of a client's binary.
-- The operating system is a parameter.
pub mod Darwin
use burnafter.Prelude.{
  ℕ, zero, suc, ◌+◌, ◌/◌, ◌%◌, Bool, true, false, Option, none, some, List, [], ◌∷◌, ◌++◌, ◌==◌,
  ltb, if◌then◌else◌,
}
use burnafter.Bytes.{Bytes, codes}
use burnafter.Int.{ℤ, pos, negsuc}
use burnafter.Crypto.{Primitives, hex_encode}
use burnafter.Result.{Result, ok, err, errorf, wrap, context, or_error, ◌>>=◌}

-- `os.Open` and reading the file to its end
pub data FileRead : Type 0 where
  unopened unreadable : FileRead
  contents : Bytes → FileRead

-- What the program asks of the operating system about binaries. `none` is an error.
pub record Machine : Type 0 where
  pub readlink : Bytes → Option Bytes
  pub read : Bytes → FileRead
  pub executable : Option Bytes
  pub eval_symlinks : Bytes → Option Bytes

-- `%d`, for numbers of up to `fuel` digits
abbrev pub digits : ℕ → ℕ → Bytes → Bytes
digits zero n acc = acc
digits (suc fuel) n acc =
    let more = digits fuel (n / 10) ((b'0' + n % 10) ∷ acc) in
    if ltb n 10 then (b'0' + n) ∷ acc else more

-- An int32 has at most ten digits.
unfoldable pub decimal : ℤ → Bytes
decimal (pos n) = digits 10 n []
decimal (negsuc n) = b'-' ∷ digits 10 (suc n) []

module _ (P : Primitives) (os : Machine) where
  -- verify_linux.go
  unfoldable pub get_binary_path : ℤ → Result Bytes
  unfolding decimal
  get_binary_path pid =
      or_error "readlink" (os.readlink (codes "/proc/" ++ (decimal pid ++ codes "/exe")))

  abbrev pub hash_contents : FileRead → Result Bytes
  hash_contents unopened = err (errorf "failed to open file")
  hash_contents unreadable = err (errorf "hashing file")
  hash_contents (contents b) = ok (hex_encode (P.sha256 b))

  unfoldable pub hash_file : Bytes → Result Bytes
  hash_file path = hash_contents (os.read path)

  unfoldable pub get_client_binary_info : ℤ → Result (Bytes × Bytes)
  unfolding get_binary_path hash_file
  get_client_binary_info pid = do
    binary_path ← context "reading binary path" (get_binary_path pid)
    binary_hash ← context "hashing client binary" (hash_file binary_path)
    ok (binary_path, binary_hash)

  unfoldable pub get_current_binary_hash : Result Bytes
  unfolding hash_file
  get_current_binary_hash = do
    exe_path ← or_error "getting the executable path" os.executable
    exe_path' ← or_error "resolving symlinks" (os.eval_symlinks exe_path)
    hash_file exe_path'
