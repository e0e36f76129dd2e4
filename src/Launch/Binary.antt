-- ===== src/Launch/Binary.antt =====
-- internal/embedded: the server's binary, unpacked into a memory file or a temporary file.
use burnafter.Prelude.{ℕ, Option, none, some, if◌then◌else◌, ◌==◌, length}
use burnafter.Bytes.{Bytes}
use burnafter.Int.{ℤ, pos, ltb_ℤ}
use burnafter.GoMap.{insert}
use burnafter.Result.{errorf, Result, ok, err, or_error, ◌>>=◌}
use burnafter.Fallback.TempDir.{Disk, file, Io, remove}

-- `compress/gzip`
pub record Gzip : Type 1 where
  pub Stream : Type 0
  pub new_reader : Bytes → Option Stream
  pub read_all : Stream → Option Bytes

-- `embeddedServerBinary` is the argument.
unfoldable pub get_server_binary : Gzip → Bytes → Result Bytes
get_server_binary G compressed =
    if length compressed == 0
    then err (errorf "no embedded server binary found for this platform")
    else do
      stream ← or_error "failed to create gzip reader" (G.new_reader compressed)
      or_error "failed to decompress server binary" (G.read_all stream)

-- How the calls on a memory file come out: `memfd_create` with and without MFD_EXEC, and the number of
-- bytes that the write took.
pub record Memfd : Type 0 where
  pub create_exec : Option ℤ
  pub create : Option ℤ
  pub written : Option ℕ

abbrev pub open_memfd : Memfd → Result ℤ
open_memfd m = elim m.create_exec [
  | some fd ↦ ok fd
  | none ↦ or_error "memfd_create failed" m.create
]

-- embedded_linux.go. That the file cannot be sealed is only logged.
unfoldable pub create_memfd_server : Result Bytes → Memfd → Result ℤ
create_memfd_server server_binary m = do
  binary ← server_binary
  fd ← open_memfd m
  n ← or_error "failed to write binary to memfd" m.written
  if n == length binary
      then (if ltb_ℤ fd (pos 0) then err (errorf "invalid memfd file descriptor") else ok fd)
      else err (errorf "incomplete write to memfd")

-- embedded_other.go
abbrev pub no_memfd_server : Result ℤ
no_memfd_server = err (errorf "memfd_create not supported on this platform")

abbrev pub executable : ℕ
executable = 0o700

-- `os.CreateTemp` makes a file that only its owner reads and writes.
abbrev pub private_file : ℕ
private_file = 0o600

abbrev pub write_binary : Io → Bytes → Bytes → Disk → Result Bytes × Disk
write_binary io tmp binary disk =
    if io.write_ok
    then if io.chmod_ok then (ok tmp, insert tmp (file executable binary) disk) else (
      err (errorf "failed to make binary executable"),
      remove io tmp (insert tmp (file private_file binary) disk),
    )
    else (
      err (errorf "failed to write server binary"),
      remove io tmp (insert tmp (file private_file io.written) disk),
    )

abbrev pub extract_binary : Io → Bytes → Option Bytes → Disk → Result Bytes × Disk
extract_binary io binary none disk = (err (errorf "failed to create temp file"), disk)
extract_binary io binary (some tmp) disk = write_binary io tmp binary disk

-- The removal of the quarantine attribute on macOS changes no contents, and its error is ignored.
unfoldable pub extract_server_binary_to_temp : Io → Result Bytes → Disk → Result Bytes × Disk
extract_server_binary_to_temp io (err e) disk = (err e, disk)
extract_server_binary_to_temp io (ok binary) disk = extract_binary io binary io.created disk
