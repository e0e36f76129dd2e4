-- ===== src/Lib.antt =====
-- A model of burnafter, which keeps secrets for a program: in a daemon that the program's library
-- starts, in encrypted files, or in memory.
--
-- The client library (client.go, store.go, get.go, delete.go: `Client`) sends the secrets to the daemon
-- (internal/server: `Server`) over gRPC on a Unix socket, or keeps them in files of the temporary
-- directory (fallback.go: `Fallback`) or in memory (memory.go: `Memory`). The daemon takes the peer of
-- the socket (`Peer`), hashes its binary (internal/common/verify*.go: `Verify`), derives a key from the
-- hash and seals the secret (internal/common/crypto.go: `Crypto`), and hands the payload to a storage
-- backend (secrets/storage.go: `Storage`).
--
-- Modules:
--   Prelude, Result, Bytes, Int, GoMap, Clock: what the others share. Go's errors, byte slices and
--     `encoding/binary`, integers (the wrap of int64 is written out by `wrap64`), maps as association
--     lists, and the times of package `time` in nanoseconds.
--   Crypto: `DeriveKey`, `GenerateSalt`, `GenerateSessionID`, `Encrypt`, `Decrypt`, `ZeroBytes`.
--     `Crypto.Envelope` is about encryption and `Crypto.Keys` about keys.
--   Storage: `Payload`, `Metadata` and the interface, as a record of operations; `IsReliable` states its
--     promise, and `IsFaithful` and `IsHonest` that of a backend that may fail. `Storage.Memory` is
--     internal/secrets/memory.go, `Storage.Keyring` and `Storage.Keychain` are keyring.go and
--     keychain.go beside it; `Storage.Kept` and `Storage.Items` are about these,
--     and `Storage.Worker` is the worker goroutine of keyring.go with its callers, one call of the kernel
--     at a time.
--   Verify: `GetClientBinaryInfo`, `HashFile`, `GetCurrentBinaryHash`, with verify_linux.go;
--     `Verify.Darwin` is verify_darwin.go.
--   Peer: credentials.go and peercred_linux.go; `Peer.Darwin` is peercred_darwin.go.
--   Server: the state (`Server`), `NewServer`, `updateActivity`, `Ping`. `Server.Store`, `Server.Get` and
--     `Server.Cleanup` are the two handlers and the body of the cleanup goroutine; `Server.Step` puts
--     them together as events. A handler takes the state and a `Call` (peer, clock readings, random
--     source) to the reply and the new state. `Server.Lifecycle` is `Run` with its goroutines, as a step
--     relation; `Server.Start` chooses the storage. `Server.Sections` has the handlers and the cleanup
--     section by section, many at once, as a step relation on the server, the lock and where each
--     goroutine is; the modules below it are about such runs. `Server.Spec` is what the daemon promises,
--     with no ciphertext and no backend, and `Server.Refines` relates the server to it. `Server.Quiet`
--     is about runs without requests. The other modules below `Server` are proofs.
--   Fallback: the operations of fallback.go on a directory. `Fallback.TempDir` has the directory and
--     the calls of package `os`, `Fallback.Format` the file format, `Fallback.Seal` the sealing.
--   Options: options/options.go.
--   Memory: `secretStore` with its two backends, and the operations on it; `Memory.Blob` is the format.
--   Client: `Store`, `Get`, `Delete`, `Ping`; `Client.Connect` is `Connect`. `Client.Daemon` connects a
--     client to the handlers of the server, and `Client.New` is `NewClient`.
--   Launch: `Launch` of embedded/launch.go, which starts the daemon; `Launch.Binary` is
--     internal/embedded. `Launch.Handover` and `Launch.Serve` are cmd/burnafter-server/main.go, and
--     the others below `Launch` are about temporary files.
--   Cli: cmd/burnafter/main.go; `Cli.Number` is `strconv.ParseInt`.
--   Pack: hack/gzip/main.go.
--   Tests: the theorems at concrete inputs, with toy instances of the parameters.
--
-- Parameters: the cryptographic libraries (`Crypto.Primitives`; what they document is `IsSound`), the
-- random source (`Reader`), the operating system (`Verify.Machine`, `Verify.Darwin.Sysctl`, the outcomes
-- of file calls in `Fallback.TempDir.Io`), the storage backend (for the keyring, the kernel and the
-- `gob` codec; for the macOS keychain, its items), the gRPC stub (`Client.Remote`), what a launch calls
-- (`Launch.Calls`, `Launch.Json`), the outcomes of the calls of a compression and its umask
-- (`Pack.Calls`) and the readings of the clock, one for each call of `time.Now` and `time.Since`.
--
-- Bounds: `format_int` prints at most 19 digits, enough for an int64, and `decimal` at most ten, enough
-- for an int32. `wait` has the ten rounds of the loop in `Connect`. All other loops recur on a list.
--
-- In `Server.Store` and `Server.Get` a handler is one step. `Server.Sections` has the interleavings: a
-- section under `secretsMu` is one step, a tick of the cleanup holds the lock over many, and the backend
-- is called outside of it; a random source that answers has filled its buffer. `Server.Race` and
-- `Server.Between` look at single sections of a `Store`. In `Server.Lifecycle` a request is one step, a
-- `Get` that panics ends the process, and the time that a timer takes is left open: it may fire at any
-- step while it is armed. Values that error messages print are left out. Not modelled: the parsing of
-- flags, the system calls on the listening socket, logging, generated code.
pub mod Prelude
pub mod Result
pub mod Bytes
pub mod Int
pub mod GoMap
pub mod Clock
pub mod Crypto
pub mod Storage
pub mod Verify
pub mod Peer
pub mod Server
pub mod Fallback
pub mod Options
pub mod Memory
pub mod Client
pub mod Launch
pub mod Cli
pub mod Pack
pub mod Tests
