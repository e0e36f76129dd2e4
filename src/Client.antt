-- ===== src/Client.antt =====
-- client.go, store.go, get.go and delete.go: the client, which keeps its secrets in memory, in files
-- or with the server.
pub mod Connect
pub mod New
pub mod Daemon
pub mod Modes
pub mod Files
use burnafter.Prelude.{
  ℕ, zero, suc, ◌≡◌, Bool, true, false, ◌||◌, Option, none, some, List, if◌then◌else◌, String,
}
use burnafter.Bytes.{Bytes}
use burnafter.Int.{ℤ, pos, ltb_ℤ}
use burnafter.Clock.{Time, Readings, seconds, add, from_unix}
use burnafter.Crypto.{Primitives, Reader}
use burnafter.Options
use burnafter.Options.{StoreOptsFn, apply_options, no_options}
use burnafter.Result.{Error, errorf, wrap, Result, ok, err, context}
use burnafter.Storage.{Storage}
use burnafter.Verify.{Machine}
use burnafter.Server.{
  StoreRequest, StoreResponse, stored, not_stored, GetRequest, GetResponse, granted, denied,
  panicked,
}
use burnafter.Fallback.{
  encrypt_secret, decrypt_secret, delete_fallback_secret, cleanup_expired_fallback_files,
}
use burnafter.Fallback.TempDir.{Disk, Io}
use burnafter.Memory.{SecretStore, store_in_memory, get_from_memory, del}

-- The other end of the connection: the stub of the gRPC service. An error is one of the transport.
pub record Remote : Type 1 where
  pub World : Type 0
  pub store : StoreRequest → World → Result StoreResponse × World
  pub get : GetRequest → World → Result GetResponse × World
  pub ping : World → Result Bool × World

-- `connected`: `c.client` is set.
pub record Client : Type 0 where
  pub options : Options.Client
  pub connected : Bool
  pub server_start_failed : Bool
  pub has_launcher : Bool

-- What the operations of a client change.
pub record World (B : Storage) (R : Remote) : Type 0 where
  pub mem : SecretStore B
  pub disk : Disk
  pub remote : R.World

-- What the environment gives one call: the file system in the operation and in the cleanup that
-- follows it, the random source, and the readings of the clock.
pub record Env : Type 0 where
  pub io : Io
  pub io_cleanup : Io
  pub rand : Reader
  pub now : Readings

abbrev pub use_memory : Client → Bool
use_memory c = c.options.in_memory

abbrev pub use_fallback : Client → Bool
use_fallback c = c.options.no_server || c.server_start_failed

-- A Unix time takes precedence over a TTL, and a TTL over the default.
unfoldable pub store_expiry : Options.Client → Options.Store → Time → Time
store_expiry options opts now =
    if ltb_ℤ (pos 0) opts.absolute_expiration_seconds
    then from_unix opts.absolute_expiration_seconds
    else if ltb_ℤ (pos 0) opts.ttl_seconds
    then add now (seconds opts.ttl_seconds)
    else add now options.default_ttl

abbrev pub store_request : Client → (name secret : Bytes) → Options.Store → StoreRequest
store_request c name secret opts = record {
  name = name;
  secret = secret;
  ttl_seconds = opts.ttl_seconds;
  client_nonce = c.options.nonce;
  absolute_expiration_seconds = opts.absolute_expiration_seconds;
}

module _ (B : Storage) (R : Remote) (P : Primitives) (os : Machine) where
  abbrev pub with_mem {ℓ} : {A : Type ℓ} → World B R → A × SecretStore B → A × World B R
  with_mem w (a, mem) = (a, record w { mem = mem })

  -- The error of the cleanup is ignored.
  abbrev pub clean : Env → World B R → World B R
  clean env w = record w {
    disk = (cleanup_expired_fallback_files P os env.io_cleanup (env.now 1) w.disk).1;
  }

  -- After a failure there is no cleanup.
  abbrev pub then_clean {ℓ} :
      {A : Type ℓ} → Env → World B R → Result A × Disk → Result A × World B R
  then_clean env w (err e, disk) = (err e, record w { disk = disk })
  then_clean env w (ok a, disk) = (ok a, clean env (record w { disk = disk }))

  abbrev pub with_context {ℓ} : {A S : Type ℓ} → String → Result A × S → Result A × S
  with_context msg (r, s) = (context msg r, s)

  abbrev pub check_stored : Result StoreResponse → Result (Unit {0})
  check_stored (err e) = err (wrap "failed to store secret" e)
  check_stored (ok stored) = ok tt
  check_stored (ok (not_stored e)) = err (wrap "server error" e)

  abbrev pub with_remote {ℓ κ} :
      {A : Type ℓ} {C : Type κ} → World B R → (A → C) → A × R.World → C × World B R
  with_remote w f (a, remote) = (f a, record w { remote = remote })

  abbrev pub store_with :
      Env
      → Client
      → Bytes
      → Bytes
      → Result Options.Store
      → World B R
      → Result (Unit {0}) × World B R
  store_with env c name secret (err e) w = (err e, w)
  store_with env c name secret (ok opts) w =
      let expiry = store_expiry c.options opts (env.now 0) in
      if use_memory c
      then with_mem w (store_in_memory B P os c.options.nonce env.rand name secret expiry w.mem)
      else if use_fallback c
      then then_clean env w (
          with_context "failed to store secret in fallback"
            (encrypt_secret P os c.options.nonce env.io env.rand name secret expiry w.disk))
      else if c.connected
      then with_remote w check_stored (R.store (store_request c name secret opts) w.remote)
      else (err (errorf "not connected to server"), w)

  unfoldable pub store :
      Env → Client → Bytes → Bytes → List StoreOptsFn → World B R → Result (Unit {0}) × World B R
  store env c name secret funcs w = store_with env c name secret (apply_options funcs no_options) w

  abbrev pub check_granted : Result GetResponse → Result Bytes
  check_granted (err e) = err (wrap "getting secret" e)
  check_granted (ok (granted secret)) = ok secret
  check_granted (ok (denied e)) = err (wrap "server error" e)
  check_granted (ok panicked) = err (errorf "getting secret")

  unfoldable pub get : Env → Client → Bytes → World B R → Result Bytes × World B R
  get env c name w =
      if use_memory c
      then with_mem w (get_from_memory B P os c.options.nonce (env.now 0) name w.mem)
      else if use_fallback c
      then then_clean env w (decrypt_secret P os c.options.nonce env.io (env.now 0) name w.disk)
      else if c.connected
      then with_remote w check_granted
          (R.get (record { name = name; client_nonce = c.options.nonce }) w.remote)
      else (err (errorf "not connected to server"), w)

  unfoldable pub delete : Env → Client → Bytes → World B R → Result (Unit {0}) × World B R
  delete env c name w =
      if use_memory c
      then (ok tt, record w { mem = del B name w.mem })
      else if use_fallback c
      then then_clean env w (delete_fallback_secret P os env.io name w.disk)
      else (err (errorf "delete is only supported in fallback mode"), w)

  abbrev pub check_alive : Result Bool → Result (Unit {0})
  check_alive (err e) = err (wrap "pinging server" e)
  check_alive (ok true) = ok tt
  check_alive (ok false) = err (errorf "server not alive")

  unfoldable pub ping : Client → World B R → Result (Unit {0}) × World B R
  ping c w =
      if use_fallback c
      then (ok tt, w)
      else if c.connected
      then with_remote w check_alive (R.ping w.remote)
      else (err (errorf "not connected to server"), w)
