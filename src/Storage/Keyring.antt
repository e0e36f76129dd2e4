-- ===== src/Storage/Keyring.antt =====
-- internal/secrets/keyring.go: the backend in the kernel's process keyring. The kernel and the `gob`
-- codec are parameters. The operations are those that the worker runs on its thread; the worker itself
-- is in `Storage.Worker`.
use burnafter.Prelude.{◌≡◌, refl, ℕ, Bool, true, false, Option, none, some, if◌then◌else◌}
use burnafter.Bytes.{Bytes}
use burnafter.Result.{Error, errorf, Result, ok, err, or_error, ◌>>=◌}
use burnafter.Storage.{Payload, Fetched, found, failed, Storage}

-- The calls on a keyring: search by description, read the size of a key's data and the data, unlink,
-- add. A `false` or a `none` is an error.
pub record Kernel : Type 1 where
  pub State : Type 0
  pub search : Bytes → State → Option ℕ
  pub size : ℕ → State → Option ℕ
  pub read : ℕ → ℕ → State → Option Bytes
  pub unlink : ℕ → State → Bool × State
  pub add_key : Bytes → Bytes → State → Bool × State

-- `gob.NewEncoder(…).Encode` and `gob.NewDecoder(…).Decode`
pub record Gob : Type 0 where
  pub encode : Payload → Option Bytes
  pub decode : Bytes → Option Payload

module _ (K : Kernel) (G : Gob) where
  abbrev pub decoded : Option Payload → Fetched
  decoded none = failed (errorf "decoding secret payload")
  decoded (some payload) = found payload

  abbrev pub read_key : ℕ → Option ℕ → K.State → Fetched
  read_key key none s = failed (errorf "getting key size")
  read_key key (some size) s = elim (K.read key size s) [
    | none ↦ failed (errorf "failed to read key from keyring")
    | some buf ↦ decoded (G.decode buf)
  ]

  unfoldable pub get_on_thread : Bytes → K.State → Fetched
  get_on_thread id s = elim (K.search id s) [
    | none ↦ failed (errorf "looking up secret in keyring")
    | some key ↦ read_key key (K.size key s) s
  ]

  -- An error of the unlinking is ignored.
  abbrev pub unlink_found : Option ℕ → K.State → K.State
  unlink_found none s = s
  unlink_found (some key) s = (K.unlink key s).1

  abbrev pub added_key : Bool × K.State → Option Error × K.State
  added_key (true, s) = (none, s)
  added_key (false, s) = (some (errorf "adding key to keyring"), s)

  abbrev pub store_encoded : Bytes → Option Bytes → K.State → Option Error × K.State
  store_encoded id none s = (some (errorf "failed to encode the secret payload"), s)
  store_encoded id (some buf) s = added_key (K.add_key id buf (unlink_found (K.search id s) s))

  unfoldable pub store_on_thread : Bytes → Payload → K.State → Option Error × K.State
  store_on_thread id secret s = store_encoded id (G.encode secret) s

  abbrev pub unlinked_key : Bool × K.State → Option Error × K.State
  unlinked_key (true, s) = (none, s)
  unlinked_key (false, s) = (some (errorf "unlinking key from keyring"), s)

  -- That there is no such key is not an error.
  unfoldable pub delete_on_thread : Bytes → K.State → Option Error × K.State
  delete_on_thread id s = elim (K.search id s) [
    | none ↦ (none, s)
    | some key ↦ unlinked_key (K.unlink key s)
  ]

  abbrev pub keyring_storage : Storage
  keyring_storage = record {
    State = K.State;
    store = store_on_thread;
    get = get_on_thread;
    delete = delete_on_thread;
  }

-- What the worker's start gets: the process keyring, and the setting of its permissions.
pub record Startup (K : Kernel) : Type 0 where
  pub keyring : Option K.State
  pub permitted : Bool

-- `initWorker`, with the keyring it leaves to the requests
unfoldable pub init_worker : {K : Kernel} → Startup K → Result K.State
init_worker start = do
  keyring ← or_error "failed to access/create process keyring" start.keyring
  if start.permitted then ok keyring else err (errorf "failed to set keyring permissions")

-- `NewKeyringStorage`, with what `workerOnce` and `errWorkerInit` hold: the outcome of the first call.
unfoldable pub new_keyring_storage :
    {K : Kernel} → Startup K → Option (Result K.State) → Result K.State × Option (Result K.State)
unfolding init_worker
new_keyring_storage start none = let outcome = init_worker start in (outcome, some outcome)
new_keyring_storage start (some outcome) = (outcome, some outcome)

-- The worker starts once: every later call has the outcome of the first, whatever has changed since.
new_keyring_storage_again :
    {K : Kernel} (start start' : Startup K) (once : Option (Result K.State))
    → let (outcome, once') = new_keyring_storage start once in
      new_keyring_storage start' once' ≡ (outcome, once')
unfolding new_keyring_storage
new_keyring_storage_again start start' none = refl
new_keyring_storage_again start start' (some outcome) = refl

-- keyring_other.go
abbrev pub no_keyring_storage : (K : Kernel) → Result K.State
no_keyring_storage K = err (errorf "kernel keyring storage is only supported on Linux")
