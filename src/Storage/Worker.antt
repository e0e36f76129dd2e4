-- ===== src/Storage/Worker.antt =====
-- internal/secrets/keyring.go: the worker goroutine and its callers, interleaved in any order, one call of
-- the kernel at a time. The channel of requests has no buffer, that of a response has room for it.
pub mod Answers
pub mod Invariant
pub mod Serial
pub mod Thread
use burnafter.Prelude.{ℕ, ◌≡◌, Option, none, some, List, [], ◌∷◌, ◌==◌, if◌then◌else◌}
use burnafter.Bytes.{Bytes}
use burnafter.Result.{Error, errorf}
use burnafter.Storage.{Payload, Fetched, failed}
use burnafter.Storage.Keyring.{Kernel, Gob, added_key, unlinked_key, decoded}

-- `keyringRequest`, by its `op`
pub data Request : Type 0 where
  storing : Bytes → Payload → Request
  getting : Bytes → Request
  deleting : Bytes → Request

-- `keyringResponse`
pub data Response : Type 0 where
  outcome : Option Error → Response
  fetched : Fetched → Response

-- A call of `Store`, `Get` or `Delete`: not begun, at its send, at its receive, returned.
pub data Caller : Type 0 where
  idle : Caller
  sending : Request → Caller
  receiving : Request → Caller
  returned : Request → Response → Caller

abbrev pub update {ℓ} : {A : Type ℓ} → (ℕ → A) → ℕ → A → ℕ → A
update f i c j = if i == j then c else f j

module _ (K : Kernel) (G : Gob) where
  -- What is left to do on the thread: a call of the kernel, with its effect on the keyring and what
  -- follows on the keyring as it was, or the response.
  pub data Task : Type 0 where
    done : Response → Task
    system_call : (K.State → K.State) → (K.State → Task) → Task

  -- A call that only reads.
  abbrev pub reads : (K.State → Task) → Task
  reads next = system_call (λ s. s) next

  -- `storeOnThread`: search, unlink what is there, add.
  abbrev pub add_task : Bytes → Bytes → Task
  add_task id buf =
      system_call (λ s. (K.add_key id buf s).1)
        (λ s. done (outcome (added_key K G (K.add_key id buf s)).0))

  abbrev pub replace_task : Bytes → Bytes → Option ℕ → Task
  replace_task id buf none = add_task id buf
  replace_task id buf (some key) = system_call (λ s. (K.unlink key s).1) (λ s. add_task id buf)

  abbrev pub store_task : Bytes → Option Bytes → Task
  store_task id none = done (outcome (some (errorf "failed to encode the secret payload")))
  store_task id (some buf) = reads (λ s. replace_task id buf (K.search id s))

  -- `getOnThread`: search, ask for the size, read.
  abbrev pub decode_read : Option Bytes → Fetched
  decode_read none = failed (errorf "failed to read key from keyring")
  decode_read (some buf) = decoded K G (G.decode buf)

  abbrev pub read_task : ℕ → Option ℕ → Task
  read_task key none = done (fetched (failed (errorf "getting key size")))
  read_task key (some size) = reads (λ s. done (fetched (decode_read (K.read key size s))))

  abbrev pub get_task : Option ℕ → Task
  get_task none = done (fetched (failed (errorf "looking up secret in keyring")))
  get_task (some key) = reads (λ s. read_task key (K.size key s))

  -- `deleteOnThread`: search, unlink.
  abbrev pub delete_task : Option ℕ → Task
  delete_task none = done (outcome none)
  delete_task (some key) =
      system_call (λ s. (K.unlink key s).1)
        (λ s. done (outcome (unlinked_key K G (K.unlink key s)).0))

  -- The `switch` of the worker
  abbrev pub task : Request → Task
  task (storing id payload) = store_task id (G.encode payload)
  task (getting id) = reads (λ s. get_task (K.search id s))
  task (deleting id) = reads (λ s. delete_task (K.search id s))

  -- The worker: at its receive from the channel of requests, or on its thread for a caller.
  pub data Work : Type 0 where
    waiting : Work
    working : ℕ → Request → Task → Work

  -- `channels` are those of the responses, by caller.
  pub record System : Type 0 where
    pub keyring : K.State
    pub worker : Work
    pub callers : ℕ → Caller
    pub channels : ℕ → Option Response

  abbrev pub begin : K.State → System
  begin s = record { keyring = s; worker = waiting; callers = λ i. idle; channels = λ i. none }

  -- A step. The requests that the worker has answered, the last one first, are an index.
  pub data Move (h : List (ℕ × Request)) (y : System) : List (ℕ × Request) → System → Type 0 where
    call :
        (i : ℕ) (r : Request)
        → y.callers i ≡ idle
        → Move h y h (record y { callers = update y.callers i (sending r) })
    hand_over :
        (i : ℕ) (r : Request)
        → y.callers i ≡ sending r
        → y.worker ≡ waiting
        → Move h y h
            (record y { worker = working i r (task r); callers = update y.callers i (receiving r) })
    system_called :
        (i : ℕ) (r : Request) (effect : K.State → K.State) (next : K.State → Task)
        → y.worker ≡ working i r (system_call effect next)
        → Move h y h
            (record y { keyring = effect y.keyring; worker = working i r (next y.keyring) })
    reply :
        (i : ℕ) (r : Request) (response : Response)
        → y.worker ≡ working i r (done response)
        → Move h y
            ((i, r) ∷ h)
            (record y { worker = waiting; channels = update y.channels i (some response) })
    receive :
        (i : ℕ) (r : Request) (response : Response)
        → y.callers i ≡ receiving r
        → y.channels i ≡ some response
        → Move h y h (record y {
          callers = update y.callers i (returned r response);
          channels = update y.channels i none;
        })

  pub data Onward (h : List (ℕ × Request)) (y : System) : List (ℕ × Request) → System → Type 0 where
    still : Onward h y h y
    moves :
        {k k' : List (ℕ × Request)} {x x' : System}
        → Onward h y k x
        → Move k x k' x'
        → Onward h y k' x'

  -- From the start of the worker on
  abbrev pub Reach : K.State → List (ℕ × Request) → System → Type 0
  Reach s h y = Onward [] (begin s) h y
