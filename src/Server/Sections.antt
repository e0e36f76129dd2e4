-- ===== src/Server/Sections.antt =====
-- internal/server: the handlers and the cleanup, many at once. Each runs in sections, between which any
-- other may run; `secretsMu` is held for a section that reads or writes the map of secrets, and by a tick
-- of the cleanup from its first entry to its last. The backend has its own lock.
pub mod Sources
pub mod Traced
pub mod Provenance
pub mod Lost
pub mod Delivery
use burnafter.Prelude.{
  ℕ, ◌≡◌, Bool, true, false, ◌||◌, Option, none, some, List, [], ◌∷◌, ◌==◌, if◌then◌else◌,
}
use burnafter.Bytes.{Bytes}
use burnafter.GoMap.{GoMap, lookup, erase}
use burnafter.Clock.{Time}
use burnafter.Result.{Error, Result, ok, err}
use burnafter.Crypto.{Primitives, IsReader}
use burnafter.Storage.{Payload, Metadata, Storage}
use burnafter.Verify.{Machine}
use burnafter.Server.{
  Server, Call, StoreRequest, GetRequest, GetResponse, identify, update_activity, is_inactive,
  is_past_deadline, expire,
}
use burnafter.Server.Store.{prepare, commit, metadata_of}
use burnafter.Server.Get.{answer_fetched, touch}

-- Where the goroutine of a request is: it has none; `Store` before the call of the backend, and before
-- its last section; `Get` before it reads the backend, and before it deletes what has expired.
pub data Handler : Type 0 where
  idle : Handler
  keeping : Call → StoreRequest → Payload → Handler
  recording : Call → StoreRequest → Option Error → Handler
  reading : Call → GetRequest → Bytes → Handler
  deleting : Bytes → Handler

-- What is remembered of a run: the payloads that were made for the backend, and the answers of `Get`
-- from what it read there.
pub data Entry : Type 0 where
  made : Call → StoreRequest → Payload → Entry
  answered : Call → GetRequest → GetResponse → Entry

abbrev pub set_at {ℓ} : {A : Type ℓ} → (ℕ → A) → ℕ → A → ℕ → A
set_at f i a j = if i == j then a else f j

module _ (B : Storage) where
  -- `sweeping`: the cleanup has the lock, with its reading of the clock and the entries left.
  pub record System : Type 0 where
    pub server : Server B
    pub sweeping : Option (Time × GoMap Metadata)
    pub handlers : ℕ → Handler

  abbrev pub begin : Server B → System
  begin s = record { server = s; sweeping = none; handlers = λ i. idle }

  -- The state once handler `i` has run a section.
  abbrev pub moved : System → ℕ → Handler → Server B → System
  moved y i handler s = record y { server = s; handlers = set_at y.handlers i handler }

  module _ (P : Primitives) (os : Machine) where
    -- `Store` up to the call of the backend, with the reading of the map.
    abbrev pub prepare_at : System → Call → StoreRequest → Result Payload
    prepare_at y call req = prepare B P os call req (update_activity B (call.now 0) y.server)

    abbrev pub record_metadata : Call → StoreRequest → Option Error → Server B → Server B
    record_metadata call req outcome s =
        (commit B req.name (metadata_of s.options req (call.now 1) (call.now 2))
          (outcome, s.storage) s).1

    -- The test under the lock in `Get`.
    abbrev pub has_expired : Call → Metadata → Bool
    has_expired call m = is_inactive m (call.now 2) || is_past_deadline m (call.now 1)

    -- The states that are reached from another, with what is remembered, the last first. A random source that
    -- answers has filled the buffer.
    pub data Reach (x : System) : List Entry → System → Type 0 where
      start : Reach x [] x
      store_refused :
          {h : List Entry} {y : System} (call : Call) (req : StoreRequest) (e : Error)
          → Reach x h y
          → prepare_at y call req ≡ err e
          → Reach x h (record y { server = update_activity B (call.now 0) y.server })
      store_begins :
          {h : List Entry} {y : System} (i : ℕ) (call : Call) (req : StoreRequest) (p : Payload)
          → Reach x h y
          → y.handlers i ≡ idle
          → y.sweeping ≡ none
          → IsReader call.nonce_source
          → prepare_at y call req ≡ ok p
          → Reach x
              (made call req p ∷ h)
              (moved y i (keeping call req p) (update_activity B (call.now 0) y.server))
      keeps :
          {h : List Entry} {y : System} (i : ℕ) (call : Call) (req : StoreRequest) (p : Payload)
          → Reach x h y
          → y.handlers i ≡ keeping call req p
          → Reach x h (
              moved y i
                (recording call req (B.store req.name p y.server.storage).0)
                (record y.server { storage = (B.store req.name p y.server.storage).1 }))
      records :
          {h : List Entry} {y : System} (i : ℕ) (call : Call) (req : StoreRequest)
          (outcome : Option Error)
          → Reach x h y
          → y.handlers i ≡ recording call req outcome
          → y.sweeping ≡ none
          → Reach x h (moved y i idle (record_metadata call req outcome y.server))
      get_unidentified :
          {h : List Entry} {y : System} (call : Call) (e : Error)
          → Reach x h y
          → identify P os call.peer ≡ err e
          → Reach x h (record y { server = update_activity B (call.now 0) y.server })
      get_unknown :
          {h : List Entry} {y : System} (call : Call) (req : GetRequest) (hash : Bytes)
          → Reach x h y
          → y.sweeping ≡ none
          → identify P os call.peer ≡ ok hash
          → lookup req.name y.server.secrets ≡ none
          → Reach x h (record y { server = update_activity B (call.now 0) y.server })
      get_expires :
          {h : List Entry} {y : System} (i : ℕ) (call : Call) (req : GetRequest) (hash : Bytes)
          (m : Metadata)
          → Reach x h y
          → y.handlers i ≡ idle
          → y.sweeping ≡ none
          → identify P os call.peer ≡ ok hash
          → lookup req.name y.server.secrets ≡ some m
          → has_expired call m ≡ true
          → Reach x h (
              moved y i (deleting req.name) (record (update_activity B (call.now 0) y.server) {
                secrets = erase req.name y.server.secrets;
              }))
      deletes :
          {h : List Entry} {y : System} (i : ℕ) (name : Bytes)
          → Reach x h y
          → y.handlers i ≡ deleting name
          → Reach x h
              (moved y i idle (record y.server { storage = (B.delete name y.server.storage).1 }))
      get_touches :
          {h : List Entry} {y : System} (i : ℕ) (call : Call) (req : GetRequest) (hash : Bytes)
          (m : Metadata)
          → Reach x h y
          → y.handlers i ≡ idle
          → y.sweeping ≡ none
          → identify P os call.peer ≡ ok hash
          → lookup req.name y.server.secrets ≡ some m
          → has_expired call m ≡ false
          → Reach x h (
              moved y i
                (reading call req hash)
                (touch B req.name m (call.now 3) (update_activity B (call.now 0) y.server)))
      reads :
          {h : List Entry} {y : System} (i : ℕ) (call : Call) (req : GetRequest) (hash : Bytes)
          → Reach x h y
          → y.handlers i ≡ reading call req hash
          → Reach x
              (answered call req
                  (answer_fetched P hash req y.server.session_id (B.get req.name y.server.storage))
                ∷ h)
              (moved y i idle y.server)
      pings :
          {h : List Entry} {y : System} (now : Time)
          → Reach x h y
          → Reach x h (record y { server = update_activity B now y.server })
      sweep_begins :
          {h : List Entry} {y : System} (now : Time)
          → Reach x h y
          → y.sweeping ≡ none
          → Reach x h (record y { sweeping = some (now, y.server.secrets) })
      sweep_visits :
          {h : List Entry} {y : System} (now since_now : Time) (name : Bytes) (m : Metadata)
          (rest : GoMap Metadata)
          → Reach x h y
          → y.sweeping ≡ some (now, (name, m) ∷ rest)
          → Reach x h (record y {
            server =
                if is_inactive m since_now || is_past_deadline m now
                then expire B name y.server
                else y.server;
            sweeping = some (now, rest);
          })
      sweep_ends :
          {h : List Entry} {y : System} (now : Time)
          → Reach x h y
          → y.sweeping ≡ some (now, [])
          → Reach x h (record y { sweeping = none })
