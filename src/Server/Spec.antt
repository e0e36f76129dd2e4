-- ===== src/Server/Spec.antt =====
-- internal/server: what the daemon promises its clients, with no ciphertexts, salts, keys or backends.
use burnafter.GoMap.{GoMap, lookup, NodupKeys}
use burnafter.Int.{pos, ltb_ℤ}
use burnafter.Prelude.{
  length, ◌≡◌, Bool, true, false, ◌||◌, Option, none, some, List, [], ◌∷◌, if◌then◌else◌, ◌↔◌,
}
use burnafter.Bytes.{Bytes, bytes_eq}
use burnafter.Clock.{Time}
use burnafter.Result.{Error, errorf, ok, err}
use burnafter.Crypto.{Primitives}
use burnafter.Storage.{Metadata, Storage}
use burnafter.Verify.{Machine}
use burnafter.Server.{
  Options, Server, Call, StoreRequest, GetRequest, StoreResponse, stored, not_stored, GetResponse,
  granted, denied, identify, is_inactive, is_past_deadline, ping,
}
use burnafter.Server.Store.{metadata_of, store}
use burnafter.Server.Get.{get}
use burnafter.Server.Cleanup.{cleanup}
use burnafter.Server.Step.{Event, on_store, on_get, on_ping, on_tick, step}

-- A secret with the hash of the binary that stored it, and its nonce.
pub record Secret : Type 0 where
  pub hash : Bytes
  pub nonce : Bytes
  pub value : Bytes
  pub metadata : Metadata

-- The secrets by name.
abbrev pub Spec : Type 0
Spec = Bytes → Option Secret

abbrev pub listed : Option Secret → Option Metadata
listed none = none
listed (some x) = some x.metadata

abbrev pub put : Bytes → Option Secret → Spec → Spec
put name o a n = if bytes_eq name n then o else a n

abbrev pub accessed : Secret → Time → Secret
accessed x now = record x { metadata = record x.metadata { last_accessed = now } }

-- Whether a secret has expired, at the readings of `time.Since` and `time.Now`.
abbrev pub is_over : Metadata → (since_now now : Time) → Bool
is_over m since_now now = is_inactive m since_now || is_past_deadline m now

abbrev pub survivor : Time → (Bytes → Time) → Bytes → Option Secret → Option Secret
survivor now since_at n none = none
survivor now since_at n (some x) = if is_over x.metadata (since_at n) now then none else some x

abbrev pub swept : Time → (Bytes → Time) → Spec → Spec
swept now since_at a n = survivor now since_at n (a n)

-- A table of all the secrets, each once, has the size of the limit.
pub record IsFull (options : Options) (a : Spec) : Type 0 where
  pub table : GoMap Metadata
  pub distinct : NodupKeys table
  pub lists : (n : Bytes) → lookup n table ≡ listed (a n)
  pub full : ltb_ℤ (pos (length table)) options.max_secrets ≡ false

pub data Reply : Type 0 where
  of_store : StoreResponse → Reply
  of_get : GetResponse → Reply
  of_ping : Bool → Reply
  of_tick : Bool → Reply

module _ (P : Primitives) (os : Machine) (options : Options) where
  -- Why a `Store` may fail.
  pub data MayRefuse (a : Spec) (call : Call) (req : StoreRequest) : Type 0 where
    unknown_client : (e : Error) → identify P os call.peer ≡ err e → MayRefuse a call req
    too_large :
        ltb_ℤ options.max_secret_size (pos (length req.secret)) ≡ true → MayRefuse a call req
    no_room : a req.name ≡ none → IsFull options a → MayRefuse a call req
    no_salt : call.salt_source 32 ≡ none → MayRefuse a call req
    no_nonce : call.nonce_source 12 ≡ none → MayRefuse a call req

  -- What may be answered to an event, and the secrets after it. What a client with the right binary and
  -- another nonce is told is left open.
  pub data Allows (a : Spec) : Event → Reply → Spec → Type 0 where
    store_fails :
        (call : Call) (req : StoreRequest) (e : Error)
        → MayRefuse a call req
        → Allows a (on_store call req) (of_store (not_stored e)) a
    store_done :
        (call : Call) (req : StoreRequest) (hash : Bytes)
        → identify P os call.peer ≡ ok hash
        → Allows a (on_store call req) (of_store stored) (
            put req.name
              (some (record {
                hash = hash;
                nonce = req.client_nonce;
                value = req.secret;
                metadata = metadata_of options req (call.now 1) (call.now 2);
              }))
              a)
    get_unidentified :
        (call : Call) (req : GetRequest) (e : Error)
        → identify P os call.peer ≡ err e
        → Allows a (on_get call req) (of_get (denied e)) a
    get_unknown :
        (call : Call) (req : GetRequest) (hash : Bytes)
        → identify P os call.peer ≡ ok hash
        → a req.name ≡ none
        → Allows a (on_get call req) (of_get (denied (errorf "secret not found"))) a
    get_over :
        (call : Call) (req : GetRequest) (hash : Bytes) (x : Secret) (e : Error)
        → identify P os call.peer ≡ ok hash
        → a req.name ≡ some x
        → is_over x.metadata (call.now 2) (call.now 1) ≡ true
        → Allows a (on_get call req) (of_get (denied e)) (put req.name none a)
    get_foreign :
        (call : Call) (req : GetRequest) (hash : Bytes) (x : Secret)
        → identify P os call.peer ≡ ok hash
        → a req.name ≡ some x
        → is_over x.metadata (call.now 2) (call.now 1) ≡ false
        → bytes_eq x.hash hash ≡ false
        → Allows a
            (on_get call req)
            (of_get (denied (errorf "client binary hash mismatch - unauthorized")))
            (put req.name (some (accessed x (call.now 3))) a)
    get_own :
        (call : Call) (req : GetRequest) (x : Secret)
        → identify P os call.peer ≡ ok x.hash
        → a req.name ≡ some x
        → is_over x.metadata (call.now 2) (call.now 1) ≡ false
        → req.client_nonce ≡ x.nonce
        → Allows a
            (on_get call req)
            (of_get (granted x.value))
            (put req.name (some (accessed x (call.now 3))) a)
    get_other_nonce :
        (call : Call) (req : GetRequest) (x : Secret) (r : GetResponse)
        → identify P os call.peer ≡ ok x.hash
        → a req.name ≡ some x
        → is_over x.metadata (call.now 2) (call.now 1) ≡ false
        → bytes_eq req.client_nonce x.nonce ≡ false
        → Allows a (on_get call req) (of_get r) (put req.name (some (accessed x (call.now 3))) a)
    pinged : (now : Time) → Allows a (on_ping now) (of_ping true) a
    ticked :
        (now : Time) (since_at : Bytes → Time) (stop : Bool)
        → (stop ≡ true) ↔ ((n : Bytes) → swept now since_at a n ≡ none)
        → Allows a (on_tick now since_at) (of_tick stop) (swept now since_at a)

  -- The replies to a sequence of events, one after the other.
  pub data AllowsAll : Spec → List Event → List Reply → Type 0 where
    nothing : (a : Spec) → AllowsAll a [] []
    one_more :
        {a : Spec} {e : Event} {r : Reply} {b : Spec} {es : List Event} {rs : List Reply}
        → Allows a e r b
        → AllowsAll b es rs
        → AllowsAll a (e ∷ es) (r ∷ rs)

module _ (B : Storage) (P : Primitives) (os : Machine) where
  -- What the daemon answers.
  unfoldable pub reply : Event → Server B → Reply
  reply (on_store call req) s = of_store (store B P os call req s).0
  reply (on_get call req) s = of_get (get B P os call req s).0
  reply (on_ping now) s = of_ping (ping B now s).0
  reply (on_tick now since_at) s = of_tick (cleanup B now since_at s).0

  unfoldable pub replies : List Event → Server B → List Reply
  replies [] s = []
  replies (e ∷ es) s = reply e s ∷ replies es (step B P os e s)
