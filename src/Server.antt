-- ===== src/Server.antt =====
-- internal/server/server.go: the state of the daemon. The handlers are in the modules `Store`, `Get`
-- and `Cleanup` below; each is a function from the state and what its environment gives it to the
-- reply and the new state. A handler runs there as one step; `Sections` has it section by section,
-- among others.
pub mod Store
pub mod Get
pub mod Cleanup
pub mod Step
pub mod Bounds
pub mod RoundTrip
pub mod Sweep
pub mod Frame
pub mod Delivery
pub mod Expiry
pub mod Access
pub mod Refused
pub mod Race
pub mod Between
pub mod Lifecycle
pub mod Shutdown
pub mod Swept
pub mod Entries
pub mod Quiet
pub mod Ending
pub mod Spec
pub mod Refines
pub mod Start
pub mod Sections
use burnafter.Prelude.{Bool, true, false, Option, none, some, List, [], if◌then◌else◌}
use burnafter.Bytes.{Bytes}
use burnafter.Int.{ℤ, pos, ltb_ℤ}
use burnafter.GoMap.{GoMap, erase}
use burnafter.Clock.{Time, Duration, Readings, add, since, after}
use burnafter.Result.{Error, Result, ok, context, ◌>>=◌}
use burnafter.Crypto.{Primitives, Reader, generate_session_id}
use burnafter.Storage.{Metadata, Storage}
use burnafter.Verify.{Machine, get_client_binary_info}
use burnafter.Peer.{PeerContext, get_peer_auth_info}

-- options.Server: the fields that the server reads. `int` and `int64` values are integers.
pub record Options : Type 0 where
  pub socket_path : Bytes
  pub default_ttl : Duration
  pub inactivity_timeout : Duration
  pub max_secrets : ℤ
  pub max_secret_size : ℤ

pub record StoreRequest : Type 0 where
  pub name : Bytes
  pub secret : Bytes
  pub ttl_seconds : ℤ
  pub client_nonce : Bytes
  pub absolute_expiration_seconds : ℤ

pub record GetRequest : Type 0 where
  pub name : Bytes
  pub client_nonce : Bytes

-- `Success: true`, or `Success: false` with its error.
pub data StoreResponse : Type 0 where
  stored : StoreResponse
  not_stored : Error → StoreResponse

-- `panicked`: the handler dereferences a nil payload, and there is no response.
pub data GetResponse : Type 0 where
  granted : Bytes → GetResponse
  denied : Error → GetResponse
  panicked : GetResponse

-- What the environment gives one request: its peer, the readings of the clock, and the random source
-- at its two uses.
pub record Call : Type 0 where
  pub peer : PeerContext
  pub now : Readings
  pub salt_source : Reader
  pub nonce_source : Reader

-- `time.Since(metadata.LastAccessed) > metadata.InactivityTTL`
unfoldable pub is_inactive : Metadata → Time → Bool
is_inactive m now = ltb_ℤ m.inactivity_ttl (since now m.last_accessed)

-- `metadata.AbsoluteExpiresAt != nil && now.After(*metadata.AbsoluteExpiresAt)`
unfoldable pub is_past_deadline : Metadata → Time → Bool
is_past_deadline m now = elim m.absolute_expires_at [ none ↦ false | some t ↦ after now t ]

-- The head of the handlers: the hash of the binary at the other end.
unfoldable pub identify : (P : Primitives) (os : Machine) → PeerContext → Result Bytes
identify P os peer = do
  auth_info ← context "failed to get client credentials" (get_peer_auth_info peer)
  (binary_path, client_hash) ←
      context "failed to verify client binary" (get_client_binary_info P os auth_info.pid)
  ok client_hash

module _ (B : Storage) where
  -- `inactivity_timer` is the time at which the timer fires, once `Run` has started it.
  pub record Server : Type 0 where
    pub options : Options
    pub secrets : GoMap Metadata
    pub storage : B.State
    pub session_id : Bytes
    pub last_activity : Time
    pub inactivity_timer : Option Time

  -- `NewServer`, once its storage backend is chosen
  unfoldable pub new_server : Options → Reader → Time → B.State → Result Server
  new_server options rand now storage = do
    session_id ← context "failed to generate session ID" (generate_session_id rand)
    ok (record {
      options = options;
      secrets = [];
      storage = storage;
      session_id = session_id;
      last_activity = now;
      inactivity_timer = none;
    })

  -- `Run` arms the timer if a timeout is set.
  unfoldable pub start_inactivity_monitor : Time → Server → Server
  start_inactivity_monitor now s =
      if ltb_ℤ (pos 0) s.options.inactivity_timeout
      then record s { inactivity_timer = some (add now s.options.inactivity_timeout) }
      else s

  abbrev pub reset_timer : Option Time → Time → Option Time
  reset_timer none t = none
  reset_timer (some _) t = some t

  unfoldable pub update_activity : Time → Server → Server
  update_activity now s = record s {
    last_activity = now;
    inactivity_timer = reset_timer s.inactivity_timer (add now s.options.inactivity_timeout);
  }

  -- `Ping` always answers `Alive: true`.
  unfoldable pub ping : Time → Server → Bool × Server
  unfolding update_activity
  ping now s = (true, update_activity now s)

  -- `delete(s.secrets, name)`, then the backend, whose error is ignored
  unfoldable pub expire : Bytes → Server → Server
  expire name s = record s { secrets = erase name s.secrets; storage = (B.delete name s.storage).1 }
