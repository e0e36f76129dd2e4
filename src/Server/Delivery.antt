-- ===== src/Server/Delivery.antt =====
-- internal/server/store.go and get.go: `Store`, other events, and `Get`.
use burnafter.Prelude.{◌≡◌, false, none, some, ◌∙◌, ap}
use burnafter.Bytes.{Bytes}
use burnafter.Crypto.{Primitives, IsSound, IsReader}
use burnafter.Result.{ok}
use burnafter.Storage.{Storage, IsReliable, IsFaithful, IsReliable-IsFaithful}
use burnafter.Verify.{Machine}
use burnafter.Server.{
  Server, Call, StoreRequest, stored, granted, identify, is_inactive, is_past_deadline,
}
use burnafter.Server.Store.{exceeds_limits, metadata_of, store}
use burnafter.Server.Get.{get}
use burnafter.Server.Bounds.{IsBounded, store-IsBounded}
use burnafter.Server.RoundTrip.{request_for, store-Holds, stored-Holds, get_held}
use burnafter.Server.Frame.{Spared, Spared-HoldsIn}

module _ (B : Storage) (faithful : IsFaithful B) (P : Primitives) (sound : IsSound P) (os : Machine)
    (s : Server B) (bounded : IsBounded B s) (call : Call) (req : StoreRequest) where
  -- With sound primitives, a backend that keeps the storage interface but may fail, and a server
  -- within its bound: after a `Store` by an identified client that was answered with success and
  -- any events that spare the secret, a `Get` by a client with the same binary and nonce returns it
  -- while it has not expired.
  pub get-stored :
      (hash : Bytes) (t : Server B) (call' : Call)
      → identify P os call.peer ≡ ok hash
      → IsReader call.nonce_source
      → (store B P os call req s).0 ≡ stored
      → Spared B P os req.name
          (metadata_of s.options req (call.now 1) (call.now 2))
          (store B P os call req s).1
          t
      → identify P os call'.peer ≡ ok hash
      → is_inactive (metadata_of s.options req (call.now 1) (call.now 2)) (call'.now 2) ≡ false
      → is_past_deadline (metadata_of s.options req (call.now 1) (call.now 2)) (call'.now 1) ≡ false
      → (get B P os call' (request_for req) t).0 ≡ granted req.secret
  get-stored hash t call' client reads done spared client' active early =
      let (session, (p, h, opens)) =
        stored-Holds B P os sound faithful call req s hash client reads done in
      let (ht, bt) =
        Spared-HoldsIn B faithful req.name _ p s.session_id P os
          (store-IsBounded B P os call req s bounded) (record { holds = h; session = session })
          spared in
      ap (λ r. r.0) (get_held B P os call' (request_for req) t client' ht.holds active early)
      ∙ rw (ht.session, opens)

module _ (B : Storage) (reliable : IsReliable B) (P : Primitives) (sound : IsSound P) (os : Machine)
    (s : Server B) (bounded : IsBounded B s) (call : Call) (req : StoreRequest) where
  -- With sound primitives, a reliable backend, a server within its bound and a random source that
  -- answers, an admitted `Store` by an identified client succeeds. After any events that spare the
  -- secret, a `Get` by a client with the same binary and nonce, at times at which the secret has
  -- not expired, returns it.
  pub get-store :
      (hash salt nonce : Bytes) (t : Server B) (call' : Call)
      → identify P os call.peer ≡ ok hash
      → exceeds_limits s.options req s.secrets ≡ none
      → call.salt_source 32 ≡ some salt
      → IsReader call.nonce_source
      → call.nonce_source 12 ≡ some nonce
      → Spared B P os req.name
          (metadata_of s.options req (call.now 1) (call.now 2))
          (store B P os call req s).1
          t
      → identify P os call'.peer ≡ ok hash
      → is_inactive (metadata_of s.options req (call.now 1) (call.now 2)) (call'.now 2) ≡ false
      → is_past_deadline (metadata_of s.options req (call.now 1) (call.now 2)) (call'.now 1) ≡ false
      → ((store B P os call req s).0 ≡ stored)
        × ((get B P os call' (request_for req) t).0 ≡ granted req.secret)
  get-store hash salt nonce t call' client room salted reads nonced spared client' active early =
      let (done, _, _) =
        store-Holds B P os sound reliable call req s hash salt nonce client room salted reads
          nonced in
      (
        done,
        get-stored B (IsReliable-IsFaithful B reliable) P sound os s bounded call req hash t call'
            client reads done spared client' active early,
      )
