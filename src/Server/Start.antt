-- ===== src/Server/Start.antt =====
-- internal/server/server.go: `NewServer` with the storage that it chooses, and what the server then
-- keeps.
use burnafter.Prelude.{◌≡◌, false, Option, none, some, []}
use burnafter.Bytes.{Bytes}
use burnafter.Clock.{Time}
use burnafter.Int.{pos, ◌≤ℤ◌}
use burnafter.Crypto.{generate_session_id, Primitives, IsSound, Reader, IsReader}
use burnafter.Result.{Result, ok, err, context, ◌>>=◌}
use burnafter.Storage.{Storage, IsFaithful, IsReliable-IsFaithful}
use burnafter.Storage.Memory.{memory_storage, new_memory_storage, memory_storage-IsReliable}
use burnafter.Verify.{Machine}
use burnafter.Server.{
  Options, Server, Call, StoreRequest, stored, granted, identify, is_inactive, is_past_deadline,
  new_server,
}
use burnafter.Server.Store.{metadata_of, store}
use burnafter.Server.Get.{get}
use burnafter.Server.Bounds.{IsBounded, Reach-IsBounded}
use burnafter.Server.Delivery.{get-stored}
use burnafter.Server.Frame.{Spared}
use burnafter.Server.RoundTrip.{request_for}
use burnafter.Server.Step.{Reach}

-- The keyring if `NewKeyringStorage` gives one, and otherwise the memory of the process.
abbrev pub choose_storage : (K : Storage) → Option K.State → (B : Storage) × B.State
choose_storage K (some s) = (K, s)
choose_storage K none = (memory_storage, new_memory_storage)

choose_storage-IsFaithful :
    (K : Storage) (keyring : Option K.State)
    → IsFaithful K
    → IsFaithful (choose_storage K keyring).0
choose_storage-IsFaithful K (some s) f = f
choose_storage-IsFaithful K none f = IsReliable-IsFaithful memory_storage memory_storage-IsReliable

new_server-IsBounded :
    (B : Storage) (options : Options) (rand : Reader) (now : Time) (storage : B.State)
    (s : Server B)
    → pos 0 ≤ℤ options.max_secrets
    → new_server B options rand now storage ≡ ok s
    → IsBounded B s
unfolding new_server
new_server-IsBounded B options rand now storage s room made =
    from_session (context "failed to generate session ID" (generate_session_id rand)) made
  where
    from_session :
        (r : Result Bytes)
        → (r >>= (λ session_id. ok (record {
          options = options;
          secrets = [];
          storage = storage;
          session_id = session_id;
          last_activity = now;
          inactivity_timer = none;
        })))
          ≡ ok s
        → IsBounded B s
    from_session (err e) h = absurd (cc h)
    from_session (ok session_id) h =
        let same : s ≡ record {
          options = options;
          secrets = [];
          storage = storage;
          session_id = session_id;
          last_activity = now;
          inactivity_timer = none;
        } =
          cc h in
        rw same (record { nodup = tt; count = room })

module _ (K : Storage) (faithful : IsFaithful K) (P : Primitives) (sound : IsSound P)
    (os : Machine) where
  -- With sound primitives and a keyring that keeps the storage interface: whichever backend a new
  -- server has, the keyring or its own memory, and whatever it handled before, a secret whose
  -- `Store` was answered with success comes back. After any events that spare it, a `Get` by a
  -- client with the same binary and nonce returns it while it has not expired.
  get-new_server :
      (keyring : Option K.State) (options : Options) (rand : Reader) (now : Time)
      (begun s t : Server (choose_storage K keyring).0) (call call' : Call) (req : StoreRequest)
      (hash : Bytes)
      → pos 0 ≤ℤ options.max_secrets
      → new_server (choose_storage K keyring).0 options rand now (choose_storage K keyring).1
        ≡ ok begun
      → Reach (choose_storage K keyring).0 P os begun s
      → identify P os call.peer ≡ ok hash
      → IsReader call.nonce_source
      → (store (choose_storage K keyring).0 P os call req s).0 ≡ stored
      → Spared
          (choose_storage K keyring).0
          P
          os
          req.name
          (metadata_of s.options req (call.now 1) (call.now 2))
          (store (choose_storage K keyring).0 P os call req s).1
          t
      → identify P os call'.peer ≡ ok hash
      → is_inactive (metadata_of s.options req (call.now 1) (call.now 2)) (call'.now 2) ≡ false
      → is_past_deadline (metadata_of s.options req (call.now 1) (call.now 2)) (call'.now 1) ≡ false
      → (get (choose_storage K keyring).0 P os call' (request_for req) t).0 ≡ granted req.secret
  get-new_server keyring options rand now begun s t call call' req hash room made reached client
        reads done spared client' active early =
      get-stored (choose_storage K keyring).0 (choose_storage-IsFaithful K keyring faithful) P sound
        os s
        (Reach-IsBounded (choose_storage K keyring).0 P os
          (new_server-IsBounded (choose_storage K keyring).0 options rand now
            (choose_storage K keyring).1 begun room made)
          reached)
        call req hash t call' client reads done spared client' active early
