-- ===== src/Tests/Client.antt =====
-- The client's theorems, in each of its modes.
use burnafter.Prelude.{
  ℕ, ◌+◌, ◌/◌, ◌*◌, ◌≡◌, ◌||◌, refl, [], ◌∷◌, arith, replicate, some, none, true, false, ◌==◌, List,
}
use burnafter.Clock.{Time, unix, second, unix-from_unix}
use burnafter.Int.{pos, floor_div}
use burnafter.GoMap.{lookup}
use burnafter.Bytes.{Bytes}
use burnafter.Fallback.TempDir.{file, owner_only}
use burnafter.Result.{ok}
use burnafter.Options
use burnafter.Options.{
  with_absolute_expiration, apply_options, no_options, StoreOptsFn, default_client,
}
use burnafter.Storage.Memory.{memory_storage, memory_storage-IsReliable}
use burnafter.Fallback.{is_expired}
use burnafter.Memory.{new_heap_store}
use burnafter.Server.Store.{absolute_expiry}
use burnafter.Client.{Remote, Client, World, Env, store_expiry, use_fallback, store, get}
use burnafter.Client.Connect.{
  Attempt, connect_server, connect_usable, server_start_failed_error, wait, dial,
}
use burnafter.Client.Modes.{absolute_expiry_differs, store-connect_server, get-store_by_memory}
use burnafter.Client.Files.{get-store_by_files}
use burnafter.Client.Daemon.{served}
use burnafter.Tests.Toy.{toy, toy-IsSound, zeros, zeros-IsReader}
use burnafter.Tests.World.{machine, call_at, fresh}
use burnafter.Tests.Files.{
  name, secret, path, tmp, located_path, hash_app, hashed_app, smooth, smooth-Succeeds,
}

-- A connection to a server, for the client of process 7.
abbrev pub silent : Remote
silent = served memory_storage toy machine (λ i. call_at 7 i)

abbrev pub world : World memory_storage silent
world = record { mem = new_heap_store memory_storage; disk = []; remote = (0, fresh) }

abbrev pub env_at : ℕ → Env
env_at t = record { io = smooth; io_cleanup = smooth; rand = zeros; now = λ i. pos (t * second) }

abbrev pub until_1000 : List StoreOptsFn
until_1000 = with_absolute_expiration (pos 1000) ∷ []

abbrev pub opts_1000 : Options.Store
opts_1000 = record { ttl_seconds = pos 0; absolute_expiration_seconds = pos 1000 }

pub applied : apply_options until_1000 no_options ≡ ok opts_1000
unfolding apply_options with_absolute_expiration
applied = refl

dated : (o : Options.Client) → unix (store_expiry o opts_1000 (pos (500 * second))) ≡ pos 1000
unfolding store_expiry
dated o = unix-from_unix (pos 1000)

current : is_expired (pos (500 * second)) (pos 1000) ≡ false
unfolding unix floor_div
current = refl

abbrev in_memory_client : Client
in_memory_client = record {
  options = record default_client { in_memory = true };
  connected = false;
  server_start_failed = false;
  has_launcher = false;
}

abbrev files_client : Client
files_client = record {
  options = record default_client { no_server = true };
  connected = false;
  server_start_failed = false;
  has_launcher = false;
}

abbrev strict_client : Client
strict_client = record {
  options = record default_client { no_fallback_mode = true };
  connected = false;
  server_start_failed = false;
  has_launcher = false;
}

abbrev pub connected_client : Client
connected_client = record {
  options = default_client;
  connected = true;
  server_start_failed = false;
  has_launcher = true;
}

absolute_expiry_differs_example :
    (unix (store_expiry default_client opts_1000 (pos 0)) ≡ pos 1000)
    × (deadline : Time) × (absolute_expiry (pos 1000) (pos (500 * second)) ≡ some deadline)
    × (unix deadline ≡ pos (500 * second / second + 1000))
absolute_expiry_differs_example =
    absolute_expiry_differs default_client (pos 0) 1000 (500 * second) (pos 0) (omega arith)
      (omega arith)

get-store_by_memory_example :
    ((store memory_storage silent toy machine
        (env_at 500)
        in_memory_client
        name
        secret
        until_1000
        world).0
      ≡ ok tt)
    × (get memory_storage silent toy machine
          (env_at 500)
          in_memory_client
          name
          (store memory_storage silent toy machine
            (env_at 500)
            in_memory_client
            name
            secret
            until_1000
            world).1
        ≡ (
          ok secret,
          (store memory_storage silent toy machine
              (env_at 500)
              in_memory_client
              name
              secret
              until_1000
              world).1,
        ))
get-store_by_memory_example =
    get-store_by_memory memory_storage silent toy machine memory_storage-IsReliable toy-IsSound
      hash_app hashed_app in_memory_client (env_at 500) (env_at 500) name secret (replicate 12 0)
      until_1000 opts_1000 1000 world refl applied zeros-IsReader refl
      (dated in_memory_client.options) (omega arith) current

get-store_by_files_example :
    ((store memory_storage silent toy machine
        (env_at 500)
        files_client
        name
        secret
        until_1000
        world).0
      ≡ ok tt)
    × ((get memory_storage silent toy machine
          (env_at 500)
          files_client
          name
          (store memory_storage silent toy machine
            (env_at 500)
            files_client
            name
            secret
            until_1000
            world).1).0
        ≡ ok secret)
get-store_by_files_example =
    get-store_by_files memory_storage silent toy machine toy-IsSound hash_app hashed_app
      files_client (env_at 500) (env_at 500) name secret (replicate 12 0) path tmp until_1000
      opts_1000 1000 world refl refl applied zeros-IsReader refl located_path
      (dated files_client.options) (omega arith) smooth-Succeeds (unfold lookup in refl) tt refl
      current current

-- Nothing listens, and nothing can be launched.
abbrev attempt : Attempt memory_storage
attempt = record { keyring = none; running = λ i. false; dial_error = none; launch_error = none }

store-connect_server_example :
    let (e, c') = connect_server memory_storage attempt strict_client in
    let (r, w') =
      store memory_storage silent toy machine (env_at 500) c' name secret until_1000 world in
    (e ≡ some server_start_failed_error)
    × (r ≡ ok tt)
    × ((b : Bytes) × (lookup path w'.disk ≡ some (file owner_only b)))
    × ((get memory_storage silent toy machine (env_at 500) c' name w').0 ≡ ok secret)
store-connect_server_example =
    store-connect_server memory_storage silent toy machine toy-IsSound hash_app hashed_app attempt
      strict_client (env_at 500) (env_at 500) name secret (replicate 12 0) path tmp until_1000
      opts_1000 1000 world refl refl refl refl refl applied zeros-IsReader refl located_path
      (dated strict_client.options) (omega arith) smooth-Succeeds (unfold lookup in refl) tt refl
      current current

abbrev launching_client : Client
launching_client = record connected_client { connected = false }

-- The server answers the third probe.
abbrev slow_start : Attempt memory_storage
slow_start = record attempt { running = λ i. i == 2 }

launched : (connect_server memory_storage slow_start launching_client).0 ≡ none
unfolding connect_server wait dial
launched = refl

connect_usable_example :
    (use_fallback (connect_server memory_storage slow_start launching_client).1
      || (connect_server memory_storage slow_start launching_client).1.connected)
    ≡ true
connect_usable_example = connect_usable memory_storage slow_start launching_client launched
