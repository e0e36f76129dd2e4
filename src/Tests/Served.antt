-- ===== src/Tests/Served.antt =====
-- Two runs of the command line program on one server.
use burnafter.Prelude.{◌≡◌, refl, true, false, none, [], ◌∷◌, arith, replicate}
use burnafter.Bytes.{codes}
use burnafter.Clock.{add, seconds}
use burnafter.Int.{pos, ◌*ℤ◌, ◌+ℤ◌, wrap64}
use burnafter.GoMap.{lookup}
use burnafter.Storage.Memory.{memory_storage, memory_storage-IsReliable}
use burnafter.Server.{Server, StoreRequest}
use burnafter.Server.Store
use burnafter.Server.Store.{exceeds_limits, metadata_of, inactivity_ttl, absolute_expiry}
use burnafter.Server.Frame.{done}
use burnafter.Client.{World, store_request}
use burnafter.Client.Connect.{Attempt}
use burnafter.Cli.{main, success, stored_line, secret_line}
use burnafter.Cli.Number.{format_int}
use burnafter.Cli.Served.{IsServing, client_of, main-main_by_server}
use burnafter.Tests.Toy.{toy, toy-IsSound, zeros-IsReader}
use burnafter.Tests.World.{machine, call_at, fresh, hash_7, identify_7}
use burnafter.Tests.Files.{name, secret}
use burnafter.Tests.Client.{silent, world, env_at, opts_1000}
use burnafter.Tests.Daemon.{kept, active, early}

abbrev listening : Attempt memory_storage
listening = record { keyring = none; running = λ i. true; dial_error = none; launch_error = none }

listening-IsServing : IsServing memory_storage listening
listening-IsServing = record { listening = refl; made = refl }

abbrev request : StoreRequest
request = store_request (client_of toy machine [] false) name secret opts_1000

metadata_kept : metadata_of fresh.options request (pos 0) (pos 0) ≡ kept
unfolding metadata_of inactivity_ttl absolute_expiry seconds wrap64 ◌*ℤ◌ add ◌+ℤ◌
metadata_kept = refl

admitted : exceeds_limits fresh.options request fresh.secrets ≡ none
unfolding exceeds_limits lookup
admitted = refl

abbrev after_store : Server memory_storage
after_store = (Store.store memory_storage toy machine (call_at 7 0) request fresh).1

abbrev after_world : World memory_storage silent
after_world = record world { remote = (1, after_store) }

main-main_by_server_example :
    let first =
      main memory_storage silent toy machine listening false
        (env_at 500)
        []
        false
        (codes "store" ∷ name ∷ secret ∷ format_int (pos 0) ∷ format_int (pos 1000) ∷ [])
        world in
    (first.0 ≡ success (stored_line name))
    × (first.1.remote ≡ (1, after_store))
    × ((main memory_storage silent toy machine listening false
          (env_at 500)
          []
          false
          (codes "get" ∷ name ∷ [])
          after_world).0
        ≡ success (secret_line secret))
main-main_by_server_example =
    main-main_by_server memory_storage toy machine (λ i. call_at 7 i) memory_storage-IsReliable
      toy-IsSound listening listening false false (env_at 500) (env_at 500) [] false name secret
      (pos 0) (pos 1000) world after_world 0 1 fresh after_store hash_7 (replicate 32 0)
      (replicate 12 0) listening-IsServing listening-IsServing (omega arith) (omega arith) refl refl
      (omega arith) identify_7 admitted refl zeros-IsReader refl done identify_7
      (rw metadata_kept active) (rw metadata_kept early)
