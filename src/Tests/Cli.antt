-- ===== src/Tests/Cli.antt =====
-- Two runs of the command line program where nothing listens.
use burnafter.Prelude.{◌*◌, ◌≡◌, refl, false, none, [], ◌∷◌, arith, replicate}
use burnafter.Bytes.{codes}
use burnafter.Clock.{second}
use burnafter.Int.{pos}
use burnafter.GoMap.{lookup}
use burnafter.Storage.Memory.{memory_storage}
use burnafter.Client.{World}
use burnafter.Client.Connect.{Attempt}
use burnafter.Cli.{main, success, stored_line, secret_line}
use burnafter.Cli.Number.{format_int}
use burnafter.Cli.Sessions.{main-main}
use burnafter.Tests.Toy.{toy, toy-IsSound, zeros-IsReader}
use burnafter.Tests.World.{machine}
use burnafter.Tests.Files.{
  name, secret, path, tmp, located_path, hash_app, hashed_app, smooth-Succeeds,
}
use burnafter.Tests.Client.{silent, world, env_at}

abbrev attempt : Attempt memory_storage
attempt = record { keyring = none; running = λ i. false; dial_error = none; launch_error = none }

main-main_example :
    (w' : World memory_storage silent) × (main memory_storage silent toy machine attempt false
        (env_at 500)
        []
        false
        (codes "store" ∷ name ∷ secret ∷ format_int (pos 3600) ∷ [])
        world
      ≡ (success (stored_line name), w'))
    × ((main memory_storage silent toy machine attempt false
          (env_at 1000)
          []
          false
          (codes "get" ∷ name ∷ [])
          w').0
        ≡ success (secret_line secret))
main-main_example =
    main-main memory_storage silent toy machine toy-IsSound hash_app hashed_app attempt attempt
      false false (env_at 500) (env_at 1000) [] false name secret (replicate 12 0) path tmp 3600
      (500 * second) (500 * second) (1000 * second) world (λ i. refl) (λ i. refl) (omega arith)
      (omega arith) zeros-IsReader refl located_path refl refl refl (omega arith) (omega arith)
      (omega arith) smooth-Succeeds (unfold lookup in refl) tt refl
