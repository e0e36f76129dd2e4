-- ===== src/Launch/Serve.antt =====
-- cmd/burnafter-server/main.go: the server that a launched process becomes. Its logger is left out.
use burnafter.Prelude.{◌≡◌, ap, Option, some, List}
use burnafter.Bytes.{Bytes}
use burnafter.Clock.{Time}
use burnafter.Crypto.{Reader}
use burnafter.Options
use burnafter.Result.{Result, ok, context, ◌>>=◌}
use burnafter.Storage.{Storage}
use burnafter.Server
use burnafter.Server.{new_server}
use burnafter.Server.Lifecycle.{Life, run}
use burnafter.Server.Start.{choose_storage}
use burnafter.Fallback.TempDir.{Disk}
use burnafter.Launch.{Json, Calls, Process, launch}
use burnafter.Launch.Handover.{server_options, server_options-launch}

-- The fields that the server reads
abbrev pub server_fields : Options.Common → Server.Options
server_fields opts = record {
  socket_path = opts.socket_path;
  default_ttl = opts.default_ttl;
  inactivity_timeout = opts.inactivity_timeout;
  max_secrets = opts.max_secrets;
  max_secret_size = opts.max_secret_size;
}

module _ (K : Storage) (keyring : Option K.State) (rand : Reader) (now : Time) where
  -- `NewServer`, then `Run` up to `Serve`
  abbrev pub start_server : Options.Common → Result (Life (choose_storage K keyring).0)
  start_server opts = do
    s ← context "Failed to create server" (
        new_server (choose_storage K keyring).0 (server_fields opts) rand now
          (choose_storage K keyring).1)
    ok (run (choose_storage K keyring).0 s)

  unfoldable pub server_main : Json → List Bytes → Result (Life (choose_storage K keyring).0)
  server_main J args = do opts ← server_options J args; start_server opts

  -- Where `encoding/json` reads back what it wrote of the options, the process of a launch that
  -- succeeds, from memory or from a file, has arguments with which the server's `main` does what it
  -- does with the client's options: it makes a server with them and runs it.
  pub server_main-launch :
      (J : Json) (server_binary : Result Bytes) (c : Calls) (opts : Options.Client)
      (options_json : Bytes) (p : Process) (disk disk' : Disk)
      → J.marshal opts.common ≡ some options_json
      → J.unmarshal options_json ≡ some opts.common
      → launch J server_binary c opts disk ≡ (ok p, disk')
      → server_main J p.command.args ≡ start_server opts.common
  unfolding server_main
  server_main-launch J server_binary c opts options_json p disk disk' marshalled read ran =
      ap (λ r. r >>= start_server)
        (server_options-launch J server_binary c opts options_json p disk disk' marshalled read ran)
