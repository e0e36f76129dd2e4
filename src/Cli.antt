-- ===== src/Cli.antt =====
-- cmd/burnafter/main.go: the command line. A run of the program is a new client, on the files and the
-- server that the last one left.
pub mod Number
pub mod Sessions
pub mod Served
use burnafter.Prelude.{
  Bool, true, false, Option, none, some, List, [], ◌∷◌, if◌then◌else◌, drop, String,
}
use burnafter.Bytes.{Bytes, codes, bytes_eq}
use burnafter.Int.{ℤ, pos}
use burnafter.Crypto.{Primitives}
use burnafter.Options
use burnafter.Options.{default_client, with_ttl, with_absolute_expiration}
use burnafter.Result.{Error, errorf, wrap, Result, ok, err, context, ◌>>=◌}
use burnafter.Storage.{Storage}
use burnafter.Verify.{Machine}
use burnafter.Memory.{SecretStore, new_heap_store}
use burnafter.Client.{Remote, Client, World, Env, store, get, ping}
use burnafter.Client.Connect.{Attempt, connect}
use burnafter.Client.New.{new_client}
use burnafter.Cli.Number.{parse_int}

-- What a run prints on its standard output. `stored_line` is the message with the quoted name.
pub data Printed : Type 0 where
  stored_line : Bytes → Printed
  secret_line : Bytes → Printed
  alive_line : Printed

-- How a run ends: by exit code 0, or by exit code 1 with the usage or with an error.
pub data Exit : Type 0 where
  success : Printed → Exit
  usage : Exit
  failure : Error → Exit

-- An argument that may be left out.
abbrev pub optional_int : String → List Bytes → Result ℤ
optional_int msg [] = ok (pos 0)
optional_int msg (arg ∷ args) = context msg (parse_int arg)

pub record StoreArgs : Type 0 where
  pub name : Bytes
  pub secret : Bytes
  pub ttl : ℤ
  pub absolute_expiration : ℤ

unfoldable pub store_args : List Bytes → Result StoreArgs
store_args [] =
    err
      (errorf "usage: burnafter store <name> <secret> [ttl_seconds] [absolute_expiration_seconds]")
store_args (name ∷ []) =
    err
      (errorf "usage: burnafter store <name> <secret> [ttl_seconds] [absolute_expiration_seconds]")
store_args (name ∷ secret ∷ rest) = do
  ttl ← optional_int "invalid TTL" rest
  absolute_expiration ← optional_int "invalid absolute expiration" (drop 1 rest)
  ok (record { name = name; secret = secret; ttl = ttl; absolute_expiration = absolute_expiration })

-- The flags: `-socket` and `-debug`
unfoldable pub client_options : Bytes → Bool → Options.Client
client_options socket_path debug = record default_client {
  common = record default_client.common {
    socket_path =
        if bytes_eq socket_path [] then default_client.common.socket_path else socket_path;
    debug = debug;
  };
}

module _ (B : Storage) (R : Remote) (P : Primitives) (os : Machine) where
  -- `NewClient`, `Connect`, and what follows if it gives no error
  abbrev pub after_connect {ℓ} :
      {A : Type ℓ}
      → World B R
      → String
      → ((Option Error × Client) × SecretStore B)
      → (Client → World B R → Result A × World B R)
      → Result A × World B R
  after_connect w msg ((some e, c), mem) k = (err (wrap msg e), record w { mem = mem })
  after_connect w msg ((none, c), mem) k = k c (record w { mem = mem })

  abbrev pub with_client {ℓ} :
      {A : Type ℓ}
      → Attempt B
      → Options.Client
      → World B R
      → String
      → (Client → World B R → Result A × World B R)
      → Result A × World B R
  with_client a opts w msg k =
      after_connect w msg (connect B a (new_client P os opts true) (new_heap_store B)) k

  abbrev pub reported {ℓ κ} :
      {A : Type ℓ} {C : Type κ} → String → (A → C) → Result A × World B R → Result C × World B R
  reported msg f (err e, w) = (err (wrap msg e), w)
  reported msg f (ok v, w) = (ok (f v), w)

  abbrev pub store_parsed :
      Attempt B → Env → Options.Client → Result StoreArgs → World B R → Result Printed × World B R
  store_parsed a env opts (err e) w = (err e, w)
  store_parsed a env opts (ok args) w = with_client a opts w "failed to connect" (λ c w'.
      reported "failed to store secret" (λ _. stored_line args.name)
        (store B R P os env c args.name args.secret
          (with_ttl args.ttl ∷ with_absolute_expiration args.absolute_expiration ∷ []) w'))

  unfoldable pub run_store :
      Attempt B → Env → Options.Client → List Bytes → World B R → Result Printed × World B R
  run_store a env opts args w = store_parsed a env opts (store_args args) w

  unfoldable pub run_get :
      Attempt B → Env → Options.Client → List Bytes → World B R → Result Printed × World B R
  run_get a env opts [] w = (err (errorf "usage: burnafter get <name>"), w)
  run_get a env opts (name ∷ args) w =
      with_client a opts w "failed to connect"
        (λ c w'. reported "failed to get secret" secret_line (get B R P os env c name w'))

  -- `running`: the probe before `Connect`
  unfoldable pub run_ping :
      Attempt B → Bool → Options.Client → World B R → Result Printed × World B R
  run_ping a running opts w =
      if running
      then with_client a opts w "error connecting to server"
          (λ c w'. reported "server ping failed" (λ _. alive_line) (ping B R P os c w'))
      else (err (errorf "server is not running"), w)

  abbrev pub exit_of : Result Printed × World B R → Exit × World B R
  exit_of (err e, w) = (failure e, w)
  exit_of (ok p, w) = (success p, w)

  -- The arguments that are left once the flags are read.
  unfoldable pub main :
      Attempt B
      → Bool
      → Env
      → (socket_path : Bytes) → (debug : Bool) → List Bytes
      → World B R
      → Exit × World B R
  main a running env socket_path debug [] w = (usage, w)
  main a running env socket_path debug (command ∷ args) w =
      let opts = client_options socket_path debug in
      if bytes_eq command (codes "store")
      then exit_of (run_store a env opts args w)
      else if bytes_eq command (codes "get")
      then exit_of (run_get a env opts args w)
      else if bytes_eq command (codes "ping")
      then exit_of (run_ping a running opts w)
      else (usage, w)
