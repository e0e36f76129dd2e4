-- ===== src/Client/New.antt =====
-- client.go: a new client, and the path of its socket.
use burnafter.Prelude.{Bool, false, [], ◌++◌, if◌then◌else◌, take}
use burnafter.Bytes.{Bytes, codes, bytes_eq}
use burnafter.Crypto.{Primitives}
use burnafter.Options
use burnafter.Result.{Result, ok, err}
use burnafter.Verify.{Machine, get_current_binary_hash}
use burnafter.Client.{Client}

abbrev pub socket_path_for : Result Bytes → Bytes
socket_path_for (err e) = codes "/tmp/burnafter.sock"
socket_path_for (ok hash) = codes "/tmp/burnafter-" ++ take 16 hash ++ codes ".sock"

module _ (P : Primitives) (os : Machine) where
  unfoldable pub generate_socket_path : Bytes
  generate_socket_path = socket_path_for (get_current_binary_hash P os)

  abbrev pub with_socket_path : Options.Client → Options.Client
  with_socket_path opts =
      let path = opts.common.socket_path in
      record opts {
        common = record opts.common {
          socket_path = if bytes_eq path [] then generate_socket_path else path;
        };
      }

  -- Its store in memory is `new_heap_store`.
  unfoldable pub new_client : Options.Client → Bool → Client
  new_client opts has_launcher = record {
    options = with_socket_path opts;
    connected = false;
    server_start_failed = false;
    has_launcher = has_launcher;
  }
