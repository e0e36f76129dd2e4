-- ===== src/Tests/Launch.antt =====
-- Launches on a machine that executes no memory file.
use burnafter.Prelude.{◌≡◌, refl, true, false, none, some, [], ◌∷◌}
use burnafter.Bytes.{Bytes, codes}
use burnafter.GoMap.{lookup, insert}
use burnafter.Int.{pos}
use burnafter.Options.{default_client, default_common}
use burnafter.Result.{Error, errorf, ok, err}
use burnafter.Fallback.TempDir.{file}
use burnafter.Fallback.Atomic.{IsFresh}
use burnafter.Launch.Binary.{executable, extract_server_binary_to_temp}
use burnafter.Launch.{Json, Calls, Process, launch, null_device}
use burnafter.Launch.Tidy.{settle, launch_tidy}
use burnafter.Launch.Leak.{launch_leaks}
use burnafter.Launch.Serve.{server_main, start_server, server_main-launch}
use burnafter.Storage.Memory.{memory_storage}
use burnafter.Tests.Toy.{zeros}
use burnafter.Tests.Files.{smooth, tmp}

-- It knows the default options only.
abbrev json : Json
json = record { marshal = λ opts. some (codes "{}"); unmarshal = λ b. some default_common }

abbrev binary : Bytes
binary = codes "ELF"

-- The first attempt is from memory, and is refused for want of permission.
abbrev blocked : Calls
blocked = record {
  memfd = ok (pos 5);
  new_file = true;
  environ = [];
  temp = smooth;
  temp_retry = smooth;
  dev_null = true;
  dev_null_retry = true;
  start = some (record { reason = errorf "permission denied"; permission = true });
  start_retry = none;
}

abbrev server_process : Process
server_process = record {
  command = record {
    path = tmp;
    args = tmp ∷ codes "{}" ∷ [];
    environ = [];
    setsid = true;
    extra_file = none;
    output = null_device;
  };
  temp_server_path = some tmp;
}

launched :
    launch json (ok binary) blocked default_client []
    ≡ (ok server_process, insert tmp (file executable binary) [])
unfolding launch extract_server_binary_to_temp
launched = refl

smooth-IsFresh : IsFresh smooth []
unfolding lookup
smooth-IsFresh = record { unused = λ t e. refl; removable = λ t e. refl }

launch_tidy_example :
    lookup tmp (settle smooth (launch json (ok binary) blocked default_client [])) ≡ lookup tmp []
launch_tidy_example =
    launch_tidy json (ok binary) blocked smooth default_client (codes "{}") [] tmp (λ path. refl)
      refl refl refl smooth-IsFresh smooth-IsFresh

-- No memory file, and no `/dev/null`.
abbrev closed : Calls
closed = record blocked { memfd = err (errorf "memfd_create failed"); dev_null = false }

launch_leaks_example :
    (reason : Error) × (launch json (ok binary) closed default_client []
      ≡ (err reason, insert tmp (file executable binary) []))
launch_leaks_example =
    launch_leaks json binary closed default_client tmp (errorf "memfd_create failed") [] refl refl
      refl refl refl

server_main-launch_example :
    server_main memory_storage none zeros (pos 0) json server_process.command.args
    ≡ start_server memory_storage none zeros (pos 0) default_common
server_main-launch_example =
    server_main-launch memory_storage none zeros (pos 0) json (ok binary) blocked default_client
      (codes "{}") server_process [] (insert tmp (file executable binary) []) refl refl launched
