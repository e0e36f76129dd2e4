-- ===== src/Launch.antt =====
-- embedded/launch.go: starting the embedded server as a process of its own. The system calls, `gzip` and
-- `encoding/json` are parameters.
pub mod Binary
pub mod Extract
pub mod Tidy
pub mod Leak
pub mod Handover
pub mod Serve
use burnafter.Prelude.{
  ℕ, Bool, true, false, not, ◌&&◌, ◌||◌, Option, none, some, List, [], ◌∷◌, if◌then◌else◌,
}
use burnafter.Bytes.{Bytes, codes}
use burnafter.Int.{ℤ, pos, ltb_ℤ}
use burnafter.Options
use burnafter.Result.{Error, errorf, wrap, Result, ok, err, context}
use burnafter.Fallback.TempDir.{Disk, Io, remove}
use burnafter.Launch.Binary.{extract_server_binary_to_temp}

-- `encoding/json` on `options.Common`
pub record Json : Type 0 where
  pub marshal : Options.Common → Option Bytes
  pub unmarshal : Bytes → Option Options.Common

-- Where the process writes: the terminal, or `/dev/null`.
pub data Output : Type 0 where
  terminal null_device : Output

-- An `exec.Cmd` as it is started. `extra_file` is the descriptor that becomes number 3.
pub record Command : Type 0 where
  pub path : Bytes
  pub args : List Bytes
  pub environ : List Bytes
  pub setsid : Bool
  pub extra_file : Option ℤ
  pub output : Output

-- A `cmd.Start` that fails, and whether for want of permission.
pub record StartError : Type 0 where
  pub reason : Error
  pub permission : Bool

-- How the calls of one `Launch` come out, in its first attempt and in the second.
pub record Calls : Type 0 where
  pub memfd : Result ℤ
  pub new_file : Bool
  pub environ : List Bytes
  pub temp : Io
  pub temp_retry : Io
  pub dev_null : Bool
  pub dev_null_retry : Bool
  pub start : Option StartError
  pub start_retry : Option StartError

-- A command that is chosen, with `memFile != nil` and the temporary file.
pub record Chosen : Type 0 where
  pub exec_path : Bytes
  pub extra_file : Option ℤ
  pub from_memory : Bool
  pub temp_server_path : Option Bytes

-- A started process; its temporary file is removed after a delay.
pub record Process : Type 0 where
  pub command : Command
  pub temp_server_path : Option Bytes

abbrev pub remove_temp : Io → Option Bytes → Disk → Disk
remove_temp io none disk = disk
remove_temp io (some path) disk = remove io path disk

module _ (J : Json) (server_binary : Result Bytes) (c : Calls) where
  abbrev pub from_temp : Result Bytes × Disk → Result Chosen × Disk
  from_temp (err e, disk) = (err (wrap "failed to extract server binary" e), disk)
  from_temp (ok path, disk) = (
    ok (record {
      exec_path = path;
      extra_file = none;
      from_memory = false;
      temp_server_path = some path;
    }),
    disk,
  )

  abbrev pub from_memfd : ℤ → Chosen
  from_memfd fd = record {
    exec_path = codes "/proc/self/fd/3";
    extra_file = some fd;
    from_memory = true;
    temp_server_path = none;
  }

  -- Memory first, then a temporary file.
  abbrev pub choose : Result ℤ → Disk → Result Chosen × Disk
  choose (err e) disk = from_temp (extract_server_binary_to_temp c.temp server_binary disk)
  choose (ok memfd) disk =
      if ltb_ℤ memfd (pos 0)
      then (err (errorf "invalid memfd file descriptor"), disk)
      else if c.new_file
      then (ok (from_memfd memfd), disk)
      else from_temp (extract_server_binary_to_temp c.temp server_binary disk)

  abbrev pub command_for : Bool → Bytes → Chosen → Command
  command_for debug options_json chosen = record {
    path = chosen.exec_path;
    args = chosen.exec_path ∷ options_json ∷ [];
    environ = c.environ;
    setsid = true;
    extra_file = chosen.extra_file;
    output = if debug then terminal else null_device;
  }

  abbrev pub started : Bool → Bytes → Chosen → Process
  started debug options_json chosen = record {
    command = command_for debug options_json chosen;
    temp_server_path = chosen.temp_server_path;
  }

  abbrev pub start_retried :
      Bool → Bytes → Chosen → Option StartError → Disk → Result Process × Disk
  start_retried debug options_json chosen none disk = (ok (started debug options_json chosen), disk)
  start_retried debug options_json chosen (some e) disk = (
    err (wrap "failed to start server process" e.reason),
    remove_temp c.temp_retry chosen.temp_server_path disk,
  )

  -- The second attempt, from a temporary file.
  abbrev pub retry : Bool → Bytes → Result Chosen × Disk → Result Process × Disk
  retry debug options_json (err e, disk) = (err e, disk)
  retry debug options_json (ok chosen, disk) =
      if debug || c.dev_null_retry
      then start_retried debug options_json chosen c.start_retry disk
      else (err (errorf "failed to open /dev/null"), disk)

  abbrev pub start_chosen : Bool → Bytes → Chosen → Option StartError → Disk → Result Process × Disk
  start_chosen debug options_json chosen none disk = (ok (started debug options_json chosen), disk)
  start_chosen debug options_json chosen (some e) disk =
      let disk' = remove_temp c.temp chosen.temp_server_path disk in
      if chosen.from_memory && e.permission
      then retry debug options_json
          (from_temp (extract_server_binary_to_temp c.temp_retry server_binary disk'))
      else (err (wrap "failed to start server process" e.reason), disk')

  abbrev pub with_options : Bool → Option Bytes → Chosen → Disk → Result Process × Disk
  with_options debug none chosen disk = (err (errorf "failed to marshal options"), disk)
  with_options debug (some options_json) chosen disk =
      if debug || c.dev_null
      then start_chosen debug options_json chosen c.start disk
      else (err (errorf "failed to open /dev/null"), disk)

  abbrev pub launch_chosen : Options.Common → Result Chosen × Disk → Result Process × Disk
  launch_chosen opts (err e, disk) = (err e, disk)
  launch_chosen opts (ok chosen, disk) = with_options opts.debug (J.marshal opts) chosen disk

  unfoldable pub launch : Options.Client → Disk → Result Process × Disk
  launch opts disk = launch_chosen opts.common (choose c.memfd disk)

-- The goroutine that removes the temporary file, once its delay is over.
abbrev pub after_delay : Io → Process → Disk → Disk
after_delay io p disk = remove_temp io p.temp_server_path disk
