-- ===== src/Fallback/TempDir.antt =====
-- The temporary directory: its entries by name, and the calls of `os` that fallback.go makes on it.
use burnafter.Prelude.{ℕ, Bool, true, false, ◌&&◌, Option, none, some, if◌then◌else◌}
use burnafter.Bytes.{Bytes}
use burnafter.GoMap.{GoMap, lookup, insert, erase}
use burnafter.Result.{Result, ok, err, errorf}

-- A file has its permission bits and its contents.
pub data Node : Type 0 where
  file : ℕ → Bytes → Node
  directory : Node

abbrev pub Disk : Type 0
Disk = GoMap Node

-- How the calls of one operation come out. `created` is the name that `os.CreateTemp` chose;
-- `written` is what a failing write left in the file.
pub record Io : Type 0 where
  pub created : Option Bytes
  pub write_ok : Bool
  pub written : Bytes
  pub close_ok : Bool
  pub chmod_ok : Bool
  pub rename_ok : Bool
  pub removed : Bytes → Bool
  pub readable : Bytes → Bool
  pub listed : Bool

-- `os.Remove`, its error ignored
unfoldable pub remove : Io → Bytes → Disk → Disk
remove io name disk = if io.removed name then erase name disk else disk

-- `os.ReadFile`
pub data Read : Type 0 where
  absent failed : Read
  contents : Bytes → Read

unfoldable pub read_file : Io → Bytes → Disk → Read
read_file io name disk = elim (lookup name disk) [
  | none ↦ absent
  | some node ↦ elim node [
    | file mode b ↦ (if io.readable name then contents b else failed)
    | directory ↦ failed
  ]
]

-- `os.Rename` of a file does not replace a directory.
abbrev pub can_replace : Option Node → Bool
can_replace none = true
can_replace (some (file mode b)) = true
can_replace (some directory) = false

abbrev pub owner_only : ℕ
owner_only = 0o600

-- The end of `encryptSecret`: write a temporary file, then rename it. A failure removes the
-- temporary file, if it can.
abbrev pub write_temp : Io → Bytes → Bytes → Bytes → Disk → Result (Unit {0}) × Disk
write_temp io tmp path buf disk =
    if io.write_ok
    then if io.close_ok
      then if io.chmod_ok
        then if io.rename_ok && can_replace (lookup path disk)
          then (ok tt, insert path (file owner_only buf) (erase tmp disk))
          else (
            err (errorf "failed to rename file"),
            remove io tmp (insert tmp (file owner_only buf) disk),
          )
        else (
          err (errorf "failed to set permissions"),
          remove io tmp (insert tmp (file owner_only buf) disk),
        )
      else (
        err (errorf "failed to close temp file"),
        remove io tmp (insert tmp (file owner_only buf) disk),
      )
    else (
      err (errorf "failed to write file"),
      remove io tmp (insert tmp (file owner_only io.written) disk),
    )

unfoldable pub replace_file : Io → Bytes → Bytes → Disk → Result (Unit {0}) × Disk
replace_file io path buf disk = elim io.created [
  | none ↦ (err (errorf "failed to create temp file"), disk)
  | some tmp ↦ write_temp io tmp path buf disk
]
