-- ===== src/Launch/Extract.antt =====
-- internal/embedded/embedded.go: the temporary file of an extraction.
use burnafter.Prelude.{◌≡◌, refl, ◌∙◌, true, Option, none, some, if_keeps, if_true, ap}
use burnafter.Bytes.{Bytes}
use burnafter.GoMap.{lookup, insert}
use burnafter.Result.{Result, ok, err}
use burnafter.Fallback.TempDir.{Disk, Node, file, Io}
use burnafter.Fallback.Atomic.{IsFresh, discarded}
use burnafter.Launch.Binary.{
  executable, write_binary, extract_binary, extract_server_binary_to_temp,
}
use burnafter.Launch.{remove_temp}

abbrev pub Same : Disk → Disk → Type 0
Same disk disk' = (j : Bytes) → lookup j disk' ≡ lookup j disk

-- No new file, or one: the file that `io` creates.
abbrev pub Extra : Io → Disk → Option Bytes → Disk → Type 0
Extra io disk none disk' = Same disk disk'
Extra io disk (some tmp) disk' =
    (node : Node) × (disk' ≡ insert tmp node disk)
    × (lookup tmp disk ≡ none)
    × (io.created ≡ some tmp)

-- An extraction changes nothing, or adds one new file.
abbrev pub Extracted : Io → Disk → Result Bytes × Disk → Type 0
Extracted io disk (err e, disk') = Same disk disk'
Extracted io disk (ok tmp, disk') = Extra io disk (some tmp) disk'

module _ (io : Io) (disk : Disk) (fresh : IsFresh io disk) where
  write_binary-Extracted :
      (tmp b : Bytes) → io.created ≡ some tmp → Extracted io disk (write_binary io tmp b disk)
  write_binary-Extracted tmp b made =
      if_keeps (λ (r : Result Bytes × Disk). Extracted io disk r) io.write_ok
        (if_keeps (λ (r : Result Bytes × Disk). Extracted io disk r) io.chmod_ok
          (_, refl, fresh.unused tmp made, made)
          (λ j. discarded io disk tmp j _ (fresh.unused tmp made) (fresh.removable tmp made)))
        (λ j. discarded io disk tmp j _ (fresh.unused tmp made) (fresh.removable tmp made))

  pub extract-Extracted :
      (binary : Result Bytes) → Extracted io disk (extract_server_binary_to_temp io binary disk)
  unfolding extract_server_binary_to_temp
  extract-Extracted (err e) = λ j. refl
  extract-Extracted (ok b) = from_created io.created refl
    where
      from_created :
          (o : Option Bytes) → io.created ≡ o → Extracted io disk (extract_binary io b o disk)
      from_created none made = λ j. refl
      from_created (some tmp) made = write_binary-Extracted tmp b made

  -- The file that was added is removed, at once or later.
  pub Extra-remove :
      (t : Option Bytes) (later : Io) (disk' : Disk)
      → ((tmp : Bytes) → io.created ≡ some tmp → later.removed tmp ≡ true)
      → Extra io disk t disk'
      → Same disk (remove_temp later t disk')
  Extra-remove none later disk' removes same j = same j
  Extra-remove (some tmp) later disk' removes (node, e, unused, made) j =
      rw e (discarded later disk tmp j node unused (removes tmp made))

pub extract_done :
    (io : Io) (b tmp : Bytes) (disk : Disk)
    → io.created ≡ some tmp
    → io.write_ok ≡ true
    → io.chmod_ok ≡ true
    → extract_server_binary_to_temp io (ok b) disk ≡ (ok tmp, insert tmp (file executable b) disk)
unfolding extract_server_binary_to_temp
extract_done io b tmp disk made write_ok chmod_ok =
    ap (λ o. extract_binary io b o disk) made ∙ if_true _ _ write_ok ∙ if_true _ _ chmod_ok
