-- ===== src/Launch/Tidy.antt =====
-- embedded/launch.go and internal/embedded: the temporary files of a launch.
use burnafter.Prelude.{◌≡◌, refl, Bool, true, false, ◌||◌, Option, none, some, if_keeps, if_true}
use burnafter.Bytes.{Bytes}
use burnafter.Int.{ℤ, pos, ltb_ℤ}
use burnafter.GoMap.{lookup}
use burnafter.Options
use burnafter.Result.{Result, ok, err}
use burnafter.Fallback.TempDir.{Disk, Io}
use burnafter.Fallback.Atomic.{IsFresh}
use burnafter.Launch.{
  StartError, Json, Calls, Chosen, Process, from_temp, from_memfd, choose, start_retried, retry,
  start_chosen, launch_chosen, launch, after_delay,
}
use burnafter.Launch.Extract.{Same, Extra, Extracted, extract-Extracted, Extra-remove}

-- The directory when a launch and the removal after its delay are over.
abbrev pub settle : Io → Result Process × Disk → Disk
settle later (err e, disk) = disk
settle later (ok p, disk) = after_delay later p disk

module _ (J : Json) (server_binary : Result Bytes) (c : Calls) (later : Io)
    (removes : (path : Bytes) → later.removed path ≡ true) (debug : Bool) (disk : Disk)
    (fresh : IsFresh c.temp disk) (fresh_retry : IsFresh c.temp_retry disk) where
  start_retried-Same :
      (options_json : Bytes) (chosen : Chosen) (r : Option StartError) (disk' : Disk)
      → Extra c.temp_retry disk chosen.temp_server_path disk'
      → Same disk (settle later (start_retried J server_binary c debug options_json chosen r disk'))
  start_retried-Same options_json chosen none disk' extra =
      Extra-remove c.temp_retry disk fresh_retry chosen.temp_server_path later disk'
        (λ tmp made. removes tmp) extra
  start_retried-Same options_json chosen (some e) disk' extra =
      Extra-remove c.temp_retry disk fresh_retry chosen.temp_server_path c.temp_retry disk'
        fresh_retry.removable extra

  retry-Same :
      (options_json : Bytes) (r : Result Bytes × Disk)
      → (debug || c.dev_null_retry) ≡ true
      → Extracted c.temp_retry disk r
      → Same disk (
          settle later (retry J server_binary c debug options_json (from_temp J server_binary c r)))
  retry-Same options_json (err e, disk') opened same = same
  retry-Same options_json (ok tmp, disk') opened extra =
      rw (if_true {b = debug || c.dev_null_retry} _ _ opened) (
        start_retried-Same options_json
          (record {
            exec_path = tmp;
            extra_file = none;
            from_memory = false;
            temp_server_path = some tmp;
          })
          c.start_retry disk' extra)

  -- The memory file cannot be executed: the second attempt.
  start_memory-Same :
      (options_json : Bytes) (fd : ℤ) (r : Option StartError)
      → (debug || c.dev_null_retry) ≡ true
      → Same disk (
          settle later (
            start_chosen J server_binary c debug options_json
              (from_memfd J server_binary c fd)
              r
              disk))
  start_memory-Same options_json fd none opened = λ j. refl
  start_memory-Same options_json fd (some e) opened =
      if_keeps (λ (x : Result Process × Disk). Same disk (settle later x)) e.permission
        (retry-Same options_json _ opened
          (extract-Extracted c.temp_retry disk fresh_retry server_binary))
        (λ j. refl)

  start_temp-Same :
      (options_json tmp : Bytes) (r : Option StartError) (disk' : Disk)
      → Extra c.temp disk (some tmp) disk'
      → Same disk (
          settle later (
            start_chosen J server_binary c debug options_json
              (record {
                exec_path = tmp;
                extra_file = none;
                from_memory = false;
                temp_server_path = some tmp;
              })
              r
              disk'))
  start_temp-Same options_json tmp none disk' extra =
      Extra-remove c.temp disk fresh (some tmp) later disk' (λ tmp' made. removes tmp') extra
  start_temp-Same options_json tmp (some e) disk' extra =
      Extra-remove c.temp disk fresh (some tmp) c.temp disk' fresh.removable extra

module _ (J : Json) (server_binary : Result Bytes) (c : Calls) (later : Io)
    (removes : (path : Bytes) → later.removed path ≡ true) (opts : Options.Common)
    (options_json : Bytes) (marshalled : J.marshal opts ≡ some options_json)
    (opened : opts.debug || c.dev_null ≡ true)
    (opened_retry : opts.debug || c.dev_null_retry ≡ true) (disk : Disk)
    (fresh : IsFresh c.temp disk) (fresh_retry : IsFresh c.temp_retry disk) where
  launch_memory-Same :
      (fd : ℤ)
      → Same disk (
          settle later
            (launch_chosen J server_binary c opts (ok (from_memfd J server_binary c fd), disk)))
  launch_memory-Same fd =
      rw (marshalled, if_true {b = opts.debug || c.dev_null} _ _ opened)
        (start_memory-Same J server_binary c later removes opts.debug disk fresh fresh_retry
          options_json fd c.start opened_retry)

  launch_temp-Same :
      (r : Result Bytes × Disk)
      → Extracted c.temp disk r
      → Same disk
          (settle later (launch_chosen J server_binary c opts (from_temp J server_binary c r)))
  launch_temp-Same (err e, disk') same = same
  launch_temp-Same (ok tmp, disk') extra =
      rw (marshalled, if_true {b = opts.debug || c.dev_null} _ _ opened)
        (start_temp-Same J server_binary c later removes opts.debug disk fresh fresh_retry
          options_json tmp c.start disk' extra)

  choose-Same :
      (memfd : Result ℤ)
      → Same disk (
          settle later (launch_chosen J server_binary c opts (choose J server_binary c memfd disk)))
  choose-Same (err e) = launch_temp-Same _ (extract-Extracted c.temp disk fresh server_binary)
  choose-Same (ok memfd) =
      if_keeps
        (λ (x : Result Chosen × Disk).
          Same disk (settle later (launch_chosen J server_binary c opts x)))
        (ltb_ℤ memfd (pos 0)) (λ j. refl)
        (if_keeps
          (λ (x : Result Chosen × Disk).
            Same disk (settle later (launch_chosen J server_binary c opts x)))
          c.new_file (launch_memory-Same memfd)
          (launch_temp-Same _ (extract-Extracted c.temp disk fresh server_binary)))

-- Where the options can be marshalled, the output be opened and files be removed, and temporary
-- files have new names, a launch leaves every file as it was, once the delay after a start is over:
-- in either attempt, whatever fails.
pub launch_tidy :
    (J : Json) (server_binary : Result Bytes) (c : Calls) (later : Io) (opts : Options.Client)
    (options_json : Bytes) (disk : Disk) (j : Bytes)
    → ((path : Bytes) → later.removed path ≡ true)
    → J.marshal opts.common ≡ some options_json
    → opts.common.debug || c.dev_null ≡ true
    → opts.common.debug || c.dev_null_retry ≡ true
    → IsFresh c.temp disk
    → IsFresh c.temp_retry disk
    → lookup j (settle later (launch J server_binary c opts disk)) ≡ lookup j disk
unfolding launch
launch_tidy J server_binary c later opts options_json disk j removes marshalled opened opened_retry
      fresh fresh_retry =
    choose-Same J server_binary c later removes opts.common options_json marshalled opened
      opened_retry disk fresh fresh_retry c.memfd j
