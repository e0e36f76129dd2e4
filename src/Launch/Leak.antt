-- ===== src/Launch/Leak.antt =====
-- embedded/launch.go: a launch whose output cannot be opened.
use burnafter.Prelude.{
  ◌≡◌, ◌∙◌, true, false, ◌||◌, Option, none, some, Option-cases, inl, inr, if_false, ap,
}
use burnafter.Bytes.{Bytes}
use burnafter.GoMap.{insert}
use burnafter.Options
use burnafter.Result.{Error, errorf, ok, err}
use burnafter.Fallback.TempDir.{Disk, file}
use burnafter.Launch.Binary.{executable}
use burnafter.Launch.{Json, Calls, from_temp, choose, with_options, launch_chosen, launch}
use burnafter.Launch.Extract.{extract_done}

-- A launch from a temporary file that was extracted, whose output cannot be opened, fails and
-- leaves the executable file in the temporary directory, whether or not the options could be
-- marshalled.
pub launch_leaks :
    (J : Json) (server_binary : Bytes) (c : Calls) (opts : Options.Client) (tmp : Bytes) (e : Error)
    (disk : Disk)
    → c.memfd ≡ err e
    → c.temp.created ≡ some tmp
    → c.temp.write_ok ≡ true
    → c.temp.chmod_ok ≡ true
    → opts.common.debug || c.dev_null ≡ false
    → (reason : Error) × (launch J (ok server_binary) c opts disk
        ≡ (err reason, insert tmp (file executable server_binary) disk))
unfolding launch
launch_leaks J server_binary c opts tmp e disk no_memfd made write_ok chmod_ok closed =
    let failing = λ (o : Option Bytes).
      with_options J (ok server_binary) c opts.common.debug o
        (record {
          exec_path = tmp;
          extra_file = none;
          from_memory = false;
          temp_server_path = some tmp;
        })
        (insert tmp (file executable server_binary) disk) in
    let begun : launch_chosen J (ok server_binary) c opts.common
          (choose J (ok server_binary) c c.memfd disk)
        ≡ failing (J.marshal opts.common) =
      ap
        (λ m.
          launch_chosen J (ok server_binary) c opts.common (choose J (ok server_binary) c m disk))
        no_memfd
      ∙ ap
          (λ x.
            launch_chosen J (ok server_binary) c opts.common (from_temp J (ok server_binary) c x))
          (extract_done c.temp server_binary tmp disk made write_ok chmod_ok) in
    elim (Option-cases (J.marshal opts.common)) [
      | inl failed ↦ (errorf "failed to marshal options", begun ∙ ap failing failed)
      | inr (options_json, marshalled) ↦
          (errorf "failed to open /dev/null", begun ∙ ap failing marshalled ∙ if_false _ _ closed)
    ]
