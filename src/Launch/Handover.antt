-- ===== src/Launch/Handover.antt =====
-- embedded/launch.go and cmd/burnafter-server/main.go: the options that a launch hands to the server.
use burnafter.Prelude.{◌≡◌, refl, ◌||◌, ◌&&◌, Option, none, some, List, [], ◌∷◌, if_keeps, ap, ◌∙◌}
use burnafter.Bytes.{Bytes}
use burnafter.Options
use burnafter.Options.{default_common}
use burnafter.Result.{Result, ok, err, or_error}
use burnafter.Fallback.TempDir.{Disk}
use burnafter.Launch.{
  StartError, Json, Calls, Chosen, Process, choose, started, start_retried, retry, start_chosen,
  with_options, launch_chosen, launch,
}

-- The options of the server, of its arguments: the defaults, or what the first argument says.
unfoldable pub server_options : Json → List Bytes → Result Options.Common
server_options J [] = ok default_common
server_options J (program ∷ []) = ok default_common
server_options J (program ∷ options_json ∷ args) =
    or_error "Failed to parse options" (J.unmarshal options_json)

module _ (J : Json) (server_binary : Result Bytes) (c : Calls) (opts : Options.Common)
    (options_json : Bytes) where
  -- A process that runs was started with these options.
  abbrev IsStarted : Result Process × Disk → Type 0
  IsStarted (err e, disk) = Unit {0}
  IsStarted (ok p, disk) =
      (chosen : Chosen) × (p ≡ started J server_binary c opts.debug options_json chosen)

  start_retried-IsStarted :
      (chosen : Chosen) (r : Option StartError) (disk : Disk)
      → IsStarted (start_retried J server_binary c opts.debug options_json chosen r disk)
  start_retried-IsStarted chosen none disk = (chosen, refl)
  start_retried-IsStarted chosen (some e) disk = tt

  retry-IsStarted :
      (r : Result Chosen × Disk) → IsStarted (retry J server_binary c opts.debug options_json r)
  retry-IsStarted (err e, disk) = tt
  retry-IsStarted (ok chosen, disk) =
      if_keeps (λ (x : Result Process × Disk). IsStarted x) (opts.debug || c.dev_null_retry)
        (start_retried-IsStarted chosen c.start_retry disk) tt

  start_chosen-IsStarted :
      (chosen : Chosen) (r : Option StartError) (disk : Disk)
      → IsStarted (start_chosen J server_binary c opts.debug options_json chosen r disk)
  start_chosen-IsStarted chosen none disk = (chosen, refl)
  start_chosen-IsStarted chosen (some e) disk =
      if_keeps (λ (x : Result Process × Disk). IsStarted x) (chosen.from_memory && e.permission)
        (retry-IsStarted _) tt

  with_options-IsStarted :
      (chosen : Chosen) (disk : Disk)
      → IsStarted (with_options J server_binary c opts.debug (some options_json) chosen disk)
  with_options-IsStarted chosen disk =
      if_keeps (λ (x : Result Process × Disk). IsStarted x) (opts.debug || c.dev_null)
        (start_chosen-IsStarted chosen c.start disk) tt

  launch_chosen-IsStarted :
      (r : Result Chosen × Disk)
      → J.marshal opts ≡ some options_json
      → IsStarted (launch_chosen J server_binary c opts r)
  launch_chosen-IsStarted (err e, disk) marshalled = tt
  launch_chosen-IsStarted (ok chosen, disk) marshalled =
      rw (marshalled) (with_options-IsStarted chosen disk)

  IsStarted-args :
      (r : Result Process × Disk) (p : Process) (disk : Disk)
      → IsStarted r
      → r ≡ (ok p, disk)
      → J.unmarshal options_json ≡ some opts
      → server_options J p.command.args ≡ ok opts
  unfolding server_options
  IsStarted-args (err e, disk') p disk is_started ran read =
      absurd (cc (ap (λ (x : Result Process × Disk). x.0) ran))
  IsStarted-args (ok q, disk') p disk (chosen, e) ran read =
      let same : p ≡ q = cc (ap (λ (x : Result Process × Disk). x.0) ran) in
      let named : p ≡ started J server_binary c opts.debug options_json chosen = same ∙ e in
      ap (λ (x : Process). server_options J x.command.args) named
      ∙ ap (or_error "Failed to parse options") read

-- Where `encoding/json` reads back what it wrote of the options, the process of a launch that
-- succeeds, from memory or from a file, has arguments from which the server's `main` takes the
-- options of the client.
pub server_options-launch :
    (J : Json) (server_binary : Result Bytes) (c : Calls) (opts : Options.Client)
    (options_json : Bytes) (p : Process) (disk disk' : Disk)
    → J.marshal opts.common ≡ some options_json
    → J.unmarshal options_json ≡ some opts.common
    → launch J server_binary c opts disk ≡ (ok p, disk')
    → server_options J p.command.args ≡ ok opts.common
unfolding launch
server_options-launch J server_binary c opts options_json p disk disk' marshalled read ran =
    IsStarted-args J server_binary c opts.common options_json _ p disk'
      (launch_chosen-IsStarted J server_binary c opts.common options_json
        (choose J server_binary c c.memfd disk) marshalled)
      ran read
