-- ===== src/Tests/Lifecycle.antt =====
-- The daemon's goroutines at a small server.
use burnafter.Prelude.{◌*◌, ◌≡◌, refl, false}
use burnafter.Clock.{second}
use burnafter.Int.{pos}
use burnafter.Storage.Memory.{memory_storage, memory_storage-IsReliable}
use burnafter.Server.{Server}
use burnafter.Server.Store.{store}
use burnafter.Server.Lifecycle.{Life, run, crashed, exited, closing, Reach, start}
use burnafter.Server.Shutdown.{never_crashes}
use burnafter.Server.Ending.{Ends, shutdown-Ends, crash_reached, exit_after_store}
use burnafter.Tests.Toy.{toy}
use burnafter.Tests.World.{machine, options, fresh, call_at, keep}

abbrev begun : Life memory_storage
begun = run memory_storage fresh

never_crashes_example : ¬ (begun.process ≡ crashed)
never_crashes_example =
    never_crashes memory_storage toy machine memory_storage-IsReliable.not_null fresh begun refl
      start

-- The cleaner has stopped the server.
abbrev stopped : Life memory_storage
stopped = record begun { serving = false; cleaner = closing }

shutdown-Ends_example : Ends memory_storage toy machine stopped
shutdown-Ends_example = shutdown-Ends memory_storage toy machine stopped refl (λ e. absurd (cc e))

abbrev timed : Server memory_storage
timed = record fresh { options = record options { inactivity_timeout = pos (60 * second) } }

crash_reached_example :
    (l : Life memory_storage) × Reach memory_storage toy machine timed l × (l.process ≡ crashed)
crash_reached_example = crash_reached memory_storage toy machine timed refl refl

exit_after_store_example :
    (l : Life memory_storage) × Reach memory_storage toy machine fresh l
    × (l.process ≡ exited)
    × (l.server ≡ (store memory_storage toy machine (call_at 7 1) keep fresh).1)
exit_after_store_example = exit_after_store memory_storage toy machine fresh (call_at 7 1) keep refl
