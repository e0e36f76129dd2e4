-- ===== src/Server/Step.antt =====
-- The daemon as a transition system: any sequence of requests and ticks, from any clients, with any
-- readings of the clock and any random bytes.
use burnafter.Prelude.{List, [], ◌∷◌}
use burnafter.Bytes.{Bytes}
use burnafter.Clock.{Time}
use burnafter.Crypto.{Primitives, IsReader}
use burnafter.Storage.{Storage}
use burnafter.Verify.{Machine}
use burnafter.Server.{Server, Call, StoreRequest, GetRequest, ping}
use burnafter.Server.Store.{store}
use burnafter.Server.Get.{get}
use burnafter.Server.Cleanup.{cleanup}

pub data Event : Type 0 where
  on_store : Call → StoreRequest → Event
  on_get : Call → GetRequest → Event
  on_ping : Time → Event
  on_tick : Time → (Bytes → Time) → Event

-- A random source that answers has filled the buffer.
abbrev pub FillsBuffers : Event → Type 0
FillsBuffers (on_store call req) = IsReader call.nonce_source
FillsBuffers (on_get call req) = Unit
FillsBuffers (on_ping now) = Unit
FillsBuffers (on_tick now since_at) = Unit

abbrev pub AllFill : List Event → Type 0
AllFill [] = Unit
AllFill (e ∷ es) = FillsBuffers e × AllFill es

module _ (B : Storage) (P : Primitives) (os : Machine) where
  -- The state after an event.
  unfoldable pub step : Event → Server B → Server B
  step (on_store call req) s = (store B P os call req s).1
  step (on_get call req) s = (get B P os call req s).1
  step (on_ping now) s = (ping B now s).1
  step (on_tick now since_at) s = (cleanup B now since_at s).1

  pub data Reach (s : Server B) : Server B → Type 0 where
    here : Reach s s
    next : {t : Server B} → Reach s t → (e : Event) → Reach s (step e t)
