-- ===== src/Server/Quiet.antt =====
-- internal/server/server.go: the steps that are not requests, and how many are left once the cleanup
-- goroutine is past its loop.
pub mod Idle
pub mod Due
pub mod Keeps
pub mod Ends
pub mod Silence
use burnafter.Prelude.{ℕ, ◌+◌, ◌*◌, ◌<◌, ◌≤◌, ◌≡◌, ap, Bool, true, false, arith}
use burnafter.Crypto.{Primitives}
use burnafter.Storage.{Storage}
use burnafter.Verify.{Machine}
use burnafter.Server.Lifecycle.{
  Channel, opened, closed, Cleaner, selecting, stopping, closing, returned, Process, running,
  exited, crashed, Life, process_after_close, Step, handle, tick, cleaner_stops, cleaner_closes,
  cleaner_returns, timer_fires, timer_stops, timer_closes, exits,
}

-- The cleaner is past its loop.
abbrev pub HasLeft : Cleaner → Type 0
HasLeft c = c ≡ selecting → ⊥

abbrev pub cleaner_rank : Cleaner → ℕ
cleaner_rank selecting = 3
cleaner_rank stopping = 2
cleaner_rank closing = 1
cleaner_rank returned = 0

abbrev pub armed_rank : Bool → ℕ
armed_rank true = 3
armed_rank false = 0

abbrev pub process_rank : Process → ℕ
process_rank running = 1
process_rank exited = 0
process_rank crashed = 0

process_rank-after_close : (B : Storage) (c : Channel) → process_rank (process_after_close B c) ≤ 1
process_rank-after_close B opened = omega arith
process_rank-after_close B closed = omega arith

module _ (B : Storage) (P : Primitives) (os : Machine) where
  -- A step that is not a request.
  abbrev pub IsQuiet : {l m : Life B} → Step B P os l m → Type 0
  IsQuiet (handle e req up serving) = ⊥
  IsQuiet (tick now since_at up here) = Unit
  IsQuiet (cleaner_stops up here) = Unit
  IsQuiet (cleaner_closes up here) = Unit
  IsQuiet (cleaner_returns up here c) = Unit
  IsQuiet (timer_fires up armed) = Unit
  IsQuiet (timer_stops n up some_stop) = Unit
  IsQuiet (timer_closes n up some_close) = Unit
  IsQuiet (exits up down) = Unit

  -- The steps that are left.
  abbrev pub rank : Life B → ℕ
  rank l =
      cleaner_rank l.cleaner + armed_rank l.armed + 2 * l.stops + l.closes + process_rank l.process

  pub Step-rank :
      (l m : Life B)
      → HasLeft l.cleaner
      → (e : Step B P os l m) → IsQuiet e
      → HasLeft m.cleaner × (rank m < rank l)
  Step-rank l m left (handle e req up serving) quiet = absurd quiet
  Step-rank l m left (tick now since_at up here) quiet = absurd (left here)
  Step-rank l m left (cleaner_stops up here) quiet =
      (λ e. absurd (cc e), omega (arith, ap cleaner_rank here))
  Step-rank l m left (cleaner_closes up here) quiet = (
    λ e. absurd (cc e),
    omega (arith, ap cleaner_rank here, ap process_rank up, process_rank-after_close B l.channel),
  )
  Step-rank l m left (cleaner_returns up here c) quiet = absurd (left here)
  Step-rank l m left (timer_fires up armed) quiet = (left, omega (arith, ap armed_rank armed))
  Step-rank l m left (timer_stops n up some_stop) quiet = (left, omega (arith, some_stop))
  Step-rank l m left (timer_closes n up some_close) quiet =
      (left, omega (arith, some_close, ap process_rank up, process_rank-after_close B l.channel))
  Step-rank l m left (exits up down) quiet = (left, omega (arith, ap process_rank up))
