-- ===== src/Server/Lifecycle.antt =====
-- internal/server/server.go: `Run` and its goroutines, the one of `cleanupExpiredSecrets` and the
-- callbacks of the inactivity timer, interleaved in any order. A request is one step. A handler that
-- panics ends the process.
use burnafter.Prelude.{ℕ, suc, ◌≡◌, Bool, true, false}
use burnafter.Bytes.{Bytes}
use burnafter.Clock.{Time}
use burnafter.Int.{pos, ltb_ℤ}
use burnafter.Crypto.{Primitives}
use burnafter.Storage.{Storage}
use burnafter.Verify.{Machine}
use burnafter.Server.{Server, GetResponse, granted, denied, panicked}
use burnafter.Server.Get.{get}
use burnafter.Server.Cleanup.{cleanup}
use burnafter.Server.Step.{Event, on_store, on_get, on_ping, on_tick, step}

-- `shutdownChan`
pub data Channel : Type 0 where
  opened closed : Channel

-- Where `cleanupExpiredSecrets` is: at its `select`, before `GracefulStop`, before `close`, returned.
pub data Cleaner : Type 0 where
  selecting stopping closing returned : Cleaner

-- The process runs, `main` returned, or a goroutine panicked.
pub data Process : Type 0 where
  running exited crashed : Process

abbrev pub is_request : Event → Bool
is_request (on_store call req) = true
is_request (on_get call req) = true
is_request (on_ping now) = true
is_request (on_tick now since_at) = false

module _ (B : Storage) where
  -- `has_timer`: `inactivityTimer != nil`. `armed`: it is to fire. `stops` callbacks of the timer
  -- are before `GracefulStop`, `closes` of them before `close`.
  pub record Life : Type 0 where
    pub server : Server B
    pub serving : Bool
    pub channel : Channel
    pub cleaner : Cleaner
    pub has_timer : Bool
    pub armed : Bool
    pub stops : ℕ
    pub closes : ℕ
    pub process : Process

  -- `Run`, up to `Serve`
  unfoldable pub run : Server B → Life
  run s =
      let timed = ltb_ℤ (pos 0) s.options.inactivity_timeout in
      record {
        server = s;
        serving = true;
        channel = opened;
        cleaner = selecting;
        has_timer = timed;
        armed = timed;
        stops = 0;
        closes = 0;
        process = running;
      }

  -- `close` of a closed channel panics.
  abbrev pub process_after_close : Channel → Process
  process_after_close opened = running
  process_after_close closed = crashed

  abbrev pub cleaner_after_tick : Bool → Cleaner
  cleaner_after_tick true = stopping
  cleaner_after_tick false = selecting

abbrev pub process_after_get : GetResponse → Process
process_after_get (granted secret) = running
process_after_get (denied error) = running
process_after_get panicked = crashed

module _ (B : Storage) (P : Primitives) (os : Machine) where
  abbrev pub process_after : Event → Server B → Process
  process_after (on_get call req) s = process_after_get (get B P os call req s).0
  process_after (on_store call req) s = running
  process_after (on_ping now) s = running
  process_after (on_tick now since_at) s = running

  pub data Step (l : Life B) : Life B → Type 0 where
    -- A handler resets the timer.
    handle :
        (e : Event)
        → is_request e ≡ true
        → l.process ≡ running
        → l.serving ≡ true
        → Step l (record l {
          server = step B P os e l.server;
          armed = l.has_timer;
          process = process_after e l.server;
        })
    tick :
        (now : Time) (since_at : Bytes → Time)
        → l.process ≡ running
        → l.cleaner ≡ selecting
        → Step l (record l {
          server = (cleanup B now since_at l.server).1;
          cleaner = cleaner_after_tick B (cleanup B now since_at l.server).0;
        })
    cleaner_stops :
        l.process ≡ running
        → l.cleaner ≡ stopping
        → Step l (record l { serving = false; cleaner = closing })
    cleaner_closes :
        l.process ≡ running
        → l.cleaner ≡ closing
        → Step l (record l {
          channel = closed;
          cleaner = returned;
          process = process_after_close B l.channel;
        })
    -- `<-s.shutdownChan`
    cleaner_returns :
        l.process ≡ running
        → l.cleaner ≡ selecting
        → l.channel ≡ closed
        → Step l (record l { cleaner = returned })
    timer_fires :
        l.process ≡ running
        → l.armed ≡ true
        → Step l (record l { armed = false; stops = suc l.stops })
    timer_stops :
        (n : ℕ)
        → l.process ≡ running
        → l.stops ≡ suc n
        → Step l (record l { serving = false; stops = n; closes = suc l.closes })
    timer_closes :
        (n : ℕ)
        → l.process ≡ running
        → l.closes ≡ suc n
        → Step l
            (record l { channel = closed; closes = n; process = process_after_close B l.channel })
    -- `Serve` returns, and `main` after it.
    exits : l.process ≡ running → l.serving ≡ false → Step l (record l { process = exited })

  pub data Reach (s : Server B) : Life B → Type 0 where
    start : Reach s (run B s)
    later : {l m : Life B} → Reach s l → Step l m → Reach s m
