-- ===== src/Server/Quiet/Idle.antt =====
-- internal/server/server.go: a daemon that nobody asks any more.
use burnafter.Prelude.{ℕ, zero, suc, ◌<◌, ◌≡◌, refl, sym, ◌∙◌, Bool, true, false, arith}
use burnafter.Crypto.{Primitives}
use burnafter.Storage.{Storage}
use burnafter.Verify.{Machine}
use burnafter.Server.{Server}
use burnafter.Server.Lifecycle.{
  closed, Cleaner, selecting, stopping, closing, returned, Process, running, exited, crashed, Life,
  run, cleaner_after_tick, Step, handle, tick, cleaner_stops, cleaner_closes, cleaner_returns,
  timer_fires, timer_stops, timer_closes, exits, Reach, start, later,
}
use burnafter.Server.Quiet.{HasLeft, IsQuiet, rank, Step-rank}

-- Past its stop the cleaner leaves a server that does not serve.
abbrev PastStop : Cleaner → Bool → Type 0
PastStop selecting serving = Unit {0}
PastStop stopping serving = Unit {0}
PastStop closing serving = serving ≡ false
PastStop returned serving = serving ≡ false

module _ (B : Storage) (P : Primitives) (os : Machine) where
  -- The channel is closed only when the server has stopped.
  record IsLanding (l : Life B) : Type 0 where
    past_stop : PastStop l.cleaner l.serving
    closes_down : (n : ℕ) → l.closes ≡ suc n → l.serving ≡ false
    closed_down : l.channel ≡ closed → l.serving ≡ false

  PastStop-after_tick : (b serving : Bool) → PastStop (cleaner_after_tick B b) serving
  PastStop-after_tick true serving = tt
  PastStop-after_tick false serving = tt

  PastStop-down : (c : Cleaner) → PastStop c false
  PastStop-down selecting = tt
  PastStop-down stopping = tt
  PastStop-down closing = refl
  PastStop-down returned = refl

  Step-IsLanding : (l m : Life B) → IsLanding l → Step B P os l m → IsLanding m
  Step-IsLanding l m i (handle e req up serving) = record {
    past_stop = i.past_stop;
    closes_down = i.closes_down;
    closed_down = i.closed_down;
  }
  Step-IsLanding l m i (tick now since_at up here) = record {
    past_stop = PastStop-after_tick _ l.serving;
    closes_down = i.closes_down;
    closed_down = i.closed_down;
  }
  Step-IsLanding l m i (cleaner_stops up here) = record {
    past_stop = refl;
    closes_down = λ n e. refl;
    closed_down = λ e. refl;
  }
  Step-IsLanding l m i (cleaner_closes up here) =
      let down : l.serving ≡ false = rw here at i.past_stop in
      record { past_stop = down; closes_down = i.closes_down; closed_down = λ e. down }
  Step-IsLanding l m i (cleaner_returns up here c) = record {
    past_stop = i.closed_down c;
    closes_down = i.closes_down;
    closed_down = i.closed_down;
  }
  Step-IsLanding l m i (timer_fires up armed) = record {
    past_stop = i.past_stop;
    closes_down = i.closes_down;
    closed_down = i.closed_down;
  }
  Step-IsLanding l m i (timer_stops n up some_stop) = record {
    past_stop = PastStop-down l.cleaner;
    closes_down = λ k e. refl;
    closed_down = λ e. refl;
  }
  Step-IsLanding l m i (timer_closes n up some_close) =
      let down = i.closes_down n some_close in
      record { past_stop = i.past_stop; closes_down = λ k e. down; closed_down = λ e. down }
  Step-IsLanding l m i (exits up down) = record {
    past_stop = i.past_stop;
    closes_down = i.closes_down;
    closed_down = i.closed_down;
  }

  run-IsLanding : (s : Server B) → IsLanding (run B s)
  unfolding run
  run-IsLanding s = record {
    past_stop = tt;
    closes_down = λ n e. absurd (omega (arith, e));
    closed_down = λ e. absurd (cc e);
  }

  Reach-IsLanding : (s : Server B) (l : Life B) → Reach B P os s l → IsLanding l
  Reach-IsLanding s l start = run-IsLanding s
  Reach-IsLanding s l (later {l = k} reached e) = Step-IsLanding k l (Reach-IsLanding s k reached) e

  -- Every run without requests from here ends after finitely many steps, and none stops before its
  -- process has ended.
  pub data EndsQuietly : Life B → Type 0 where
    ended : {l : Life B} → (l.process ≡ running → ⊥) → EndsQuietly l
    going :
        {l : Life B} (k : Life B) (e : Step B P os l k)
        → IsQuiet B P os e
        → ((m : Life B) (d : Step B P os l m) → IsQuiet B P os d → EndsQuietly m)
        → EndsQuietly l

  -- There is a quiet step while the process runs.
  some_step :
      (l : Life B)
      → l.process ≡ running
      → HasLeft l.cleaner
      → IsLanding l
      → (k : Life B) × (e : Step B P os l k) × IsQuiet B P os e
  some_step l up left i = by_cleaner l.cleaner refl
    where
      by_cleaner :
          (c : Cleaner) → l.cleaner ≡ c → (k : Life B) × (e : Step B P os l k) × IsQuiet B P os e
      by_cleaner selecting here = absurd (left here)
      by_cleaner stopping here = (_, cleaner_stops up here, tt)
      by_cleaner closing here = (_, cleaner_closes up here, tt)
      by_cleaner returned here = (_, exits up (rw here at i.past_stop), tt)

  EndsQuietly-within :
      (n : ℕ) (l : Life B) → HasLeft l.cleaner → IsLanding l → rank B P os l < n → EndsQuietly l
  EndsQuietly-within zero l left i h = absurd (omega arith)
  EndsQuietly-within (suc n) l left i h =
      by_process
        (λ m move quiet.
          let (left', less) = Step-rank B P os l m left move quiet in
          EndsQuietly-within n m left' (Step-IsLanding l m i move) (omega arith))
        l.process refl
    where
      by_process :
          ((m : Life B) (e : Step B P os l m) → IsQuiet B P os e → EndsQuietly m)
          → (p : Process) → l.process ≡ p
          → EndsQuietly l
      by_process rest running up = let (k, e, quiet) = some_step l up left i in going k e quiet rest
      by_process rest exited gone = ended (λ e. absurd (cc (sym gone ∙ e)))
      by_process rest crashed gone = ended (λ e. absurd (cc (sym gone ∙ e)))

  -- Once the cleanup goroutine is past its loop, in any state that the daemon has reached, every run without
  -- requests ends after finitely many steps, and none gets stuck before the process has ended.
  pub left-EndsQuietly :
      (s : Server B) (l : Life B) → Reach B P os s l → HasLeft l.cleaner → EndsQuietly l
  left-EndsQuietly s l reached left =
      EndsQuietly-within (suc (rank B P os l)) l left (Reach-IsLanding s l reached) (omega arith)
