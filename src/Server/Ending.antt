-- ===== src/Server/Ending.antt =====
-- internal/server/server.go: how the daemon ends, where the cleaner and the timer both end it, and where
-- a request comes in between.
use burnafter.Prelude.{
  ℕ, zero, suc, ◌<◌, ◌≡◌, refl, sym, ◌∙◌, ap, Bool, true, false, [], arith, length, ◌==◌,
}
use burnafter.Bytes.{Bytes}
use burnafter.Clock.{Time}
use burnafter.Int.{pos, ltb_ℤ}
use burnafter.Crypto.{Primitives}
use burnafter.Storage.{Storage}
use burnafter.Verify.{Machine}
use burnafter.Server.{Server, Call, StoreRequest}
use burnafter.Server.Store.{store}
use burnafter.Server.Cleanup.{cleanup, sweep}
use burnafter.Server.Step.{on_store, step}
use burnafter.Server.Lifecycle.{
  Process, running, exited, crashed, Life, run, cleaner_after_tick, Step, handle, tick,
  cleaner_stops, cleaner_closes, cleaner_returns, timer_fires, timer_stops, timer_closes, exits,
  Reach, start, later,
}
use burnafter.Server.Quiet.{HasLeft, IsQuiet, rank, Step-rank}

module _ (B : Storage) (P : Primitives) (os : Machine) where
  -- Every run from here ends after finitely many steps, and none stops before its process has ended.
  pub data Ends : Life B → Type 0 where
    ended : {l : Life B} → (l.process ≡ running → ⊥) → Ends l
    going :
        {l : Life B} (k : Life B)
        → Step B P os l k
        → ((m : Life B) → Step B P os l m → Ends m)
        → Ends l

  record IsEnding (l : Life B) : Type 0 where
    down : l.serving ≡ false
    left : HasLeft l.cleaner

  Step-IsQuiet : (l m : Life B) → IsEnding l → (e : Step B P os l m) → IsQuiet B P os e
  Step-IsQuiet l m i (handle e req up serving) = absurd (cc (sym serving ∙ i.down))
  Step-IsQuiet l m i (tick now since_at up here) = tt
  Step-IsQuiet l m i (cleaner_stops up here) = tt
  Step-IsQuiet l m i (cleaner_closes up here) = tt
  Step-IsQuiet l m i (cleaner_returns up here c) = tt
  Step-IsQuiet l m i (timer_fires up armed) = tt
  Step-IsQuiet l m i (timer_stops n up some_stop) = tt
  Step-IsQuiet l m i (timer_closes n up some_close) = tt
  Step-IsQuiet l m i (exits up down) = tt

  Step-down : (l m : Life B) → l.serving ≡ false → Step B P os l m → m.serving ≡ false
  Step-down l m down (handle e req up serving) = down
  Step-down l m down (tick now since_at up here) = down
  Step-down l m down (cleaner_stops up here) = refl
  Step-down l m down (cleaner_closes up here) = down
  Step-down l m down (cleaner_returns up here c) = down
  Step-down l m down (timer_fires up armed) = down
  Step-down l m down (timer_stops n up some_stop) = refl
  Step-down l m down (timer_closes n up some_close) = down
  Step-down l m down (exits up _) = down

  Step-IsEnding :
      (l m : Life B) → IsEnding l → Step B P os l m → IsEnding m × (rank B P os m < rank B P os l)
  Step-IsEnding l m i e =
      let (left, less) = Step-rank B P os l m i.left e (Step-IsQuiet l m i e) in
      (record { down = Step-down l m i.down e; left = left }, less)

  Ends-within : (n : ℕ) (l : Life B) → IsEnding l → rank B P os l < n → Ends l
  Ends-within zero l i h = absurd (omega arith)
  Ends-within (suc n) l i h =
      by_process
        (λ m move. let (i', less) = Step-IsEnding l m i move in Ends-within n m i' (omega arith))
        l.process refl
    where
      by_process :
          ((m : Life B) → Step B P os l m → Ends m) → (p : Process) → l.process ≡ p → Ends l
      by_process rest running up = going _ (exits up i.down) rest
      by_process rest exited gone = ended (λ e. absurd (cc (sym gone ∙ e)))
      by_process rest crashed gone = ended (λ e. absurd (cc (sym gone ∙ e)))

  -- Once the server has stopped serving and the cleanup goroutine has left its loop, every run of
  -- the goroutines ends after finitely many steps, and none gets stuck before the process has
  -- ended.
  pub shutdown-Ends : (l : Life B) → l.serving ≡ false → HasLeft l.cleaner → Ends l
  shutdown-Ends l down left =
      Ends-within (suc (rank B P os l)) l (record { down = down; left = left }) (omega arith)

  -- A tick of a server that keeps nothing.
  cleanup_empty :
      (now : Time) (since_at : Bytes → Time) (s : Server B)
      → s.secrets ≡ []
      → cleanup B now since_at s ≡ (true, s)
  unfolding cleanup sweep
  cleanup_empty now since_at s empty =
      ap (λ (s' : Server B). (length s'.secrets == 0, s'))
        (ap (λ ms. sweep B now since_at ms s) empty)
      ∙ ap (λ ms. (length ms == 0, s)) empty

  -- A server with an inactivity timeout that holds no secret can reach a state in which the process
  -- has panicked: the cleanup and the timer both close the shutdown channel.
  pub crash_reached :
      (s : Server B)
      → s.secrets ≡ []
      → ltb_ℤ (pos 0) s.options.inactivity_timeout ≡ true
      → (l : Life B) × Reach B P os s l × (l.process ≡ crashed)
  unfolding run
  crash_reached s empty timed =
      let now : Time = s.last_activity in
      let since_at = λ (name : Bytes). now in
      let at_tick =
        ap (λ (r : Bool × Server B). cleaner_after_tick B r.0)
          (cleanup_empty now since_at s empty) in
      (
        _,
        later
            (later
              (later
                (later (later (later start (tick now since_at refl refl)) (timer_fires refl timed))
                  (cleaner_stops refl at_tick))
                (timer_stops 0 refl refl))
              (cleaner_closes refl refl))
            (timer_closes 0 refl refl),
        refl,
      )

  -- A server that holds no secret can handle a `Store` between the tick that finds it empty and the
  -- stop that follows, and exit in the state that the `Store` left.
  pub exit_after_store :
      (s : Server B) (call : Call) (req : StoreRequest)
      → s.secrets ≡ []
      → (l : Life B) × Reach B P os s l
        × (l.process ≡ exited)
        × (l.server ≡ (store B P os call req s).1)
  unfolding run step
  exit_after_store s call req empty =
      let now : Time = s.last_activity in
      let since_at = λ (name : Bytes). now in
      let swept = cleanup_empty now since_at s empty in
      (
        _,
        later
            (later
              (later (later start (tick now since_at refl refl))
                (handle (on_store call req) refl refl refl))
              (cleaner_stops refl (ap (λ (r : Bool × Server B). cleaner_after_tick B r.0) swept)))
            (exits refl refl),
        refl,
        ap (λ (r : Bool × Server B). (store B P os call req r.1).1) swept,
      )
