-- ===== src/Server/Quiet/Silence.antt =====
-- internal/server/server.go: without requests, the first tick after the last secret has expired ends the
-- daemon.
use burnafter.Prelude.{◌≡◌, refl, sym, ◌∙◌, ap, Option-cases, inl, inr, true, some}
use burnafter.Bytes.{Bytes}
use burnafter.Int.{ltb_ℤ}
use burnafter.GoMap.{lookup, NodupKeys}
use burnafter.Clock.{Time}
use burnafter.Crypto.{Primitives}
use burnafter.Storage.{Metadata, Storage}
use burnafter.Verify.{Machine}
use burnafter.Server.{Server}
use burnafter.Server.Bounds.{IsBounded, step-IsBounded}
use burnafter.Server.Cleanup.{cleanup}
use burnafter.Server.Quiet.Due.{HasEnd, last_end, all_due}
use burnafter.Server.Quiet.Idle.{EndsQuietly, ended, left-EndsQuietly}
use burnafter.Server.Lifecycle.{
  selecting, Life, running, run, cleaner_after_tick, Step, handle, tick, cleaner_stops,
  cleaner_closes, cleaner_returns, timer_fires, timer_stops, timer_closes, exits, Reach, start,
  later, Process, exited, crashed,
}
use burnafter.Server.Quiet.{IsQuiet}
use burnafter.Server.Quiet.Ends.{AllEnd, step-AllEnd}
use burnafter.Server.Quiet.Keeps.{Keeps, tick-Keeps}
use burnafter.Server.Step.{Event, on_tick, step}
use burnafter.Server.Sweep.{cleanup_exact}

module _ (B : Storage) (P : Primitives) (os : Machine) where
  -- A run without requests.
  pub data QuietRun (l : Life B) : Life B → Type 0 where
    still : QuietRun l l
    moves : {k m : Life B} → QuietRun l k → (e : Step B P os k m) → IsQuiet B P os e → QuietRun l m

  abbrev pub ticked : Life B → Time → (Bytes → Time) → Life B
  ticked l now since_at = record l {
    server = (cleanup B now since_at l.server).1;
    cleaner = cleaner_after_tick B (cleanup B now since_at l.server).0;
  }

  -- Bounded, and every secret has an end.
  record IsOrderly (s : Server B) : Type 0 where
    bounded : IsBounded B s
    ends : AllEnd B s

  step-IsOrderly : (e : Event) (s : Server B) → IsOrderly s → IsOrderly (step B P os e s)
  step-IsOrderly e s o = record {
    bounded = step-IsBounded B P os e s o.bounded;
    ends = step-AllEnd B P os e s o.bounded.nodup o.ends;
  }

  Step-IsOrderly : (l m : Life B) → Step B P os l m → IsOrderly l.server → IsOrderly m.server
  unfolding step
  Step-IsOrderly l m (handle e req up serving) o = step-IsOrderly e l.server o
  Step-IsOrderly l m (tick now since_at up here) o =
      step-IsOrderly (on_tick now since_at) l.server o
  Step-IsOrderly l m (cleaner_stops up here) o = o
  Step-IsOrderly l m (cleaner_closes up here) o = o
  Step-IsOrderly l m (cleaner_returns up here c) o = o
  Step-IsOrderly l m (timer_fires up armed) o = o
  Step-IsOrderly l m (timer_stops n up some_stop) o = o
  Step-IsOrderly l m (timer_closes n up some_close) o = o
  Step-IsOrderly l m (exits up down) o = o

  quiet-Keeps :
      (k m : Life B) (e : Step B P os k m)
      → IsQuiet B P os e
      → IsBounded B k.server
      → Keeps B k.server m.server
  quiet-Keeps k m (handle e req up serving) quiet b = absurd quiet
  quiet-Keeps k m (tick now since_at up here) quiet b = tick-Keeps B now since_at k.server b.nodup
  quiet-Keeps k m (cleaner_stops up here) quiet b = λ n v known. known
  quiet-Keeps k m (cleaner_closes up here) quiet b = λ n v known. known
  quiet-Keeps k m (cleaner_returns up here c) quiet b = λ n v known. known
  quiet-Keeps k m (timer_fires up armed) quiet b = λ n v known. known
  quiet-Keeps k m (timer_stops n up some_stop) quiet b = λ n v known. known
  quiet-Keeps k m (timer_closes n up some_close) quiet b = λ n v known. known
  quiet-Keeps k m (exits up down) quiet b = λ n v known. known

  Reach-IsOrderly :
      (s : Server B) (l : Life B) → Reach B P os s l → IsOrderly s → IsOrderly l.server
  unfolding run
  Reach-IsOrderly s l start o = o
  Reach-IsOrderly s l (later {l = k} reached e) o =
      Step-IsOrderly k l e (Reach-IsOrderly s k reached o)

  -- What a run without requests keeps.
  QuietRun-Keeps :
      (s : Server B)
      → IsOrderly s
      → (l k : Life B) → Reach B P os s l
      → QuietRun l k
      → Reach B P os s k × Keeps B l.server k.server
  QuietRun-Keeps s o l k reached still = (reached, λ n m known. known)
  QuietRun-Keeps s o l k reached (moves {k = j} quiet e silent) =
      let (reached', kept) = QuietRun-Keeps s o l j reached quiet in
      (
        later reached' e,
        λ n m known.
            kept n m (quiet-Keeps j k e silent (Reach-IsOrderly s j reached' o).bounded n m known),
      )

  -- A tick after the last end finds nothing left.
  cleanup_stops :
      (now : Time) (since_at : Bytes → Time) (s t : Server B)
      → NodupKeys t.secrets
      → Keeps B s t
      → ((n : Bytes) (m : Metadata) → lookup n s.secrets ≡ some m → HasEnd m)
      → ((n : Bytes) → ltb_ℤ (last_end s.secrets) (since_at n) ≡ true)
      → ltb_ℤ (last_end s.secrets) now ≡ true
      → (cleanup B now since_at t).0 ≡ true
  cleanup_stops now since_at s t unique kept ends late late' =
      let swept = cleanup_exact B now since_at t unique in
      swept.1.1 (λ n. swept.0 n ∙ elim (Option-cases (lookup n t.secrets)) [
        | inl absent ↦ rw absent
        | inr (m, known) ↦
            let was = kept n m known in
            rw (known, all_due s.secrets now since_at n m was (ends n m was) (late n) late')
      ])

  -- From a server within its bound whose TTLs, and the default one, are below the largest duration,
  -- in any state that its goroutines and requests have reached: if no request comes any more, then
  -- at the first tick of the cleanup that reads the clock, each time, after every secret has
  -- expired, by its inactivity TTL or at its absolute deadline, whichever is earlier, the daemon
  -- begins to end: every run without requests from there ends after finitely many steps, and none
  -- gets stuck before the process has ended.
  pub silence-EndsQuietly :
      (s : Server B) (l k : Life B) (now : Time) (since_at : Bytes → Time)
      → IsBounded B s
      → AllEnd B s
      → Reach B P os s l
      → QuietRun l k
      → k.cleaner ≡ selecting
      → ((n : Bytes) → ltb_ℤ (last_end l.server.secrets) (since_at n) ≡ true)
      → ltb_ℤ (last_end l.server.secrets) now ≡ true
      → EndsQuietly B P os (ticked k now since_at)
  silence-EndsQuietly s l k now since_at b a reached quiet here late late' =
      let o : IsOrderly s = record { bounded = b; ends = a } in
      let (reached', kept) = QuietRun-Keeps s o l k reached quiet in
      let unique = (Reach-IsOrderly s k reached' o).bounded.nodup in
      let stops =
        cleanup_stops now since_at l.server k.server unique kept
          (Reach-IsOrderly s l reached o).ends.each late late' in
      by_process reached' stops k.process refl
    where
      by_process :
          Reach B P os s k
          → (cleanup B now since_at k.server).0 ≡ true
          → (p : Process) → k.process ≡ p
          → EndsQuietly B P os (ticked k now since_at)
      by_process reached' stops running up =
          left-EndsQuietly B P os s (ticked k now since_at)
            (later reached' (tick now since_at up here))
            (λ e. absurd (cc (sym (ap (cleaner_after_tick B) stops) ∙ e)))
      by_process reached' stops exited gone = ended (λ e. absurd (cc (sym gone ∙ e)))
      by_process reached' stops crashed gone = ended (λ e. absurd (cc (sym gone ∙ e)))
