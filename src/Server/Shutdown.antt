-- ===== src/Server/Shutdown.antt =====
-- internal/server/server.go: how the daemon ends.
use burnafter.Prelude.{
  ℕ, ◌≡◌, refl, sym, ◌∙◌, ap, Bool, true, false, arith, ◌≢◌, Option-cases, Bool-cases, inl, inr,
}
use burnafter.Int.{pos, ltb_ℤ}
use burnafter.Crypto.{Primitives}
use burnafter.Storage.{Storage, Fetched, found, null, failed}
use burnafter.Verify.{Machine}
use burnafter.Bytes.{Bytes}
use burnafter.Result.{Result, ok, err}
use burnafter.GoMap.{lookup}
use burnafter.Storage.{Metadata}
use burnafter.Server.{Server, Call, GetRequest, is_inactive, is_past_deadline}
use burnafter.Server.Get.{get, get_known, get_verified, answer, answer_fetched, open_payload}
use burnafter.Server.Step.{Event, on_store, on_get, on_ping, on_tick}
use burnafter.Server.Lifecycle.{
  Channel, opened, Cleaner, selecting, stopping, closing, returned, crashed, Life, run,
  process_after_close, process_after_get, process_after, running, cleaner_after_tick, Step, handle,
  tick, cleaner_stops, cleaner_closes, cleaner_returns, timer_fires, timer_stops, timer_closes,
  exits, Reach, start, later,
}
use burnafter.Server.{Bytes}
use burnafter.Prelude.{◌≢◌}
use burnafter.Storage.{null}
use burnafter.Server.{Result}
use burnafter.Server.{GetRequest}
use burnafter.Server.{Call}

-- The channel is open until the cleaner returns.
abbrev IsOpenBefore : Cleaner → Channel → Type 0
IsOpenBefore selecting c = c ≡ opened
IsOpenBefore stopping c = c ≡ opened
IsOpenBefore closing c = c ≡ opened
IsOpenBefore returned c = Unit {0}

IsOpenBefore-after_tick :
    (B : Storage) (b : Bool) (c : Channel) → c ≡ opened → IsOpenBefore (cleaner_after_tick B b) c
IsOpenBefore-after_tick B true c h = h
IsOpenBefore-after_tick B false c h = h

record NoTimer (has_timer armed : Bool) (stops closes : ℕ) : Type 0 where
  untimed : has_timer ≡ false
  unarmed : armed ≡ false
  no_stops : stops ≡ 0
  no_closes : closes ≡ 0

module _ (B : Storage) (P : Primitives) (os : Machine)
    (not_null : (id : Bytes) (st : B.State) → B.get id st ≢ null) where
  answer_runs : (r : Result Bytes) → process_after_get (answer P r) ≡ running
  answer_runs (ok plaintext) = refl
  answer_runs (err e) = refl

  fetched_runs :
      (hash : Bytes) (req : GetRequest) (session_id : Bytes) (f : Fetched)
      → f ≢ null
      → process_after_get (answer_fetched P hash req session_id f) ≡ running
  fetched_runs hash req session_id (found p) present =
      answer_runs (open_payload P hash req session_id p)
  fetched_runs hash req session_id null present = absurd (present refl)
  fetched_runs hash req session_id (failed e) present = refl

  known_runs :
      (call : Call) (req : GetRequest) (hash : Bytes) (m : Metadata) (s : Server B)
      → process_after_get (get_known B P os call req hash m s).0 ≡ running
  unfolding get_known
  known_runs call req hash m s = elim (Bool-cases (is_inactive m (call.now 2))) [
    | inl inactive ↦ rw inactive
    | inr active ↦ elim (Bool-cases (is_past_deadline m (call.now 1))) [
      | inl past ↦ rw (active, past)
      | inr early ↦
          rw (active, early)
            (fetched_runs hash req s.session_id (B.get req.name s.storage)
              (not_null req.name s.storage))
    ]
  ]

  verified_runs :
      (call : Call) (req : GetRequest) (r : Result Bytes) (s : Server B)
      → process_after_get (get_verified B P os call req r s).0 ≡ running
  verified_runs call req (err e) s = refl
  verified_runs call req (ok hash) s = elim (Option-cases (lookup req.name s.secrets)) [
    | inl absent ↦ rw (absent, get_verified)
    | inr (m, known) ↦ rw (known, get_verified) (known_runs call req hash m s)
  ]

  event_runs : (e : Event) (s : Server B) → process_after B P os e s ≡ running
  unfolding get
  event_runs (on_get call req) s = verified_runs call req _ _
  event_runs (on_store call req) s = refl
  event_runs (on_ping now) s = refl
  event_runs (on_tick now since_at) s = refl

  record IsTimeless (l : Life B) : Type 0 where
    no_timer : NoTimer l.has_timer l.armed l.stops l.closes
    open_before : IsOpenBefore l.cleaner l.channel
    survives : l.process ≡ crashed → ⊥

  Step-IsTimeless : (l m : Life B) → IsTimeless l → Step B P os l m → IsTimeless m
  Step-IsTimeless l m i (handle e req up serving) = record {
    no_timer = record {
      untimed = i.no_timer.untimed;
      unarmed = i.no_timer.untimed;
      no_stops = i.no_timer.no_stops;
      no_closes = i.no_timer.no_closes;
    };
    open_before = i.open_before;
    survives = λ crash. absurd (cc (sym (event_runs e l.server) ∙ crash));
  }
  Step-IsTimeless l m i (tick now since_at up here) = record {
    no_timer = i.no_timer;
    open_before = IsOpenBefore-after_tick B _ _ (rw here at i.open_before);
    survives = i.survives;
  }
  Step-IsTimeless l m i (cleaner_stops up here) = record {
    no_timer = i.no_timer;
    open_before = rw here at i.open_before;
    survives = i.survives;
  }
  Step-IsTimeless l m i (cleaner_closes up here) = record {
    no_timer = i.no_timer;
    open_before = tt;
    survives = λ e.
        let open_now : l.channel ≡ opened = rw here at i.open_before in
        absurd (cc (sym (ap (process_after_close B) open_now) ∙ e));
  }
  Step-IsTimeless l m i (cleaner_returns up here c) = record {
    no_timer = i.no_timer;
    open_before = tt;
    survives = i.survives;
  }
  Step-IsTimeless l m i (timer_fires up armed) = absurd (cc (sym armed ∙ i.no_timer.unarmed))
  Step-IsTimeless l m i (timer_stops n up some_stop) =
      absurd (omega (arith, some_stop, i.no_timer.no_stops))
  Step-IsTimeless l m i (timer_closes n up some_close) =
      absurd (omega (arith, some_close, i.no_timer.no_closes))
  Step-IsTimeless l m i (exits up down) = record {
    no_timer = i.no_timer;
    open_before = i.open_before;
    survives = λ e. absurd (cc e);
  }

  run-IsTimeless :
      (s : Server B) → ltb_ℤ (pos 0) s.options.inactivity_timeout ≡ false → IsTimeless (run B s)
  unfolding run
  run-IsTimeless s h = record {
    no_timer = record { untimed = h; unarmed = h; no_stops = refl; no_closes = refl };
    open_before = refl;
    survives = λ e. absurd (cc e);
  }

  Reach-IsTimeless :
      (s : Server B) (l : Life B)
      → ltb_ℤ (pos 0) s.options.inactivity_timeout ≡ false
      → Reach B P os s l
      → IsTimeless l
  Reach-IsTimeless s l h start = run-IsTimeless s h
  Reach-IsTimeless s l h (later {l = k} r move) =
      Step-IsTimeless k l (Reach-IsTimeless s k h r) move

  -- Over a backend that never returns a nil payload, a server without an inactivity timeout never
  -- panics: in no state that its goroutines and requests can reach, in any interleaving, has a
  -- `Get` dereferenced a nil payload or has the shutdown channel been closed twice.
  pub never_crashes :
      (s : Server B) (l : Life B)
      → ltb_ℤ (pos 0) s.options.inactivity_timeout ≡ false
      → Reach B P os s l
      → ¬ (l.process ≡ crashed)
  never_crashes s l h r = (Reach-IsTimeless s l h r).survives
