-- ===== src/Storage/Worker/Invariant.antt =====
-- internal/secrets/keyring.go: what each step of the callers and of the worker keeps.
use burnafter.Prelude.{
  ℕ, ◌≡◌, refl, sym, ◌∙◌, ap, false, none, some, List, [], ◌∷◌, ◌⊎◌, Option-cases, inl, inr, ◌==◌,
  Bool-cases, if_true, if_false, arith,
}
use burnafter.Storage.Keyring.{Kernel, Gob}
use burnafter.Storage.Worker.{
  Request, Response, idle, sending, receiving, returned, update, Task, done, system_call, task,
  Work, waiting, working, System,
}
use burnafter.Storage.Worker.Thread.{handle, run_task, run_task-task}

module _ (K : Kernel) (G : Gob) where
  -- The requests one after the other.
  abbrev pub run_all : List (ℕ × Request) → K.State → K.State
  run_all [] s = s
  run_all ((i, r) ∷ h) s = (handle K G r (run_all h s)).1

  -- The request of a caller is in the sequence, and this is the response to it there.
  abbrev pub IsAnswer : K.State → List (ℕ × Request) → ℕ → Request → Response → Type 0
  IsAnswer s [] i r response = ⊥
  IsAnswer s ((j, q) ∷ h) i r response =
      ((j ≡ i) × (q ≡ r) × (response ≡ (handle K G q (run_all h s)).0)) ⊎ IsAnswer s h i r response

  -- The keyring once the worker has finished what it is at, and the requests it has answered then.
  abbrev pub finish : Work K G → K.State → K.State
  finish waiting s = s
  finish (working i r t) s = (run_task K G t s).1

  abbrev pub taken : Work K G → List (ℕ × Request) → List (ℕ × Request)
  taken waiting h = h
  taken (working i r t) h = (i, r) ∷ h

  -- The one request on the thread has a caller that waits, with nothing in its channel, and what is
  -- left of it leads to what its function gives.
  pub record IsOnThread (s : K.State) (h : List (ℕ × Request)) (y : System K G) (i : ℕ)
      (r : Request) (t : Task K G) : Type 0 where
    pub waits : y.callers i ≡ receiving r
    pub empty : y.channels i ≡ none
    pub rest : run_task K G t y.keyring ≡ handle K G r (run_all h s)

  pub record IsSerial (s : K.State) (h : List (ℕ × Request)) (y : System K G) : Type 0 where
    pub free : y.worker ≡ waiting → y.keyring ≡ run_all h s
    pub busy :
        (i : ℕ) (r : Request) (t : Task K G) → y.worker ≡ working i r t → IsOnThread s h y i r t
    pub sent :
        (j : ℕ) (response : Response)
        → y.channels j ≡ some response
        → (q : Request) × (y.callers j ≡ receiving q) × IsAnswer s h j q response
    pub got :
        (j : ℕ) (q : Request) (response : Response)
        → y.callers j ≡ returned q response
        → IsAnswer s h j q response

  pub update-cases {ℓ} :
      {A : Type ℓ} (f : ℕ → A) (i : ℕ) (c : A) (j : ℕ)
      → ((update f i c j ≡ c) × (i ≡ j)) ⊎ ((update f i c j ≡ f j) × ((i == j) ≡ false))
  update-cases f i c j = elim (Bool-cases (i == j)) [
    | inl same ↦ inl (if_true _ _ same, ground arith)
    | inr other ↦ inr (if_false _ _ other, other)
  ]

  -- A call begins with one caller's step from `idle`.
  pub IsSerial-call :
      (s : K.State) (h : List (ℕ × Request)) (y : System K G) (i : ℕ) (r : Request)
      → IsSerial s h y
      → y.callers i ≡ idle
      → IsSerial s h (record y { callers = update y.callers i (sending r) })
  IsSerial-call s h y i r v at = record {
    free = v.free;
    busy = λ j q t e.
        let was = v.busy j q t e in
        record {
          waits = elim (update-cases y.callers i (sending r) j) [
            | inl (new, same) ↦ absurd (cc (sym at ∙ ap y.callers same ∙ was.waits))
            | inr (old, other) ↦ old ∙ was.waits
          ];
          empty = was.empty;
          rest = was.rest;
        };
    sent = λ j response e.
        let (q, waits, is) = v.sent j response e in
        elim (update-cases y.callers i (sending r) j) [
          | inl (new, same) ↦ absurd (cc (sym at ∙ ap y.callers same ∙ waits))
          | inr (old, other) ↦ (q, old ∙ waits, is)
        ];
    got = λ j q response e. elim (update-cases y.callers i (sending r) j) [
      | inl (new, same) ↦ absurd (cc (sym new ∙ e))
      | inr (old, other) ↦ v.got j q response (sym old ∙ e)
    ];
  }

  pub IsSerial-hand_over :
      (s : K.State) (h : List (ℕ × Request)) (y : System K G) (i : ℕ) (r : Request)
      → IsSerial s h y
      → y.callers i ≡ sending r
      → y.worker ≡ waiting
      → IsSerial s h (record y {
        worker = working i r (task K G r);
        callers = update y.callers i (receiving r);
      })
  IsSerial-hand_over s h y i r v at idles = record {
    free = λ e. absurd (cc e);
    busy = λ j q t e.
        let same : i ≡ j = cc e in
        let asked : r ≡ q = cc e in
        let begun : task K G r ≡ t = cc e in
        record {
          waits = elim (update-cases y.callers i (receiving r) j) [
            | inl (new, _) ↦ new ∙ ap receiving asked
            | inr (old, other) ↦ absurd (ground arith)
          ];
          empty = elim (Option-cases (y.channels j)) [
            | inl none_yet ↦ none_yet
            | inr (response, full) ↦
                absurd (cc (sym at ∙ ap y.callers same ∙ (v.sent j response full).1))
          ];
          rest =
              ap (λ u. run_task K G u y.keyring) (sym begun)
              ∙ run_task-task K G r y.keyring
              ∙ ap (handle K G r) (v.free idles)
              ∙ ap (λ u. handle K G u (run_all h s)) asked;
        };
    sent = λ j response e.
        let (q, waits, is) = v.sent j response e in
        elim (update-cases y.callers i (receiving r) j) [
          | inl (new, same) ↦ absurd (cc (sym at ∙ ap y.callers same ∙ waits))
          | inr (old, other) ↦ (q, old ∙ waits, is)
        ];
    got = λ j q response e. elim (update-cases y.callers i (receiving r) j) [
      | inl (new, same) ↦ absurd (cc (sym new ∙ e))
      | inr (old, other) ↦ v.got j q response (sym old ∙ e)
    ];
  }

  pub IsSerial-system_called :
      (s : K.State) (h : List (ℕ × Request)) (y : System K G) (i : ℕ) (r : Request)
      (effect : K.State → K.State) (next : K.State → Task K G)
      → IsSerial s h y
      → y.worker ≡ working i r (system_call effect next)
      → IsSerial s h
          (record y { keyring = effect y.keyring; worker = working i r (next y.keyring) })
  IsSerial-system_called s h y i r effect next v at = record {
    free = λ e. absurd (cc e);
    busy = λ j q t e.
        let was = v.busy i r (system_call effect next) at in
        let same : i ≡ j = cc e in
        let asked : r ≡ q = cc e in
        let left : next y.keyring ≡ t = cc e in
        record {
          waits = ap y.callers (sym same) ∙ was.waits ∙ ap receiving asked;
          empty = ap y.channels (sym same) ∙ was.empty;
          rest =
              ap (λ u. run_task K G u (effect y.keyring)) (sym left)
              ∙ was.rest
              ∙ ap (λ u. handle K G u (run_all h s)) asked;
        };
    sent = v.sent;
    got = v.got;
  }

  pub IsSerial-reply :
      (s : K.State) (h : List (ℕ × Request)) (y : System K G) (i : ℕ) (r : Request)
      (response : Response)
      → IsSerial s h y
      → y.worker ≡ working i r (done response)
      → IsSerial s
          ((i, r) ∷ h)
          (record y { worker = waiting; channels = update y.channels i (some response) })
  IsSerial-reply s h y i r response v at =
      let was = v.busy i r (done response) at in
      record {
        free = λ e. ap (λ u. u.1) was.rest;
        busy = λ j q t e. absurd (cc e);
        sent = λ j answer e. elim (update-cases y.channels i (some response) j) [
          | inl (new, same) ↦
              let told : answer ≡ response = cc (sym e ∙ new) in
              (
                r,
                ap y.callers (sym same) ∙ was.waits,
                inl (same, refl, told ∙ ap (λ u. u.0) was.rest),
              )
          | inr (old, other) ↦
              let (q, waits, is) = v.sent j answer (sym old ∙ e) in (q, waits, inr is)
        ];
        got = λ j q answer e. inr (v.got j q answer e);
      }

  pub IsSerial-receive :
      (s : K.State) (h : List (ℕ × Request)) (y : System K G) (i : ℕ) (r : Request)
      (response : Response)
      → IsSerial s h y
      → y.callers i ≡ receiving r
      → y.channels i ≡ some response
      → IsSerial s h (record y {
        callers = update y.callers i (returned r response);
        channels = update y.channels i none;
      })
  IsSerial-receive s h y i r response v at full = record {
    free = v.free;
    busy = λ j q t e.
        let was = v.busy j q t e in
        elim (Bool-cases (i == j)) [
          | inl eq ↦
              let same : i ≡ j = ground arith in
              absurd (cc (sym full ∙ ap y.channels same ∙ was.empty))
          | inr other ↦ record {
            waits = if_false _ _ other ∙ was.waits;
            empty = if_false _ _ other ∙ was.empty;
            rest = was.rest;
          }
        ];
    sent = λ j answer e. elim (update-cases y.channels i none j) [
      | inl (new, same) ↦ absurd (cc (sym new ∙ e))
      | inr (old, other) ↦
          let (q, waits, is) = v.sent j answer (sym old ∙ e) in (q, if_false _ _ other ∙ waits, is)
    ];
    got = λ j q answer e. elim (update-cases y.callers i (returned r response) j) [
      | inl (new, same) ↦
          let ended : returned r response ≡ returned q answer = sym new ∙ e in
          let asked : r ≡ q = cc ended in
          let told : response ≡ answer = cc ended in
          let (p, waits, is) = v.sent i response full in
          let known : p ≡ q = cc (sym waits ∙ at ∙ ap receiving asked) in
          rw (← same, ← known, ← told) is
      | inr (old, other) ↦ v.got j q answer (sym old ∙ e)
    ];
  }
