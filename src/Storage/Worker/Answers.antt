-- ===== src/Storage/Worker/Answers.antt =====
-- internal/secrets/keyring.go: the worker comes to every caller.
use burnafter.Prelude.{
  ℕ, ◌≡◌, refl, sym, ◌∙◌, ap, some, List, ◌∷◌, ◌⊎◌, inl, inr, ◌==◌, if_true, if_false, arith,
}
use burnafter.Storage.Keyring.{Kernel, Gob}
use burnafter.Storage.Worker.{
  Request, Response, sending, receiving, returned, Task, done, system_call, task, Work, waiting,
  working, System, Reach, Onward, still, moves, call, hand_over, system_called, reply, receive,
}
use burnafter.Storage.Worker.Invariant.{IsAnswer, update-cases}
use burnafter.Storage.Worker.Serial.{worker_serialises}

module _ (K : Kernel) (G : Gob) (s : K.State) where
  -- The worker has the request of a caller that waits, or the response is in its channel.
  abbrev IsAttended : System K G → Type 0
  IsAttended y =
      (j : ℕ) (q : Request)
      → y.callers j ≡ receiving q
      → ((response : Response) × (y.channels j ≡ some response))
        ⊎ ((t : Task K G) × (y.worker ≡ working j q t))

  Reach-IsAttended : (h : List (ℕ × Request)) (y : System K G) → Reach K G s h y → IsAttended y
  Reach-IsAttended h y still j q e = absurd (cc e)
  Reach-IsAttended h y (moves {k = k} {x = x} reached (call i r at)) j q e =
      elim (update-cases K G x.callers i (sending r) j) [
        | inl (new, same) ↦ absurd (cc (sym new ∙ e))
        | inr (old, other) ↦ Reach-IsAttended h x reached j q (sym old ∙ e)
      ]
  Reach-IsAttended h y (moves {k = k} {x = x} reached (hand_over i r at idles)) j q e =
      elim (update-cases K G x.callers i (receiving r) j) [
        | inl (new, same) ↦
            let told : receiving r ≡ receiving q = sym new ∙ e in
            let asked : r ≡ q = cc told in inr (task K G r, rw (same, asked))
        | inr (old, other) ↦ elim (Reach-IsAttended h x reached j q (sym old ∙ e)) [
          | inl full ↦ inl full
          | inr (t, busy) ↦ absurd (cc (sym idles ∙ busy))
        ]
      ]
  Reach-IsAttended h y (moves {k = k} {x = x} reached (system_called i r effect next at)) j q e =
      elim (Reach-IsAttended h x reached j q e) [
        | inl full ↦ inl full
        | inr (t, busy) ↦
            let both : working i r (system_call effect next) ≡ working j q t = sym at ∙ busy in
            let same : i ≡ j = cc both in
            let asked : r ≡ q = cc both in inr (next x.keyring, rw (same, asked))
      ]
  Reach-IsAttended h y (moves {k = k} {x = x} reached (reply i r response at)) j q e =
      elim (update-cases K G x.channels i (some response) j) [
        | inl (new, same) ↦ inl (response, new)
        | inr (old, other) ↦ elim (Reach-IsAttended k x reached j q e) [
          | inl (before, full) ↦ inl (before, old ∙ full)
          | inr (t, busy) ↦
              let both : working i r (done response) ≡ working j q t = sym at ∙ busy in
              let same : i ≡ j = cc both in absurd (ground arith)
        ]
      ]
  Reach-IsAttended h y (moves {k = k} {x = x} reached (receive i r response at full)) j q e =
      elim (update-cases K G x.callers i (returned r response) j) [
        | inl (new, same) ↦ absurd (cc (sym new ∙ e))
        | inr (old, other) ↦ elim (Reach-IsAttended h x reached j q (sym old ∙ e)) [
          | inl (before, there) ↦ inl (before, if_false _ _ other ∙ there)
          | inr busy ↦ inr busy
        ]
      ]

  -- The worker comes to the end of what is left of a request.
  finishes :
      (h : List (ℕ × Request)) (y : System K G) (i : ℕ) (r : Request) (t : Task K G)
      (k : List (ℕ × Request)) (x : System K G)
      → Onward K G h y k x
      → x.worker ≡ working i r t
      → (k' : List (ℕ × Request)) × (x' : System K G) × Onward K G h y k' x'
        × (x'.worker ≡ waiting)
        × (x'.callers ≡ x.callers)
        × ((response : Response) × (x'.channels i ≡ some response))
  finishes h y i r (done response) k x onward at = (
    (i, r) ∷ k,
    _,
    moves onward (reply i r response at),
    refl,
    refl,
    (response, if_true {b = i == i} _ _ (ground arith)),
  )
  finishes h y i r (system_call effect next) k x onward at =
      finishes h y i r (next x.keyring) k _ (moves onward (system_called i r effect next at)) refl

  frees :
      (h : List (ℕ × Request)) (y : System K G) (work : Work K G)
      → y.worker ≡ work
      → (k : List (ℕ × Request)) × (x : System K G) × Onward K G h y k x
        × (x.worker ≡ waiting)
        × (x.callers ≡ y.callers)
  frees h y waiting at = (h, y, still, at, refl)
  frees h y (working i r t) at =
      let (k, x, onward, idles, same, _) = finishes h y i r t h y still at in
      (k, x, onward, idles, same)

  abbrev Returns : List (ℕ × Request) → System K G → ℕ → Request → Type 0
  Returns h y i r =
      (k : List (ℕ × Request)) × (x : System K G) × Onward K G h y k x
      × ((response : Response) × (x.callers i ≡ returned r response))

  receives :
      (h : List (ℕ × Request)) (y : System K G) (i : ℕ) (r : Request) (response : Response)
      (k : List (ℕ × Request)) (x : System K G)
      → Onward K G h y k x
      → x.callers i ≡ receiving r
      → x.channels i ≡ some response
      → Returns h y i r
  receives h y i r response k x onward at full = (
    k,
    _,
    moves onward (receive i r response at full),
    (response, if_true {b = i == i} _ _ (ground arith)),
  )

  serves :
      (h : List (ℕ × Request)) (y : System K G) (i : ℕ) (r : Request) (t : Task K G)
      (k : List (ℕ × Request)) (x : System K G)
      → Onward K G h y k x
      → x.callers i ≡ receiving r
      → x.worker ≡ working i r t
      → Returns h y i r
  serves h y i r t k x onward at busy =
      let (k', x', onward', _, same, (response, full)) = finishes h y i r t k x onward busy in
      receives h y i r response k' x' onward' (ap (λ f. f i) same ∙ at) full

  sent-Returns :
      (h : List (ℕ × Request)) (y : System K G) (i : ℕ) (r : Request)
      → y.callers i ≡ sending r
      → Returns h y i r
  sent-Returns h y i r at =
      let (k, x, onward, idles, same) = frees h y y.worker refl in
      serves h y i r (task K G r) k _ (moves onward (hand_over i r (ap (λ f. f i) same ∙ at) idles))
        (if_true {b = i == i} _ _ (ground arith)) refl

  received-Returns :
      (h : List (ℕ × Request)) (y : System K G) (i : ℕ) (r : Request)
      → Reach K G s h y
      → y.callers i ≡ receiving r
      → Returns h y i r
  received-Returns h y i r reached at = elim (Reach-IsAttended h y reached i r at) [
    | inl (response, full) ↦ receives h y i r response h y still at full
    | inr (t, busy) ↦ serves h y i r t h y still at busy
  ]

  called-Returns :
      (h : List (ℕ × Request)) (y : System K G) (i : ℕ) (r : Request)
      → Reach K G s h y
      → (y.callers i ≡ sending r) ⊎ (y.callers i ≡ receiving r)
      → Returns h y i r
  called-Returns h y i r reached (inl at) = sent-Returns h y i r at
  called-Returns h y i r reached (inr at) = received-Returns h y i r reached at

  onwards :
      {h k : List (ℕ × Request)} {y x : System K G} {k' : List (ℕ × Request)} {x' : System K G}
      → Onward K G h y k x
      → Onward K G k x k' x'
      → Onward K G h y k' x'
  onwards before still = before
  onwards before (moves after m) = moves (onwards before after) m

  -- No call of the keyring backend is stuck: from any state that the callers and the worker can
  -- reach, where a caller is at its send or at its receive, finitely many steps can bring it to
  -- return, with a response that is the one to its request, in the sequence of the requests that
  -- the worker has answered.
  pub worker_answers :
      (h : List (ℕ × Request)) (y : System K G) (i : ℕ) (r : Request)
      → Reach K G s h y
      → (y.callers i ≡ sending r) ⊎ (y.callers i ≡ receiving r)
      → (k : List (ℕ × Request)) × (x : System K G) × Onward K G h y k x
        × (response : Response) × (x.callers i ≡ returned r response)
        × IsAnswer K G s k i r response
  worker_answers h y i r reached called =
      let (k, x, onward, (response, back)) = called-Returns h y i r reached called in
      (
        k,
        x,
        onward,
        response,
        back,
        (worker_serialises K G s k x (onwards reached onward)).1 i r response back,
      )
