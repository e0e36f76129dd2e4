-- ===== src/Storage/Worker/Serial.antt =====
-- internal/secrets/keyring.go: the operations on the thread are not interleaved, and each caller gets the
-- response to its request.
use burnafter.Prelude.{ℕ, ◌≡◌, refl, ap, List}
use burnafter.Storage.Keyring.{Kernel, Gob}
use burnafter.Storage.Worker.{
  Request, Response, returned, Work, waiting, working, System, Reach, still, moves, call, hand_over,
  system_called, reply, receive,
}
use burnafter.Storage.Worker.Invariant.{
  run_all, IsAnswer, finish, taken, IsSerial, IsSerial-call, IsSerial-hand_over,
  IsSerial-system_called, IsSerial-reply, IsSerial-receive,
}

module _ (K : Kernel) (G : Gob) where
  Reach-IsSerial :
      (s : K.State) (h : List (ℕ × Request)) (y : System K G) → Reach K G s h y → IsSerial K G s h y
  Reach-IsSerial s h y still = record {
    free = λ e. refl;
    busy = λ i r t e. absurd (cc e);
    sent = λ j response e. absurd (cc e);
    got = λ j q response e. absurd (cc e);
  }
  Reach-IsSerial s h y (moves {k = k} {x = x} reached (call i r at)) =
      IsSerial-call K G s h x i r (Reach-IsSerial s h x reached) at
  Reach-IsSerial s h y (moves {k = k} {x = x} reached (hand_over i r at idles)) =
      IsSerial-hand_over K G s h x i r (Reach-IsSerial s h x reached) at idles
  Reach-IsSerial s h y (moves {k = k} {x = x} reached (system_called i r effect next at)) =
      IsSerial-system_called K G s h x i r effect next (Reach-IsSerial s h x reached) at
  Reach-IsSerial s h y (moves {k = k} {x = x} reached (reply i r response at)) =
      IsSerial-reply K G s k x i r response (Reach-IsSerial s k x reached) at
  Reach-IsSerial s h y (moves {k = k} {x = x} reached (receive i r response at full)) =
      IsSerial-receive K G s h x i r response (Reach-IsSerial s h x reached) at full

  finish-run_all :
      (s : K.State) (h : List (ℕ × Request)) (y : System K G)
      → IsSerial K G s h y
      → (work : Work K G) → y.worker ≡ work
      → finish K G work y.keyring ≡ run_all K G (taken K G work h) s
  finish-run_all s h y v waiting e = v.free e
  finish-run_all s h y v (working i r t) e = ap (λ u. u.1) (v.busy i r t e).rest

  -- Whatever callers there are, and however their sends and receives interleave with the worker's
  -- steps, one call of the kernel at a time: once the worker has finished the request it is at, if
  -- any, the keyring is as if the requests it took had been handled one after the other, each by
  -- its function on the keyring, and the response that a caller has returned with is the one to the
  -- request it sent, in that sequence.
  pub worker_serialises :
      (s : K.State) (h : List (ℕ × Request)) (y : System K G)
      → Reach K G s h y
      → (finish K G y.worker y.keyring ≡ run_all K G (taken K G y.worker h) s)
        × ((j : ℕ) (q : Request) (response : Response)
            → y.callers j ≡ returned q response
            → IsAnswer K G s h j q response)
  worker_serialises s h y reached =
      let v = Reach-IsSerial s h y reached in (finish-run_all s h y v y.worker refl, v.got)
