-- ===== src/Tests/Worker.antt =====
-- Two callers of the keyring's worker.
use burnafter.Prelude.{inl, ℕ, ◌≡◌, refl, List, [], ◌∷◌}
use burnafter.Bytes.{codes, bytes_eq}
use burnafter.Storage.Worker.{
  Request, storing, getting, Response, returned, System, Reach, Onward, still, moves, call,
  hand_over, system_called, reply, receive,
}
use burnafter.Storage.Worker.Invariant.{run_all, finish, taken, IsAnswer}
use burnafter.Storage.Worker.Serial.{worker_serialises}
use burnafter.Storage.Worker.Answers.{worker_answers}
use burnafter.Tests.Keyring.{kernel, gob, plain, old}

abbrev write : Request
write = storing (codes "key") (plain (codes "new"))

abbrev read : Request
read = getting (codes "key")

abbrev answered : List (ℕ × Request)
answered = (1, read) ∷ (0, write) ∷ []

abbrev asked : (y : System kernel gob) × Reach kernel gob old [] y
asked = (_, moves (moves still (call 0 write refl)) (call 1 read refl))

-- Both have called before the first one's system calls.
both : (y : System kernel gob) × Reach kernel gob old answered y
unfolding bytes_eq
both = (
  _,
  moves
      (moves
        (moves
          (moves
            (moves
              (moves
                (moves
                  (moves
                    (moves
                      (moves
                        (moves (moves asked.1 (hand_over 0 write refl refl))
                          (system_called 0 write _ _ refl))
                        (system_called 0 write _ _ refl))
                      (system_called 0 write _ _ refl))
                    (reply 0 write _ refl))
                  (hand_over 1 read refl refl))
                (system_called 1 read _ _ refl))
              (system_called 1 read _ _ refl))
            (system_called 1 read _ _ refl))
          (reply 1 read _ refl))
        (receive 1 read _ refl refl))
      (receive 0 write _ refl refl),
)

worker_serialises_example :
    (finish kernel gob both.0.worker both.0.keyring
      ≡ run_all kernel gob (taken kernel gob both.0.worker answered) old)
    × ((j : ℕ) (q : Request) (response : Response)
        → both.0.callers j ≡ returned q response
        → IsAnswer kernel gob old answered j q response)
worker_serialises_example = worker_serialises kernel gob old answered both.0 both.1

worker_answers_example :
    (k : List (ℕ × Request)) × (x : System kernel gob) × Onward kernel gob [] asked.0 k x
    × (response : Response) × (x.callers 1 ≡ returned read response)
    × IsAnswer kernel gob old k 1 read response
worker_answers_example = worker_answers kernel gob old [] asked.0 1 read asked.1 (inl refl)
