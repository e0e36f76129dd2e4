-- ===== src/Storage/Worker/Thread.antt =====
-- internal/secrets/keyring.go: the system calls of a request, one after the other, are the operation
-- of `Storage.Keyring`.
use burnafter.Prelude.{ℕ, ◌≡◌, refl, Bool, true, false, Option, none, some, Option-cases, inl, inr}
use burnafter.Bytes.{Bytes}
use burnafter.Result.{Error}
use burnafter.Storage.Keyring.{
  Kernel, Gob, store_on_thread, get_on_thread, delete_on_thread, added_key, unlinked_key,
  store_encoded, unlink_found, read_key,
}
use burnafter.Storage.Worker.{
  Request, storing, getting, deleting, Response, outcome, fetched, Task, done, system_call, task,
  store_task, replace_task, get_task, read_task, delete_task,
}

module _ (K : Kernel) (G : Gob) where
  abbrev outcome_of : Option Error × K.State → Response × K.State
  outcome_of (e, s) = (outcome e, s)

  -- A request as one function on the keyring.
  abbrev pub handle : Request → K.State → Response × K.State
  handle (storing id payload) s = outcome_of (store_on_thread K G id payload s)
  handle (getting id) s = (fetched (get_on_thread K G id s), s)
  handle (deleting id) s = outcome_of (delete_on_thread K G id s)

  -- A task with nothing in between.
  abbrev pub run_task : Task K G → K.State → Response × K.State
  run_task (done response) s = (response, s)
  run_task (system_call effect next) s = run_task (next s) (effect s)

  added_outcome :
      (r : Bool × K.State) → (outcome (added_key K G r).0, r.1) ≡ outcome_of (added_key K G r)
  added_outcome (true, s) = refl
  added_outcome (false, s) = refl

  unlinked_outcome :
      (r : Bool × K.State) → (outcome (unlinked_key K G r).0, r.1) ≡ outcome_of (unlinked_key K G r)
  unlinked_outcome (true, s) = refl
  unlinked_outcome (false, s) = refl

  run_task-replace :
      (id buf : Bytes) (o : Option ℕ) (s : K.State)
      → run_task (replace_task K G id buf o) s
        ≡ outcome_of (added_key K G (K.add_key id buf (unlink_found K G o s)))
  run_task-replace id buf none s = added_outcome (K.add_key id buf s)
  run_task-replace id buf (some key) s = added_outcome (K.add_key id buf (K.unlink key s).1)

  run_task-store :
      (id : Bytes) (o : Option Bytes) (s : K.State)
      → run_task (store_task K G id o) s ≡ outcome_of (store_encoded K G id o s)
  run_task-store id none s = refl
  run_task-store id (some buf) s = run_task-replace id buf (K.search id s) s

  run_task-read :
      (key : ℕ) (o : Option ℕ) (s : K.State)
      → run_task (read_task K G key o) s ≡ (fetched (read_key K G key o s), s)
  run_task-read key none s = refl
  run_task-read key (some size) s = elim (Option-cases (K.read key size s)) [
    | inl absent ↦ rw (absent, read_key)
    | inr (buf, present) ↦ rw (present, read_key)
  ]

  run_task-get :
      (id : Bytes) (s : K.State)
      → run_task (get_task K G (K.search id s)) s ≡ (fetched (get_on_thread K G id s), s)
  unfolding get_on_thread
  run_task-get id s = elim (Option-cases (K.search id s)) [
    | inl absent ↦ rw (absent, get_on_thread)
    | inr (key, present) ↦ rw (present, get_on_thread) (run_task-read key (K.size key s) s)
  ]

  run_task-delete :
      (id : Bytes) (s : K.State)
      → run_task (delete_task K G (K.search id s)) s ≡ outcome_of (delete_on_thread K G id s)
  unfolding delete_on_thread
  run_task-delete id s = elim (Option-cases (K.search id s)) [
    | inl absent ↦ rw (absent, delete_on_thread)
    | inr (key, present) ↦ rw (present, delete_on_thread) (unlinked_outcome (K.unlink key s))
  ]

  -- The system calls of a request, one after the other, are its function.
  pub run_task-task : (r : Request) (s : K.State) → run_task (task K G r) s ≡ handle r s
  unfolding store_on_thread
  run_task-task (storing id payload) s = run_task-store id (G.encode payload) s
  run_task-task (getting id) s = run_task-get id s
  run_task-task (deleting id) s = run_task-delete id s
