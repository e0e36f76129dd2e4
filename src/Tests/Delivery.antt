-- ===== src/Tests/Delivery.antt =====
-- A secret between the sections of other requests, at a small server.
use burnafter.Prelude.{◌*◌, ◌≡◌, refl, none, [], replicate}
use burnafter.Clock.{second}
use burnafter.Int.{pos}
use burnafter.Bytes.{codes}
use burnafter.GoMap.{lookup}
use burnafter.Result.{ok}
use burnafter.Storage.{Payload, IsReliable-IsFaithful}
use burnafter.Storage.Memory.{memory_storage, memory_storage-IsReliable}
use burnafter.Server.{Server, granted, update_activity}
use burnafter.Server.Get.{answer_fetched}
use burnafter.Server.RoundTrip.{prepare_total, request_for}
use burnafter.Server.Store.{exceeds_limits, prepare}
use burnafter.Server.Sections.{
  keeping, recording, System, begin, moved, Reach, start, records, pings, sweep_begins,
}
use burnafter.Server.Sections.{set_at}
use burnafter.Prelude.{ℕ, Bool-cases, inl, inr, ◌==◌}
use burnafter.Storage.Memory
use burnafter.Server.Sections.Delivery.{SparesName, Spares, reads_stored}
use burnafter.Tests.Toy.{toy, toy-IsSound, zeros-IsReader}
use burnafter.Tests.World.{machine, fresh, call_at, keep, hash_7, identify_7}

abbrev active : Server memory_storage
active = update_activity memory_storage (pos (100 * second)) fresh

room : exceeds_limits fresh.options keep fresh.secrets ≡ none
unfolding exceeds_limits lookup
room = refl

prepared : (p : Payload) × (prepare memory_storage toy machine (call_at 7 100) keep active ≡ ok p)
unfolding update_activity
prepared =
    let (p, e, _) =
      prepare_total memory_storage toy machine toy-IsSound (call_at 7 100) keep active hash_7
        (replicate 32 0) (replicate 12 0) identify_7 room refl zeros-IsReader refl in
    (p, e)

-- The `Store` is about to call the backend.
abbrev storing : System memory_storage
storing =
    moved memory_storage (begin memory_storage fresh) 0 (keeping (call_at 7 100) keep prepared.0)
      active

-- Then it writes its metadata, a client pings, and a tick begins.
later_run :
    (y : System memory_storage) × (run : Reach memory_storage toy machine
      (moved memory_storage storing 0 (recording (call_at 7 100) keep none) (record storing.server {
        storage = (memory_storage.store keep.name prepared.0 storing.server.storage).1;
      }))
      []
      y)
    × Spares memory_storage toy machine keep.name run
unfolding update_activity
later_run = (
  _,
  sweep_begins (pos (102 * second))
      (pings (pos (101 * second)) (records 0 (call_at 7 100) keep none start refl refl)) refl,
  tt,
)

all_spare :
    (j : ℕ)
    → SparesName keep.name (set_at storing.handlers 0 (recording (call_at 7 100) keep none) j)
all_spare j = elim (Bool-cases (0 == j)) [ inl same ↦ rw same tt | inr other ↦ rw other tt ]

reads_stored_example :
    answer_fetched toy hash_7
      (request_for keep)
      later_run.0.server.session_id
      (memory_storage.get keep.name later_run.0.server.storage)
    ≡ granted (codes "hunter2")
unfolding update_activity Memory.store
reads_stored_example =
    reads_stored memory_storage (IsReliable-IsFaithful memory_storage memory_storage-IsReliable) toy
      toy-IsSound machine storing 0 (call_at 7 100) keep prepared.0 hash_7 active identify_7
      zeros-IsReader prepared.1 refl refl all_spare later_run.1 later_run.2
