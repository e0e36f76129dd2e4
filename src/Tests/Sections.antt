-- ===== src/Tests/Sections.antt =====
-- Requests that run section by section, at a small server.
use burnafter.Prelude.{◌*◌, ◌≡◌, refl, none, some, ◌∷◌, [], replicate}
use burnafter.Clock.{second}
use burnafter.Int.{pos}
use burnafter.Bytes.{Bytes, codes, bytes_eq}
use burnafter.GoMap.{erase, lookup, insert}
use burnafter.Result.{ok}
use burnafter.Storage.{Payload, found, view, IsReliable-IsHonest}
use burnafter.Storage.Memory.{memory_storage, memory_storage-IsReliable}
use burnafter.Storage.Memory
use burnafter.Server.{Server, granted, update_activity}
use burnafter.Server.Store.{exceeds_limits, prepare, metadata_of}
use burnafter.Server.Get.{open_payload, touch, answer_fetched}
use burnafter.Server.RoundTrip.{prepare_total}
use burnafter.Server.Sections.{
  begin, idle, made, answered, System, Reach, start, store_begins, keeps, records, get_touches,
  reads, pings, sweep_begins,
}
use burnafter.Server.Sections.Sources.{IsJustified}
use burnafter.Server.Sections.Provenance.{get_provenance}
use burnafter.Server.Sections.Lost.{forgotten, store_lost_to_get}
use burnafter.Tests.Toy.{toy, toy-IsSound, zeros-IsReader}
use burnafter.Tests.World.{
  hash_8, identify_8, options, machine, fresh, call_at, keep, fetch, hash_7, identify_7,
}
use burnafter.Tests.Server.{
  holding, known_kept, inactive_161, kept, metadata_kept, active_150, early_150,
}

room : exceeds_limits fresh.options keep fresh.secrets ≡ none
unfolding exceeds_limits lookup
room = refl

abbrev active : Server memory_storage
active = update_activity memory_storage (pos (100 * second)) fresh

prepared :
    (p : Payload) × (prepare memory_storage toy machine (call_at 7 100) keep active ≡ ok p)
    × (open_payload toy hash_7 fetch (codes "session") p ≡ ok (codes "hunter2"))
unfolding update_activity
prepared =
    prepare_total memory_storage toy machine toy-IsSound (call_at 7 100) keep active hash_7
      (replicate 32 0) (replicate 12 0) identify_7 room refl zeros-IsReader refl

no_payload : (name : Bytes) → view memory_storage fresh.storage name ≡ none
unfolding Memory.get lookup
no_payload name = refl

-- A ping comes between the sections of the `Store`, and a tick between those of the `Get`.
stored_run :
    (y : System memory_storage) × Reach memory_storage toy machine
      (begin memory_storage fresh)
      (made (call_at 7 100) keep prepared.0 ∷ [])
      y
    × (y.handlers 1 ≡ idle)
    × (y.sweeping ≡ none)
    × (lookup fetch.name y.server.secrets
        ≡ some (metadata_of options keep (pos (100 * second)) (pos (100 * second))))
    × (memory_storage.get fetch.name y.server.storage ≡ found prepared.0)
    × (y.server.session_id ≡ codes "session")
unfolding update_activity Memory.store Memory.get lookup insert bytes_eq
stored_run = (
  _,
  records 0 (call_at 7 100) keep none
      (pings (pos (101 * second)) (
        keeps 0 (call_at 7 100) keep prepared.0
          (store_begins 0 (call_at 7 100) keep prepared.0 start refl refl zeros-IsReader prepared.1)
          refl))
      refl refl,
  refl,
  refl,
  refl,
  refl,
  refl,
)

get_run :
    (y : System memory_storage) × Reach memory_storage toy machine
      (begin memory_storage fresh)
      (answered (call_at 7 150) fetch (granted (codes "hunter2"))
        ∷ made (call_at 7 100) keep prepared.0
        ∷ [])
      y
unfolding update_activity touch
get_run =
    let (y, reached, free, unlocked, known, there, session) = stored_run in
    let touched =
      get_touches 1 (call_at 7 150) fetch hash_7 _ reached free unlocked identify_7 known
        (rw (metadata_kept, active_150, early_150)) in
    let swept = sweep_begins (pos (151 * second)) touched unlocked in
    let got = reads 1 (call_at 7 150) fetch hash_7 swept refl in
    (_, rw (there, session, answer_fetched, prepared.2) at got)

get_provenance_example : IsJustified toy machine (
    answered (call_at 7 150) fetch (granted (codes "hunter2"))
    ∷ made (call_at 7 100) keep prepared.0
    ∷ [])
get_provenance_example =
    get_provenance memory_storage (IsReliable-IsHonest memory_storage memory_storage-IsReliable) toy
      toy-IsSound machine fresh no_payload get_run.1

-- The secret of `keep` has expired, a `Get` of another process finds that, and `keep` is stored again.
room_after :
    exceeds_limits holding.options keep
      (forgotten memory_storage memory_storage-IsReliable toy machine
        (call_at 8 161)
        fetch.name
        holding).secrets
    ≡ none
unfolding exceeds_limits lookup erase bytes_eq update_activity
room_after = refl

abbrev forgetful : Server memory_storage
forgetful = update_activity memory_storage (pos (161 * second)) (
    forgotten memory_storage memory_storage-IsReliable toy machine (call_at 8 161) fetch.name
      holding)

prepared_again :
    (p : Payload) × (prepare memory_storage toy machine (call_at 7 161) keep forgetful ≡ ok p)
unfolding update_activity
prepared_again =
    let (p, e, _) =
      prepare_total memory_storage toy machine toy-IsSound (call_at 7 161) keep forgetful hash_7
        (replicate 32 0) (replicate 12 0) identify_7 room_after refl zeros-IsReader refl in
    (p, e)

store_lost_to_get_example :
    (y : System memory_storage) × Reach memory_storage toy machine
      (begin memory_storage holding)
      (made (call_at 7 161) keep prepared_again.0 ∷ [])
      y
    × (lookup keep.name y.server.secrets
        ≡ some (metadata_of holding.options keep (pos (161 * second)) (pos (161 * second))))
    × (view memory_storage y.server.storage keep.name ≡ none)
store_lost_to_get_example =
    store_lost_to_get memory_storage memory_storage-IsReliable toy machine (call_at 8 161)
      (call_at 7 161) fetch keep hash_8 kept prepared_again.0 holding identify_8 known_kept
      (rw inactive_161) refl zeros-IsReader prepared_again.1
