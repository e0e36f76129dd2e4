-- ===== src/Tests/Race.antt =====
-- Two requests at a server with room for one more secret.
use burnafter.Prelude.{◌≡◌, refl, none, false, replicate}
use burnafter.Bytes.{Bytes, codes, bytes_eq}
use burnafter.Int.{pos}
use burnafter.GoMap.{lookup}
use burnafter.Result.{ok}
use burnafter.Storage.Memory.{memory_storage, memory_storage-IsReliable}
use burnafter.Storage.{Payload}
use burnafter.Server.{Server, StoreRequest, stored}
use burnafter.Server.Store.{exceeds_limits, prepare, finish_store}
use burnafter.Server.Bounds.{IsBounded}
use burnafter.Server.RoundTrip.{prepare_total}
use burnafter.Server.Race.{two_stores_exceed}
use burnafter.Tests.Toy.{toy, toy-IsSound, zeros-IsReader}
use burnafter.Tests.World.{machine, options, fresh, call_at, keep, hash_7, identify_7}

abbrev tight : Server memory_storage
tight = record fresh { options = record options { max_secrets = pos 1 } }

abbrev keep_other : StoreRequest
keep_other = record keep { name = codes "other" }

room_keep : exceeds_limits tight.options keep tight.secrets ≡ none
unfolding exceeds_limits lookup
room_keep = refl

room_other : exceeds_limits tight.options keep_other tight.secrets ≡ none
unfolding exceeds_limits lookup
room_other = refl

differ : bytes_eq keep.name keep_other.name ≡ false
unfolding bytes_eq
differ = refl

empty : (name : Bytes) → lookup name tight.secrets ≡ none
unfolding lookup
empty name = refl

prepared : (p : Payload) × (prepare memory_storage toy machine (call_at 7 1) keep tight ≡ ok p)
prepared =
    let (p, e, _) =
      prepare_total memory_storage toy machine toy-IsSound (call_at 7 1) keep tight hash_7
        (replicate 32 0) (replicate 12 0) identify_7 room_keep refl zeros-IsReader refl in
    (p, e)

prepared_other :
    (p : Payload) × (prepare memory_storage toy machine (call_at 7 1) keep_other tight ≡ ok p)
prepared_other =
    let (p, e, _) =
      prepare_total memory_storage toy machine toy-IsSound (call_at 7 1) keep_other tight hash_7
        (replicate 32 0) (replicate 12 0) identify_7 room_other refl zeros-IsReader refl in
    (p, e)

two_stores_exceed_example :
    let first =
      finish_store memory_storage toy machine
        (call_at 7 1)
        keep
        (prepare memory_storage toy machine (call_at 7 1) keep tight)
        tight in
    let second =
      finish_store memory_storage toy machine
        (call_at 7 1)
        keep_other
        (prepare memory_storage toy machine (call_at 7 1) keep_other tight)
        first.1 in
    (first.0 ≡ stored) × (second.0 ≡ stored) × ¬ (IsBounded memory_storage second.1)
two_stores_exceed_example =
    two_stores_exceed memory_storage memory_storage-IsReliable toy machine (call_at 7 1)
      (call_at 7 1) keep keep_other prepared.0 prepared_other.0 tight prepared.1 prepared_other.1
      (empty keep.name) (empty keep_other.name) differ refl
