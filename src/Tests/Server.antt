-- ===== src/Tests/Server.antt =====
-- The server's theorems at a small server.
use burnafter.Prelude.{
  ◌*◌, ◌≡◌, refl, none, some, [], ◌∷◌, true, false, arith, replicate, if◌then◌else◌, ◌↔◌, String,
}
use burnafter.Bytes.{Bytes, codes, bytes_eq}
use burnafter.Int.{pos, ◌+ℤ◌, ◌-ℤ◌, ◌*ℤ◌, wrap64}
use burnafter.Clock.{second, seconds, since}
use burnafter.GoMap.{lookup, NodupKeys}
use burnafter.Crypto.{hex_encode}
use burnafter.Storage.{Payload, Metadata}
use burnafter.Storage.Memory.{memory_storage, memory_storage-IsReliable}
use burnafter.Storage.Memory
use burnafter.Server.{Server, StoreRequest, stored, granted, is_inactive, is_past_deadline, denied}
use burnafter.Server.Store.{exceeds_limits, metadata_of, store, inactivity_ttl, absolute_expiry}
use burnafter.Server.Get.{get}
use burnafter.Server.Step.{on_store, on_ping, step, here, next}
use burnafter.Server.Bounds.{IsBounded, Reach-IsBounded}
use burnafter.Server.Delivery.{get-store}
use burnafter.Server.Frame.{done, after}
use burnafter.Server.RoundTrip.{Holds, request_for}
use burnafter.Server.Access.{IsAuthorized, get_granted, get_mismatch}
use burnafter.Server.Expiry.{IsGone, get_expired, is_inactive_overflow}
use burnafter.Server.Cleanup.{cleanup}
use burnafter.Server.Sweep.{is_due, cleanup_exact}
use burnafter.Result.{errorf}
use burnafter.Tests.Toy.{toy, toy-IsSound, zeros-IsReader}
use burnafter.Tests.World.{
  machine, hash_7, hash_8, identify_7, identify_8, options, fresh, call_at, keep, fetch,
}

fresh-IsBounded : IsBounded memory_storage fresh
fresh-IsBounded = omega arith

Reach-IsBounded_example : IsBounded memory_storage (
    step memory_storage toy machine
      (on_ping (pos 5))
      (step memory_storage toy machine (on_store (call_at 7 1) keep) fresh))
Reach-IsBounded_example =
    Reach-IsBounded memory_storage toy machine fresh-IsBounded
      (next (next here (on_store (call_at 7 1) keep)) (on_ping (pos 5)))

admitted : exceeds_limits fresh.options keep fresh.secrets ≡ none
unfolding exceeds_limits lookup
admitted = refl

-- The metadata that `keep` gives at second 100, and readings 50 and 61 seconds later.
abbrev pub kept : Metadata
kept = record {
  name = codes "api-key";
  inactivity_ttl = pos (60 * second);
  absolute_expires_at = none;
  last_accessed = pos (100 * second);
}

pub metadata_kept : metadata_of options keep (pos (100 * second)) (pos (100 * second)) ≡ kept
unfolding metadata_of inactivity_ttl absolute_expiry seconds wrap64 ◌*ℤ◌
metadata_kept = refl

pub active_150 : is_inactive kept (pos (150 * second)) ≡ false
unfolding is_inactive since ◌-ℤ◌
active_150 = refl

pub inactive_161 : is_inactive kept (pos (161 * second)) ≡ true
unfolding is_inactive since ◌-ℤ◌
inactive_161 = refl

pub early_150 : is_past_deadline kept (pos (150 * second)) ≡ false
unfolding is_past_deadline
early_150 = refl

abbrev after_store : Server memory_storage
after_store = (store memory_storage toy machine (call_at 7 100) keep fresh).1

get-store_example :
    ((store memory_storage toy machine (call_at 7 100) keep fresh).0 ≡ stored)
    × ((get memory_storage toy machine
          (call_at 7 150)
          (request_for keep)
          (step memory_storage toy machine (on_ping (pos 5)) after_store)).0
        ≡ granted (codes "hunter2"))
get-store_example =
    get-store memory_storage memory_storage-IsReliable toy toy-IsSound machine fresh fresh-IsBounded
      (call_at 7 100) keep hash_7 (replicate 32 0) (replicate 12 0)
      (step memory_storage toy machine (on_ping (pos 5)) after_store) (call_at 7 150) identify_7
      admitted refl zeros-IsReader refl (after done (on_ping (pos 5)) tt) identify_7
      (rw metadata_kept active_150) (rw metadata_kept early_150)

get_granted_example :
    IsAuthorized memory_storage toy machine
      (call_at 7 150)
      fetch
      (step memory_storage toy machine (on_ping (pos 5)) after_store)
      (codes "hunter2")
get_granted_example =
    get_granted memory_storage toy toy-IsSound machine (call_at 7 150) fetch
      (step memory_storage toy machine (on_ping (pos 5)) after_store) (codes "hunter2")
      get-store_example.1

-- A server that holds one secret of process 7.
abbrev sealed : Payload
sealed = record { encrypted_data = []; salt = []; client_binary_hash = hash_7 }

abbrev pub holding : Server memory_storage
holding = record fresh {
  secrets = (codes "api-key", kept) ∷ [];
  storage = record { entries = (codes "api-key", sealed) ∷ [] };
}

pub known_kept : lookup (codes "api-key") holding.secrets ≡ some kept
unfolding lookup bytes_eq
known_kept = refl

Holds-sealed : Holds memory_storage holding (codes "api-key") kept sealed
unfolding Memory.get lookup bytes_eq
Holds-sealed = record { known = refl; held = refl }

get_expired_example :
    ((message : String) × ((get memory_storage toy machine (call_at 8 161) fetch holding).0
        ≡ denied (errorf message)))
    × IsGone memory_storage
        (codes "api-key")
        (get memory_storage toy machine (call_at 8 161) fetch holding).1
get_expired_example =
    get_expired memory_storage memory_storage-IsReliable toy machine (call_at 8 161) fetch holding
      hash_8 kept identify_8 known_kept (rw inactive_161)

hashes_differ : bytes_eq hash_7 hash_8 ≡ false
unfolding bytes_eq hex_encode
hashes_differ = refl

get_mismatch_example :
    ((get memory_storage toy machine (call_at 8 150) fetch holding).0
      ≡ denied (errorf "client binary hash mismatch - unauthorized"))
    × Holds memory_storage
        (get memory_storage toy machine (call_at 8 150) fetch holding).1
        (codes "api-key")
        (record kept { last_accessed = pos (150 * second) })
        sealed
get_mismatch_example =
    get_mismatch memory_storage toy toy-IsSound machine (call_at 8 150) fetch holding hash_8 kept
      sealed identify_8 Holds-sealed active_150 early_150 hashes_differ

abbrev forever : StoreRequest
forever = record keep { ttl_seconds = pos 10_000_000_000; absolute_expiration_seconds = pos 30 }

is_inactive_overflow_example :
    is_inactive (metadata_of options forever (pos 5) (pos 7)) (pos 7 +ℤ pos 9) ≡ true
is_inactive_overflow_example =
    is_inactive_overflow options forever (pos 5) (pos 7) 10_000_000_000 9 (omega arith) refl
      (omega arith) (omega arith)

nodup_holding : NodupKeys holding.secrets
unfolding lookup
nodup_holding = (refl, tt)

cleanup_exact_example :
    let (stop, s') =
      cleanup memory_storage (pos (161 * second)) (λ n. pos (161 * second)) holding in
    ((n : Bytes)
      → lookup n s'.secrets ≡ (
          if is_due (pos (161 * second)) (λ k. pos (161 * second)) n (lookup n holding.secrets)
          then none
          else lookup n holding.secrets))
    × ((stop ≡ true) ↔ ((n : Bytes) → lookup n s'.secrets ≡ none))
cleanup_exact_example =
    cleanup_exact memory_storage (pos (161 * second)) (λ n. pos (161 * second)) holding
      nodup_holding
