-- ===== src/Server/Bounds.antt =====
-- The bound `MaxSecrets` on the number of secrets.
use burnafter.Prelude.{
  ◌≡◌, refl, ◌||◌, Option, none, some, [], ◌∷◌, arith, length, if_keeps, inl, inr, Option-cases,
}
use burnafter.Bytes.{Bytes}
use burnafter.Int.{pos, ◌≤ℤ◌}
use burnafter.GoMap.{
  GoMap, lookup, insert, NodupKeys, insert-NodupKeys, erase-NodupKeys, length-insert,
  length-erase-le,
}
use burnafter.Clock.{Time}
use burnafter.Crypto.{Primitives}
use burnafter.Result.{Error, Result, ok, err, >>=-eq-ok}
use burnafter.Storage.{Payload, Metadata, Storage}
use burnafter.Verify.{Machine}
use burnafter.Server.{
  Server, Call, StoreRequest, GetRequest, GetResponse, identify, update_activity, expire, ping,
  is_inactive, is_past_deadline,
}
use burnafter.Server.Store.{exceeds_limits, guard, prepare, commit, finish_store, store}
use burnafter.Server.Get.{touch, get_known, get_verified, get}
use burnafter.Server.Cleanup.{sweep, cleanup}
use burnafter.Server.Step.{Event, on_store, on_get, on_ping, on_tick, step, Reach, here, next}

guard-eq-ok : (o : Option Error) {u : Unit {0}} → guard o ≡ ok u → o ≡ none
guard-eq-ok none h = refl
guard-eq-ok (some e) h = cc

module _ (B : Storage) where
  pub record IsBounded (s : Server B) : Type 0 where
    pub nodup : NodupKeys s.secrets
    pub count : pos (length s.secrets) ≤ℤ s.options.max_secrets

  expire-IsBounded : (name : Bytes) (s : Server B) → IsBounded s → IsBounded (expire B name s)
  unfolding expire
  expire-IsBounded name s h = record {
    nodup = erase-NodupKeys name s.secrets h.nodup;
    count = omega (arith, length-erase-le name s.secrets, h.count);
  }

  touch-IsBounded :
      (name : Bytes) (m : Metadata) (now : Time) (s : Server B)
      → lookup name s.secrets ≡ some m
      → IsBounded s
      → IsBounded (touch B name m now s)
  unfolding touch
  touch-IsBounded name m now s e h = record {
    nodup = insert-NodupKeys name _ s.secrets h.nodup;
    count = rw (length-insert name _ s.secrets, e) h.count;
  }

  sweep-IsBounded :
      (now : Time) (since_at : Bytes → Time) (entries : GoMap Metadata) (s : Server B)
      → IsBounded s
      → IsBounded (sweep B now since_at entries s)
  unfolding sweep
  sweep-IsBounded now since_at [] s h = h
  sweep-IsBounded now since_at ((name, m) ∷ entries) s h = sweep-IsBounded now since_at entries _ (
      if_keeps IsBounded (is_inactive m (since_at name) || is_past_deadline m now)
        (expire-IsBounded name s h) h)

  commit-IsBounded :
      (name : Bytes) (m : Metadata) (r : Option Error × B.State) (s : Server B)
      → IsBounded s
      → pos (length (insert name m s.secrets)) ≤ℤ s.options.max_secrets
      → IsBounded (commit B name m r s).1
  commit-IsBounded name m (some e, storage) s b room = record { nodup = b.nodup; count = b.count }
  commit-IsBounded name m (none, storage) s b room = record {
    nodup = insert-NodupKeys name m s.secrets b.nodup;
    count = room;
  }

  module _ (P : Primitives) (os : Machine) where
    -- What is prepared was admitted.
    pub prepare-admits :
        (call : Call) (req : StoreRequest) (s : Server B) (p : Payload)
        → prepare B P os call req s ≡ ok p
        → exceeds_limits s.options req s.secrets ≡ none
    unfolding prepare
    prepare-admits call req s p h =
        let (hash, _, h1) = >>=-eq-ok (identify P os call.peer) _ h in
        let (u, g, h2) = >>=-eq-ok (guard (exceeds_limits s.options req s.secrets)) _ h1 in
        guard-eq-ok _ g

    -- An admitted request leaves room for its entry.
    room_for :
        (req : StoreRequest) (m : Metadata) (s : Server B)
        → exceeds_limits s.options req s.secrets ≡ none
        → IsBounded s
        → pos (length (insert req.name m s.secrets)) ≤ℤ s.options.max_secrets
    unfolding exceeds_limits
    room_for req m s h b = rw (length-insert req.name m s.secrets) (ground (arith, b.count))

    finish_store-IsBounded :
        (call : Call) (req : StoreRequest) (r : Result Payload) (s : Server B)
        → prepare B P os call req s ≡ r
        → IsBounded s
        → IsBounded (finish_store B P os call req r s).1
    finish_store-IsBounded call req (err e) s h b = b
    finish_store-IsBounded call req (ok p) s h b =
        commit-IsBounded req.name _ (B.store req.name p s.storage) s b
          (room_for req _ s (prepare-admits call req s p h) b)

    get_known-IsBounded :
        (call : Call) (req : GetRequest) (hash : Bytes) (m : Metadata) (s : Server B)
        → lookup req.name s.secrets ≡ some m
        → IsBounded s
        → IsBounded (get_known B P os call req hash m s).1
    unfolding get_known
    get_known-IsBounded call req hash m s e b =
        if_keeps (λ (r : GetResponse × Server B). IsBounded r.1) (is_inactive m (call.now 2))
          (expire-IsBounded req.name s b)
          (if_keeps (λ (r : GetResponse × Server B). IsBounded r.1)
            (is_past_deadline m (call.now 1)) (expire-IsBounded req.name s b)
            (touch-IsBounded req.name m (call.now 3) s e b))

    get_verified-IsBounded :
        (call : Call) (req : GetRequest) (r : Result Bytes) (s : Server B)
        → IsBounded s
        → IsBounded (get_verified B P os call req r s).1
    get_verified-IsBounded call req (err e) s b = b
    get_verified-IsBounded call req (ok hash) s b =
        elim (Option-cases (lookup req.name s.secrets)) [
          | inl missing ↦ rw (missing, get_verified) b
          | inr (m, there) ↦
              rw (there, get_verified) (get_known-IsBounded call req hash m s there b)
        ]

    pub step-IsBounded : (e : Event) (s : Server B) → IsBounded s → IsBounded (step B P os e s)
    unfolding step store get ping update_activity cleanup
    step-IsBounded (on_store call req) s b =
        finish_store-IsBounded call req _ (update_activity B (call.now 0) s) refl
          (record { nodup = b.nodup; count = b.count })
    step-IsBounded (on_get call req) s b =
        get_verified-IsBounded call req (identify P os call.peer) (update_activity B (call.now 0) s)
          (record { nodup = b.nodup; count = b.count })
    step-IsBounded (on_ping now) s b = record { nodup = b.nodup; count = b.count }
    step-IsBounded (on_tick now since_at) s b = sweep-IsBounded now since_at s.secrets s b

    pub store-IsBounded :
        (call : Call) (req : StoreRequest) (s : Server B)
        → IsBounded s
        → IsBounded (store B P os call req s).1
    unfolding step
    store-IsBounded call req s b = step-IsBounded (on_store call req) s b

    -- From a server that holds at most `MaxSecrets` secrets and no name twice, whatever requests
    -- and ticks follow, in any order and one at a time, it is always so.
    pub Reach-IsBounded : {s t : Server B} → IsBounded s → Reach B P os s t → IsBounded t
    Reach-IsBounded b here = b
    Reach-IsBounded b (next {t = t} r e) = step-IsBounded e t (Reach-IsBounded b r)
