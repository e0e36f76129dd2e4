-- ===== src/Server/Refused.antt =====
-- internal/server/store.go: what a refused request leaves behind.
use burnafter.Prelude.{◌≡◌, ◌≢◌, refl, none, some, Option}
use burnafter.Bytes.{Bytes}
use burnafter.Crypto.{Primitives}
use burnafter.Result.{Error, Result, ok, err}
use burnafter.Storage.{Payload, Metadata, Storage, IsReliable}
use burnafter.Verify.{Machine}
use burnafter.Server.{Server, Call, StoreRequest, not_stored, update_activity}
use burnafter.Server.Store.{prepare, commit, finish_store, store}

module _ (B : Storage) where
  commit_refused :
      (name : Bytes) (m : Metadata) (r : Option Error × B.State) (s : Server B) (e : Error)
      → (commit B name m r s).0 ≡ not_stored e
      → (commit B name m r s).1 ≡ record s { storage = r.1 }
  commit_refused name m (some e', storage) s e h = refl
  commit_refused name m (none, storage) s e h = absurd (cc)

  commit_reliable :
      (name : Bytes) (m : Metadata) (r : Option Error × B.State) (s : Server B) (e : Error)
      → r.0 ≡ none
      → (commit B name m r s).0 ≢ not_stored e
  commit_reliable name m (some e', storage) s e h = λ q. cc
  commit_reliable name m (none, storage) s e h = λ q. cc

  module _ (P : Primitives) (os : Machine) (call : Call) (req : StoreRequest) where
    finish_store_refused :
        (r : Result Payload) (s : Server B) (e : Error)
        → (finish_store B P os call req r s).0 ≡ not_stored e
        → (storage : B.State) × ((finish_store B P os call req r s).1
            ≡ record s { storage = storage })
    finish_store_refused (err e') s e h = (s.storage, refl)
    finish_store_refused (ok p) s e h = (
      (B.store req.name p s.storage).1,
      commit_refused req.name _ (B.store req.name p s.storage) s e h,
    )

    -- A `Store` that fails changes nothing but the record of activity and what its backend has done: the
    -- metadata of every secret stays.
    pub store_refused :
        (s : Server B) (e : Error)
        → (store B P os call req s).0 ≡ not_stored e
        → (storage : B.State) × ((store B P os call req s).1
            ≡ record (update_activity B (call.now 0) s) { storage = storage })
    unfolding store
    store_refused s e h =
        finish_store_refused (prepare B P os call req (update_activity B (call.now 0) s))
          (update_activity B (call.now 0) s) e h

    finish_store_reliable :
        (r : Result Payload) (s : Server B) (e : Error)
        → IsReliable B
        → (finish_store B P os call req r s).0 ≡ not_stored e
        → (finish_store B P os call req r s).1 ≡ s
    finish_store_reliable (err e') s e reliable h = refl
    finish_store_reliable (ok p) s e reliable h = absurd (
        commit_reliable req.name _ (B.store req.name p s.storage) s e
          (reliable.store_ok req.name p s.storage) h)

    -- With a reliable backend, a `Store` that fails changes nothing but the record of activity.
    store_refused_reliable :
        (s : Server B) (e : Error)
        → IsReliable B
        → (store B P os call req s).0 ≡ not_stored e
        → (store B P os call req s).1 ≡ update_activity B (call.now 0) s
    unfolding store
    store_refused_reliable s e reliable h =
        finish_store_reliable (prepare B P os call req (update_activity B (call.now 0) s))
          (update_activity B (call.now 0) s) e reliable h
