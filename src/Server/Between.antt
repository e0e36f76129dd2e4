-- ===== src/Server/Between.antt =====
-- internal/server/store.go: what comes between the backend's `Store` and the lock under which the handler
-- writes the metadata.
use burnafter.Prelude.{◌≡◌, refl, ◌∙◌, true, none, some, Option}
use burnafter.Bytes.{Bytes, bytes_eq_refl}
use burnafter.Clock.{Time}
use burnafter.Crypto.{Primitives}
use burnafter.GoMap.{lookup, NodupKeys, lookup-insert}
use burnafter.Result.{Result, ok, err, Error}
use burnafter.Storage.{Payload, Storage, IsReliable, view}
use burnafter.Verify.{Machine}
use burnafter.Server.{Server, Call, StoreRequest, StoreResponse, stored, not_stored}
use burnafter.Server.Cleanup.{cleanup}
use burnafter.Server.Store.{prepare, finish_store, commit, metadata_of}
use burnafter.Server.Sweep.{is_due, view-cleanup}

module _ (B : Storage) (P : Primitives) (os : Machine) where
  -- The end of `Store`, with what others do to the server before its last section.
  abbrev pub finish_around :
      Call
      → StoreRequest
      → Result Payload
      → (Server B → Server B)
      → Server B
      → StoreResponse × Server B
  finish_around call req (err e) between s = (not_stored e, s)
  finish_around call req (ok payload) between s =
      let r = B.store req.name payload s.storage in
      let s' = between (record s { storage = r.1 }) in
      commit B req.name (metadata_of s.options req (call.now 1) (call.now 2)) (r.0, s'.storage) s'

  abbrev alone : Server B → Server B
  alone s = s

  pub commit_same :
      (call : Call) (req : StoreRequest) (r : Option Error × B.State) (s : Server B)
      → commit B req.name
          (metadata_of s.options req (call.now 1) (call.now 2))
          (r.0, r.1)
          (record s { storage = r.1 })
        ≡ commit B req.name (metadata_of s.options req (call.now 1) (call.now 2)) r s
  commit_same call req (none, t) s = refl
  commit_same call req (some e, t) s = refl

  -- With nothing in between it is the handler of one step.
  finish_around-alone :
      (call : Call) (req : StoreRequest) (r : Result Payload) (s : Server B)
      → finish_around call req r alone s ≡ finish_store B P os call req r s
  finish_around-alone call req (err e) s = refl
  finish_around-alone call req (ok payload) s =
      commit_same call req (B.store req.name payload s.storage) s

  -- With a reliable backend, on a map with no name twice: if a tick of the cleanup comes between
  -- the backend's part and the metadata of a `Store` over a secret that is due, the `Store` is
  -- answered with success and its metadata is there, but its payload is gone.
  store_lost_to_tick :
      (reliable : IsReliable B) (call : Call) (req : StoreRequest) (p : Payload) (now : Time)
      (since_at : Bytes → Time) (s : Server B)
      → prepare B P os call req s ≡ ok p
      → NodupKeys s.secrets
      → is_due now since_at req.name (lookup req.name s.secrets) ≡ true
      → let r =
          finish_around call req
            (prepare B P os call req s)
            (λ t. (cleanup B now since_at t).1)
            s in
        (r.0 ≡ stored)
        × (lookup req.name r.1.secrets ≡ some (metadata_of s.options req (call.now 1) (call.now 2)))
        × (view B r.1.storage req.name ≡ none)
  store_lost_to_tick reliable call req p now since_at s prepared unique due =
      let saved = record s { storage = (B.store req.name p s.storage).1 } in
      rw (prepared, finish_around, reliable.store_ok req.name p s.storage, commit)
        (
          refl,
          lookup-insert req.name req.name _ _ ∙ rw (bytes_eq_refl req.name),
          view-cleanup B now since_at reliable saved req.name unique ∙ rw due,
        )
