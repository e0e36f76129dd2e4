-- ===== src/Server/Sections/Lost.antt =====
-- internal/server/get.go and store.go: a `Get` that finds a secret expired deletes it from the backend after
-- it has released the lock, and a `Store` of the same name can come in between.
use burnafter.Prelude.{◌≡◌, refl, ◌∙◌, ap, true, none, some, [], ◌∷◌}
use burnafter.Bytes.{Bytes, bytes_eq_refl}
use burnafter.GoMap.{lookup, erase, lookup-insert}
use burnafter.Crypto.{Primitives, IsReader}
use burnafter.Result.{ok}
use burnafter.Storage.{Payload, Metadata, Storage, view, IsReliable}
use burnafter.Verify.{Machine}
use burnafter.Server.{Server, Call, StoreRequest, GetRequest, identify, update_activity}
use burnafter.Server.Store.{prepare, metadata_of}
use burnafter.Server.Sections.{
  made, System, has_expired, Reach, start, store_begins, keeps, records, get_expires, deletes,
  recording,
}
use burnafter.Server.Sections.{begin}

module _ (B : Storage) (reliable : IsReliable B) (P : Primitives) (os : Machine) where
  -- The server once the `Get` has removed the metadata.
  abbrev pub forgotten : Call → Bytes → Server B → Server B
  forgotten call name s = record (update_activity B (call.now 0) s) {
    secrets = erase name s.secrets;
  }

  -- With a reliable backend, where a `Get` by an identified client finds a secret that has expired,
  -- and a `Store` of the same name is prepared once the metadata is gone: in some interleaving of
  -- the two the `Store` ends with its metadata in the map, but its payload is deleted from the
  -- backend.
  pub store_lost_to_get :
      (call call' : Call) (get_req : GetRequest) (req : StoreRequest) (hash : Bytes) (m : Metadata)
      (p : Payload) (s : Server B)
      → identify P os call.peer ≡ ok hash
      → lookup get_req.name s.secrets ≡ some m
      → has_expired B P os call m ≡ true
      → req.name ≡ get_req.name
      → IsReader call'.nonce_source
      → prepare B P os call' req (update_activity B (call'.now 0) (forgotten call get_req.name s))
        ≡ ok p
      → (y : System B) × Reach B P os (begin B s) (made call' req p ∷ []) y
        × (lookup req.name y.server.secrets
            ≡ some (metadata_of s.options req (call'.now 1) (call'.now 2)))
        × (view B y.server.storage req.name ≡ none)
  unfolding update_activity
  store_lost_to_get call call' get_req req hash m p s client known late same fills prepared =
      let r1 = get_expires 0 call get_req hash m start refl refl client known late in
      let r2 = store_begins 1 call' req p r1 refl refl fills prepared in
      let r3 = keeps 1 call' req p r2 refl in
      let r4 = deletes 0 get_req.name r3 refl in
      let r5 =
        records 1 call' req none r4
          (ap (λ o. recording call' req o) (reliable.store_ok req.name p s.storage)) refl in
      (
        _,
        r5,
        lookup-insert req.name req.name _ _ ∙ rw (bytes_eq_refl req.name),
        reliable.view_delete get_req.name _ req.name ∙ rw (← same, bytes_eq_refl req.name),
      )
