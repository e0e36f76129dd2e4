-- ===== src/Server/RoundTrip.antt =====
-- internal/server/store.go and get.go: a secret that is held, from `Store` to `Get`.
use burnafter.Prelude.{Option-cases, inl, inr, ◌≡◌, refl, false, none, some}
use burnafter.Bytes.{Bytes, bytes_eq_refl}
use burnafter.GoMap.{lookup, lookup-insert}
use burnafter.Crypto.{Primitives, IsSound, Reader, IsReader, generate_salt, derive_key, encrypt}
use burnafter.Crypto.Envelope.{decrypt-encrypt, decrypt_of_encrypt}
use burnafter.Crypto.Keys.{derive_key_total}
use burnafter.Result.{ok, err, Result, context, >>=-eq-ok, context-eq-ok}
use burnafter.Storage.{
  Payload, Metadata, Fetched, found, null, failed, Storage, payload_of, view, IsReliable,
  IsFaithful,
}
use burnafter.Verify.{Machine}
use burnafter.Server.{
  Server, Call, StoreRequest, GetRequest, stored, identify, update_activity, is_inactive,
  is_past_deadline,
}
use burnafter.Server.Store.{
  exceeds_limits, guard, prepare, commit, finish_store, metadata_of, store,
}
use burnafter.Server.Get.{touch, open_payload, get_known, get_verified, answer_fetched, get}

-- What the server knows of a secret: its metadata and its payload.
pub record Holds (B : Storage) (s : Server B) (name : Bytes) (m : Metadata) (p : Payload)
    : Type 0 where
  pub known : lookup name s.secrets ≡ some m
  pub held : view B s.storage name ≡ some p

pub found_of_payload : (f : Fetched) (p : Payload) → payload_of f ≡ some p → f ≡ found p
found_of_payload (found q) p h = cc
found_of_payload null p h = cc
found_of_payload (failed e) p h = cc

generate_salt_total : (r : Reader) (salt : Bytes) → r 32 ≡ some salt → generate_salt r ≡ ok salt
unfolding generate_salt
generate_salt_total r salt h = rw h

-- The request that asks for what another stored.
abbrev pub request_for : StoreRequest → GetRequest
request_for req = record { name = req.name; client_nonce = req.client_nonce }

module _ (B : Storage) (P : Primitives) (os : Machine) where
  -- A `Get` by the right client of a secret that has not expired answers what the payload opens to.
  pub get_held :
      (call : Call) (req : GetRequest) (s : Server B) {hash : Bytes} {m : Metadata} {p : Payload}
      → identify P os call.peer ≡ ok hash
      → Holds B s req.name m p
      → is_inactive m (call.now 2) ≡ false
      → is_past_deadline m (call.now 1) ≡ false
      → get B P os call req s ≡ (
        answer_fetched P hash req s.session_id (found p),
        touch B req.name m (call.now 3) (update_activity B (call.now 0) s),
      )
  unfolding get get_known update_activity
  get_held call req s {m} {p} client h active early = rw (
    client,
    get_verified,
    h.known,
    active,
    early,
    found_of_payload (B.get req.name s.storage) p h.held,
  )

  module _ (sound : IsSound P) where
    -- An admitted request is prepared if the random source answers, and the payload opens to its secret.
    pub prepare_total :
        (call : Call) (req : StoreRequest) (s : Server B) (hash salt nonce : Bytes)
        → identify P os call.peer ≡ ok hash
        → exceeds_limits s.options req s.secrets ≡ none
        → call.salt_source 32 ≡ some salt
        → IsReader call.nonce_source
        → call.nonce_source 12 ≡ some nonce
        → (p : Payload) × (prepare B P os call req s ≡ ok p)
          × (open_payload P hash (request_for req) s.session_id p ≡ ok req.secret)
    unfolding prepare open_payload
    prepare_total call req s hash salt nonce client room salted reads nonced =
        let (key, ek, lk) =
          derive_key_total P sound hash req.client_nonce s.session_id req.name salt in
        let (c, ec, dc) =
          decrypt-encrypt P sound req.secret key nonce call.nonce_source reads lk nonced in
        (
          record { encrypted_data = c; salt = salt; client_binary_hash = hash },
          rw (client, room, generate_salt_total call.salt_source salt salted, ek, ec),
          rw (bytes_eq_refl hash, ek, dc),
        )

    -- Whatever is prepared opens to its secret.
    pub prepare-opens :
        (call : Call) (req : StoreRequest) (s : Server B) (hash : Bytes) (p : Payload)
        → identify P os call.peer ≡ ok hash
        → IsReader call.nonce_source
        → prepare B P os call req s ≡ ok p
        → open_payload P hash (request_for req) s.session_id p ≡ ok req.secret
    unfolding prepare open_payload
    prepare-opens call req s hash p client reads h =
        let h0 = rw client at h in
        let (u, _, h1) = >>=-eq-ok (guard (exceeds_limits s.options req s.secrets)) _ h0 in
        let (salt, _, h2) =
          >>=-eq-ok (context "failed to generate salt" (generate_salt call.salt_source)) _ h1 in
        let (key, ek, h3) =
          >>=-eq-ok
            (context "failed to derive key"
              (derive_key P hash req.client_nonce s.session_id req.name salt))
            _ h2 in
        let (c, ec, h4) =
          >>=-eq-ok
            (context "failed to encrypt secret" (encrypt P req.secret key call.nonce_source)) _
            h3 in
        let made : record { encrypted_data = c; salt = salt; client_binary_hash = hash } ≡ p = cc in
        let opened =
          decrypt_of_encrypt P sound req.secret key c call.nonce_source reads
            (context-eq-ok _ _ ec) in
        rw (← made, bytes_eq_refl hash, context-eq-ok _ _ ek, opened)

    -- A `Store` that succeeds leaves the server holding a payload that opens to the secret.
    finish_store-Holds :
        (faithful : IsFaithful B) (call : Call) (req : StoreRequest) (s : Server B)
        (r : Result Payload)
        → (finish_store B P os call req r s).0 ≡ stored
        → (p : Payload) × (r ≡ ok p)
          × Holds B
              (finish_store B P os call req r s).1
              req.name
              (metadata_of s.options req (call.now 1) (call.now 2))
              p
          × ((finish_store B P os call req r s).1.session_id ≡ s.session_id)
    finish_store-Holds faithful call req s (err e) h = cc
    finish_store-Holds faithful call req s (ok p) h =
        elim (Option-cases (B.store req.name p s.storage).0) [
          | inl accepted ↦
              rw (accepted, commit)
                (
                  p,
                  refl,
                  record {
                    known =
                        rw (lookup-insert req.name req.name _ s.secrets, bytes_eq_refl req.name);
                    held = faithful.stored req.name p s.storage accepted;
                  },
                  refl,
                )
          | inr (e, refused) ↦ absurd (cc (rw (refused, commit) at h))
        ]

    pub stored-Holds :
        (faithful : IsFaithful B) (call : Call) (req : StoreRequest) (s : Server B) (hash : Bytes)
        → identify P os call.peer ≡ ok hash
        → IsReader call.nonce_source
        → (store B P os call req s).0 ≡ stored
        → let s' = (store B P os call req s).1 in
          (s'.session_id ≡ s.session_id)
          × ((p : Payload) × Holds B s' req.name
                (metadata_of s.options req (call.now 1) (call.now 2))
                p
              × (open_payload P hash (request_for req) s.session_id p ≡ ok req.secret))
    unfolding store update_activity
    stored-Holds faithful call req s hash client reads done =
        let s' = update_activity B (call.now 0) s in
        let (p, made, h, session) =
          finish_store-Holds faithful call req s' (prepare B P os call req s') done in
        (session, (p, h, prepare-opens call req s' hash p client reads made))

    module _ (reliable : IsReliable B) where
      -- An admitted `Store` succeeds, and leaves the server holding a payload that opens to the secret.
      pub store-Holds :
          (call : Call) (req : StoreRequest) (s : Server B) (hash salt nonce : Bytes)
          → identify P os call.peer ≡ ok hash
          → exceeds_limits s.options req s.secrets ≡ none
          → call.salt_source 32 ≡ some salt
          → IsReader call.nonce_source
          → call.nonce_source 12 ≡ some nonce
          → let s' = (store B P os call req s).1 in
            ((store B P os call req s).0 ≡ stored)
            × (s'.session_id ≡ s.session_id)
            × ((p : Payload) × Holds B s' req.name
                  (metadata_of s.options req (call.now 1) (call.now 2))
                  p
                × (open_payload P hash (request_for req) s.session_id p ≡ ok req.secret))
      unfolding store update_activity
      store-Holds call req s hash salt nonce client room salted reads nonced =
          let (p, ep, opens) =
            prepare_total call req (update_activity B (call.now 0) s) hash salt nonce client room
              salted reads nonced in
          rw (ep, finish_store, reliable.store_ok req.name p s.storage, commit)
            (
              refl,
              refl,
              (
                p,
                record {
                  known = rw (lookup-insert req.name req.name _ s.secrets, bytes_eq_refl req.name);
                  held =
                      rw
                        (reliable.view_store req.name p s.storage req.name, bytes_eq_refl req.name);
                },
                opens,
              ),
            )
