-- ===== src/Server/Sections/Sources.antt =====
-- internal/server/store.go and get.go: the requests that the answers of a run come from.
use burnafter.Prelude.{◌≡◌, ◌≢◌, sym, ◌∙◌, ap, List, [], ◌∷◌, ◌⊎◌, inl, inr, Bool-cases}
use burnafter.Bytes.{Bytes, bytes_eq, bytes_eq_iff}
use burnafter.Result.{ok, context, >>=-eq-ok}
use burnafter.Crypto.{Primitives, IsSound, IsReader, generate_salt, derive_key, encrypt}
use burnafter.Storage.{Payload, Storage}
use burnafter.Verify.{Machine}
use burnafter.Server.{
  Server, Call, StoreRequest, GetRequest, GetResponse, granted, denied, panicked, identify,
}
use burnafter.Server.Store.{prepare, guard, exceeds_limits}
use burnafter.Server.Get.{open_payload}
use burnafter.Server.RoundTrip.{request_for, prepare-opens}
use burnafter.Server.Access.{open_payload-sealed}
use burnafter.Server.Sections.{Entry, made, answered}

-- One of the payloads that were made, with its request, is as said.
abbrev pub Among : (Call → StoreRequest → Payload → Type 0) → List Entry → Type 0
Among R [] = ⊥
Among R (made call req p ∷ h) = R call req p ⊎ Among R h
Among R (answered call req response ∷ h) = Among R h

pub map-Among :
    (R Q : Call → StoreRequest → Payload → Type 0) (h : List Entry)
    → ((call : Call) (req : StoreRequest) (p : Payload) → R call req p → Q call req p)
    → Among R h
    → Among Q h
map-Among R Q [] f a = a
map-Among R Q (made call req p ∷ h) f (inl r) = inl (f call req p r)
map-Among R Q (made call req p ∷ h) f (inr a) = inr (map-Among R Q h f a)
map-Among R Q (answered call req response ∷ h) f a = map-Among R Q h f a

module _ (P : Primitives) (os : Machine) where
  -- A `Store` for the same name by a process with the same binary, and of this secret if the nonces of
  -- the two requests are the same.
  pub record IsSource (get_call : Call) (get_req : GetRequest) (secret : Bytes) (call : Call)
      (req : StoreRequest) : Type 0 where
    pub same_name : req.name ≡ get_req.name
    pub hash : Bytes
    pub get_by : identify P os get_call.peer ≡ ok hash
    pub store_by : identify P os call.peer ≡ ok hash
    pub same_secret : (req.secret ≡ secret) ⊎ (req.client_nonce ≢ get_req.client_nonce)

  abbrev pub HasSource : List Entry → Call → GetRequest → GetResponse → Type 0
  HasSource h call req (granted secret) =
      Among (λ store_call store_req p. IsSource call req secret store_call store_req) h
  HasSource h call req (denied e) = Unit
  HasSource h call req panicked = Unit

  -- Every answer has its source before it.
  abbrev pub IsJustified : List Entry → Type 0
  IsJustified [] = Unit
  IsJustified (made call req p ∷ h) = IsJustified h
  IsJustified (answered call req response ∷ h) = HasSource h call req response × IsJustified h

  pub prepare_client :
      (B : Storage) (call : Call) (req : StoreRequest) (s : Server B) (p : Payload)
      → prepare B P os call req s ≡ ok p
      → identify P os call.peer ≡ ok p.client_binary_hash
  unfolding prepare
  prepare_client B call req s p h =
      let (hash, client, h0) = >>=-eq-ok (identify P os call.peer) _ h in
      let (u, _, h1) = >>=-eq-ok (guard (exceeds_limits s.options req s.secrets)) _ h0 in
      let (salt, _, h2) =
        >>=-eq-ok (context "failed to generate salt" (generate_salt call.salt_source)) _ h1 in
      let (key, _, h3) =
        >>=-eq-ok
          (context "failed to derive key"
            (derive_key P hash req.client_nonce s.session_id req.name salt))
          _ h2 in
      let (c, _, h4) =
        >>=-eq-ok (context "failed to encrypt secret" (encrypt P req.secret key call.nonce_source))
          _ h3 in
      let whole : record { encrypted_data = c; salt = salt; client_binary_hash = hash } ≡ p = cc in
      client ∙ ap (λ (q : Payload). ok q.client_binary_hash) whole

module _ (B : Storage) (P : Primitives) (sound : IsSound P) (os : Machine) (id : Bytes) where
  -- The payload was made for this name, in this session.
  pub record IsMade (name : Bytes) (p : Payload) (call : Call) (req : StoreRequest) (q : Payload)
      : Type 0 where
    pub same_name : req.name ≡ name
    pub same_payload : q ≡ p
    pub fills : IsReader call.nonce_source
    pub at : Server B
    pub session : at.session_id ≡ id
    pub by : prepare B P os call req at ≡ ok q

  abbrev pub WasMade : List Entry → Bytes → Payload → Type 0
  WasMade h name p = Among (IsMade name p) h

  pub made_for :
      (h : List Entry) {name name' : Bytes} {p p' : Payload}
      → name ≡ name'
      → p ≡ p'
      → WasMade h name p
      → WasMade h name' p'
  made_for h {name} {name'} {p} {p'} same whole =
      map-Among (IsMade name p) (IsMade name' p') h (λ call req q m. record {
        same_name = m.same_name ∙ same;
        same_payload = m.same_payload ∙ whole;
        fills = m.fills;
        at = m.at;
        session = m.session;
        by = m.by;
      })

  opened_once :
      (hash : Bytes) (req : StoreRequest) (get_req : GetRequest) (at : Bytes) (q p : Payload)
      (secret secret' : Bytes)
      → req.name ≡ get_req.name
      → req.client_nonce ≡ get_req.client_nonce
      → at ≡ id
      → q ≡ p
      → open_payload P hash (request_for req) at q ≡ ok secret
      → open_payload P hash get_req id p ≡ ok secret'
      → secret ≡ secret'
  opened_once hash req get_req at q p secret secret' name nonce session payload own opened =
      let same : open_payload P hash (request_for req) at q ≡ open_payload P hash get_req id p =
        cc in
      cc (sym own ∙ same ∙ opened)

  -- What opens was sealed for the binary, and is the secret of the request if the nonce is the same.
  pub IsMade-IsSource :
      (get_call : Call) (get_req : GetRequest) (hash secret : Bytes) (p : Payload) (call : Call)
      (req : StoreRequest) (q : Payload)
      → identify P os get_call.peer ≡ ok hash
      → open_payload P hash get_req id p ≡ ok secret
      → IsMade get_req.name p call req q
      → IsSource P os get_call get_req secret call req
  IsMade-IsSource get_call get_req hash secret p call req q client opened m =
      let sealed = open_payload-sealed P sound hash get_req id p secret opened in
      let by : identify P os call.peer ≡ ok hash =
        prepare_client P os B call req m.at q m.by
        ∙ ap (λ (r : Payload). ok r.client_binary_hash) m.same_payload
        ∙ ap ok sealed.same_binary in
      let own = prepare-opens B P os sound call req m.at hash q by m.fills m.by in
      let nonces = bytes_eq_iff req.client_nonce get_req.client_nonce in
      record {
        same_name = m.same_name;
        hash = hash;
        get_by = client;
        store_by = by;
        same_secret = elim (Bool-cases (bytes_eq req.client_nonce get_req.client_nonce)) [
          | inl same ↦ inl (
              opened_once hash req get_req m.at.session_id q p req.secret secret m.same_name
                (nonces.0 same) m.session m.same_payload own opened)
          | inr other ↦ inr (λ same. absurd (cc (sym other ∙ nonces.1 same)))
        ];
      }
