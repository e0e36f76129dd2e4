-- ===== src/Server/Access.antt =====
-- internal/server/get.go: who can read a secret.
use burnafter.Prelude.{
  ◌≡◌, refl, false, some, arith, Bool-cases, Option-cases, inl, inr, ◌++◌, take,
}
use burnafter.Bytes.{Bytes, bytes_eq, bytes_eq_iff, bytes_eq_refl}
use burnafter.GoMap.{lookup, lookup-insert}
use burnafter.Crypto.{Primitives, IsSound, derive_key, build_gcm}
use burnafter.Crypto.Envelope.{decrypt-authentic}
use burnafter.Result.{Result, ok, err, errorf, context, >>=-eq-ok, context-eq-ok}
use burnafter.Storage.{Payload, Metadata, Fetched, found, null, failed, Storage, payload_of}
use burnafter.Verify.{Machine}
use burnafter.Server.{
  Server, Call, GetRequest, granted, denied, identify, update_activity, is_inactive,
  is_past_deadline,
}
use burnafter.Server.Get.{open_payload, answer, answer_fetched, get_known, get_verified, touch, get}
use burnafter.Server.RoundTrip.{Holds, get_held}

-- The payload was sealed for this binary, nonce, session and name, and is the secret.
pub record IsSealedFor (P : Primitives) (hash nonce session_id name : Bytes) (p : Payload)
    (secret : Bytes) : Type 0 where
  pub same_binary : p.client_binary_hash ≡ hash
  pub key : Bytes
  pub derived : derive_key P hash nonce session_id name p.salt ≡ ok key
  pub cipher : P.Aead
  pub built : build_gcm P key ≡ ok cipher
  pub sealed :
      p.encrypted_data ≡ take 12 p.encrypted_data ++ P.seal cipher (take 12 p.encrypted_data) secret

module _ (P : Primitives) (sound : IsSound P) where
  pub open_payload-sealed :
      (hash : Bytes) (req : GetRequest) (session_id : Bytes) (p : Payload) (secret : Bytes)
      → open_payload P hash req session_id p ≡ ok secret
      → IsSealedFor P hash req.client_nonce session_id req.name p secret
  unfolding open_payload
  open_payload-sealed hash req session_id p secret h =
      elim (Bool-cases (bytes_eq p.client_binary_hash hash)) [
        | inl same ↦
            let (key, ek, h1) =
              >>=-eq-ok
                (context "failed to derive key"
                  (derive_key P hash req.client_nonce session_id req.name p.salt))
                _ (rw same at h) in
            let (g, eg, n, sealed) =
              decrypt-authentic P sound p.encrypted_data key secret (context-eq-ok _ _ h1) in
            record {
              same_binary = (bytes_eq_iff p.client_binary_hash hash).0 same;
              key = key;
              derived = context-eq-ok _ _ ek;
              cipher = g;
              built = eg;
              sealed = sealed;
            }
        | inr differ ↦ absurd (cc (rw differ at h))
      ]

-- What a successful `Get` rests on.
pub record IsAuthorized (B : Storage) (P : Primitives) (os : Machine) (call : Call)
    (req : GetRequest) (s : Server B) (secret : Bytes) : Type 0 where
  pub hash : Bytes
  pub identified : identify P os call.peer ≡ ok hash
  pub metadata : Metadata
  pub payload : Payload
  pub holds : Holds B s req.name metadata payload
  pub active : is_inactive metadata (call.now 2) ≡ false
  pub early : is_past_deadline metadata (call.now 1) ≡ false
  pub sealed_for : IsSealedFor P hash req.client_nonce s.session_id req.name payload secret

module _ (B : Storage) (P : Primitives) (sound : IsSound P) (os : Machine) where
  answer-granted : (r : Result Bytes) (secret : Bytes) → answer P r ≡ granted secret → r ≡ ok secret
  answer-granted (ok a) secret h = cc
  answer-granted (err e) secret h = cc

  pub answer_fetched-granted :
      (hash : Bytes) (req : GetRequest) (session_id : Bytes) (f : Fetched) (secret : Bytes)
      → answer_fetched P hash req session_id f ≡ granted secret
      → (p : Payload) × (payload_of f ≡ some p) × (open_payload P hash req session_id p ≡ ok secret)
  answer_fetched-granted hash req session_id (found p) secret h =
      (p, refl, answer-granted _ secret h)
  answer_fetched-granted hash req session_id null secret h = absurd (cc)
  answer_fetched-granted hash req session_id (failed e) secret h = absurd (cc)

  get_known-granted :
      (call : Call) (req : GetRequest) (hash : Bytes) (m : Metadata) (s : Server B) (secret : Bytes)
      → (get_known B P os call req hash m s).0 ≡ granted secret
      → (is_inactive m (call.now 2) ≡ false)
        × (is_past_deadline m (call.now 1) ≡ false)
        × (answer_fetched P hash req s.session_id (B.get req.name s.storage) ≡ granted secret)
  unfolding get_known
  get_known-granted call req hash m s secret h = ground arith

  get_verified-granted :
      (call : Call) (req : GetRequest) (r : Result Bytes) (s : Server B) (secret : Bytes)
      → identify P os call.peer ≡ r
      → (get_verified B P os call req r s).0 ≡ granted secret
      → IsAuthorized B P os call req s secret
  get_verified-granted call req (err e) s secret client h = absurd (cc)
  get_verified-granted call req (ok hash) s secret client h =
      elim (Option-cases (lookup req.name s.secrets)) [
        | inl missing ↦ absurd (cc (rw (missing, get_verified) at h))
        | inr (m, there) ↦
            let (active, early, answered) =
              get_known-granted call req hash m s secret (rw (there, get_verified) at h) in
            let (p, held, opened) =
              answer_fetched-granted hash req s.session_id (B.get req.name s.storage) secret
                answered in
            record {
              hash = hash;
              identified = client;
              metadata = m;
              payload = p;
              holds = record { known = there; held = held };
              active = active;
              early = early;
              sealed_for = open_payload-sealed P sound hash req s.session_id p secret opened;
            }
      ]

  -- With sound primitives, a `Get` that grants a secret was made by a process whose binary has the
  -- hash stored with the payload, for a secret that is held and has not expired, and the payload is
  -- that secret sealed under the key of this binary, nonce, session and name.
  pub get_granted :
      (call : Call) (req : GetRequest) (s : Server B) (secret : Bytes)
      → (get B P os call req s).0 ≡ granted secret
      → IsAuthorized B P os call req s secret
  unfolding get update_activity
  get_granted call req s secret h =
      let a =
        get_verified-granted call req (identify P os call.peer) (update_activity B (call.now 0) s)
          secret refl h in
      record {
        hash = a.hash;
        identified = a.identified;
        metadata = a.metadata;
        payload = a.payload;
        holds = record { known = a.holds.known; held = a.holds.held };
        active = a.active;
        early = a.early;
        sealed_for = a.sealed_for;
      }

  -- A `Get` by an identified process with another binary, of a secret that is held and has not
  -- expired, is denied and leaves the payload in place. It counts as an access all the same: the
  -- inactivity TTL starts again.
  pub get_mismatch :
      (call : Call) (req : GetRequest) (s : Server B) (hash : Bytes) (m : Metadata) (p : Payload)
      → identify P os call.peer ≡ ok hash
      → Holds B s req.name m p
      → is_inactive m (call.now 2) ≡ false
      → is_past_deadline m (call.now 1) ≡ false
      → bytes_eq p.client_binary_hash hash ≡ false
      → ((get B P os call req s).0 ≡ denied (errorf "client binary hash mismatch - unauthorized"))
        × Holds B (get B P os call req s).1 req.name (record m { last_accessed = call.now 3 }) p
  unfolding touch update_activity open_payload
  get_mismatch call req s hash m p client h active early differ =
      rw (get_held B P os call req s client h active early) (
        rw differ,
        record {
          known = rw (
            lookup-insert req.name req.name (record m { last_accessed = call.now 3 }) s.secrets,
            bytes_eq_refl req.name,
          );
          held = h.held;
        },
      )
