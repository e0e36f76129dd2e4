-- ===== src/Server/Get.antt =====
-- internal/server/get.go
use burnafter.Prelude.{not, none, some, if◌then◌else◌}
use burnafter.Bytes.{Bytes, bytes_eq}
use burnafter.GoMap.{lookup, insert}
use burnafter.Clock.{Time}
use burnafter.Result.{errorf, wrap, Result, ok, err, context, ◌>>=◌}
use burnafter.Crypto.{Primitives, derive_key, decrypt}
use burnafter.Storage.{Payload, Metadata, Fetched, found, null, failed, Storage}
use burnafter.Verify.{Machine}
use burnafter.Server.{
  GetRequest, GetResponse, granted, denied, panicked, Call, Server, identify, update_activity,
  is_inactive, is_past_deadline, expire,
}

module _ (P : Primitives) where
  -- `Get` from the payload on
  unfoldable pub open_payload : Bytes → GetRequest → (session_id : Bytes) → Payload → Result Bytes
  open_payload client_hash req session_id payload =
      if not (bytes_eq payload.client_binary_hash client_hash)
      then err (errorf "client binary hash mismatch - unauthorized")
      else do
        key ←
            context "failed to derive key"
              (derive_key P client_hash req.client_nonce session_id req.name payload.salt)
        context "failed to decrypt secret" (decrypt P payload.encrypted_data key)

  abbrev pub answer : Result Bytes → GetResponse
  answer (ok plaintext) = granted plaintext
  answer (err e) = denied e

  abbrev pub answer_fetched : Bytes → GetRequest → (session_id : Bytes) → Fetched → GetResponse
  answer_fetched hash req session_id (found payload) =
      answer (open_payload hash req session_id payload)
  answer_fetched hash req session_id null = panicked
  answer_fetched hash req session_id (failed e) =
      denied (wrap "failed to retrieve secret from storage" e)

module _ (B : Storage) where
  unfoldable pub touch : Bytes → Metadata → Time → Server B → Server B
  touch name m now s = record s {
    secrets = insert name (record m { last_accessed = now }) s.secrets;
  }

  module _ (P : Primitives) (os : Machine) where
    -- The readings of the clock: 0 in `updateActivity`, 1 is `now`, 2 is in `time.Since`, 3 is the new
    -- `LastAccessed`.
    unfoldable pub get_known :
        Call → GetRequest → Bytes → Metadata → Server B → GetResponse × Server B
    get_known call req hash m s =
        if is_inactive m (call.now 2)
        then (denied (errorf "secret has expired due to inactivity"), expire B req.name s)
        else if is_past_deadline m (call.now 1)
        then (denied (errorf "secret has expired (absolute deadline reached)"), expire B req.name s)
        else (
          answer_fetched P hash req s.session_id (B.get req.name s.storage),
          touch req.name m (call.now 3) s,
        )

    abbrev pub get_verified : Call → GetRequest → Result Bytes → Server B → GetResponse × Server B
    get_verified call req (err e) s = (denied e, s)
    get_verified call req (ok hash) s = elim (lookup req.name s.secrets) [
      | none ↦ (denied (errorf "secret not found"), s)
      | some m ↦ get_known call req hash m s
    ]

    unfoldable pub get : Call → GetRequest → Server B → GetResponse × Server B
    unfolding update_activity
    get call req s =
        get_verified call req (identify P os call.peer) (update_activity B (call.now 0) s)
