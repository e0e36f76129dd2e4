-- ===== src/Server/Store.antt =====
-- internal/server/store.go
use burnafter.Prelude.{◌&&◌, not, Option, none, some, ◌==◌, if◌then◌else◌, length}
use burnafter.Bytes.{Bytes}
use burnafter.Int.{ℤ, pos, negsuc, ltb_ℤ}
use burnafter.GoMap.{GoMap, lookup, insert, is_some}
use burnafter.Clock.{Time, Duration, seconds, add}
use burnafter.Result.{Error, errorf, wrap, Result, ok, err, context, ◌>>=◌}
use burnafter.Crypto.{Primitives, generate_salt, derive_key, encrypt}
use burnafter.Storage.{Payload, Metadata, Storage}
use burnafter.Verify.{Machine}
use burnafter.Server.{
  Options, StoreRequest, StoreResponse, stored, not_stored, Call, Server, identify, update_activity,
}

-- Store limits
unfoldable pub exceeds_limits : Options → StoreRequest → GoMap Metadata → Option Error
exceeds_limits options req secrets =
    if ltb_ℤ options.max_secret_size (pos (length req.secret))
    then some (errorf "secret size exceeds maximum allowed size")
    else if not (is_some (lookup req.name secrets))
        && not (ltb_ℤ (pos (length secrets)) options.max_secrets)
    then some (errorf "maximum number of secrets reached")
    else none

abbrev pub guard : Option Error → Result (Unit {0})
guard none = ok tt
guard (some e) = err e

-- `ttl == 0` takes the default.
abbrev pub ttl_or : Duration → Duration → Duration
ttl_or default (pos n) = if n == 0 then default else pos n
ttl_or default (negsuc n) = negsuc n

unfoldable pub inactivity_ttl : Options → ℤ → Duration
inactivity_ttl options secs = ttl_or options.default_ttl (seconds secs)

unfoldable pub absolute_expiry : ℤ → Time → Option Time
absolute_expiry secs now = if ltb_ℤ (pos 0) secs then some (add now (seconds secs)) else none

unfoldable pub metadata_of : Options → StoreRequest → (expiry_base now : Time) → Metadata
metadata_of options req expiry_base now = record {
  name = req.name;
  inactivity_ttl = inactivity_ttl options req.ttl_seconds;
  absolute_expires_at = absolute_expiry req.absolute_expiration_seconds expiry_base;
  last_accessed = now;
}

module _ (B : Storage) where
  -- The end of `Store`: the metadata is written only if the backend took the payload.
  abbrev pub commit :
      Bytes → Metadata → Option Error × B.State → Server B → StoreResponse × Server B
  commit name m (some e, storage) s =
      (not_stored (wrap "failed to store secret in backend" e), record s { storage = storage })
  commit name m (none, storage) s =
      (stored, record s { storage = storage; secrets = insert name m s.secrets })

  module _ (P : Primitives) (os : Machine) where
    -- `Store` up to the call of the backend: checks, key and ciphertext. Nothing is changed here.
    unfoldable pub prepare : Call → StoreRequest → Server B → Result Payload
    prepare call req s = do
      client_hash ← identify P os call.peer
      _ ← guard (exceeds_limits s.options req s.secrets)
      salt ← context "failed to generate salt" (generate_salt call.salt_source)
      key ←
          context "failed to derive key"
            (derive_key P client_hash req.client_nonce s.session_id req.name salt)
      encrypted ← context "failed to encrypt secret" (encrypt P req.secret key call.nonce_source)
      ok (record { encrypted_data = encrypted; salt = salt; client_binary_hash = client_hash })

    abbrev pub finish_store :
        Call → StoreRequest → Result Payload → Server B → StoreResponse × Server B
    finish_store call req (err e) s = (not_stored e, s)
    finish_store call req (ok payload) s =
        commit req.name (metadata_of s.options req (call.now 1) (call.now 2))
          (B.store req.name payload s.storage) s

    -- The readings of the clock: 0 in `updateActivity`, 1 for the deadline, 2 for `LastAccessed`.
    unfoldable pub store : Call → StoreRequest → Server B → StoreResponse × Server B
    unfolding update_activity
    store call req s =
        let s' = update_activity B (call.now 0) s in finish_store call req (prepare call req s') s'
