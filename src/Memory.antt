-- ===== src/Memory.antt =====
-- memory.go: the ephemeral backends of in-memory mode, and the operations of the client on them.
pub mod Blob
pub mod RoundTrip
use burnafter.Prelude.{ℕ, ◌≡◌, Bool, Option, none, some, [], ltb, if◌then◌else◌}
use burnafter.Bytes.{Bytes}
use burnafter.Int.{ℤ, ltb_ℤ}
use burnafter.GoMap.{GoMap, lookup, insert, erase}
use burnafter.Clock.{Time, unix}
use burnafter.Crypto.{Primitives, Reader}
use burnafter.Result.{Error, errorf, Result, ok, err, ◌>>=◌}
use burnafter.Storage.{Payload, Fetched, found, null, failed, Storage}
use burnafter.Verify.{Machine}
use burnafter.Fallback.{is_expired}
use burnafter.Fallback.Seal.{seal, unseal}
use burnafter.Memory.Blob.{MemSecret, marshal_mem_secret, unmarshal_mem_secret}

-- A `secretStore` is a heap map, or a storage backend.
pub data SecretStore (B : Storage) : Type 0 where
  heap_store : GoMap MemSecret → SecretStore B
  keyring_store : B.State → SecretStore B

module _ (B : Storage) where
  abbrev pub new_heap_store : SecretStore B
  new_heap_store = heap_store []

  abbrev pub put_keyring : Option Error × B.State → Result (Unit {0}) × SecretStore B
  put_keyring (none, s) = (ok tt, keyring_store s)
  put_keyring (some e, s) = (err e, keyring_store s)

  unfoldable pub put : Bytes → MemSecret → SecretStore B → Result (Unit {0}) × SecretStore B
  put name s (heap_store m) = (ok tt, heap_store (insert name s m))
  put name s (keyring_store k) = put_keyring (
      B.store name
        (record { encrypted_data = marshal_mem_secret s; salt = []; client_binary_hash = [] }) k)

  -- `(s, true, nil)`, `(_, false, nil)` or an error
  abbrev pub fetched_secret : Fetched → Result (Option MemSecret)
  fetched_secret (failed e) = err e
  fetched_secret null = ok none
  fetched_secret (found payload) = do s ← unmarshal_mem_secret payload.encrypted_data; ok (some s)

  unfoldable pub get : Bytes → SecretStore B → Result (Option MemSecret)
  get name (heap_store m) = ok (lookup name m)
  get name (keyring_store k) = fetched_secret (B.get name k)

  unfoldable pub del : Bytes → SecretStore B → SecretStore B
  del name (heap_store m) = heap_store (erase name m)
  del name (keyring_store k) = keyring_store (B.delete name k).1

  module _ (P : Primitives) (os : Machine) (client_nonce : Bytes) where
    abbrev pub put_sealed :
        Bytes → Time → Result (Bytes × Bytes) → SecretStore B → Result (Unit {0}) × SecretStore B
    put_sealed name expiry (err e) mem = (err e, mem)
    put_sealed name expiry (ok (nonce, ciphertext)) mem =
        put name (record { nonce = nonce; ciphertext = ciphertext; expiry = unix expiry }) mem

    unfoldable pub store_in_memory :
        Reader → Bytes → Bytes → Time → SecretStore B → Result (Unit {0}) × SecretStore B
    store_in_memory rand name secret expiry mem =
        put_sealed name expiry (seal P os client_nonce rand name secret) mem

    abbrev pub open_unexpired :
        Time → Bytes → MemSecret → SecretStore B → Result Bytes × SecretStore B
    open_unexpired now name s mem =
        if is_expired now s.expiry
        then (err (errorf "secret expired"), del name mem)
        else (unseal P os client_nonce name s.nonce s.ciphertext, mem)

    abbrev pub get_fetched :
        Time → Bytes → Result (Option MemSecret) → SecretStore B → Result Bytes × SecretStore B
    get_fetched now name (err e) mem = (err e, mem)
    get_fetched now name (ok none) mem = (err (errorf "secret not found"), mem)
    get_fetched now name (ok (some s)) mem = open_unexpired now name s mem

    unfoldable pub get_from_memory : Time → Bytes → SecretStore B → Result Bytes × SecretStore B
    get_from_memory now name mem = get_fetched now name (get name mem) mem
