-- ===== src/Tests/Memory.antt =====
-- The theorems on in-memory mode, with both backends.
use burnafter.Prelude.{◌*◌, ◌≡◌, refl, replicate, true, false}
use burnafter.Bytes.{codes}
use burnafter.Clock.{unix, second}
use burnafter.Int.{pos, floor_div}
use burnafter.Storage.Memory.{memory_storage, new_memory_storage}
use burnafter.Fallback.{is_expired}
use burnafter.Memory.{SecretStore, keyring_store}
use burnafter.Memory.Blob.{MemSecret}

abbrev held : MemSecret
held = record { nonce = replicate 12 0; ciphertext = codes "sealed"; expiry = pos 1000 }

abbrev keyring : SecretStore memory_storage
keyring = keyring_store new_memory_storage

current : is_expired (pos (1000 * second)) (pos 1000) ≡ false
unfolding unix floor_div
current = refl

late : is_expired (pos (1001 * second)) (pos 1000) ≡ true
unfolding unix floor_div
late = refl
