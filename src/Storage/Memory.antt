-- ===== src/Storage/Memory.antt =====
-- internal/secrets/memory.go: the in-memory backend.
use burnafter.Prelude.{◌≡◌, refl, Option, none, some, [], arith}
use burnafter.Bytes.{Bytes}
use burnafter.GoMap.{GoMap, lookup, insert, erase, lookup-insert, lookup-erase}
use burnafter.Result.{Error, errorf}
use burnafter.Storage.{Payload, Fetched, found, failed, Storage, view, IsReliable}

pub record MemoryStorage : Type 0 where
  pub entries : GoMap Payload

unfoldable pub new_memory_storage : MemoryStorage
new_memory_storage = record { entries = [] }

unfoldable pub store : Bytes → Payload → MemoryStorage → Option Error × MemoryStorage
store id secret m = (none, record { entries = insert id secret m.entries })

abbrev pub found_or_missing : Option Payload → Fetched
found_or_missing none = failed (errorf "secret not found")
found_or_missing (some secret) = found secret

unfoldable pub get : Bytes → MemoryStorage → Fetched
get id m = found_or_missing (lookup id m.entries)

unfoldable pub delete : Bytes → MemoryStorage → Option Error × MemoryStorage
delete id m = (none, record { entries = erase id m.entries })

abbrev pub memory_storage : Storage
memory_storage = record { State = MemoryStorage; store = store; get = get; delete = delete }

view-lookup : (id : Bytes) (m : MemoryStorage) → view memory_storage m id ≡ lookup id m.entries
unfolding get
view-lookup id m = ground arith

-- The in-memory backend stores, overwrites, deletes and finds exactly as a map does, and its
-- `Store` never fails.
pub memory_storage-IsReliable : IsReliable memory_storage
unfolding store get delete
memory_storage-IsReliable = record {
  store_ok = λ id p s. refl;
  view_store = λ id p s j. rw (lookup-insert id j p s.entries) (ground arith);
  view_delete = λ id s j. rw (lookup-erase id j s.entries) (ground arith);
  not_null = λ id s. ground arith;
}
