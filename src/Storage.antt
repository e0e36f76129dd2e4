-- ===== src/Storage.antt =====
-- secrets/storage.go: what is stored, and the interface of the storage backends.
pub mod Memory
pub mod Keyring
pub mod Keychain
pub mod Items
pub mod Kept
pub mod Worker
pub mod Origin
use burnafter.Prelude.{
  ℕ, ◌≡◌, ◌≢◌, Option, none, some, if◌then◌else◌, ◌∙◌, false, ◌⊎◌, inl, inr, Bool-cases, sym,
}
use burnafter.Bytes.{Bytes, bytes_eq, bytes_eq_refl, bytes_eq_iff}
use burnafter.Clock.{Time, Duration}
use burnafter.Result.{Error}

pub record Payload : Type 0 where
  pub encrypted_data : Bytes
  pub salt : Bytes
  pub client_binary_hash : Bytes

pub record Metadata : Type 0 where
  pub name : Bytes
  pub inactivity_ttl : Duration
  pub absolute_expires_at : Option Time
  pub last_accessed : Time

-- `(*Payload, error)`: a payload, a nil pointer with no error, or an error.
pub data Fetched : Type 0 where
  found : Payload → Fetched
  null : Fetched
  failed : Error → Fetched

-- The interface. An error is `some`; a call that fails may have changed the state.
pub record Storage : Type 1 where
  pub State : Type 0
  pub store : Bytes → Payload → State → Option Error × State
  pub get : Bytes → State → Fetched
  pub delete : Bytes → State → Option Error × State

abbrev pub payload_of : Fetched → Option Payload
payload_of (found p) = some p
payload_of null = none
payload_of (failed e) = none

-- What a backend holds, as its clients see it.
abbrev pub view : (B : Storage) → B.State → Bytes → Option Payload
view B s id = payload_of (B.get id s)

-- A backend that does what the interface promises, and fails only to find what is not there.
pub record IsReliable (B : Storage) : Type 0 where
  pub store_ok : (id : Bytes) (p : Payload) (s : B.State) → (B.store id p s).0 ≡ none
  pub view_store :
      (id : Bytes) (p : Payload) (s : B.State) (j : Bytes)
      → view B (B.store id p s).1 j ≡ (if bytes_eq id j then some p else view B s j)
  pub view_delete :
      (id : Bytes) (s : B.State) (j : Bytes)
      → view B (B.delete id s).1 j ≡ (if bytes_eq id j then none else view B s j)
  pub not_null : (id : Bytes) (s : B.State) → B.get id s ≢ null

-- A backend that may fail: a call that succeeds does what the interface promises, and no call touches
-- another name.
pub record IsFaithful (B : Storage) : Type 0 where
  pub stored :
      (id : Bytes) (p : Payload) (s : B.State)
      → (B.store id p s).0 ≡ none
      → view B (B.store id p s).1 id ≡ some p
  pub deleted :
      (id : Bytes) (s : B.State) → (B.delete id s).0 ≡ none → view B (B.delete id s).1 id ≡ none
  pub store_spares :
      (id : Bytes) (p : Payload) (s : B.State) (j : Bytes)
      → bytes_eq id j ≡ false
      → view B (B.store id p s).1 j ≡ view B s j
  pub delete_spares :
      (id : Bytes) (s : B.State) (j : Bytes)
      → bytes_eq id j ≡ false
      → view B (B.delete id s).1 j ≡ view B s j

pub IsReliable-IsFaithful : (B : Storage) → IsReliable B → IsFaithful B
IsReliable-IsFaithful B r = record {
  stored = λ id p s done. r.view_store id p s id ∙ rw (bytes_eq_refl id);
  deleted = λ id s done. r.view_delete id s id ∙ rw (bytes_eq_refl id);
  store_spares = λ id p s j other. r.view_store id p s j ∙ rw other;
  delete_spares = λ id s j other. r.view_delete id s j ∙ rw other;
}

-- A backend that makes nothing up: what it holds after a call, failed or not, it held before or was given
-- under that name.
pub record IsHonest (B : Storage) : Type 0 where
  pub store_origin :
      (id : Bytes) (p : Payload) (s : B.State) (j : Bytes) (q : Payload)
      → view B (B.store id p s).1 j ≡ some q
      → (view B s j ≡ some q) ⊎ ((id ≡ j) × (p ≡ q))
  pub delete_origin :
      (id : Bytes) (s : B.State) (j : Bytes) (q : Payload)
      → view B (B.delete id s).1 j ≡ some q
      → view B s j ≡ some q

pub IsReliable-IsHonest : (B : Storage) → IsReliable B → IsHonest B
IsReliable-IsHonest B r = record {
  store_origin = λ id p s j q h. elim (Bool-cases (bytes_eq id j)) [
    | inl same ↦ inr ((bytes_eq_iff id j).0 same, cc (sym (rw (r.view_store id p s j, same) at h)))
    | inr other ↦ inl (rw (r.view_store id p s j, other) at h)
  ];
  delete_origin = λ id s j q h. elim (Bool-cases (bytes_eq id j)) [
    | inl same ↦ absurd (cc (rw (r.view_delete id s j, same) at h))
    | inr other ↦ rw (r.view_delete id s j, other) at h
  ];
}
