-- ===== src/Tests/Keyring.antt =====
-- The keyring backend on a keyring with room for one short key.
use burnafter.Prelude.{
  ℕ, ◌≡◌, refl, Bool, true, false, Option, none, some, [], ◌∷◌, if◌then◌else◌, arith, ltb, length,
  replicate,
}
use burnafter.Bytes.{Bytes, codes, bytes_eq, bytes_eq_iff}
use burnafter.Result.{errorf}
use burnafter.Storage.{Payload, view, IsFaithful}
use burnafter.Storage.Keyring.{Kernel, Gob, store_on_thread, keyring_storage}
use burnafter.Storage.Kept.{
  key_data, IsKeyring, Decodes, keyring_storage-IsFaithful, store_on_thread_lost,
}

abbrev Slot : Type 0
Slot = Option (Bytes × Bytes)

abbrev find : Bytes → Slot → Option ℕ
find d none = none
find d (some (e, b)) = if bytes_eq e d then some 0 else none

abbrev size : ℕ → Slot → Option ℕ
size key none = none
size key (some (e, b)) = some (length b)

abbrev read : ℕ → ℕ → Slot → Option Bytes
read key n none = none
read key n (some (e, b)) = some b

abbrev unlink : ℕ → Slot → Bool × Slot
unlink key none = (false, none)
unlink key (some k) = (true, none)

abbrev add_key : Bytes → Bytes → Slot → Bool × Slot
add_key d b none = if ltb 8 (length b) then (false, none) else (true, some (d, b))
add_key d b (some (e, c)) =
    if bytes_eq e d
    then (if ltb 8 (length b) then (false, some (e, c)) else (true, some (d, b)))
    else (false, some (e, c))

abbrev pub kernel : Kernel
kernel = record {
  State = Slot;
  search = find;
  size = size;
  read = read;
  unlink = unlink;
  add_key = add_key;
}

slot_added :
    (d b : Bytes) (s : Slot) (j : Bytes)
    → (add_key d b s).0 ≡ true
    → key_data kernel (add_key d b s).1 j ≡ (if bytes_eq d j then some b else key_data kernel s j)
slot_added d b none j done = ground arith
slot_added d b (some (e, c)) j done =
    ground (arith, bytes_eq_iff e d, bytes_eq_iff e j, bytes_eq_iff d j)

slot_not_added :
    (d b : Bytes) (s : Slot) (j : Bytes)
    → (add_key d b s).0 ≡ false
    → key_data kernel (add_key d b s).1 j ≡ key_data kernel s j
slot_not_added d b none j done = ground arith
slot_not_added d b (some (e, c)) j done = ground arith

slot_unlinked :
    (d : Bytes) (key : ℕ) (s : Slot) (j : Bytes)
    → find d s ≡ some key
    → (unlink key s).0 ≡ true
    → key_data kernel (unlink key s).1 j ≡ (if bytes_eq d j then none else key_data kernel s j)
slot_unlinked d key none j present done = cc
slot_unlinked d key (some (e, c)) j present done =
    ground (arith, bytes_eq_iff e d, bytes_eq_iff e j, bytes_eq_iff d j)

slot_not_unlinked :
    (key : ℕ) (s : Slot) (j : Bytes)
    → (unlink key s).0 ≡ false
    → key_data kernel (unlink key s).1 j ≡ key_data kernel s j
slot_not_unlinked key none j done = refl
slot_not_unlinked key (some k) j done = cc

pub kernel-IsKeyring : IsKeyring kernel
kernel-IsKeyring = record {
  added = slot_added;
  not_added = slot_not_added;
  unlinked = slot_unlinked;
  not_unlinked = slot_not_unlinked;
}

-- A codec of payloads with no salt and no hash.
abbrev encode_parts : Bytes → Bytes → Bytes → Option Bytes
encode_parts b [] [] = some b
encode_parts b [] (x ∷ h) = none
encode_parts b (x ∷ s) h = none

abbrev pub plain : Bytes → Payload
plain b = record { encrypted_data = b; salt = []; client_binary_hash = [] }

abbrev pub gob : Gob
gob = record {
  encode = λ p. encode_parts p.encrypted_data p.salt p.client_binary_hash;
  decode = λ b. some (plain b);
}

parts_decode :
    (d s h b : Bytes)
    → encode_parts d s h ≡ some b
    → some (plain b) ≡ some (record { encrypted_data = d; salt = s; client_binary_hash = h })
parts_decode d [] [] b e = let same : d ≡ b = cc in rw same refl
parts_decode d [] (x ∷ h) b e = cc
parts_decode d (x ∷ s) h b e = cc

pub gob-Decodes : Decodes gob
gob-Decodes p b e = parts_decode p.encrypted_data p.salt p.client_binary_hash b e

abbrev pub old : Slot
old = some (codes "key", codes "old")

keyring_storage-IsFaithful_example : IsFaithful (keyring_storage kernel gob)
keyring_storage-IsFaithful_example =
    keyring_storage-IsFaithful kernel gob kernel-IsKeyring gob-Decodes

-- A payload that is too long for the kernel
abbrev large : Payload
large = plain (replicate 9 1)

there : find (codes "key") old ≡ some 0
unfolding bytes_eq
there = refl

store_on_thread_lost_example :
    ((store_on_thread kernel gob (codes "key") large old).0 ≡ some (errorf "adding key to keyring"))
    × (view
          (keyring_storage kernel gob)
          (store_on_thread kernel gob (codes "key") large old).1
          (codes "key")
        ≡ none)
store_on_thread_lost_example =
    store_on_thread_lost kernel gob kernel-IsKeyring (codes "key") large old 0 (replicate 9 1) refl
      there refl refl
