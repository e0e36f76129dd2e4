-- ===== src/Fallback/Atomic.antt =====
-- fallback.go: a store that fails.
use burnafter.Prelude.{
  ◌≡◌, refl, sym, ◌∙◌, true, none, some, arith, Option-cases, Bool-cases, inl, inr,
}
use burnafter.Bytes.{Bytes, bytes_eq, bytes_eq_iff}
use burnafter.GoMap.{lookup, insert, lookup-insert, lookup-erase}
use burnafter.Clock.{Time}
use burnafter.Crypto.{Primitives, Reader}
use burnafter.Result.{Error, Result, ok, err}
use burnafter.Verify.{Machine}
use burnafter.Fallback.{build_file, write_built, encrypt_secret}
use burnafter.Fallback.TempDir.{Disk, Node, file, Io, remove, owner_only, write_temp, replace_file}

-- The name that `os.CreateTemp` chooses is new, and the file can be removed again.
pub record IsFresh (io : Io) (disk : Disk) : Type 0 where
  pub unused : (tmp : Bytes) → io.created ≡ some tmp → lookup tmp disk ≡ none
  pub removable : (tmp : Bytes) → io.created ≡ some tmp → io.removed tmp ≡ true

module _ (io : Io) (disk : Disk) where
  -- The temporary file is gone again.
  pub discarded :
      (tmp j : Bytes) (node : Node)
      → lookup tmp disk ≡ none
      → io.removed tmp ≡ true
      → lookup j (remove io tmp (insert tmp node disk)) ≡ lookup j disk
  unfolding remove
  discarded tmp j node unused removable = rw removable (
      lookup-erase tmp j (insert tmp node disk)
      ∙ rw (lookup-insert tmp j node disk) (elim (Bool-cases (bytes_eq tmp j)) [
        | inl same ↦ rw same (sym (rw (← (bytes_eq_iff tmp j).0 same) unused))
        | inr differ ↦ rw differ
      ]))

  write_temp_refused :
      (tmp path buf j : Bytes) (e : Error)
      → lookup tmp disk ≡ none
      → io.removed tmp ≡ true
      → (write_temp io tmp path buf disk).0 ≡ err e
      → lookup j (write_temp io tmp path buf disk).1 ≡ lookup j disk
  write_temp_refused tmp path buf j e unused removable h = ground (
    arith,
    discarded tmp j (file owner_only buf) unused removable,
    discarded tmp j (file owner_only io.written) unused removable,
  )

  replace_file_refused :
      (path buf j : Bytes) (e : Error)
      → IsFresh io disk
      → (replace_file io path buf disk).0 ≡ err e
      → lookup j (replace_file io path buf disk).1 ≡ lookup j disk
  unfolding replace_file
  replace_file_refused path buf j e fresh h = elim (Option-cases io.created) [
    | inl failed ↦ rw (failed, replace_file)
    | inr (tmp, made) ↦
        rw (made, replace_file)
          (write_temp_refused tmp path buf j e (fresh.unused tmp made) (fresh.removable tmp made)
            (rw (made, replace_file) at h))
  ]

  module _ (P : Primitives) (os : Machine) (client_nonce : Bytes) (rand : Reader)
      (name secret : Bytes) (expiry : Time) where
    write_built_refused :
        (r : Result (Bytes × Bytes)) (j : Bytes) (e : Error)
        → IsFresh io disk
        → (write_built P os client_nonce io r disk).0 ≡ err e
        → lookup j (write_built P os client_nonce io r disk).1 ≡ lookup j disk
    write_built_refused (err e') j e fresh h = refl
    write_built_refused (ok (path, buf)) j e fresh h = replace_file_refused path buf j e fresh h

    -- If a secret is not stored, whichever call failed, every file is as it was, provided the
    -- temporary file had a new name and can be removed.
    pub encrypt_secret_refused :
        (j : Bytes) (e : Error)
        → IsFresh io disk
        → (encrypt_secret P os client_nonce io rand name secret expiry disk).0 ≡ err e
        → lookup j (encrypt_secret P os client_nonce io rand name secret expiry disk).1
          ≡ lookup j disk
    unfolding encrypt_secret
    encrypt_secret_refused j e fresh h =
        write_built_refused (build_file P os client_nonce rand name secret expiry) j e fresh h
