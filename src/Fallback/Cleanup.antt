-- ===== src/Fallback/Cleanup.antt =====
-- fallback.go: what `cleanupExpiredFallbackFiles` deletes.
use burnafter.Prelude.{
  ℕ, ◌≡◌, refl, sym, ◌∙◌, ap, Bool, true, false, ◌&&◌, ◌||◌, Option, none, some, [], ◌∷◌, arith,
  if◌then◌else◌, Bool-cases, inl, inr,
}
use burnafter.Bytes.{Bytes, bytes_eq, bytes_eq_iff, bytes_eq_refl}
use burnafter.Int.{ℤ}
use burnafter.GoMap.{GoMap, lookup, lookup-erase, NodupKeys}
use burnafter.Clock.{Time, unix}
use burnafter.Crypto.{Primitives}
use burnafter.Result.{ok}
use burnafter.Fallback.Format.{SecretFile, parse}
use burnafter.Verify.{Machine, get_current_binary_hash}
use burnafter.Fallback.{
  file_prefix, has_prefix, expiry_of, is_stale, clean_entry, clean_entries, clean_as,
  cleanup_expired_fallback_files,
}
use burnafter.Fallback.TempDir.{Disk, Node, file, directory, Io, remove, read_file}

-- A readable file of ours, long enough, with a valid expiry that has passed, that can be removed.
abbrev pub is_doomed : Io → ℤ → Bytes → Bytes → Option Node → Bool
is_doomed io now prefix name none = false
is_doomed io now prefix name (some directory) = false
is_doomed io now prefix name (some (file mode b)) =
    has_prefix prefix name && (io.readable name && (is_stale now (expiry_of b) && io.removed name))

&&-true : (b : Bool) → (b && true) ≡ b
&&-true b = ground arith

&&-false : (b : Bool) → (b && false) ≡ false
&&-false b = ground arith

or-false : (b : Bool) → (b || false) ≡ b
or-false b = ground arith

module _ (io : Io) (now : ℤ) (prefix : Bytes) where
  lookup-clean_entry :
      (name j : Bytes) (node : Node) (disk : Disk)
      → lookup name disk ≡ some node
      → lookup j (clean_entry io now prefix (name, node) disk) ≡ (
          if is_doomed io now prefix name (some node) && bytes_eq name j
          then none
          else lookup j disk)
  unfolding clean_entry read_file remove
  lookup-clean_entry name j directory disk there = refl
  lookup-clean_entry name j (file mode b) disk there =
      rw (there, read_file) (ground (arith, lookup-erase name j disk))

  -- The listing and the directory agree on the entries that are still to come.
  abbrev Agrees : GoMap Node → Disk → Type 0
  Agrees [] disk = Unit
  Agrees ((name, node) ∷ entries) disk = (lookup name disk ≡ some node) × Agrees entries disk

  Agrees-clean_entry :
      (name : Bytes) (node : Node) (entries : GoMap Node) (disk : Disk)
      → lookup name disk ≡ some node
      → lookup name entries ≡ none
      → Agrees entries disk
      → Agrees entries (clean_entry io now prefix (name, node) disk)
  unfolding lookup
  Agrees-clean_entry name node [] disk there fresh a = tt
  Agrees-clean_entry name node ((k, n) ∷ entries) disk there fresh a =
      let other : bytes_eq k name ≡ false = ground arith in
      let other' : bytes_eq name k ≡ false =
        ground (arith, bytes_eq_iff k name, bytes_eq_iff name k) in
      (
        lookup-clean_entry name k node disk there ∙ rw (other', &&-false) a.0,
        Agrees-clean_entry name node entries disk there (rw other at fresh) a.1,
      )

  is_doomed_cons :
      (j name : Bytes) (node : Node) (entries : GoMap Node)
      → lookup name entries ≡ none
      → is_doomed io now prefix j (lookup j ((name, node) ∷ entries)) ≡ (
          is_doomed io now prefix j (lookup j entries)
          || (is_doomed io now prefix name (some node) && bytes_eq name j))
  unfolding lookup
  is_doomed_cons j name node entries fresh = elim (Bool-cases (bytes_eq name j)) [
    | inl same ↦
        let e : name ≡ j = (bytes_eq_iff name j).0 same in
        rw (same, ← e, fresh, &&-true) (ap (λ k. is_doomed io now prefix k (some node)) (sym e))
    | inr differ ↦ rw (differ, &&-false, or-false)
  ]

  lookup-clean_entries :
      (entries : GoMap Node) (j : Bytes) (disk : Disk)
      → NodupKeys entries
      → Agrees entries disk
      → lookup j (clean_entries io now prefix entries disk)
        ≡ (if is_doomed io now prefix j (lookup j entries) then none else lookup j disk)
  unfolding clean_entries
  lookup-clean_entries [] j disk u a = unfold lookup in refl
  lookup-clean_entries ((name, node) ∷ entries) j disk (fresh, u) (there, a) =
      lookup-clean_entries entries j (clean_entry io now prefix (name, node) disk) u
        (Agrees-clean_entry name node entries disk there fresh a)
      ∙ rw (lookup-clean_entry name j node disk there, is_doomed_cons j name node entries fresh)
          (ground arith)

  Agrees-of :
      (entries : GoMap Node) (disk : Disk)
      → NodupKeys entries
      → ((k : Bytes) (n : Node) → lookup k entries ≡ some n → lookup k disk ≡ some n)
      → Agrees entries disk
  unfolding lookup
  Agrees-of [] disk u h = tt
  Agrees-of ((name, node) ∷ entries) disk (fresh, u) h = (
    h name node (rw (bytes_eq_refl name)),
    Agrees-of entries disk u
        (λ k n there. h k n (ground (arith, fresh, there, bytes_eq_iff name k))),
  )

-- Where the binary can be hashed and the directory, with no name twice, be listed, a cleanup
-- succeeds and deletes exactly the readable files with the prefix of this binary whose expiry has
-- passed, as far as they can be removed, and changes no other file.
pub cleanup_files_exact :
    (P : Primitives) (os : Machine) (io : Io) (now : Time) (disk : Disk) (hash j : Bytes)
    → get_current_binary_hash P os ≡ ok hash
    → io.listed ≡ true
    → NodupKeys disk
    → ((cleanup_expired_fallback_files P os io now disk).0 ≡ ok tt)
      × (lookup j (cleanup_expired_fallback_files P os io now disk).1 ≡ (
          if is_doomed io (unix now) (file_prefix hash) j (lookup j disk)
          then none
          else lookup j disk))
unfolding cleanup_expired_fallback_files
cleanup_files_exact P os io now disk hash j hashed listed u =
    rw (hashed, clean_as)
      (simp listed (
        refl,
        lookup-clean_entries io (unix now) (file_prefix hash) disk j disk u
            (Agrees-of io (unix now) (file_prefix hash) disk disk u (λ k n there. there)),
      ))

-- The cleanup and `decryptSecret` read the same expiry in a file.
pub expiry_of-parse : (b : Bytes) (f : SecretFile) → parse b ≡ ok f → expiry_of b ≡ some f.expiry
unfolding parse expiry_of
expiry_of-parse b f h = ground arith

-- A cleanup leaves a file whose expiry has not passed.
pub lookup-cleanup :
    (P : Primitives) (os : Machine) (io : Io) (now : Time) (disk : Disk) (hash path b : Bytes)
    (mode : ℕ)
    → get_current_binary_hash P os ≡ ok hash
    → NodupKeys disk
    → lookup path disk ≡ some (file mode b)
    → is_stale (unix now) (expiry_of b) ≡ false
    → lookup path (cleanup_expired_fallback_files P os io now disk).1 ≡ some (file mode b)
lookup-cleanup P os io now disk hash path b mode hashed u there fresh =
    elim (Bool-cases io.listed) [
      | inl listed ↦
          (cleanup_files_exact P os io now disk hash path hashed listed u).1
          ∙ rw there (ground (arith, there, fresh))
      | inr unlisted ↦
          unfold cleanup_expired_fallback_files in rw (hashed, clean_as) (simp unlisted there)
    ]
