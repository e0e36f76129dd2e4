-- ===== src/Pack.antt =====
-- hack/gzip/main.go: compressing a server binary when building. `compress/gzip` is a parameter.
use burnafter.Prelude.{
  ℕ, ◌+◌, ◌≡◌, refl, ◌∙◌, ap, Bool, true, false, ◌&&◌, Option, none, some, [], ◌++◌, if◌then◌else◌,
  if_keeps, if_true, length, length-append, arith, Bool-cases, inl, inr,
}
use burnafter.Bytes.{Bytes, codes, bytes_eq, bytes_eq_iff, bytes_eq_refl}
use burnafter.GoMap.{lookup, insert, erase, lookup-insert, lookup-erase}
use burnafter.Result.{errorf, Result, ok, err}
use burnafter.Fallback.TempDir.{Disk, Node, file, directory, can_replace}

-- How the calls of one run come out. `written` is what a call that failed left in the output, `umask`
-- what the process's umask leaves of the mode of a new file.
pub record Calls : Type 0 where
  pub readable : Bool
  pub created : Bool
  pub level_ok : Bool
  pub write_ok : Bool
  pub flush_ok : Bool
  pub written : Bytes
  pub removed : Bool
  pub closed : Bool
  pub umask : ℕ → ℕ

-- `path + ".gz"`
abbrev pub packed : Bytes → Bytes
packed path = path ++ codes ".gz"

-- `os.Create` empties a file that is there and keeps its mode; a new one gets 0666 before the umask.
abbrev pub mode_of : (ℕ → ℕ) → Option Node → ℕ
mode_of umask none = umask 0o666
mode_of umask (some (file mode b)) = mode
mode_of umask (some directory) = umask 0o666

module _ (gzip : Bytes → Bytes) (c : Calls) where
  -- The deferred `out.Close`
  abbrev pub close_out : Result (Unit {0}) × Disk → Result (Unit {0}) × Disk
  close_out (err e, disk) = (err e, disk)
  close_out (ok u, disk) = (if c.closed then ok u else err (errorf "close"), disk)

  abbrev pub remove_original : Bytes → Disk → Result (Unit {0}) × Disk
  remove_original path disk =
      if c.removed then (ok tt, erase path disk) else (err (errorf "remove"), disk)

  -- From the opened output, a file of this mode, on
  abbrev pub write_out : Bytes → ℕ → Bytes → Disk → Result (Unit {0}) × Disk
  write_out path mode b disk =
      if c.level_ok
      then (if c.write_ok
          then (if c.flush_ok
              then remove_original path (insert (packed path) (file mode (gzip b)) disk)
              else (err (errorf "flush"), insert (packed path) (file mode c.written) disk))
          else (err (errorf "write"), insert (packed path) (file mode c.written) disk))
      else (err (errorf "level"), insert (packed path) (file mode []) disk)

  abbrev pub compress_read : Bytes → Option Node → Disk → Result (Unit {0}) × Disk
  compress_read path none disk = (err (errorf "read"), disk)
  compress_read path (some directory) disk = (err (errorf "read"), disk)
  compress_read path (some (file mode b)) disk =
      if c.readable
      then (if c.created && can_replace (lookup (packed path) disk)
          then close_out (write_out path (mode_of c.umask (lookup (packed path) disk)) b disk)
          else (err (errorf "create"), disk))
      else (err (errorf "read"), disk)

  unfoldable pub compress : Bytes → Disk → Result (Unit {0}) × Disk
  compress path disk = compress_read path (lookup path disk) disk

length-pack : (path : Bytes) → length (packed path) ≡ length path + 3
length-pack path = length-append path (codes ".gz")

-- The output is another file.
packed_differs : (path : Bytes) → bytes_eq (packed path) path ≡ false
packed_differs path = elim (Bool-cases (bytes_eq (packed path) path)) [
  | inl same ↦
      let e : packed path ≡ path = (bytes_eq_iff (packed path) path).0 same in
      absurd (omega (arith, length-pack path, ap length e))
  | inr differs ↦ differs
]

packed_differs_sym : (path : Bytes) → bytes_eq path (packed path) ≡ false
packed_differs_sym path =
    ground
      (arith, packed_differs path, bytes_eq_iff path (packed path), bytes_eq_iff (packed path) path)

module _ (gzip : Bytes → Bytes) (c : Calls) (path b : Bytes) (disk : Disk) where
  -- With success the output holds the compressed contents and the original is gone, with a failure the
  -- original is as it was.
  abbrev pub IsPacked : Result (Unit {0}) × Disk → Type 0
  IsPacked (ok u, disk') =
      (lookup (packed path) disk'
        ≡ some (file (mode_of c.umask (lookup (packed path) disk)) (gzip b)))
      × (lookup path disk' ≡ none)
  IsPacked (err e, disk') = lookup path disk' ≡ lookup path disk

  original_kept : (node : Node) → lookup path (insert (packed path) node disk) ≡ lookup path disk
  original_kept node = lookup-insert (packed path) path node disk ∙ rw (packed_differs path)

  write_out-IsPacked :
      IsPacked (write_out gzip c path (mode_of c.umask (lookup (packed path) disk)) b disk)
  write_out-IsPacked =
      let keeps = λ (r : Result (Unit {0}) × Disk). IsPacked r in
      let mode = mode_of c.umask (lookup (packed path) disk) in
      let output = insert (packed path) (file mode (gzip b)) disk in
      if_keeps keeps c.level_ok
        (if_keeps keeps c.write_ok
          (if_keeps keeps c.flush_ok
            (if_keeps keeps c.removed
              (
                lookup-erase path (packed path) output
                    ∙ rw (packed_differs_sym path) (
                        lookup-insert (packed path) (packed path) (file mode (gzip b)) disk
                        ∙ rw (bytes_eq_refl (packed path))),
                lookup-erase path path output ∙ rw (bytes_eq_refl path),
              )
              (original_kept (file mode (gzip b))))
            (original_kept (file mode c.written)))
          (original_kept (file mode c.written)))
        (original_kept (file mode []))

  close_out-IsPacked :
      (r : Result (Unit {0}) × Disk) → c.closed ≡ true → IsPacked r → IsPacked (close_out gzip c r)
  close_out-IsPacked (ok tt, disk') closed h = rw (if_true {b = c.closed} _ _ closed) h
  close_out-IsPacked (err e, disk') closed h = h

  compress_read-IsPacked :
      (mode : ℕ) → c.closed ≡ true → IsPacked (compress_read gzip c path (some (file mode b)) disk)
  compress_read-IsPacked mode closed =
      let keeps = λ (r : Result (Unit {0}) × Disk). IsPacked r in
      if_keeps keeps c.readable
        (if_keeps keeps (c.created && can_replace (lookup (packed path) disk))
          (close_out-IsPacked _ closed write_out-IsPacked) refl)
        refl

  -- If the output can be closed, compressing a file ends in one of two ways: with success, the
  -- compressed contents are in the file with `.gz` at the end of its name, with the mode that it
  -- had or with 0666 less the umask if it is new, and the original is gone, or with an error, and
  -- the original is as it was.
  pub compress-IsPacked :
      (mode : ℕ)
      → lookup path disk ≡ some (file mode b)
      → c.closed ≡ true
      → IsPacked (compress gzip c path disk)
  unfolding compress
  compress-IsPacked mode there closed = rw there (compress_read-IsPacked mode closed)
