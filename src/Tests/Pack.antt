-- ===== src/Tests/Pack.antt =====
-- A binary that is compressed, with a compression that puts a byte in front.
use burnafter.Prelude.{◌≡◌, refl, true, some, [], ◌∷◌}
use burnafter.Bytes.{Bytes, codes, bytes_eq}
use burnafter.GoMap.{lookup}
use burnafter.Fallback.TempDir.{Disk, file}
use burnafter.Pack.{Calls, IsPacked, compress, compress-IsPacked}
use burnafter.Prelude.{◌-◌}

abbrev smooth_calls : Calls
smooth_calls = record {
  readable = true;
  created = true;
  level_ok = true;
  write_ok = true;
  flush_ok = true;
  written = [];
  removed = true;
  closed = true;
  umask = λ mode. mode - 0o022;
}

abbrev shrink : Bytes → Bytes
shrink b = 31 ∷ b

abbrev binaries : Disk
binaries = (codes "server", file 0o755 (codes "ELF")) ∷ []

there : lookup (codes "server") binaries ≡ some (file 0o755 (codes "ELF"))
unfolding lookup bytes_eq
there = refl

compress-IsPacked_example :
    IsPacked shrink smooth_calls
      (codes "server")
      (codes "ELF")
      binaries
      (compress shrink smooth_calls (codes "server") binaries)
compress-IsPacked_example =
    compress-IsPacked shrink smooth_calls (codes "server") (codes "ELF") binaries 0o755 there refl
