-- ===== src/Tests/Crypto.antt =====
-- The theorems on the envelope and the keys, at small inputs.
use burnafter.Prelude.{ℕ, ◌≡◌, refl, ◌++◌, arith, replicate, none, ◌==◌, if◌then◌else◌, zero, suc}
use burnafter.Bytes.{Bytes, codes, bytes_eq}
use burnafter.Crypto.{Reader, decrypt, build_gcm, hex_encode, generate_session_id}
use burnafter.Crypto.Keys.{key_material-injective, AllBytes, ReadsBytes}
use burnafter.Result.{ok}
use burnafter.Tests.Toy.{toy, zeros}

abbrev key : Bytes
key = replicate 32 7

abbrev sealed : Bytes
sealed = replicate 12 0 ++ (replicate 16 7 ++ codes "hunter2")

decrypt_sealed : decrypt toy sealed key ≡ ok (codes "hunter2")
unfolding decrypt build_gcm bytes_eq
decrypt_sealed = refl

key_material-injective_example :
    (codes "h" ≡ codes "h")
    × (codes "n" ≡ codes "n")
    × (codes "s" ≡ codes "s")
    × (codes "key" ≡ codes "key")
key_material-injective_example =
    key_material-injective (codes "h") (codes "n") (codes "s") (codes "key") (codes "h") (codes "n")
      (codes "s") (codes "key") refl refl refl refl

abbrev session : Bytes
session = replicate 64 48

session_of_zeros : generate_session_id zeros ≡ ok session
unfolding generate_session_id hex_encode
session_of_zeros = refl

zeros_AllBytes : (n : ℕ) → AllBytes (replicate n 0)
zeros_AllBytes zero = tt
zeros_AllBytes (suc n) = (omega arith, zeros_AllBytes n)

zeros-ReadsBytes : ReadsBytes zeros
zeros-ReadsBytes n b h = let e : replicate n 0 ≡ b = cc in rw (← e) (zeros_AllBytes n)

-- A source with 32 bytes and no more.
abbrev short : Reader
short n = if n == 32 then zeros n else none

short-ReadsBytes : ReadsBytes short
short-ReadsBytes n b h = zeros-ReadsBytes n b (ground arith)

session_of_short : generate_session_id short ≡ ok session
unfolding generate_session_id hex_encode
session_of_short = refl
