-- ===== src/Bytes.antt =====
-- Go strings and byte slices: lists of numbers below 256. What the program uses of the standard
-- library on them (`copy`, `encoding/binary`, `encoding/hex`, string literals) is here.
use Prim.Native.Char.{code}
use burnafter.Prelude.{
  ℕ, ◌+◌, ◌*◌, ◌/◌, ◌%◌, ◌^◌, ◌<◌, ◌≡◌, refl, ap, String, ◌↔◌, Bool, true, false, ◌&&◌, List, [],
  ◌∷◌, ◌++◌, arith, ◌==◌, length, take, drop, take-append, drop-append, ◌∙◌,
}

abbrev pub Bytes : Type 0
Bytes = List ℕ

-- The bytes of an ASCII literal.
abbrev pub codes : String → Bytes
codes String.[] = []
codes (String.◌∷◌ c s) = code c ∷ codes s

-- `a == b` on strings.
unfoldable pub bytes_eq : Bytes → Bytes → Bool
bytes_eq [] [] = true
bytes_eq (x ∷ xs) (y ∷ ys) = x == y && bytes_eq xs ys
bytes_eq _ _ = false

pub bytes_eq_iff : (a b : Bytes) → (bytes_eq a b ≡ true) ↔ (a ≡ b)
unfolding bytes_eq
bytes_eq_iff [] [] = ground arith
bytes_eq_iff (x ∷ xs) [] = ground arith
bytes_eq_iff [] (y ∷ ys) = ground arith
bytes_eq_iff (x ∷ xs) (y ∷ ys) = ground (arith, bytes_eq_iff xs ys)

pub bytes_eq_refl : (a : Bytes) → bytes_eq a a ≡ true
bytes_eq_refl a = (bytes_eq_iff a a).1 refl

-- `copy(dst, src)`: as many bytes as both have.
unfoldable pub overlay : Bytes → Bytes → Bytes
overlay [] dst = dst
overlay (x ∷ xs) [] = []
overlay (x ∷ xs) (d ∷ ds) = x ∷ overlay xs ds

-- `copy(buf[n:], src)`
unfoldable pub copy_at : ℕ → Bytes → Bytes → Bytes
unfolding overlay
copy_at n src buf = take n buf ++ overlay src (drop n buf)

overlay-append : (src d r : Bytes) → length src ≡ length d → overlay src (d ++ r) ≡ src ++ r
unfolding overlay
overlay-append [] [] r e = refl
overlay-append [] (y ∷ d) r e = absurd (omega arith)
overlay-append (x ∷ src) [] r e = absurd (omega arith)
overlay-append (x ∷ src) (y ∷ d) r e = ap (◌∷◌ x) (overlay-append src d r (omega arith))

-- A copy over a segment of its own length replaces just that segment.
pub copy_at-append :
    (n : ℕ) (src a d r : Bytes)
    → length a ≡ n
    → length src ≡ length d
    → copy_at n src (a ++ (d ++ r)) ≡ a ++ (src ++ r)
unfolding copy_at
copy_at-append n src a d r ea ed =
    rw (take-append n a (d ++ r) ea, drop-append n a (d ++ r) ea, overlay-append src d r ed)

-- The same, for a buffer that is known to have these segments.
pub copy_segment :
    (n : ℕ) (src a d r buf : Bytes)
    → buf ≡ a ++ (d ++ r)
    → length a ≡ n
    → length src ≡ length d
    → copy_at n src buf ≡ a ++ (src ++ r)
copy_segment n src a d r buf e ea ed = ap (copy_at n src) e ∙ copy_at-append n src a d r ea ed

-- `binary.BigEndian.PutUint64`
unfoldable pub put_uint64 : ℕ → Bytes
put_uint64 v =
    (v / 2 ^ 56 % 256)
    ∷ (v / 2 ^ 48 % 256)
    ∷ (v / 2 ^ 40 % 256)
    ∷ (v / 2 ^ 32 % 256)
    ∷ (v / 2 ^ 24 % 256)
    ∷ (v / 2 ^ 16 % 256)
    ∷ (v / 2 ^ 8 % 256)
    ∷ (v % 256)
    ∷ []

-- `binary.BigEndian.Uint64` of eight bytes
unfoldable pub uint64 : Bytes → ℕ
uint64 (a ∷ b ∷ c ∷ d ∷ e ∷ f ∷ g ∷ h ∷ _) =
    a * 2 ^ 56 + b * 2 ^ 48 + c * 2 ^ 40 + d * 2 ^ 32 + e * 2 ^ 24 + f * 2 ^ 16 + g * 2 ^ 8 + h
uint64 _ = 0

pub length-put_uint64 : (v : ℕ) → length (put_uint64 v) ≡ 8
unfolding put_uint64
length-put_uint64 v = refl

pub uint64-put_uint64 : (v : ℕ) → v < 2 ^ 64 → uint64 (put_uint64 v) ≡ v
unfolding put_uint64 uint64
uint64-put_uint64 v h = omega arith
