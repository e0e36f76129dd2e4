-- ===== src/Verify/Darwin.antt =====
-- internal/common/verify_darwin.go: the path of a process's binary from `sysctl`, and what its parser
-- accepts. An index into the buffer is the rest of the buffer from there on.
use burnafter.Prelude.{
  ℕ, zero, suc, ◌^◌, ◌≡◌, ◌≢◌, ◌⊎◌, inl, inr, refl, ◌∙◌, ap, false, Option, [], ◌∷◌, ◌++◌, ◌==◌,
  ltb, if◌then◌else◌, length, drop, replicate, arith, le→ltb_false, length-append, drop-append,
}
use burnafter.Bytes.{Bytes}
use burnafter.Int.{ℤ}
use burnafter.Result.{Result, ok, err, errorf, or_error, ◌>>=◌}

-- The two calls of `sysctl` on KERN_PROCARGS2: the size, and the contents of a buffer of that size.
pub record Sysctl : Type 0 where
  pub size : ℤ → Option ℕ
  pub fill : ℤ → ℕ → Option Bytes

abbrev pub max_sysctl_args_size : ℕ
max_sysctl_args_size = 2 ^ 20

-- `for start < len(buf) && buf[start] == 0 { start++ }`
unfoldable pub skip_nulls : Bytes → Bytes
skip_nulls [] = []
skip_nulls (b ∷ bs) = let rest = skip_nulls bs in if b == 0 then rest else b ∷ bs

-- `for end < len(buf) && buf[end] != 0 { end++ }`, and the bytes up to there
unfoldable pub until_null : Bytes → Bytes
until_null [] = []
until_null (b ∷ bs) = let rest = until_null bs in if b == 0 then [] else b ∷ rest

abbrev pub not_empty : Bytes → Result Bytes
not_empty [] = err (errorf "empty executable path")
not_empty (b ∷ bs) = ok (b ∷ bs)

abbrev pub path_at : Bytes → Result Bytes
path_at [] = err (errorf "no executable path found")
path_at (b ∷ bs) = not_empty (until_null (b ∷ bs))

unfoldable pub parse_procargs : Bytes → Result Bytes
parse_procargs buf =
    if ltb (length buf) 4
    then err (errorf "buffer too small")
    else path_at (skip_nulls (drop 4 buf))

unfoldable pub get_binary_path : Sysctl → ℤ → Result Bytes
get_binary_path sysctl pid = do
  size ← or_error "failed to get process args" (sysctl.size pid)
  if size == 0
      then err (errorf "sysctl returned size 0")
      else if ltb max_sysctl_args_size size
      then err (errorf "sysctl size too large")
      else or_error "failed to get process args" (sysctl.fill pid size) >>= parse_procargs

-- No byte is a null.
abbrev pub NoNulls : Bytes → Type 0
NoNulls [] = Unit
NoNulls (b ∷ bs) = (b ≢ 0) × NoNulls bs

-- The end of the buffer, or a null
abbrev pub Ends : Bytes → Type 0
Ends rest = (rest ≡ []) ⊎ ((more : Bytes) × (rest ≡ 0 ∷ more))

until_null-NoNulls : (p rest : Bytes) → NoNulls p → Ends rest → until_null (p ++ rest) ≡ p
unfolding until_null
until_null-NoNulls [] rest h (inl e) = rw e
until_null-NoNulls [] rest h (inr (more, e)) = rw e
until_null-NoNulls (b ∷ bs) rest h e = ground (arith, h.0, until_null-NoNulls bs rest h.1 e)

skip_nulls-replicate :
    (k : ℕ) (b : ℕ) (bs : Bytes) → b ≢ 0 → skip_nulls (replicate k 0 ++ (b ∷ bs)) ≡ b ∷ bs
unfolding skip_nulls
skip_nulls-replicate zero b bs h = ground arith
skip_nulls-replicate (suc k) b bs h = skip_nulls-replicate k b bs h

-- Four bytes, any number of nulls, a path that is not empty and has no null, and then the end or a
-- null: the parser finds the path.
pub parse_procargs_path :
    (argc path rest : Bytes) (k : ℕ)
    → length argc ≡ 4
    → path ≢ []
    → NoNulls path
    → Ends rest
    → parse_procargs (argc ++ (replicate k 0 ++ (path ++ rest))) ≡ ok path
unfolding parse_procargs
parse_procargs_path argc [] rest k four some_path h e = absurd (some_path refl)
parse_procargs_path argc (b ∷ bs) rest k four some_path h e =
    rw
      (
        le→ltb_false (length (argc ++ (replicate k 0 ++ ((b ∷ bs) ++ rest)))) 4
            (omega (arith, length-append argc (replicate k 0 ++ ((b ∷ bs) ++ rest)))),
        drop-append 4 argc (replicate k 0 ++ ((b ∷ bs) ++ rest)) four,
        skip_nulls-replicate k b (bs ++ rest) h.0,
      )
      (ap not_empty (until_null-NoNulls (b ∷ bs) rest h e))

not_null : (x : ℕ) → (suc x == 0) ≡ false
not_null x = ground arith

skipped : (b : Bytes) → (k : ℕ) × (b ≡ replicate k 0 ++ skip_nulls b)
unfolding skip_nulls
skipped [] = (0, refl)
skipped (zero ∷ bs) = let (k, e) = skipped bs in (suc k, ap (λ r. 0 ∷ r) e)
skipped (suc x ∷ bs) = (0, rw (not_null x))

ended :
    (b : Bytes) → (rest : Bytes) × (b ≡ until_null b ++ rest) × NoNulls (until_null b) × Ends rest
unfolding until_null
ended [] = ([], refl, tt, inl refl)
ended (zero ∷ bs) = (zero ∷ bs, refl, tt, inr (bs, refl))
ended (suc x ∷ bs) =
    let (rest, e, clean, ends) = ended bs in
    rw (not_null x) (rest, ap (λ r. suc x ∷ r) e, (ground arith, clean), ends)

not_empty_sound : (b path : Bytes) → not_empty b ≡ ok path → (path ≢ []) × (b ≡ path)
not_empty_sound [] path h = cc
not_empty_sound (x ∷ bs) path h = let e : x ∷ bs ≡ path = cc in (λ empty. absurd (cc (e, empty)), e)

path_at_sound : (b path : Bytes) → path_at b ≡ ok path → (path ≢ []) × (until_null b ≡ path)
path_at_sound [] path h = cc
path_at_sound (x ∷ bs) path h = not_empty_sound (until_null (x ∷ bs)) path h

-- Whatever the parser accepts has no null and is not empty, and stands after the first four bytes
-- and nulls only, up to a null or the end.
pub parse_procargs_sound :
    (buf path : Bytes)
    → parse_procargs buf ≡ ok path
    → (path ≢ [])
      × NoNulls path
      × (k : ℕ) × (rest : Bytes) × (drop 4 buf ≡ replicate k 0 ++ (path ++ rest))
      × Ends rest
unfolding parse_procargs
parse_procargs_sound buf path h =
    let found : path_at (skip_nulls (drop 4 buf)) ≡ ok path = ground arith in
    let (some_path, e) = path_at_sound (skip_nulls (drop 4 buf)) path found in
    let (k, nulls) = skipped (drop 4 buf) in
    let (rest, split, clean, ends) = ended (skip_nulls (drop 4 buf)) in
    (some_path, rw (← e) clean, k, rest, nulls ∙ ap (λ r. replicate k 0 ++ r) (split ∙ rw e), ends)
