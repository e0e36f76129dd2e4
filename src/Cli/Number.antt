-- ===== src/Cli/Number.antt =====
-- cmd/burnafter/main.go: the numbers on the command line, read by `strconv.ParseInt(s, 10, 64)`.
use burnafter.Prelude.{
  ℕ, zero, suc, ◌+◌, ◌-◌, ◌*◌, ◌/◌, ◌%◌, ◌^◌, ◌<◌, ◌≤◌, ◌≡◌, refl, ◌∙◌, ap, Bool, true, false, ◌&&◌,
  [], ◌∷◌, ◌==◌, ltb, leb, arith, if◌then◌else◌, if_cases, if_keeps, if_true, if_false,
}
use burnafter.Bytes.{Bytes}
use burnafter.Int.{ℤ, pos, negsuc, IsInt64, sub_ℕ}
use burnafter.Result.{Result, ok, err, errorf, ◌>>=◌, >>=-eq-ok}
use burnafter.Verify.{digits}

abbrev max_uint64 : ℕ
max_uint64 = 2 ^ 64 - 1

abbrev is_digit : ℕ → Bool
is_digit ch = leb b'0' ch && leb ch b'9'

-- The digits that are left, after those that make up `n`.
unfoldable pub parse_digits : ℕ → Bytes → Result ℕ
parse_digits n [] = ok n
parse_digits n (ch ∷ s) =
    let n' = n * 10 + (ch - b'0') in
    let rest = parse_digits n' s in
    if is_digit ch
    then (if ltb max_uint64 n' then err (errorf "value out of range") else rest)
    else err (errorf "invalid syntax")

unfoldable pub parse_uint : Bytes → Result ℕ
parse_uint [] = err (errorf "invalid syntax")
parse_uint (ch ∷ s) = parse_digits 0 (ch ∷ s)

abbrev pub to_int : Bool → ℕ → Result ℤ
to_int false n = if ltb n (2 ^ 63) then ok (pos n) else err (errorf "value out of range")
to_int true n = if leb n (2 ^ 63) then ok (sub_ℕ 0 n) else err (errorf "value out of range")

unfoldable pub parse_int : Bytes → Result ℤ
parse_int [] = err (errorf "invalid syntax")
parse_int (ch ∷ s) =
    if ch == b'+'
    then parse_uint s >>= to_int false
    else if ch == b'-'
    then parse_uint s >>= to_int true
    else parse_uint (ch ∷ s) >>= to_int false

to_int-IsInt64 : (neg : Bool) (n : ℕ) (a : ℤ) → to_int neg n ≡ ok a → IsInt64 a
to_int-IsInt64 false n a h =
    if_cases (λ (r : Result ℤ). r ≡ ok a → IsInt64 a) (ltb n (2 ^ 63))
      (λ small e. let same : a ≡ pos n = cc e in rw same (ground arith)) (λ _ e. absurd (cc e)) h
to_int-IsInt64 true n a h =
    if_cases (λ (r : Result ℤ). r ≡ ok a → IsInt64 a) (leb n (2 ^ 63))
      (λ small e. let same : a ≡ sub_ℕ 0 n = cc e in rw same (ground arith)) (λ _ e. absurd (cc e))
      h

-- `%d` of a 64-bit integer
unfoldable pub format_int : ℤ → Bytes
format_int (pos n) = digits 19 n []
format_int (negsuc n) = b'-' ∷ digits 19 (suc n) []

abbrev StartsWithDigit : Bytes → Type 0
StartsWithDigit [] = 1 ≤ 0
StartsWithDigit (ch ∷ s) = (48 ≤ ch) × (ch ≤ 57)

digits-StartsWithDigit_more :
    (fuel n : ℕ) (s : Bytes) → StartsWithDigit s → StartsWithDigit (digits fuel n s)
digits-StartsWithDigit_more zero n s h = h
digits-StartsWithDigit_more (suc fuel) n s h =
    if_cases (λ (b : Bytes). StartsWithDigit b) (ltb n 10) (λ small. (omega arith, ground arith))
      (λ _.
        digits-StartsWithDigit_more fuel (n / 10) ((b'0' + n % 10) ∷ s) (omega arith, omega arith))

digits-StartsWithDigit : (fuel n : ℕ) (s : Bytes) → StartsWithDigit (digits (suc fuel) n s)
digits-StartsWithDigit fuel n s =
    if_cases (λ (b : Bytes). StartsWithDigit b) (ltb n 10) (λ small. (omega arith, ground arith))
      (λ _.
        digits-StartsWithDigit_more fuel (n / 10) ((b'0' + n % 10) ∷ s) (omega arith, omega arith))

parse_digits_step :
    (n d : ℕ) (s : Bytes)
    → d < 10
    → n * 10 + d < 2 ^ 64
    → parse_digits n ((b'0' + d) ∷ s) ≡ parse_digits (n * 10 + d) s
unfolding parse_digits
parse_digits_step n d s small fits =
    if_true {b = is_digit (b'0' + d)} _ _ (ground arith)
    ∙ if_false {b = ltb max_uint64 (n * 10 + (b'0' + d - b'0'))} _ _ (ground arith)
    ∙ ap (λ k. parse_digits k s) (omega arith)

parse_digits-digits :
    (fuel n : ℕ) (s : Bytes)
    → n < 10 ^ fuel
    → n < 2 ^ 64
    → parse_digits 0 (digits fuel n s) ≡ parse_digits n s
parse_digits-digits zero n s short fits = ap (λ k. parse_digits k s) (omega arith)
parse_digits-digits (suc fuel) n s short fits =
    if_cases (λ (b : Bytes). parse_digits 0 b ≡ parse_digits n s) (ltb n 10)
      (λ small.
        parse_digits_step 0 n s (ground arith) (omega arith)
        ∙ ap (λ k. parse_digits k s) (omega arith))
      (λ large.
        parse_digits-digits fuel (n / 10) ((b'0' + n % 10) ∷ s) (omega arith) (omega arith)
        ∙ parse_digits_step (n / 10) (n % 10) s (omega arith) (omega arith)
        ∙ ap (λ k. parse_digits k s) (omega arith))

parse_int_unsigned :
    (s : Bytes) → StartsWithDigit s → parse_int s ≡ (parse_digits 0 s >>= to_int false)
unfolding parse_int parse_uint
parse_int_unsigned [] h = absurd (omega arith)
parse_int_unsigned (ch ∷ s) h =
    if_false {b = ch == b'+'} _ _ (ground arith) ∙ if_false {b = ch == b'-'} _ _ (ground arith)

parse_uint_digits : (s : Bytes) → StartsWithDigit s → parse_uint s ≡ parse_digits 0 s
unfolding parse_uint
parse_uint_digits [] h = absurd (omega arith)
parse_uint_digits (ch ∷ s) h = refl

parse_digits_all : (n : ℕ) → n < 10 ^ 19 → parse_digits 0 (digits 19 n []) ≡ ok n
unfolding parse_digits
parse_digits_all n h = parse_digits-digits 19 n [] h (omega arith)

-- Reading what `%d` prints gives the number back.
pub parse_int-format_int : (a : ℤ) → IsInt64 a → parse_int (format_int a) ≡ ok a
unfolding format_int parse_int
parse_int-format_int (pos n) h =
    parse_int_unsigned (digits 19 n []) (digits-StartsWithDigit 18 n [])
    ∙ ap (λ r. r >>= to_int false) (parse_digits_all n (omega arith))
    ∙ if_true {b = ltb n (2 ^ 63)} _ _ (ground arith)
parse_int-format_int (negsuc n) h =
    ap (λ r. r >>= to_int true)
      (parse_uint_digits (digits 19 (suc n) []) (digits-StartsWithDigit 18 (suc n) [])
        ∙ parse_digits_all (suc n) (omega arith))
    ∙ if_true {b = leb (suc n) (2 ^ 63)} _ _ (ground arith)
    ∙ ap ok (ground arith)

-- A number that is read fits 64 bits.
pub parse_int-IsInt64 : (s : Bytes) (a : ℤ) → parse_int s ≡ ok a → IsInt64 a
unfolding parse_int
parse_int-IsInt64 [] a h = absurd (cc h)
parse_int-IsInt64 (ch ∷ s) a h =
    let converted = λ (neg : Bool) (r : Result ℕ) (e : (r >>= to_int neg) ≡ ok a).
      let (n, _, e') = >>=-eq-ok r (to_int neg) e in to_int-IsInt64 neg n a e' in
    if_keeps (λ (r : Result ℤ). r ≡ ok a → IsInt64 a) (ch == b'+') (converted false (parse_uint s))
      (if_keeps (λ (r : Result ℤ). r ≡ ok a → IsInt64 a) (ch == b'-')
        (converted true (parse_uint s)) (converted false (parse_uint (ch ∷ s))))
      h
