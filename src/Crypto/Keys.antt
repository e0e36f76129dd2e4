-- ===== src/Crypto/Keys.antt =====
-- internal/common/crypto.go: what goes into a key, and session identifiers.
use burnafter.Prelude.{
  ◌/◌, ◌%◌, ℕ, ◌*◌, ◌≡◌, arith, length, ◌++◌, [], ◌∷◌, refl, some, take, ◌<◌, drop, take-append,
  drop-append, ap, sym, ◌∙◌,
}
use burnafter.Bytes.{Bytes, codes}
use burnafter.Result.{ok, or_error, >>=-eq-ok, or_error-eq-ok}
use burnafter.Crypto.{
  Primitives, IsSound, Reader, IsReader, hex_digit, hex_encode, key_material, derive_key,
  generate_session_id,
}

length-hex_encode : (b : Bytes) → length (hex_encode b) ≡ 2 * length b
unfolding hex_encode
length-hex_encode [] = refl
length-hex_encode (b ∷ bs) = omega (arith, length-hex_encode bs)

append_cancel : (a b x y : Bytes) → length a ≡ length b → a ++ x ≡ b ++ y → (a ≡ b) × (x ≡ y)
append_cancel a b x y n e = (
  sym (take-append (length b) a x n) ∙ ap (take (length b)) e ∙ take-append (length b) b y refl,
  sym (drop-append (length b) a x n) ∙ ap (drop (length b)) e ∙ drop-append (length b) b y refl,
)

-- Binary hashes, session identifiers and client nonces of the same lengths: the same key material
-- means the same binary, client nonce, session and secret name.
pub key_material-injective :
    (hash nonce session name hash' nonce' session' name' : Bytes)
    → length hash ≡ length hash'
    → length nonce ≡ length nonce'
    → length session ≡ length session'
    → key_material hash nonce session name ≡ key_material hash' nonce' session' name'
    → (hash ≡ hash') × (nonce ≡ nonce') × (session ≡ session') × (name ≡ name')
unfolding key_material
key_material-injective hash nonce session name hash' nonce' session' name' h n s e =
    let (eh, e1) = append_cancel hash hash' _ _ h e in
    let (en, e2) = append_cancel nonce nonce' _ _ n e1 in
    let (es, em) = append_cancel session session' _ _ s e2 in (eh, en, es, em)

hex_digit_injective : (a b : ℕ) → a < 16 → b < 16 → hex_digit a ≡ hex_digit b → a ≡ b
hex_digit_injective a b ha hb e = ground arith

abbrev pub AllBytes : Bytes → Type 0
AllBytes [] = Unit
AllBytes (b ∷ bs) = (b < 256) × AllBytes bs

hex_encode-injective : (a b : Bytes) → AllBytes a → AllBytes b → hex_encode a ≡ hex_encode b → a ≡ b
unfolding hex_encode
hex_encode-injective [] [] ha hb e = refl
hex_encode-injective [] (y ∷ b) ha hb e = cc
hex_encode-injective (x ∷ a) [] ha hb e = cc
hex_encode-injective (x ∷ a) (y ∷ b) ha hb e = ground (
  arith,
  hex_digit_injective (x / 16) (y / 16),
  hex_digit_injective (x % 16) (y % 16),
  hex_encode-injective a b ha.1 hb.1,
  ha.0,
  hb.0,
)

-- The random bytes behind a session identifier.
session_bytes :
    (rand : Reader) (id : Bytes)
    → generate_session_id rand ≡ ok id
    → (b : Bytes) × (rand 32 ≡ some b) × (hex_encode b ≡ id)
unfolding generate_session_id
session_bytes rand id h =
    let (b, e, g) = >>=-eq-ok (or_error "failed to generate session ID" (rand 32)) _ h in
    (b, or_error-eq-ok _ (rand 32) e, ground arith)

-- A session identifier is 64 characters long, from a random source that fills its buffer.
length-generate_session_id :
    (rand : Reader) (id : Bytes) → IsReader rand → generate_session_id rand ≡ ok id → length id ≡ 64
length-generate_session_id rand id reads h =
    let (b, r, e) = session_bytes rand id h in
    rw (← e) (omega (arith, length-hex_encode b, reads 32 b r))

-- The reader fills its buffer with bytes.
abbrev pub ReadsBytes : Reader → Type 0
ReadsBytes r = (n : ℕ) (b : Bytes) → r n ≡ some b → AllBytes b

-- Two servers whose random sources give bytes have one session identifier only if they read the
-- same 32 random bytes.
generate_session_id-injective :
    (rand rand' : Reader) (id : Bytes)
    → ReadsBytes rand
    → ReadsBytes rand'
    → generate_session_id rand ≡ ok id
    → generate_session_id rand' ≡ ok id
    → rand 32 ≡ rand' 32
generate_session_id-injective rand rand' id bytes bytes' h h' =
    let (b, r, e) = session_bytes rand id h in
    let (b', r', e') = session_bytes rand' id h' in
    cc (r, r', hex_encode-injective b b' (bytes 32 b r) (bytes' 32 b' r') (cc (e, e')))

module _ (P : Primitives) (sound : IsSound P) where
  -- With sound primitives a key is always derived, of the 32 bytes that AES-256 wants.
  pub derive_key_total :
      (hash nonce session name salt : Bytes)
      → (k : Bytes) × (derive_key P hash nonce session name salt ≡ ok k) × (length k ≡ 32)
  unfolding derive_key
  derive_key_total hash nonce session name salt =
      let (k, e, n) =
        sound.hkdf_reads (key_material hash nonce session name) salt (codes "burnafter-v1") 32
          (omega arith) in
      (k, rw e, n)
