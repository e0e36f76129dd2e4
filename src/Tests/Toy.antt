-- ===== src/Tests/Toy.antt =====
-- Instances of the cryptographic libraries and of the random source that meet the assumptions. They
-- protect nothing: they show that the assumptions can hold, and run in the tests.
use burnafter.Prelude.{
  ℕ, ◌≡◌, refl, sym, ◌∙◌, some, none, Option, ◌++◌, arith, ◌==◌, length, take, drop, replicate,
  length-append, length-take, length-replicate, take-append, drop-append, take-append-drop,
  if◌then◌else◌,
}
use burnafter.Bytes.{Bytes, bytes_eq, bytes_eq_iff, bytes_eq_refl}
use burnafter.Crypto.{Primitives, IsSound, Reader, IsReader}

abbrev stretch : ℕ → Bytes → Bytes
stretch n b = take n (b ++ replicate n 0)

length-stretch : (n : ℕ) (b : Bytes) → length (stretch n b) ≡ n
length-stretch n b = omega (
  arith,
  length-take n (b ++ replicate n 0),
  length-append b (replicate n 0),
  length-replicate {A = ℕ} n 0,
)

abbrev toy_cipher : Bytes → Option Bytes
toy_cipher key = if length key == 32 then some key else none

abbrev toy_unseal : Bytes → Bytes → Bytes → Option Bytes
toy_unseal key nonce c = if bytes_eq (take 16 c) (stretch 16 key) then some (drop 16 c) else none

abbrev pub toy : Primitives
toy = record {
  Block = Bytes;
  Aead = Bytes;
  sha256 = stretch 32;
  hkdf_read = λ ikm salt info n. some (stretch n (ikm ++ salt));
  pbkdf2_key = λ input salt iterations n. stretch n (input ++ salt);
  new_cipher = toy_cipher;
  new_gcm = λ b. some b;
  nonce_size = λ g. 12;
  seal = λ key nonce plaintext. stretch 16 key ++ plaintext;
  unseal = toy_unseal;
}

toy_unseal_seal : (g n p : Bytes) → toy_unseal g n (stretch 16 g ++ p) ≡ some p
toy_unseal_seal g n p = rw (
  take-append 16 (stretch 16 g) p (length-stretch 16 g),
  bytes_eq_refl (stretch 16 g),
  drop-append 16 (stretch 16 g) p (length-stretch 16 g),
)

toy_seal_unseal : (g n c p : Bytes) → toy_unseal g n c ≡ some p → c ≡ stretch 16 g ++ p
toy_seal_unseal g n c p h =
    let parts : (take 16 c ≡ stretch 16 g) × (drop 16 c ≡ p) =
      ground (arith, bytes_eq_iff (take 16 c) (stretch 16 g)) in
    sym (take-append-drop 16 c) ∙ cc (parts.0, parts.1)

pub toy-IsSound : IsSound toy
toy-IsSound = record {
  sha256_length = length-stretch 32;
  hkdf_reads = λ i s f n h. (stretch n (i ++ s), refl, length-stretch n (i ++ s));
  pbkdf2_length = λ i s t n. length-stretch n (i ++ s);
  cipher_32 = λ k h. (k, ground arith);
  gcm_of = λ b. (b, refl);
  nonce_12 = λ g. refl;
  unseal_seal = λ g n p h. toy_unseal_seal g n p;
  seal_unseal = toy_seal_unseal;
}

abbrev pub zeros : Reader
zeros n = some (replicate n 0)

pub zeros-IsReader : IsReader zeros
zeros-IsReader n b h = ground (arith, length-replicate {A = ℕ} n 0)
