-- ===== src/Fallback/Codec.antt =====
-- fallback.go: the file format, from writing to parsing.
use burnafter.Prelude.{
  ℕ, ◌+◌, ◌^◌, ◌<◌, ◌≡◌, refl, sym, ◌∙◌, ap, [], ◌∷◌, ◌++◌, arith, length, drop, replicate,
  replicate-add, length-replicate, length-append, take-append, drop-append, append_assoc,
  append-nil, le→ltb_false, suc, ◌≤◌,
}
use burnafter.Bytes.{Bytes, copy_at, copy_segment, put_uint64, length-put_uint64, uint64-put_uint64}
use burnafter.Int.{pos}
use burnafter.Result.{ok}
use burnafter.Fallback.Format.{SecretFile, file_version, serialize, parse, max_int64, header_size}

module _ (nonce ciphertext : Bytes) (t : ℕ) (twelve : length nonce ≡ 12) where
  abbrev pub secret_file : SecretFile
  secret_file = record {
    version = file_version;
    nonce = nonce;
    expiry = pos t;
    ciphertext = ciphertext;
  }

  -- The bytes of a file, in order.
  abbrev pub layout : Bytes
  layout = file_version ∷ (nonce ++ (put_uint64 t ++ ciphertext))

  written :
      copy_at 21 ciphertext (
        copy_at 13 (put_uint64 t) (
          copy_at 1 nonce
            (copy_at 0 (file_version ∷ []) (replicate (header_size + length ciphertext) 0))))
      ≡ layout
  written =
      let zeros = replicate (length ciphertext) 0 in
      let b1 =
        copy_segment 0 (file_version ∷ []) [] (0 ∷ []) (replicate 20 0 ++ zeros) _
          (replicate-add 21 (length ciphertext) 0) refl refl in
      let b2 =
        copy_segment 1 nonce (file_version ∷ []) (replicate 12 0) (replicate 8 0 ++ zeros) _ b1 refl
          twelve in
      let b3 =
        copy_segment 13 (put_uint64 t) (file_version ∷ nonce) (replicate 8 0) zeros _ b2
          (ap suc twelve) (length-put_uint64 t) in
      let b4 =
        copy_segment 21 ciphertext (file_version ∷ (nonce ++ put_uint64 t)) zeros [] _
          (b3 ∙ simp (append_assoc, append-nil))
          (omega (arith, length-append nonce (put_uint64 t), length-put_uint64 t, twelve))
          (sym (length-replicate (length ciphertext) 0)) in
      b4 ∙ simp (append_assoc, append-nil)

  pub serialize-layout : serialize secret_file ≡ ok layout
  unfolding serialize
  serialize-layout = rw (le→ltb_false (t + 0) 0 (omega arith)) (ap ok written)

  long : 20 ≤ length (nonce ++ (put_uint64 t ++ ciphertext))
  long = omega (
    arith,
    length-append nonce (put_uint64 t ++ ciphertext),
    length-append (put_uint64 t) ciphertext,
    length-put_uint64 t,
    twelve,
  )

  tail : drop 20 (nonce ++ (put_uint64 t ++ ciphertext)) ≡ ciphertext
  tail = rw (← append_assoc nonce (put_uint64 t) ciphertext) (
      drop-append 20 (nonce ++ put_uint64 t) ciphertext
        (omega (arith, length-append nonce (put_uint64 t), length-put_uint64 t, twelve)))

  -- A file with a 12-byte nonce and an expiry that fits 63 bits is written, and parses to itself.
  pub parse-serialize :
      t < 2 ^ 63 → (b : Bytes) × (serialize secret_file ≡ ok b) × (parse b ≡ ok secret_file)
  unfolding parse
  parse-serialize fits = (
    layout,
    serialize-layout,
    rw (
      le→ltb_false (suc (length (nonce ++ (put_uint64 t ++ ciphertext)))) 21 (omega (arith, long)),
      drop-append 12 nonce (put_uint64 t ++ ciphertext) twelve,
      take-append 8 (put_uint64 t) ciphertext (length-put_uint64 t),
      uint64-put_uint64 t (omega arith),
      le→ltb_false max_int64 t (omega arith),
      take-append 12 nonce (put_uint64 t ++ ciphertext) twelve,
      tail,
    ),
  )
