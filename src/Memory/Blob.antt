-- ===== src/Memory/Blob.antt =====
-- memory.go, `marshalMemSecret` and `unmarshalMemSecret`: [nonce:12][expiry:8][ciphertext].
use burnafter.Prelude.{
  ◌+◌, ◌^◌, ◌<◌, ◌≡◌, refl, sym, ◌∙◌, [], ◌++◌, ltb, arith, if◌then◌else◌, length, take, drop,
  replicate, replicate-add, length-replicate, length-append, take-append, drop-append, append_assoc,
  append-nil, le→ltb_false, ◌≤◌,
}
use burnafter.Bytes.{
  Bytes, copy_at, copy_segment, put_uint64, length-put_uint64, uint64, uint64-put_uint64,
}
use burnafter.Int.{ℤ, pos, pos_part}
use burnafter.Result.{Result, ok, err, errorf}
use burnafter.Fallback.Format.{max_int64}

pub record MemSecret : Type 0 where
  pub nonce : Bytes
  pub ciphertext : Bytes
  pub expiry : ℤ

-- A negative expiry is written as 0.
unfoldable pub marshal_mem_secret : MemSecret → Bytes
marshal_mem_secret s =
    let buf = replicate (20 + length s.ciphertext) 0 in
    copy_at 20 s.ciphertext (copy_at 12 (put_uint64 (pos_part s.expiry)) (copy_at 0 s.nonce buf))

unfoldable pub unmarshal_mem_secret : Bytes → Result MemSecret
unmarshal_mem_secret b =
    if ltb (length b) 20
    then err (errorf "invalid in-memory secret blob: too small")
    else let expiry = uint64 (take 8 (drop 12 b)) in
      if ltb max_int64 expiry
      then err (errorf "invalid expiry in in-memory secret blob")
      else ok (record { nonce = take 12 b; ciphertext = drop 20 b; expiry = pos expiry })

module _ (s : MemSecret) (twelve : length s.nonce ≡ 12) where
  abbrev stamp : Bytes
  stamp = put_uint64 (pos_part s.expiry)

  marshal-layout : marshal_mem_secret s ≡ s.nonce ++ (stamp ++ s.ciphertext)
  unfolding marshal_mem_secret
  marshal-layout =
      let zeros = replicate (length s.ciphertext) 0 in
      let b1 =
        copy_segment 0 s.nonce [] (replicate 12 0) (replicate 8 0 ++ zeros) _
          (replicate-add 20 (length s.ciphertext) 0) refl twelve in
      let b2 =
        copy_segment 12 stamp s.nonce (replicate 8 0) zeros _ b1 twelve
          (length-put_uint64 (pos_part s.expiry)) in
      let b3 =
        copy_segment 20 s.ciphertext (s.nonce ++ stamp) zeros [] _
          (b2 ∙ simp (append_assoc, append-nil))
          (omega
            (arith, length-append s.nonce stamp, length-put_uint64 (pos_part s.expiry), twelve))
          (sym (length-replicate (length s.ciphertext) 0)) in
      b3 ∙ simp (append_assoc, append-nil)

  long : 20 ≤ length (s.nonce ++ (stamp ++ s.ciphertext))
  long = omega (
    arith,
    length-append s.nonce (stamp ++ s.ciphertext),
    length-append stamp s.ciphertext,
    length-put_uint64 (pos_part s.expiry),
    twelve,
  )

  tail : drop 20 (s.nonce ++ (stamp ++ s.ciphertext)) ≡ s.ciphertext
  tail = rw (← append_assoc s.nonce stamp s.ciphertext) (
      drop-append 20 (s.nonce ++ stamp) s.ciphertext
        (omega (arith, length-append s.nonce stamp, length-put_uint64 (pos_part s.expiry), twelve)))

  -- A secret with a 12-byte nonce and an expiry that fits 63 bits comes back from its blob, an
  -- expiry before 1970 as 0.
  pub unmarshal-marshal :
      pos_part s.expiry < 2 ^ 63
      → unmarshal_mem_secret (marshal_mem_secret s)
        ≡ ok (record s { expiry = pos (pos_part s.expiry) })
  unfolding unmarshal_mem_secret
  unmarshal-marshal fits = rw (
    marshal-layout,
    le→ltb_false (length (s.nonce ++ (stamp ++ s.ciphertext))) 20 long,
    drop-append 12 s.nonce (stamp ++ s.ciphertext) twelve,
    take-append 8 stamp s.ciphertext (length-put_uint64 (pos_part s.expiry)),
    uint64-put_uint64 (pos_part s.expiry) (omega arith),
    le→ltb_false max_int64 (pos_part s.expiry) (omega arith),
    take-append 12 s.nonce (stamp ++ s.ciphertext) twelve,
    tail,
  )
