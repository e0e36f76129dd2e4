-- ===== src/Client/Modes.antt =====
-- client.go, store.go and get.go: the modes of a client.
use burnafter.Prelude.{
  ℕ, ◌+◌, ◌*◌, ◌/◌, ◌^◌, ◌<◌, ◌≤◌, ◌≡◌, refl, ◌∙◌, ap, true, false, some, List, arith, if_true,
  if_false,
}
use burnafter.Bytes.{Bytes}
use burnafter.Int.{ℤ, pos, ltb_ℤ, ◌+ℤ◌, floor_div}
use burnafter.Clock.{Time, second, add, unix, unix-from_unix}
use burnafter.Crypto.{Primitives, IsSound, IsReader}
use burnafter.Options
use burnafter.Options.{StoreOptsFn, apply_options, no_options}
use burnafter.Result.{ok}
use burnafter.Storage.{Storage, IsReliable}
use burnafter.Verify.{Machine, get_current_binary_hash}
use burnafter.Server.Expiry.{seconds_fit}
use burnafter.Server.Store.{absolute_expiry}
use burnafter.Fallback.{is_expired, file_path}
use burnafter.Client.{Remote, Client, World, Env, store_expiry, store, get, store_with}
use burnafter.Client.Connect.{Attempt, connect_server, server_start_failed_error}
use burnafter.Memory.RoundTrip.{get-store_in_memory}
use burnafter.Client.Files.{store_by_files_trip}
use burnafter.GoMap.{lookup, NodupKeys}
use burnafter.Fallback.Written.{Succeeds}
use burnafter.Fallback.TempDir.{can_replace, file, owner_only}

-- The option `AbsoluteExpirationSeconds` names a different time to the client than to the server:
-- for `n` of 1 to 9223372036 the client's own stores expire `n` seconds after the epoch, the
-- server's `n` seconds after the call.
pub absolute_expiry_differs :
    (options : Options.Client) (ttl : ℤ) (n b : ℕ) (now : Time)
    → 0 < n
    → n ≤ 9_223_372_036
    → (unix (
          store_expiry options
            (record { ttl_seconds = ttl; absolute_expiration_seconds = pos n })
            now)
        ≡ pos n)
      × (deadline : Time) × (absolute_expiry (pos n) (pos b) ≡ some deadline)
      × (unix deadline ≡ pos (b / second + n))
unfolding store_expiry absolute_expiry add ◌+ℤ◌
absolute_expiry_differs options ttl n b now positive fits =
    let some_seconds : ltb_ℤ (pos 0) (pos n) ≡ true = ground arith in
    (
      ap unix (if_true _ _ some_seconds) ∙ unix-from_unix (pos n),
      pos (b + n * second),
      if_true _ _ some_seconds ∙ rw (seconds_fit n fits) (ground arith),
      unfold unix floor_div in ground arith,
    )

module _ (B : Storage) (R : Remote) (P : Primitives) (os : Machine) where
  connect_server_bare :
      (a : Attempt B) (c : Client)
      → c.options.no_server ≡ false
      → c.options.no_fallback_mode ≡ true
      → c.server_start_failed ≡ false
      → c.has_launcher ≡ false
      → connect_server B a c
        ≡ (some server_start_failed_error, record c { server_start_failed = true })
  unfolding connect_server
  connect_server_bare a c served strict first bare =
      if_false _ _ served ∙ if_false _ _ first ∙ if_false _ _ bare ∙ rw (if_true _ _ strict)

  module _ (sound : IsSound P) (hash : Bytes)
      (hashed : get_current_binary_hash P os ≡ ok hash) where
    -- With sound primitives, where the binary can be hashed and the calls of the file system and of
    -- the random source succeed: without a launcher, outside in-memory mode and without `NoServer`,
    -- with `NoFallbackMode` set, a first `Connect` fails. The client's `Store` then succeeds all
    -- the same and leaves a file for the secret, and `Get` returns the secret, if neither the
    -- cleanup at the end of `Store` nor the `Get` comes after the expiry.
    pub store-connect_server :
        (a : Attempt B) (c : Client) (env env' : Env) (name secret nonce path tmp : Bytes)
        (funcs : List StoreOptsFn) (opts : Options.Store) (t : ℕ) (w : World B R)
        → c.options.in_memory ≡ false
        → c.options.no_server ≡ false
        → c.options.no_fallback_mode ≡ true
        → c.server_start_failed ≡ false
        → c.has_launcher ≡ false
        → apply_options funcs no_options ≡ ok opts
        → IsReader env.rand
        → env.rand 12 ≡ some nonce
        → file_path P os name ≡ ok path
        → unix (store_expiry c.options opts (env.now 0)) ≡ pos t
        → t < 2 ^ 63
        → Succeeds env.io tmp
        → can_replace (lookup path w.disk) ≡ true
        → NodupKeys w.disk
        → env'.io.readable path ≡ true
        → is_expired (env.now 1) (pos t) ≡ false
        → is_expired (env'.now 0) (pos t) ≡ false
        → let (e, c') = connect_server B a c in
          let (r, w') = store B R P os env c' name secret funcs w in
          (e ≡ some server_start_failed_error)
          × (r ≡ ok tt)
          × ((b : Bytes) × (lookup path w'.disk ≡ some (file owner_only b)))
          × ((get B R P os env' c' name w').0 ≡ ok secret)
    store-connect_server a c env env' name secret nonce path tmp funcs opts t w on_disk served
          strict first bare options reads drawn located dated fits s free u readable spared fresh =
        let (done, there, back) =
          store_by_files_trip B R P os sound hash hashed (record c { server_start_failed = true })
            env env' name secret nonce path tmp funcs opts t w on_disk (ground arith) options reads
            drawn located dated fits s free u readable spared fresh in
        rw (connect_server_bare a c served strict first bare) (refl, done, there, back)

  module _ (reliable : IsReliable B) (sound : IsSound P) (hash : Bytes)
      (hashed : get_current_binary_hash P os ≡ ok hash) where
    -- In in-memory mode, with sound primitives and a reliable keyring, where the options apply, the
    -- binary can be hashed, the random source answers and the expiry fits 63 bits, `Store` succeeds
    -- and `Get` returns what it was given, up to the expiry, and changes nothing.
    pub get-store_by_memory :
        (c : Client) (env env' : Env) (name secret nonce : Bytes) (funcs : List StoreOptsFn)
        (opts : Options.Store) (t : ℕ) (w : World B R)
        → c.options.in_memory ≡ true
        → apply_options funcs no_options ≡ ok opts
        → IsReader env.rand
        → env.rand 12 ≡ some nonce
        → unix (store_expiry c.options opts (env.now 0)) ≡ pos t
        → t < 2 ^ 63
        → is_expired (env'.now 0) (pos t) ≡ false
        → ((store B R P os env c name secret funcs w).0 ≡ ok tt)
          × (get B R P os env' c name (store B R P os env c name secret funcs w).1
              ≡ (ok secret, (store B R P os env c name secret funcs w).1))
    unfolding store get
    get-store_by_memory c env env' name secret nonce funcs opts t w on options reads drawn dated
          fits fresh =
        let (done, back) =
          get-store_in_memory B reliable P sound os c.options.nonce hash hashed env.rand name secret
            nonce (store_expiry c.options opts (env.now 0)) (env'.now 0) t w.mem reads drawn dated
            fits fresh in
        rw (options, store_with, if_true {b = c.options.in_memory} _ _ on)
          (done, if_true _ _ on ∙ rw back)
