-- ===== src/Client/Files.antt =====
-- store.go and get.go: a client that uses the file fallback.
use burnafter.Prelude.{
  ℕ, ◌^◌, ◌<◌, ◌≡◌, refl, sym, ◌∙◌, ap, true, false, some, List, if_true, if_false,
}
use burnafter.Bytes.{Bytes}
use burnafter.GoMap.{lookup, NodupKeys}
use burnafter.Clock.{unix}
use burnafter.Int.{pos}
use burnafter.Crypto.{Primitives, IsSound, IsReader}
use burnafter.Options
use burnafter.Options.{StoreOptsFn, apply_options, no_options}
use burnafter.Result.{ok, Result}
use burnafter.Storage.{Storage}
use burnafter.Verify.{Machine, get_current_binary_hash}
use burnafter.Fallback.{
  file_path, is_expired, is_stale, encrypt_secret, cleanup_expired_fallback_files, expiry_of,
}
use burnafter.Fallback.TempDir.{can_replace, Disk, file, owner_only}
use burnafter.Fallback.Written.{Succeeds, encrypt_secret_there}
use burnafter.Fallback.RoundTrip.{decrypt_secret-encrypt_secret}
use burnafter.Fallback.Cleanup.{expiry_of-parse, lookup-cleanup}
use burnafter.Client.{
  Remote, Client, World, Env, use_fallback, store_expiry, store, get, store_with, then_clean,
  decrypt_secret,
}

module _ (B : Storage) (R : Remote) (P : Primitives) (os : Machine) where
  then_clean_ok :
      {A : Type 0} (env : Env) (w : World B R) (r : Result A × Disk) (a : A)
      → r.0 ≡ ok a
      → then_clean B R P os env w r ≡ (
        ok a,
        record w { disk = (cleanup_expired_fallback_files P os env.io_cleanup (env.now 1) r.1).1 },
      )
  then_clean_ok env w (r, disk) a e = rw (e, then_clean) refl

  store_on_disk :
      (c : Client) (env : Env) (name secret : Bytes) (funcs : List StoreOptsFn)
      (opts : Options.Store) (w : World B R)
      → c.options.in_memory ≡ false
      → use_fallback c ≡ true
      → apply_options funcs no_options ≡ ok opts
      → (r : Result (Unit {0}) × Disk)
      → encrypt_secret P os c.options.nonce env.io env.rand name secret
          (store_expiry c.options opts (env.now 0))
          w.disk
        ≡ r
      → r.0 ≡ ok tt
      → store B R P os env c name secret funcs w ≡ (
        ok tt,
        record w { disk = (cleanup_expired_fallback_files P os env.io_cleanup (env.now 1) r.1).1 },
      )
  unfolding store
  store_on_disk c env name secret funcs opts w on_disk fallback options r e done =
      rw (options, store_with)
        (if_false _ _ on_disk
          ∙ if_true _ _ fallback
          ∙ then_clean_ok env w _ tt (rw (e, done))
          ∙ rw e)

  get_on_disk :
      (c : Client) (env : Env) (name secret : Bytes) (w : World B R)
      → c.options.in_memory ≡ false
      → use_fallback c ≡ true
      → decrypt_secret P os c.options.nonce env.io (env.now 0) name w.disk ≡ (ok secret, w.disk)
      → (get B R P os env c name w).0 ≡ ok secret
  unfolding get
  get_on_disk c env name secret w on_disk fallback e =
      let both : get B R P os env c name w ≡ then_clean B R P os env w (ok secret, w.disk) =
        if_false _ _ on_disk ∙ if_true _ _ fallback ∙ rw e in
      rw (both, then_clean) refl

  module _ (sound : IsSound P) (hash : Bytes)
      (hashed : get_current_binary_hash P os ≡ ok hash) where
    -- The file of the secret is left there, sealed.
    pub store_by_files_trip :
        (c : Client) (env env' : Env) (name secret nonce path tmp : Bytes)
        (funcs : List StoreOptsFn) (opts : Options.Store) (t : ℕ) (w : World B R)
        → c.options.in_memory ≡ false
        → use_fallback c ≡ true
        → apply_options funcs no_options ≡ ok opts
        → IsReader env.rand
        → env.rand 12 ≡ some nonce
        → file_path P os name ≡ ok path
        → unix (store_expiry c.options opts (env.now 0)) ≡ pos t
        → t < 2 ^ 63
        → Succeeds env.io tmp
        → can_replace (lookup path w.disk) ≡ true
        → NodupKeys w.disk
        → env'.io.readable path ≡ true
        → is_expired (env.now 1) (pos t) ≡ false
        → is_expired (env'.now 0) (pos t) ≡ false
        → ((store B R P os env c name secret funcs w).0 ≡ ok tt)
          × ((b : Bytes) × (lookup path (store B R P os env c name secret funcs w).1.disk
                ≡ some (file owner_only b)))
          × ((get B R P os env' c name (store B R P os env c name secret funcs w).1).0 ≡ ok secret)
    unfolding store get is_stale
    store_by_files_trip c env env' name secret nonce path tmp funcs opts t w on_disk fallback
          options reads drawn located dated fits s free u readable spared fresh =
        let expiry = store_expiry c.options opts (env.now 0) in
        let w' = encrypt_secret P os c.options.nonce env.io env.rand name secret expiry w.disk in
        let (u', b, f, there, parsed, ef) =
          encrypt_secret_there P sound os c.options.nonce hash hashed env.io env.rand name secret
            nonce path tmp expiry t w.disk reads drawn located dated fits s free u in
        let stale : is_stale (unix (env.now 1)) (expiry_of b) ≡ false =
          rw (expiry_of-parse b f parsed, ef) spared in
        let kept =
          lookup-cleanup P os env.io_cleanup (env.now 1) w'.1 hash path b owner_only hashed u' there
            stale in
        let (done, back) =
          decrypt_secret-encrypt_secret P sound os c.options.nonce hash hashed env.io env.rand name
            secret nonce path tmp expiry t w.disk env'.io (env'.now 0)
            (cleanup_expired_fallback_files P os env.io_cleanup (env.now 1) w'.1).1 reads drawn
            located dated fits s free (kept ∙ sym there) readable fresh in
        let stored =
          store_on_disk c env name secret funcs opts w on_disk fallback options w' refl done in
        (
          ap (λ r. r.0) stored,
          (b, rw stored (kept)),
          rw stored (get_on_disk c env' name secret _ on_disk fallback back),
        )

    -- With the file fallback and sound primitives, where the options apply, the binary can be
    -- hashed, the expiry fits 63 bits and the calls of the file system and of the random source
    -- succeed, `Store` succeeds and `Get` returns what it was given, if neither the cleanup at the
    -- end of `Store` nor the `Get` comes after the expiry.
    pub get-store_by_files :
        (c : Client) (env env' : Env) (name secret nonce path tmp : Bytes)
        (funcs : List StoreOptsFn) (opts : Options.Store) (t : ℕ) (w : World B R)
        → c.options.in_memory ≡ false
        → use_fallback c ≡ true
        → apply_options funcs no_options ≡ ok opts
        → IsReader env.rand
        → env.rand 12 ≡ some nonce
        → file_path P os name ≡ ok path
        → unix (store_expiry c.options opts (env.now 0)) ≡ pos t
        → t < 2 ^ 63
        → Succeeds env.io tmp
        → can_replace (lookup path w.disk) ≡ true
        → NodupKeys w.disk
        → env'.io.readable path ≡ true
        → is_expired (env.now 1) (pos t) ≡ false
        → is_expired (env'.now 0) (pos t) ≡ false
        → ((store B R P os env c name secret funcs w).0 ≡ ok tt)
          × ((get B R P os env' c name (store B R P os env c name secret funcs w).1).0 ≡ ok secret)
    get-store_by_files c env env' name secret nonce path tmp funcs opts t w on_disk fallback options
          reads drawn located dated fits s free u readable spared fresh =
        let (done, _, back) =
          store_by_files_trip c env env' name secret nonce path tmp funcs opts t w on_disk fallback
            options reads drawn located dated fits s free u readable spared fresh in
        (done, back)
