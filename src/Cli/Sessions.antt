-- ===== src/Cli/Sessions.antt =====
-- cmd/burnafter/main.go: runs of the program where no server can be started.
use burnafter.Prelude.{
  ℕ, zero, suc, ◌^◌, ◌<◌, ◌≡◌, refl, sym, ◌∙◌, ap, Bool, true, false, Option, none, some, [], ◌∷◌,
  if_true, if_false, String, ◌≤◌, ◌+◌, ◌*◌, ◌/◌, List, arith,
}
use burnafter.Bytes.{bytes_eq, Bytes, codes}
use burnafter.GoMap.{lookup, NodupKeys}
use burnafter.Clock.{unix, add, second}
use burnafter.Server.Expiry.{seconds_fit}
use burnafter.Int.{ℤ, pos, IsInt64, ltb_ℤ, floor_div, ◌+ℤ◌}
use burnafter.Crypto.{Primitives, IsSound, IsReader}
use burnafter.Options.{default_client, with_ttl, with_absolute_expiration, apply_options}
use burnafter.Result.{Error, Result, ok, err}
use burnafter.Storage.{Storage}
use burnafter.Verify.{Machine, get_current_binary_hash}
use burnafter.Fallback.{file_path, is_expired, decrypt_secret}
use burnafter.Fallback.TempDir.{can_replace, Disk}
use burnafter.Fallback.Written.{Succeeds}
use burnafter.Memory.{SecretStore, new_heap_store}
use burnafter.Client.{
  Remote, Client, World, Env, store_expiry, store, get, use_fallback, then_clean, use_memory,
}
use burnafter.Client.Connect.{
  Attempt, connect, connect_server, wait, give_up, after_launch, server_start_failed_error,
}
use burnafter.Client.Files.{get-store_by_files}
use burnafter.Client.New.{new_client}
use burnafter.Cli.{
  success, stored_line, secret_line, store_args, client_options, main, run_store, run_get,
  store_parsed, exit_of, with_client, Printed, reported, after_connect,
}
use burnafter.Cli.Number.{format_int, parse_int-format_int}

-- Nothing ever listens on the socket.
abbrev pub IsSilent : (B : Storage) → Attempt B → Type 0
IsSilent B a = (i : ℕ) → a.running i ≡ false

-- A client that could not start its server.
abbrev pub without_server : Client → Client
without_server c = record c { server_start_failed = true }

module _ (B : Storage) (a : Attempt B) (silent : IsSilent B a) where
  wait_silent :
      (rounds i : ℕ) (c : Client) → wait B a rounds i c ≡ give_up server_start_failed_error c
  unfolding wait
  wait_silent zero i c = refl
  wait_silent (suc rounds) i c = if_false _ _ (silent i) ∙ wait_silent rounds (suc i) c

  after_launch_silent :
      (r : Option Error) (c : Client)
      → c.options.no_fallback_mode ≡ false
      → after_launch B a r c ≡ (none, without_server c)
  after_launch_silent (some e) c lenient =
      rw (if_false {b = c.options.no_fallback_mode} _ _ lenient)
  after_launch_silent none c lenient =
      wait_silent 10 1 c ∙ rw (if_false {b = c.options.no_fallback_mode} _ _ lenient)

  connect_silent :
      (P : Primitives) (os : Machine) (socket_path : Bytes) (debug : Bool) (mem : SecretStore B)
      → connect B a (new_client P os (client_options socket_path debug) true) mem
        ≡ ((none, without_server (new_client P os (client_options socket_path debug) true)), mem)
  unfolding connect connect_server new_client client_options
  connect_silent P os socket_path debug mem =
      ap (λ r. (r, mem)) (if_false _ _ (silent 0) ∙ after_launch_silent a.launch_error _ refl)

pub store_args-format_int :
    (name secret : Bytes) (ttl absolute_expiration : ℤ)
    → IsInt64 ttl
    → IsInt64 absolute_expiration
    → store_args (name ∷ secret ∷ format_int ttl ∷ format_int absolute_expiration ∷ [])
      ≡ ok (record {
        name = name;
        secret = secret;
        ttl = ttl;
        absolute_expiration = absolute_expiration;
      })
unfolding store_args
store_args-format_int name secret ttl absolute_expiration fits fits' =
    rw (parse_int-format_int ttl fits, parse_int-format_int absolute_expiration fits')

-- The absolute expiration left out
store_args-ttl :
    (name secret : Bytes) (ttl : ℕ)
    → IsInt64 (pos ttl)
    → store_args (name ∷ secret ∷ format_int (pos ttl) ∷ [])
      ≡ ok (record { name = name; secret = secret; ttl = pos ttl; absolute_expiration = pos 0 })
unfolding store_args
store_args-ttl name secret ttl fits = rw (parse_int-format_int (pos ttl) fits)

module _ (B : Storage) (R : Remote) (P : Primitives) (os : Machine) where
  then_clean_value :
      {A : Type 0} (env : Env) (w : World B R) (r : Result A × Disk)
      → (then_clean B R P os env w r).0 ≡ r.0
  then_clean_value env w (ok a, disk) = refl
  then_clean_value env w (err e, disk) = refl

  -- With the file fallback, `Get` reads the files only.
  get_mem :
      (env : Env) (c : Client) (name : Bytes) (w : World B R) (mem : SecretStore B)
      → c.options.in_memory ≡ false
      → use_fallback c ≡ true
      → (get B R P os env c name (record w { mem = mem })).0 ≡ (get B R P os env c name w).0
  unfolding get
  get_mem env c name w mem on_disk fallback =
      let read = decrypt_secret P os c.options.nonce env.io (env.now 0) name w.disk in
      ap (λ (r : Result Bytes × World B R). r.0)
        (if_false {b = use_memory c} _ _ on_disk ∙ if_true {b = use_fallback c} _ _ fallback)
      ∙ then_clean_value env (record w { mem = mem }) read
      ∙ sym (then_clean_value env w read)
      ∙ ap (λ (r : Result Bytes × World B R). r.0)
          (sym
            (if_false {b = use_memory c} _ _ on_disk ∙ if_true {b = use_fallback c} _ _ fallback))

  pub exit_of-reported :
      {A : Type 0} (msg : String) (f : A → Printed) (r : Result A × World B R) (v : A)
      → r.0 ≡ ok v
      → exit_of B R P os (reported B R P os msg f r) ≡ (success (f v), r.1)
  exit_of-reported msg f (ok v', w) v e = let same : v' ≡ v = cc e in rw same refl
  exit_of-reported msg f (err e', w) v e = absurd (cc e)

  module _ (a : Attempt B) (silent : IsSilent B a) (env : Env) (socket_path : Bytes)
      (debug : Bool) where
    with_client_silent :
        {A : Type 0} (w : World B R) (msg : String) (k : Client → World B R → Result A × World B R)
        → with_client B R P os a (client_options socket_path debug) w msg k
          ≡ k
              (without_server (new_client P os (client_options socket_path debug) true))
              (record w { mem = new_heap_store B })
    with_client_silent w msg k =
        ap (λ r. after_connect B R P os w msg r k)
          (connect_silent B a silent P os socket_path debug (new_heap_store B))

-- A TTL of up to 292 years that is given alone is counted from the time of the `Store`.
ttl_expiry :
    (ttl b : ℕ)
    → 0 < ttl
    → ttl ≤ 9_223_372_036
    → unix (
        store_expiry default_client
          (record { ttl_seconds = pos ttl; absolute_expiration_seconds = pos 0 })
          (pos b))
      ≡ pos ((b + ttl * second) / second)
unfolding store_expiry add ◌+ℤ◌ unix floor_div
ttl_expiry ttl b positive fits =
    let some_seconds : ltb_ℤ (pos 0) (pos ttl) ≡ true = ground arith in
    rw (some_seconds, seconds_fit ttl fits) (ground arith)

in_time_current : (now end : ℕ) → now ≤ end → is_expired (pos now) (pos (end / second)) ≡ false
unfolding unix floor_div
in_time_current now end in_time = ground arith

module _ (B : Storage) (R : Remote) (P : Primitives) (os : Machine) (sound : IsSound P)
    (hash : Bytes) (hashed : get_current_binary_hash P os ≡ ok hash) where
  -- The same for any arguments that ask for a `Store`.
  main-main_of_args :
      (a a' : Attempt B) (running running' : Bool) (env env' : Env) (socket_path : Bytes)
      (debug : Bool) (name secret nonce path tmp : Bytes) (ttl absolute_expiration : ℤ) (t : ℕ)
      (w : World B R)
      → IsSilent B a
      → IsSilent B a'
      → (args : List Bytes)
      → store_args args
        ≡ ok (record {
          name = name;
          secret = secret;
          ttl = ttl;
          absolute_expiration = absolute_expiration;
        })
      → IsReader env.rand
      → env.rand 12 ≡ some nonce
      → file_path P os name ≡ ok path
      → unix (
          store_expiry default_client
            (record { ttl_seconds = ttl; absolute_expiration_seconds = absolute_expiration })
            (env.now 0))
        ≡ pos t
      → t < 2 ^ 63
      → Succeeds env.io tmp
      → can_replace (lookup path w.disk) ≡ true
      → NodupKeys w.disk
      → env'.io.readable path ≡ true
      → is_expired (env.now 1) (pos t) ≡ false
      → is_expired (env'.now 0) (pos t) ≡ false
      → (w' : World B R) × (main B R P os a running env socket_path debug (codes "store" ∷ args) w
          ≡ (success (stored_line name), w'))
        × ((main B R P os a' running' env' socket_path debug (codes "get" ∷ name ∷ []) w').0
            ≡ success (secret_line secret))
  unfolding main run_store run_get new_client client_options apply_options with_ttl
      with_absolute_expiration store_expiry bytes_eq
  main-main_of_args a a' running running' env env' socket_path debug name secret nonce path tmp ttl
        absolute_expiration t w silent silent' args parsed reads drawn located dated fits_t s free u
        readable spared fresh =
      let c = without_server (new_client P os (client_options socket_path debug) true) in
      let funcs = with_ttl ttl ∷ with_absolute_expiration absolute_expiration ∷ [] in
      let w0 : World B R = record w { mem = new_heap_store B } in
      let r = store B R P os env c name secret funcs w0 in
      let (done, back) =
        get-store_by_files B R P os sound hash hashed c env env' name secret nonce path tmp funcs
          (record { ttl_seconds = ttl; absolute_expiration_seconds = absolute_expiration }) t w0
          refl refl refl reads drawn located dated fits_t s free u readable spared fresh in
      (
        r.1,
        ap
              (λ x.
                exit_of B R P os
                  (store_parsed B R P os a env (client_options socket_path debug) x w))
              parsed
            ∙ ap (λ x. exit_of B R P os x)
                (with_client_silent B R P os a silent env socket_path debug w _ _)
            ∙ exit_of-reported B R P os "failed to store secret" (λ _. stored_line name) r tt done,
        ap (λ x. (exit_of B R P os x).0)
              (with_client_silent B R P os a' silent' env' socket_path debug r.1 _ _)
            ∙ ap (λ x. x.0)
                (exit_of-reported B R P os "failed to get secret" secret_line
                  (get B R P os env' c name (record r.1 { mem = new_heap_store B })) secret
                  (get_mem B R P os env' c name r.1 (new_heap_store B) refl refl ∙ back)),
      )

  -- With sound primitives, where the binary can be hashed, nothing ever listens on the socket and
  -- the calls of the file system and of the random source succeed: `burnafter store name secret
  -- ttl` with a TTL of 1 to 9223372036 seconds, as `%d` prints it, ends with success, and a later
  -- run of `burnafter get name` with the same flags prints the secret, if neither the cleanup of
  -- the first nor the read of the second comes more than the TTL after the storing, at a time that
  -- fits 63 bits.
  pub main-main :
      (a a' : Attempt B) (running running' : Bool) (env env' : Env) (socket_path : Bytes)
      (debug : Bool) (name secret nonce path tmp : Bytes) (ttl b cleaned read : ℕ) (w : World B R)
      → IsSilent B a
      → IsSilent B a'
      → 0 < ttl
      → ttl ≤ 9_223_372_036
      → IsReader env.rand
      → env.rand 12 ≡ some nonce
      → file_path P os name ≡ ok path
      → env.now 0 ≡ pos b
      → env.now 1 ≡ pos cleaned
      → env'.now 0 ≡ pos read
      → cleaned ≤ b + ttl * second
      → read ≤ b + ttl * second
      → b + ttl * second < 2 ^ 63
      → Succeeds env.io tmp
      → can_replace (lookup path w.disk) ≡ true
      → NodupKeys w.disk
      → env'.io.readable path ≡ true
      → (w' : World B R) × (main B R P os a running env socket_path debug
            (codes "store" ∷ name ∷ secret ∷ format_int (pos ttl) ∷ [])
            w
          ≡ (success (stored_line name), w'))
        × ((main B R P os a' running' env' socket_path debug (codes "get" ∷ name ∷ []) w').0
            ≡ success (secret_line secret))
  main-main a a' running running' env env' socket_path debug name secret nonce path tmp ttl b
        cleaned read w silent silent' positive fits reads drawn located at_store at_cleanup at_read
        in_time in_time' fits_t s free u readable =
      main-main_of_args a a' running running' env env' socket_path debug name secret nonce path tmp
        (pos ttl) (pos 0) ((b + ttl * second) / second) w silent silent'
        (name ∷ secret ∷ format_int (pos ttl) ∷ []) (store_args-ttl name secret ttl (omega arith))
        reads drawn located (rw at_store (ttl_expiry ttl b positive fits)) (omega arith) s free u
        readable (rw at_cleanup (in_time_current cleaned (b + ttl * second) in_time))
        (rw at_read (in_time_current read (b + ttl * second) in_time'))
