-- ===== src/Cli/Served.antt =====
-- cmd/burnafter/main.go: runs of the program whose client reaches a server.
use burnafter.Prelude.{
  ℕ, suc, ◌≡◌, refl, ◌∙◌, ap, Bool, true, false, none, some, [], ◌∷◌, if_true, String,
}
use burnafter.Bytes.{Bytes, codes, bytes_eq}
use burnafter.Int.{ℤ, IsInt64}
use burnafter.Crypto.{Primitives, IsSound, IsReader}
use burnafter.Options.{with_ttl, with_absolute_expiration, apply_options}
use burnafter.Result.{Result, ok}
use burnafter.Storage.{Storage, IsReliable}
use burnafter.Verify.{Machine}
use burnafter.Memory.{SecretStore, new_heap_store}
use burnafter.Server.{Server, Call, identify, is_inactive, is_past_deadline}
use burnafter.Server.Store
use burnafter.Server.Store.{exceeds_limits, metadata_of}
use burnafter.Server.Bounds.{IsBounded}
use burnafter.Server.Frame.{Spared}
use burnafter.Client.{Client, World, Env, Remote, store, get, store_request}
use burnafter.Client.Connect.{Attempt, connect, connect_server, dial, dialled, after_launch}
use burnafter.Client.Daemon.{served, get-store_by_server}
use burnafter.Client.New.{new_client}
use burnafter.Cli.{
  success, stored_line, secret_line, client_options, main, run_store, run_get, store_parsed,
  exit_of, with_client, after_connect,
}
use burnafter.Cli.Number.{format_int}
use burnafter.Cli.Sessions.{exit_of-reported, store_args-format_int}

-- The server listens, and the connection is made.
pub record IsServing (B : Storage) (a : Attempt B) : Type 0 where
  pub listening : a.running 0 ≡ true
  pub made : a.dial_error ≡ none

-- The client of a run, once it is connected.
abbrev pub client_of : Primitives → Machine → Bytes → Bool → Client
client_of P os socket_path debug =
    record (new_client P os (client_options socket_path debug) true) { connected = true }

module _ (B : Storage) (a : Attempt B) (serving : IsServing B a) (P : Primitives) (os : Machine)
    (socket_path : Bytes) (debug : Bool) where
  connect_serving :
      (mem : SecretStore B)
      → connect B a (new_client P os (client_options socket_path debug) true) mem
        ≡ ((none, client_of P os socket_path debug), mem)
  unfolding connect connect_server new_client client_options dial
  connect_serving mem =
      let c = new_client P os (client_options socket_path debug) true in
      let started = after_launch B a a.launch_error c in
      ap (λ r. (r, mem))
        (if_true (dialled a.dial_error c) started serving.listening
          ∙ ap (λ o. dialled o c) serving.made)

  with_client_serving :
      {A : Type 0} (R : Remote) (w : World B R) (msg : String)
      (k : Client → World B R → Result A × World B R)
      → with_client B R P os a (client_options socket_path debug) w msg k
        ≡ k (client_of P os socket_path debug) (record w { mem = new_heap_store B })
  with_client_serving R w msg k =
      ap (λ r. after_connect B R P os w msg r k) (connect_serving (new_heap_store B))

module _ (B : Storage) (P : Primitives) (os : Machine) (calls : ℕ → Call) where
  -- Where the server listens, over a connection that loses nothing, with sound primitives and a
  -- reliable backend: if the server is within its bound, admits the request and its random source
  -- answers, `burnafter store name secret ttl absolute_expiration` with two numbers of 64 bits as
  -- `%d` prints them ends with success and leaves the server in the state of its handler; whatever
  -- the server does meanwhile that spares the secret, a later run of `burnafter get name` by the
  -- same binary prints it while it has not expired.
  pub main-main_by_server :
      (reliable : IsReliable B) (sound : IsSound P) (a a' : Attempt B) (running running' : Bool)
      (env env' : Env) (socket_path : Bytes) (debug : Bool) (name secret : Bytes)
      (ttl absolute_expiration : ℤ) (w w' : World B (served B P os calls)) (i j : ℕ)
      (s t : Server B) (hash salt nonce : Bytes)
      → let req =
          store_request
            (client_of P os socket_path debug)
            name
            secret
            (record { ttl_seconds = ttl; absolute_expiration_seconds = absolute_expiration }) in
        let m = metadata_of s.options req ((calls i).now 1) ((calls i).now 2) in
        let after = (Store.store B P os (calls i) req s).1 in
        let first =
          main B
            (served B P os calls)
            P
            os
            a
            running
            env
            socket_path
            debug
            (codes "store" ∷ name ∷ secret ∷ format_int ttl ∷ format_int absolute_expiration ∷ [])
            w in
        IsServing B a
        → IsServing B a'
        → IsInt64 ttl
        → IsInt64 absolute_expiration
        → w.remote ≡ (i, s)
        → w'.remote ≡ (j, t)
        → IsBounded B s
        → identify P os (calls i).peer ≡ ok hash
        → exceeds_limits s.options req s.secrets ≡ none
        → (calls i).salt_source 32 ≡ some salt
        → IsReader (calls i).nonce_source
        → (calls i).nonce_source 12 ≡ some nonce
        → Spared B P os name m after t
        → identify P os (calls j).peer ≡ ok hash
        → is_inactive m ((calls j).now 2) ≡ false
        → is_past_deadline m ((calls j).now 1) ≡ false
        → (first.0 ≡ success (stored_line name))
          × (first.1.remote ≡ (suc i, after))
          × ((main B
                (served B P os calls)
                P
                os
                a'
                running'
                env'
                socket_path
                debug
                (codes "get" ∷ name ∷ [])
                w').0
              ≡ success (secret_line secret))
  unfolding main run_store run_get new_client client_options apply_options with_ttl
      with_absolute_expiration bytes_eq
  main-main_by_server reliable sound a a' running running' env env' socket_path debug name secret
        ttl absolute_expiration w w' i j s t hash salt nonce serving serving' fits fits' at at'
        bounded client room salted reads nonced spared client' active early =
      let R = served B P os calls in
      let c = client_of P os socket_path debug in
      let funcs = with_ttl ttl ∷ with_absolute_expiration absolute_expiration ∷ [] in
      let w0 : World B R = record w { mem = new_heap_store B } in
      let w1 : World B R = record w' { mem = new_heap_store B } in
      let r = store B R P os env c name secret funcs w0 in
      let (done, moved, back) =
        get-store_by_server B P os calls reliable sound c env env' name secret funcs
          (record { ttl_seconds = ttl; absolute_expiration_seconds = absolute_expiration }) w0 w1 i
          j s t hash salt nonce at at' refl refl refl refl bounded client room salted reads nonced
          spared client' active early in
      let first =
        ap
          (λ x.
            exit_of B R P os (store_parsed B R P os a env (client_options socket_path debug) x w))
          (store_args-format_int name secret ttl absolute_expiration fits fits')
        ∙ ap (λ x. exit_of B R P os x)
            (with_client_serving B a serving P os socket_path debug R w _ _)
        ∙ exit_of-reported B R P os "failed to store secret" (λ _. stored_line name) r tt done in
      (
        ap (λ x. x.0) first,
        ap (λ x. x.1.remote) first ∙ moved,
        ap (λ x. (exit_of B R P os x).0)
              (with_client_serving B a' serving' P os socket_path debug R w' _ _)
            ∙ ap (λ x. x.0)
                (exit_of-reported B R P os "failed to get secret" secret_line
                  (get B R P os env' c name w1) secret back),
      )
