-- ===== src/Client/Daemon.antt =====
-- store.go and get.go: a client whose connection reaches the handlers of internal/server.
use burnafter.Prelude.{ℕ, suc, ◌≡◌, refl, ◌∙◌, true, false, none, some, List, if_true, if_false}
use burnafter.Bytes.{Bytes}
use burnafter.Crypto.{Primitives, IsSound, IsReader}
use burnafter.Options
use burnafter.Options.{StoreOptsFn, apply_options, no_options}
use burnafter.Result.{ok}
use burnafter.Storage.{Storage, IsReliable}
use burnafter.Verify.{Machine}
use burnafter.Server.{
  Server, Call, StoreRequest, StoreResponse, GetRequest, GetResponse, stored, granted, identify,
  is_inactive, is_past_deadline,
}
use burnafter.Server
use burnafter.Server.Store
use burnafter.Server.Get
use burnafter.Server.Store.{exceeds_limits, metadata_of}
use burnafter.Server.Bounds.{IsBounded}
use burnafter.Server.Frame.{Spared}
use burnafter.Server.Delivery.{get-store}
use burnafter.Client.{
  store_request, Remote, Client, World, Env, use_fallback, store, get, store_with, with_remote,
  check_stored, check_granted,
}

module _ (B : Storage) (P : Primitives) (os : Machine) (calls : ℕ → Call) where
  -- A connection that loses nothing: the request is answered by the handler, as the call of that number.
  abbrev pub served : Remote
  served = record {
    World = ℕ × Server B;
    store = λ req (i, s).
        let (r, s') = Server.Store.store B P os (calls i) req s in (ok r, (suc i, s'));
    get = λ req (i, s). let (r, s') = Server.Get.get B P os (calls i) req s in (ok r, (suc i, s'));
    ping = λ (i, s). (ok true, (suc i, (Server.ping B ((calls i).now 0) s).1));
  }

  store_remote :
      (c : Client) (env : Env) (name secret : Bytes) (funcs : List StoreOptsFn)
      (opts : Options.Store) (w : World B served) (i : ℕ) (s : Server B)
      → w.remote ≡ (i, s)
      → c.options.in_memory ≡ false
      → use_fallback c ≡ false
      → c.connected ≡ true
      → apply_options funcs no_options ≡ ok opts
      → (Server.Store.store B P os (calls i) (store_request c name secret opts) s).0 ≡ stored
      → ((store B served P os env c name secret funcs w).0 ≡ ok tt)
        × ((store B served P os env c name secret funcs w).1.remote
            ≡ (suc i, (Server.Store.store B P os (calls i) (store_request c name secret opts) s).1))
  unfolding store
  store_remote c env name secret funcs opts w i s at on_disk remote connected options done =
      let sent : store B served P os env c name secret funcs w
          ≡ with_remote B served P os w (check_stored B served P os)
              (served.store (store_request c name secret opts) (i, s)) =
        rw (options, store_with)
          (if_false _ _ on_disk ∙ if_false _ _ remote ∙ if_true _ _ connected ∙ rw at) in
      rw (sent, done) (refl, refl)

  get_remote :
      (c : Client) (env : Env) (name secret : Bytes) (w : World B served) (i : ℕ) (s : Server B)
      → w.remote ≡ (i, s)
      → c.options.in_memory ≡ false
      → use_fallback c ≡ false
      → c.connected ≡ true
      → (Server.Get.get B P os
          (calls i)
          (record { name = name; client_nonce = c.options.nonce })
          s).0
        ≡ granted secret
      → (get B served P os env c name w).0 ≡ ok secret
  unfolding get
  get_remote c env name secret w i s at on_disk remote connected back =
      let sent : get B served P os env c name w
          ≡ with_remote B served P os w (check_granted B served P os)
              (served.get (record { name = name; client_nonce = c.options.nonce }) (i, s)) =
        if_false _ _ on_disk ∙ if_false _ _ remote ∙ if_true _ _ connected ∙ rw at in
      rw (sent, back) refl

  -- Over a connection that loses nothing, with sound primitives and a reliable backend: where
  -- `Store` is admitted by a server within its bound and the random source answers, the connected
  -- client's `Store` succeeds and leaves the server in the state of its handler, and, whatever the
  -- server does meanwhile that spares the secret, `Get` by a client with the same binary and nonce
  -- returns it while it has not expired.
  pub get-store_by_server :
      (reliable : IsReliable B) (sound : IsSound P) (c : Client) (env env' : Env)
      (name secret : Bytes) (funcs : List StoreOptsFn) (opts : Options.Store)
      (w w' : World B served) (i j : ℕ) (s t : Server B) (hash salt nonce : Bytes)
      → w.remote ≡ (i, s)
      → w'.remote ≡ (j, t)
      → c.options.in_memory ≡ false
      → use_fallback c ≡ false
      → c.connected ≡ true
      → apply_options funcs no_options ≡ ok opts
      → IsBounded B s
      → identify P os (calls i).peer ≡ ok hash
      → exceeds_limits s.options (store_request c name secret opts) s.secrets ≡ none
      → (calls i).salt_source 32 ≡ some salt
      → IsReader (calls i).nonce_source
      → (calls i).nonce_source 12 ≡ some nonce
      → Spared B P os name
          (metadata_of s.options
            (store_request c name secret opts)
            ((calls i).now 1)
            ((calls i).now 2))
          (Server.Store.store B P os (calls i) (store_request c name secret opts) s).1
          t
      → identify P os (calls j).peer ≡ ok hash
      → is_inactive
          (metadata_of s.options
            (store_request c name secret opts)
            ((calls i).now 1)
            ((calls i).now 2))
          ((calls j).now 2)
        ≡ false
      → is_past_deadline
          (metadata_of s.options
            (store_request c name secret opts)
            ((calls i).now 1)
            ((calls i).now 2))
          ((calls j).now 1)
        ≡ false
      → ((store B served P os env c name secret funcs w).0 ≡ ok tt)
        × ((store B served P os env c name secret funcs w).1.remote
            ≡ (suc i, (Server.Store.store B P os (calls i) (store_request c name secret opts) s).1))
        × ((get B served P os env' c name w').0 ≡ ok secret)
  get-store_by_server reliable sound c env env' name secret funcs opts w w' i j s t hash salt nonce
        at at' on_disk remote connected options bounded client room salted reads nonced spared
        client' active early =
      let (done, back) =
        get-store B reliable P sound os s bounded (calls i) (store_request c name secret opts) hash
          salt nonce t (calls j) client room salted reads nonced spared client' active early in
      let (o, r) =
        store_remote c env name secret funcs opts w i s at on_disk remote connected options done in
      (o, r, get_remote c env' name secret w' j t at' on_disk remote connected back)
