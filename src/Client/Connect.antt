-- ===== src/Client/Connect.antt =====
-- `Connect` of client.go: which of the modes a client ends up in.
use burnafter.Prelude.{
  ℕ, zero, suc, ◌≡◌, refl, Bool, true, ◌||◌, Option, none, some, arith, if◌then◌else◌, if_keeps,
  if_cases,
}
use burnafter.Result.{Error, errorf, wrap}
use burnafter.Storage.{Storage}
use burnafter.Client.{Client, use_fallback}
use burnafter.Memory.{SecretStore, keyring_store}

-- How the calls of one `Connect` come out: the keyring, the probes of the socket in order, `dial`, and
-- the launcher.
pub record Attempt (B : Storage) : Type 0 where
  pub keyring : Option B.State
  pub running : ℕ → Bool
  pub dial_error : Option Error
  pub launch_error : Option Error

abbrev pub server_start_failed_error : Error
server_start_failed_error = errorf "server failed to start (and fallback mode is disabled)"

-- `serverStartFailed = true`, then an error or the fallback
abbrev pub give_up : Error → Client → Option Error × Client
give_up e c =
    (if c.options.no_fallback_mode then some e else none, record c { server_start_failed = true })

abbrev pub dialled : Option Error → Client → Option Error × Client
dialled none c = (none, record c { connected = true })
dialled (some e) c = (some (wrap "failed to dial server" e), c)

-- `Close`, given how the closing of the connection comes out. The client stays as it is.
abbrev pub close : Option Error → Client → Option Error
close outcome c = if c.connected then outcome else none

module _ (B : Storage) (a : Attempt B) where
  unfoldable pub dial : Client → Option Error × Client
  dial c = dialled a.dial_error c

  -- `IsServerRunning`, at its `i`th call: whether the socket can be dialled.
  unfoldable pub is_server_running : ℕ → Bool
  is_server_running i = a.running i

  -- `for range 10`: `rounds` probes are left, the next one is number `i`.
  unfoldable pub wait : (rounds i : ℕ) → Client → Option Error × Client
  unfolding is_server_running
  wait zero i c = give_up server_start_failed_error c
  wait (suc rounds) i c =
      let rest = wait rounds (suc i) c in if is_server_running i then dial c else rest

  abbrev pub after_launch : Option Error → Client → Option Error × Client
  after_launch (some e) c =
      give_up (wrap "server failed to start (and fallback mode is disabled)" e) c
  after_launch none c = wait 10 1 c

  abbrev pub upgrade : Option B.State → SecretStore B → SecretStore B
  upgrade none mem = mem
  upgrade (some k) mem = keyring_store k

  unfoldable pub connect_server : Client → Option Error × Client
  unfolding is_server_running
  connect_server c =
      if c.options.no_server
      then (none, c)
      else if c.server_start_failed
      then (if c.options.no_fallback_mode then some server_start_failed_error else none, c)
      else if c.has_launcher
      then (if is_server_running 0 then dial c else after_launch a.launch_error c)
      else give_up server_start_failed_error c

  unfoldable pub connect : Client → SecretStore B → (Option Error × Client) × SecretStore B
  connect c mem =
      if c.options.in_memory then ((none, c), upgrade a.keyring mem) else (connect_server c, mem)

  -- Without an error the client has a way to store secrets.
  abbrev IsUsable : Option Error × Client → Type 0
  IsUsable r = r.0 ≡ none → (use_fallback r.1 || r.1.connected) ≡ true

  give_up-IsUsable : (e : Error) (c : Client) → IsUsable (give_up e c)
  give_up-IsUsable e c h = ground arith

  dial-IsUsable : (c : Client) → IsUsable (dial c)
  unfolding dial
  dial-IsUsable c h = ground arith

  wait-IsUsable : (rounds i : ℕ) (c : Client) → IsUsable (wait rounds i c)
  unfolding wait
  wait-IsUsable zero i c h = give_up-IsUsable server_start_failed_error c h
  wait-IsUsable (suc rounds) i c h =
      if_keeps (λ (r : Option Error × Client). IsUsable r) (a.running i) (λ h'. dial-IsUsable c h')
        (λ h'. wait-IsUsable rounds (suc i) c h') h

  after_launch-IsUsable : (r : Option Error) (c : Client) → IsUsable (after_launch r c)
  after_launch-IsUsable (some e) c h = give_up-IsUsable _ c h
  after_launch-IsUsable none c h = wait-IsUsable 10 1 c h

  -- After a `Connect` with no error, outside in-memory mode, the client is connected to the server
  -- or uses the file fallback.
  pub connect_usable :
      (c : Client)
      → (connect_server c).0 ≡ none
      → (use_fallback (connect_server c).1 || (connect_server c).1.connected) ≡ true
  unfolding connect_server
  connect_usable c h =
      if_cases (λ (r : Option Error × Client). IsUsable r) c.options.no_server
        (λ on h'. rw (on) refl)
        (λ _.
          if_cases (λ (r : Option Error × Client). IsUsable r) c.server_start_failed
            (λ failed h'. ground arith)
            (λ _.
              if_keeps (λ (r : Option Error × Client). IsUsable r) c.has_launcher
                (if_keeps (λ (r : Option Error × Client). IsUsable r) (a.running 0)
                  (λ h'. dial-IsUsable c h') (λ h'. after_launch-IsUsable a.launch_error c h'))
                (λ h'. give_up-IsUsable server_start_failed_error c h')))
        h
