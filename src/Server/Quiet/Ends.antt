-- ===== src/Server/Quiet/Ends.antt =====
-- internal/server/store.go: the TTLs that a server keeps all come to an end.
use burnafter.Prelude.{if_keeps, ◌==◌, ◌^◌, ◌≡◌, true, some, arith, refl, ◌-◌}
use burnafter.Bytes.{Bytes}
use burnafter.Int.{ℤ, pos, negsuc, ltb_ℤ, wrap64, ◌*ℤ◌}
use burnafter.GoMap.{NodupKeys, lookup}
use burnafter.Clock.{Time, Duration, seconds}
use burnafter.Crypto.{Primitives}
use burnafter.Storage.{Metadata, Storage}
use burnafter.Verify.{Machine}
use burnafter.Server.{Options, Server, StoreRequest}
use burnafter.Server.Store.{ttl_or, inactivity_ttl, metadata_of}
use burnafter.Server.Step.{Event, step}
use burnafter.Server.Entries.{step-AllAre}
use burnafter.Server.Quiet.Due.{HasEnd}

-- A number of seconds is never the largest duration, not even where it overflows.
seconds_end : (n : ℤ) → ltb_ℤ (seconds n) (pos (2 ^ 63 - 1)) ≡ true
unfolding seconds ◌*ℤ◌ wrap64
seconds_end (pos n) = ground arith
seconds_end (negsuc n) = ground arith

abbrev Ends : Duration → Type 0
Ends d = ltb_ℤ d (pos (2 ^ 63 - 1)) ≡ true

ttl_or-Ends : (default d : Duration) → Ends default → Ends d → Ends (ttl_or default d)
ttl_or-Ends default (pos n) e h = if_keeps Ends (n == 0) e h
ttl_or-Ends default (negsuc n) e h = h

metadata_of-HasEnd :
    (options : Options) (req : StoreRequest) (base now : Time)
    → Ends options.default_ttl
    → HasEnd (metadata_of options req base now)
unfolding metadata_of inactivity_ttl
metadata_of-HasEnd options req base now e =
    ttl_or-Ends options.default_ttl (seconds req.ttl_seconds) e (seconds_end req.ttl_seconds)

module _ (B : Storage) where
  -- Every secret has an end, and so has each that takes the default.
  pub record AllEnd (s : Server B) : Type 0 where
    pub default : Ends s.options.default_ttl
    pub each : (n : Bytes) (m : Metadata) → lookup n s.secrets ≡ some m → HasEnd m

  pub step-AllEnd :
      (P : Primitives) (os : Machine) (e : Event) (s : Server B)
      → NodupKeys s.secrets
      → AllEnd s
      → AllEnd (step B P os e s)
  step-AllEnd P os e s u a =
      let all =
        step-AllAre B s.options (λ n m. HasEnd m)
          (λ req base now. metadata_of-HasEnd s.options req base now a.default) (λ n m now h. h) P
          os e s u (record { same = refl; each = a.each }) in
      record { default = rw all.same a.default; each = all.each }
