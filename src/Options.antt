-- ===== src/Options.antt =====
-- options/options.go
use burnafter.Prelude.{◌*◌, Bool, false, List, [], ◌∷◌}
use burnafter.Bytes.{Bytes, codes}
use burnafter.Int.{ℤ, pos}
use burnafter.Clock.{Duration, second}
use burnafter.Result.{Result, ok, ◌>>=◌}

pub record Common : Type 0 where
  pub socket_path : Bytes
  pub default_ttl : Duration
  pub inactivity_timeout : Duration
  pub debug : Bool
  pub env_var_socket : Bytes
  pub env_var_debug : Bytes
  pub max_secrets : ℤ
  pub max_secret_size : ℤ

pub record Client : Type 0 where
  pub common : Common
  pub open common use *
  pub nonce : Bytes
  pub no_server : Bool
  pub no_fallback_mode : Bool
  pub in_memory : Bool

abbrev pub default_common : Common
default_common = record {
  socket_path = [];
  default_ttl = pos (4 * 3600 * second);
  inactivity_timeout = pos 0;
  debug = false;
  env_var_socket = codes "BURNAFTER_SOCKET_PATH";
  env_var_debug = codes "BURNAFTER_DEBUG";
  max_secrets = pos 100;
  max_secret_size = pos (1024 * 1024);
}

abbrev pub default_client : Client
default_client = record {
  common = default_common;
  nonce = [];
  no_server = false;
  no_fallback_mode = false;
  in_memory = false;
}

pub record Store : Type 0 where
  pub ttl_seconds : ℤ
  pub absolute_expiration_seconds : ℤ

abbrev pub StoreOptsFn : Type 0
StoreOptsFn = Store → Result Store

unfoldable pub with_ttl : ℤ → StoreOptsFn
with_ttl secs s = ok (record s { ttl_seconds = secs })

unfoldable pub with_absolute_expiration : ℤ → StoreOptsFn
with_absolute_expiration secs s = ok (record s { absolute_expiration_seconds = secs })

-- The loop at the head of `Store`.
unfoldable pub apply_options : List StoreOptsFn → Store → Result Store
apply_options [] s = ok s
apply_options (f ∷ fs) s = do s' ← f s; apply_options fs s'

abbrev pub no_options : Store
no_options = record { ttl_seconds = pos 0; absolute_expiration_seconds = pos 0 }
