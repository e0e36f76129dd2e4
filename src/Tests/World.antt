-- ===== src/Tests/World.antt =====
-- A machine on which every process runs a binary of its own, and a server on it.
use burnafter.Prelude.{ℕ, ◌*◌, ◌≡◌, refl, none, some, []}
use burnafter.Bytes.{Bytes, codes}
use burnafter.Int.{pos}
use burnafter.Clock.{second}
use burnafter.Crypto.{hex_encode}
use burnafter.Peer.{PeerContext, peer_auth, get_peer_auth_info}
use burnafter.Result.{ok}
use burnafter.Storage.Memory.{memory_storage}
use burnafter.Verify.{Machine, contents, get_client_binary_info}
use burnafter.Server.{Options, Server, Call, StoreRequest, GetRequest, identify}
use burnafter.Tests.Toy.{toy, zeros}

-- `/proc/N/exe` is the binary, and its name its contents.
abbrev pub machine : Machine
machine = record {
  readlink = λ path. some path;
  read = λ path. contents path;
  executable = some (codes "/usr/bin/app");
  eval_symlinks = λ path. some path;
}

abbrev pub process : ℕ → PeerContext
process n = peer_auth (record { pid = pos n; uid = 1000; gid = 1000 })

abbrev pub hash_7 : Bytes
hash_7 = hex_encode (toy.sha256 (codes "/proc/7/exe"))

abbrev pub hash_8 : Bytes
hash_8 = hex_encode (toy.sha256 (codes "/proc/8/exe"))

pub identify_7 : identify toy machine (process 7) ≡ ok hash_7
unfolding identify get_client_binary_info get_peer_auth_info
identify_7 = refl

pub identify_8 : identify toy machine (process 8) ≡ ok hash_8
unfolding identify get_client_binary_info get_peer_auth_info
identify_8 = refl

abbrev pub options : Options
options = record {
  socket_path = codes "/tmp/burnafter.sock";
  default_ttl = pos (14400 * second);
  inactivity_timeout = pos 0;
  max_secrets = pos 2;
  max_secret_size = pos 1024;
}

abbrev pub fresh : Server memory_storage
fresh = record {
  options = options;
  secrets = [];
  storage = record { entries = [] };
  session_id = codes "session";
  last_activity = pos 0;
  inactivity_timer = none;
}

-- A request of process `n`, all in the same second.
abbrev pub call_at : ℕ → ℕ → Call
call_at n t = record {
  peer = process n;
  now = λ i. pos (t * second);
  salt_source = zeros;
  nonce_source = zeros;
}

abbrev pub keep : StoreRequest
keep = record {
  name = codes "api-key";
  secret = codes "hunter2";
  ttl_seconds = pos 60;
  client_nonce = codes "n";
  absolute_expiration_seconds = pos 0;
}

abbrev pub fetch : GetRequest
fetch = record { name = codes "api-key"; client_nonce = codes "n" }
