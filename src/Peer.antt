-- ===== src/Peer.antt =====
-- internal/server/credentials.go and peercred_linux.go: who is at the other end of the socket.
pub mod Darwin
use burnafter.Prelude.{ℕ, Bool, Option, ◌-◌, ◌^◌, ltb, if◌then◌else◌}
use burnafter.Bytes.{Bytes, codes}
use burnafter.Int.{ℤ, pos}
use burnafter.Result.{Result, ok, err, errorf, wrap, or_error, ◌>>=◌}

pub record PeerAuthInfo : Type 0 where
  pub pid : ℤ
  pub uid : ℕ
  pub gid : ℕ

abbrev pub no_info : PeerAuthInfo
no_info = record { pid = pos 0; uid = 0; gid = 0 }

-- A connection, with what the system calls on it give: the raw connection with its descriptor, the
-- run of `Control`, and `SO_PEERCRED`.
pub record UnixConn : Type 0 where
  pub fd : Option ℕ
  pub control : Bool
  pub peercred : Option PeerAuthInfo

pub data Conn : Type 0 where
  unix : UnixConn → Conn
  other : Conn

-- `math.MaxInt` on a 64-bit system
abbrev pub max_int : ℕ
max_int = 2 ^ 63 - 1

-- the closure that `Control` runs
abbrev pub read_ucred : ℕ → Option PeerAuthInfo → Result PeerAuthInfo
read_ucred fd peercred =
    if ltb max_int fd
    then err (wrap "failed to get peer credentials" (errorf "file descriptor overflows int"))
    else or_error "failed to get peer credentials" peercred

unfoldable pub get_peer_credentials : UnixConn → Result PeerAuthInfo
get_peer_credentials conn = do
  fd ← or_error "getting raw connection" conn.fd
  if conn.control
      then read_ucred fd conn.peercred
      else err (errorf "trying to control raw connection")

abbrev pub info_or_none : Result PeerAuthInfo → PeerAuthInfo
info_or_none (ok info) = info
info_or_none (err e) = no_info

-- A failure does not end the handshake: the peer is then process 0.
unfoldable pub server_handshake : Conn → PeerAuthInfo
unfolding get_peer_credentials
server_handshake (unix conn) = info_or_none (get_peer_credentials conn)
server_handshake other = no_info

-- The client's side learns nothing of the server.
unfoldable pub client_handshake : Conn → PeerAuthInfo
client_handshake conn = no_info

-- `Info`: the security protocol and its version
abbrev pub info : Bytes × Bytes
info = (codes "unix", codes "1.0")

abbrev pub auth_type : PeerAuthInfo → Bytes
auth_type a = codes "unix-peercred"

-- What a request's context says of its peer.
pub data PeerContext : Type 0 where
  no_peer other_auth : PeerContext
  peer_auth : PeerAuthInfo → PeerContext

unfoldable pub get_peer_auth_info : PeerContext → Result PeerAuthInfo
get_peer_auth_info no_peer = err (errorf "no peer in context")
get_peer_auth_info other_auth = err (errorf "auth info is not peerAuthInfo")
get_peer_auth_info (peer_auth info) = ok info
