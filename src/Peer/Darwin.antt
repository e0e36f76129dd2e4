-- ===== src/Peer/Darwin.antt =====
-- internal/server/peercred_darwin.go: the peer's credentials on macOS.
use burnafter.Prelude.{ℕ, ◌≡◌, Bool, true, Option, some, if◌then◌else◌}
use burnafter.Int.{ℤ, wrap32, IsInt32, wrap32_lem}
use burnafter.Peer.{PeerAuthInfo}
use burnafter.Result.{Result, ok, err, errorf, or_error, ◌>>=◌}

-- `unix.Xucred`: the user, and the first of its groups
pub record Xucred : Type 0 where
  pub uid : ℕ
  pub group : ℕ

-- A connection, with what the system calls on it give.
pub record LocalConn : Type 0 where
  pub raw : Bool
  pub control : Bool
  pub peer_pid : Option ℤ
  pub peercred : Option Xucred

abbrev pub read_credentials : Option ℤ → Option Xucred → Result PeerAuthInfo
read_credentials pid cred = do
  peer_pid ← or_error "failed to get peer PID" pid
  xucred ← or_error "failed to get peer credentials" cred
  ok (record { pid = wrap32 peer_pid; uid = xucred.uid; gid = xucred.group })

unfoldable pub get_peer_credentials : LocalConn → Result PeerAuthInfo
get_peer_credentials conn =
    if conn.raw
    then (if conn.control
        then read_credentials conn.peer_pid conn.peercred
        else err (errorf "trying to control raw connection"))
    else err (errorf "getting raw connection")

-- The process that the system names is the one that is reported, where it fits 32 bits.
pub get_peer_credentials_lem :
    (conn : LocalConn) (peer_pid : ℤ) (xucred : Xucred)
    → conn.raw ≡ true
    → conn.control ≡ true
    → conn.peer_pid ≡ some peer_pid
    → conn.peercred ≡ some xucred
    → IsInt32 peer_pid
    → get_peer_credentials conn
      ≡ ok (record { pid = peer_pid; uid = xucred.uid; gid = xucred.group })
unfolding get_peer_credentials
get_peer_credentials_lem conn peer_pid xucred raw control found read fits =
    simp (raw, control, found, read, wrap32_lem peer_pid fits)
