-- ===== src/Server/Cleanup.antt =====
-- The body of `cleanupExpiredSecrets`, internal/server/server.go.
use burnafter.Prelude.{Bool, ◌||◌, [], ◌∷◌, ◌==◌, if◌then◌else◌, length}
use burnafter.Bytes.{Bytes}
use burnafter.GoMap.{GoMap}
use burnafter.Clock.{Time}
use burnafter.Storage.{Metadata, Storage}
use burnafter.Server.{Server, is_inactive, is_past_deadline, expire}

module _ (B : Storage) where
  -- The loop of `cleanupExpiredSecrets` over the entries, at one tick. `now` is read once;
  -- `since_at` is the reading of `time.Since` at the entry of a name.
  unfoldable pub sweep : Time → (Bytes → Time) → GoMap Metadata → Server B → Server B
  sweep now since_at [] s = s
  sweep now since_at ((name, m) ∷ entries) s =
      sweep now since_at entries
        (if is_inactive m (since_at name) || is_past_deadline m now then expire B name s else s)

  -- One tick: the sweep, and whether the server shuts down because nothing is left.
  unfoldable pub cleanup : Time → (Bytes → Time) → Server B → Bool × Server B
  cleanup now since_at s = let s' = sweep now since_at s.secrets s in (length s'.secrets == 0, s')
