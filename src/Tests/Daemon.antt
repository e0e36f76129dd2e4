-- ===== src/Tests/Daemon.antt =====
-- A secret that a connected client stored at the server.
use burnafter.Prelude.{◌*◌, ◌≡◌, refl, some, false}
use burnafter.Storage.{Metadata}
use burnafter.Clock.{second, since}
use burnafter.Int.{pos, ◌-ℤ◌}
use burnafter.Tests.Files.{name}
use burnafter.Server.{is_past_deadline, is_inactive}

-- The metadata that a connected client's `Store` leads to: the option is a deadline 1000 seconds away.
abbrev pub kept : Metadata
kept = record {
  name = name;
  inactivity_ttl = pos (14400 * second);
  absolute_expires_at = some (pos (1000 * second));
  last_accessed = pos 0;
}

pub active : is_inactive kept (pos (1 * second)) ≡ false
unfolding is_inactive since ◌-ℤ◌
active = refl

pub early : is_past_deadline kept (pos (1 * second)) ≡ false
unfolding is_past_deadline
early = refl
