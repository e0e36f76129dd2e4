-- ===== src/Server/Swept.antt =====
-- internal/server/server.go: what a tick of the cleanup does not change.
use burnafter.Prelude.{◌≡◌, refl, ◌∙◌, Bool, true, false, ◌||◌, [], ◌∷◌, if◌then◌else◌}
use burnafter.Bytes.{Bytes}
use burnafter.Clock.{Time}
use burnafter.GoMap.{GoMap, NodupKeys, erase-NodupKeys}
use burnafter.Storage.{Metadata, Storage}
use burnafter.Server.{Server, expire, is_inactive, is_past_deadline}
use burnafter.Server.Cleanup.{cleanup, sweep}

module _ (B : Storage) where
  -- A tick changes neither the options nor that no name is there twice.
  pub record IsSwept (s t : Server B) : Type 0 where
    pub distinct : NodupKeys t.secrets
    pub options : t.options ≡ s.options

  visit-IsSwept :
      (b : Bool) (name : Bytes) (s : Server B)
      → NodupKeys s.secrets
      → IsSwept s (if b then expire B name s else s)
  unfolding expire
  visit-IsSwept true name s u = record {
    distinct = erase-NodupKeys name s.secrets u;
    options = refl;
  }
  visit-IsSwept false name s u = record { distinct = u; options = refl }

  sweep-IsSwept :
      (now : Time) (since_at : Bytes → Time) (entries : GoMap Metadata) (s : Server B)
      → NodupKeys s.secrets
      → IsSwept s (sweep B now since_at entries s)
  unfolding sweep
  sweep-IsSwept now since_at [] s u = record { distinct = u; options = refl }
  sweep-IsSwept now since_at ((name, m) ∷ entries) s u =
      let one = visit-IsSwept (is_inactive m (since_at name) || is_past_deadline m now) name s u in
      let rest = sweep-IsSwept now since_at entries _ one.distinct in
      record { distinct = rest.distinct; options = rest.options ∙ one.options }

  pub cleanup-IsSwept :
      (now : Time) (since_at : Bytes → Time) (s : Server B)
      → NodupKeys s.secrets
      → IsSwept s (cleanup B now since_at s).1
  unfolding cleanup
  cleanup-IsSwept now since_at s u = sweep-IsSwept now since_at s.secrets s u
