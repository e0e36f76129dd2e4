-- ===== src/Server/Quiet/Keeps.antt =====
-- internal/server/server.go: a tick keeps no secret that was not there.
use burnafter.Prelude.{◌≡◌, sym, ◌∙◌, Bool-cases, inl, inr, some}
use burnafter.Bytes.{Bytes}
use burnafter.GoMap.{lookup, NodupKeys}
use burnafter.Clock.{Time}
use burnafter.Storage.{Metadata, Storage}
use burnafter.Server.{Server}
use burnafter.Server.Cleanup.{cleanup}
use burnafter.Server.Sweep.{is_due, cleanup_exact}

module _ (B : Storage) where
  abbrev pub Keeps : Server B → Server B → Type 0
  Keeps s t = (n : Bytes) (m : Metadata) → lookup n t.secrets ≡ some m → lookup n s.secrets ≡ some m

  pub tick-Keeps :
      (now : Time) (since_at : Bytes → Time) (s : Server B)
      → NodupKeys s.secrets
      → Keeps s (cleanup B now since_at s).1
  tick-Keeps now since_at s unique n m known =
      let whole = sym ((cleanup_exact B now since_at s unique).0 n) ∙ known in
      elim (Bool-cases (is_due now since_at n (lookup n s.secrets))) [
        | inl due ↦ absurd (cc (rw due at whole))
        | inr fresh ↦ rw fresh at whole
      ]
