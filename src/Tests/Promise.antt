-- ===== src/Tests/Promise.antt =====
-- A small server against its promise, and left alone.
use burnafter.Prelude.{◌*◌, ◌≡◌, refl, true, none, List, [], ◌∷◌, arith, Bool-cases, inl, inr}
use burnafter.Clock.{second}
use burnafter.Int.{pos, ◌+ℤ◌, ltb_ℤ}
use burnafter.Bytes.{codes, bytes_eq}
use burnafter.GoMap.{lookup}
use burnafter.Storage.Memory.{memory_storage, memory_storage-IsReliable}
use burnafter.Server.Bounds.{IsBounded}
use burnafter.Server.Lifecycle.{Life, run, start}
use burnafter.Server.Quiet.Ends.{AllEnd}
use burnafter.Server.Quiet.Due.{last_end}
use burnafter.Server.Quiet.Idle.{EndsQuietly}
use burnafter.Server.Quiet.Silence.{still, ticked, silence-EndsQuietly}
use burnafter.Server.Refines.Promise.{replies_allowed}
use burnafter.Server.Spec.{AllowsAll, replies}
use burnafter.Server.Step.{Event, on_store, on_get, on_tick}
use burnafter.Tests.Toy.{toy, toy-IsSound, zeros-IsReader}
use burnafter.Tests.World.{machine, options, fresh, call_at, keep, fetch}
use burnafter.Tests.Server.{holding, kept}

-- The secret is stored, read, asked for by another binary, and expires.
abbrev visits : List Event
visits =
    on_store (call_at 7 100) keep
    ∷ on_get (call_at 7 150) fetch
    ∷ on_get (call_at 8 151) fetch
    ∷ on_tick (pos (300 * second)) (λ n. pos (300 * second))
    ∷ []

replies_allowed_example :
    AllowsAll toy machine options
      (λ n. none)
      visits
      (replies memory_storage toy machine visits fresh)
replies_allowed_example =
    replies_allowed memory_storage memory_storage-IsReliable toy toy-IsSound machine visits fresh
      (zeros-IsReader, (tt, (tt, (tt, tt)))) refl

holding-IsBounded : IsBounded memory_storage holding
unfolding lookup
holding-IsBounded = record { nodup = (refl, tt); count = omega arith }

holding-AllEnd : AllEnd memory_storage holding
unfolding lookup
holding-AllEnd = record {
  default = refl;
  each = λ n m known. elim (Bool-cases (bytes_eq (codes "api-key") n)) [
    | inl same ↦ let it : kept ≡ m = cc (rw same at known) in rw (← it) refl
    | inr other ↦ absurd (cc (rw other at known))
  ];
}

abbrev begun : Life memory_storage
begun = run memory_storage holding

late : ltb_ℤ (last_end holding.secrets) (pos (161 * second)) ≡ true
unfolding ◌+ℤ◌
late = refl

silence-EndsQuietly_example :
    EndsQuietly memory_storage toy machine
      (ticked memory_storage toy machine begun (pos (161 * second)) (λ n. pos (161 * second)))
unfolding run
silence-EndsQuietly_example =
    silence-EndsQuietly memory_storage toy machine holding begun begun (pos (161 * second))
      (λ n. pos (161 * second)) holding-IsBounded holding-AllEnd start still refl (λ n. late) late
