-- ===== src/Server/Quiet/Due.antt =====
-- internal/server/server.go: every secret is due some time.
use burnafter.Prelude.{
  Option, none, ◌⊎◌, Option-cases, Bool-cases, inl, inr, ◌^◌, ◌≡◌, true, arith, some, [], ◌∷◌,
  if◌then◌else◌, ◌-◌,
}
use burnafter.Bytes.{Bytes, bytes_eq}
use burnafter.Int.{pos, ltb_ℤ, ◌+ℤ◌, ◌-ℤ◌}
use burnafter.GoMap.{GoMap, lookup}
use burnafter.Clock.{Time, since}
use burnafter.Storage.{Metadata}
use burnafter.Server.{is_inactive}
use burnafter.Server.Sweep.{is_due}
use burnafter.Server.{is_past_deadline}
use burnafter.Server.Sweep.{is_expired}

-- The time after which a secret is inactive, if its TTL is not negative, else the time from which on.
abbrev inactive_end : Metadata → Time
inactive_end m =
    if ltb_ℤ m.inactivity_ttl (pos 0) then m.last_accessed else m.last_accessed +ℤ m.inactivity_ttl

-- The earlier of an absolute deadline, if there is one, and a time.
abbrev or_deadline : Option Time → Time → Time
or_deadline none t = t
or_deadline (some deadline) t = if ltb_ℤ deadline t then deadline else t

-- The time after which a secret has expired, either way.
abbrev end_of : Metadata → Time
end_of m = or_deadline m.absolute_expires_at (inactive_end m)

-- A TTL below the largest duration.
abbrev pub HasEnd : Metadata → Type 0
HasEnd m = ltb_ℤ m.inactivity_ttl (pos (2 ^ 63 - 1)) ≡ true

inactive_after :
    (m : Metadata) (now : Time)
    → HasEnd m
    → ltb_ℤ (inactive_end m) now ≡ true
    → is_inactive m now ≡ true
unfolding is_inactive since ◌+ℤ◌ ◌-ℤ◌
inactive_after m now fits late = ground arith

earlier_of-lt :
    (deadline t at now : Time)
    → ltb_ℤ (if ltb_ℤ deadline t then deadline else t) at ≡ true
    → ltb_ℤ (if ltb_ℤ deadline t then deadline else t) now ≡ true
    → (ltb_ℤ t at ≡ true) ⊎ (ltb_ℤ deadline now ≡ true)
earlier_of-lt deadline t at now h h' = elim (Bool-cases (ltb_ℤ deadline t)) [
  | inl earlier ↦ inr (rw earlier at h')
  | inr later ↦ inl (rw later at h)
]

-- After its end, by both readings of the clock, a secret has expired.
expired_after :
    (m : Metadata) (at now : Time)
    → HasEnd m
    → ltb_ℤ (end_of m) at ≡ true
    → ltb_ℤ (end_of m) now ≡ true
    → is_expired m at now ≡ true
unfolding is_past_deadline
expired_after m at now fits h h' = elim (Option-cases m.absolute_expires_at) [
  | inl none_set ↦ rw (inactive_after m at fits (rw none_set at h))
  | inr (deadline, set) ↦
      elim (earlier_of-lt deadline (inactive_end m) at now (rw set at h) (rw set at h')) [
        | inl inactive ↦ rw (inactive_after m at fits inactive)
        | inr past ↦ rw (set, past) (ground arith)
      ]
]

abbrev later_of : Time → Time → Time
later_of a b = if ltb_ℤ a b then b else a

-- The last of the ends of the secrets.
abbrev pub last_end : GoMap Metadata → Time
last_end [] = pos 0
last_end ((name, m) ∷ secrets) = later_of (end_of m) (last_end secrets)

later_of-lt :
    (a b now : Time) → ltb_ℤ (later_of a b) now ≡ true → (ltb_ℤ a now ≡ true) × (ltb_ℤ b now ≡ true)
later_of-lt a b now h = ground arith

ends_before :
    (n : Bytes) (secrets : GoMap Metadata) (m : Metadata) (now : Time)
    → lookup n secrets ≡ some m
    → ltb_ℤ (last_end secrets) now ≡ true
    → ltb_ℤ (end_of m) now ≡ true
unfolding lookup
ends_before n [] m now known late = absurd (cc known)
ends_before n ((k, v) ∷ secrets) m now known late =
    let (own, rest) = later_of-lt (end_of v) (last_end secrets) now late in
    elim (Bool-cases (bytes_eq k n)) [
      | inl same ↦ let it : v ≡ m = cc (rw same at known) in rw (← it) own
      | inr other ↦ ends_before n secrets m now (rw other at known) rest
    ]

-- After the last end every secret is due.
pub all_due :
    (secrets : GoMap Metadata) (now : Time) (since_at : Bytes → Time) (n : Bytes) (m : Metadata)
    → lookup n secrets ≡ some m
    → HasEnd m
    → ltb_ℤ (last_end secrets) (since_at n) ≡ true
    → ltb_ℤ (last_end secrets) now ≡ true
    → is_due now since_at n (some m) ≡ true
all_due secrets now since_at n m known ends late late' =
    expired_after m (since_at n) now ends (ends_before n secrets m (since_at n) known late)
      (ends_before n secrets m now known late')
