-- ===== src/Server/Expiry.antt =====
-- internal/server/get.go and store.go: when a secret expires, and what a `Get` does then.
use burnafter.Prelude.{
  ℕ, ◌*◌, ◌-◌, ◌^◌, ◌<◌, ◌≤◌, ◌≡◌, refl, true, none, some, arith, ltb, Bool-cases, inl, inr, ◌||◌,
  String,
}
use burnafter.Bytes.{Bytes, bytes_eq_refl}
use burnafter.Int.{pos, negsuc, ◌+ℤ◌, ◌-ℤ◌, ◌*ℤ◌, wrap64}
use burnafter.GoMap.{lookup, lookup-erase}
use burnafter.Clock.{Time, second, seconds, since, add}
use burnafter.Crypto.{Primitives}
use burnafter.Result.{errorf, ok}
use burnafter.Storage.{Metadata, Storage, view, IsReliable}
use burnafter.Verify.{Machine}
use burnafter.Server.{
  Options, Server, Call, StoreRequest, GetRequest, denied, identify, update_activity, is_inactive,
  is_past_deadline, expire,
}
use burnafter.Server.Store.{inactivity_ttl, absolute_expiry, metadata_of}
use burnafter.Server.Get.{get_known, get_verified, get}

-- The largest number of seconds that fits a `time.Duration`.
abbrev pub max_seconds : ℕ
max_seconds = 9_223_372_036

since_later : (t : Time) (d : ℕ) → d < 2 ^ 63 → since (t +ℤ pos d) t ≡ pos d
unfolding since ◌+ℤ◌ ◌-ℤ◌
since_later t d h = ground arith

pub seconds_fit : (n : ℕ) → n ≤ max_seconds → seconds (pos n) ≡ pos (n * second)
unfolding seconds ◌*ℤ◌ wrap64
seconds_fit n h = ground arith

seconds_overflow :
    (n : ℕ) → max_seconds < n → n ≤ 2 * max_seconds → (k : ℕ) × (seconds (pos n) ≡ negsuc k)
unfolding seconds ◌*ℤ◌ wrap64
seconds_overflow n h k = (2 ^ 64 - 1 - n * second, ground arith)

module _ (options : Options) (req : StoreRequest) (base last : Time) (n d : ℕ)
    (elapsed : d < 2 ^ 63) where
  -- A TTL of 1 to 9223372036 seconds: at a time less than 2^63 nanoseconds after its last access,
  -- the secret is inactive exactly when more than the TTL has passed since then.
  is_inactive_exact :
      req.ttl_seconds ≡ pos n
      → 0 < n
      → n ≤ max_seconds
      → is_inactive (metadata_of options req base last) (last +ℤ pos d) ≡ ltb (n * second) d
  unfolding is_inactive metadata_of inactivity_ttl
  is_inactive_exact e positive fits =
      rw (e, seconds_fit n fits, since_later last d elapsed) (ground arith)

  -- A TTL of more than 9223372036 and up to 18446744072 seconds overflows `time.Duration` to a
  -- negative number: the secret is inactive at once, and for 2^63 nanoseconds from its last access.
  pub is_inactive_overflow :
      req.ttl_seconds ≡ pos n
      → max_seconds < n
      → n ≤ 2 * max_seconds
      → is_inactive (metadata_of options req base last) (last +ℤ pos d) ≡ true
  unfolding is_inactive metadata_of inactivity_ttl
  is_inactive_overflow e large bounded =
      let (k, negative) = seconds_overflow n large bounded in
      rw (e, negative, since_later last d elapsed) (ground arith)

  -- A deadline of 1 to 9223372036 seconds: at a time less than 2^63 nanoseconds after the secret
  -- was stored, it is past the deadline exactly when more than that has passed.
  is_past_deadline_exact :
      req.absolute_expiration_seconds ≡ pos n
      → 0 < n
      → n ≤ max_seconds
      → is_past_deadline (metadata_of options req base last) (base +ℤ pos d) ≡ ltb (n * second) d
  unfolding is_past_deadline metadata_of absolute_expiry add ◌+ℤ◌
  is_past_deadline_exact e positive fits = rw (e, seconds_fit n fits) (ground arith)

-- Neither the metadata nor the payload is left.
pub record IsGone (B : Storage) (name : Bytes) (t : Server B) : Type 0 where
  pub unknown : lookup name t.secrets ≡ none
  pub empty : view B t.storage name ≡ none

module _ (B : Storage) (reliable : IsReliable B) (P : Primitives) (os : Machine) where
  expire-IsGone : (name : Bytes) (s : Server B) → IsGone B name (expire B name s)
  unfolding expire
  expire-IsGone name s = record {
    unknown = rw (lookup-erase name name s.secrets, bytes_eq_refl name);
    empty = rw (reliable.view_delete name s.storage name, bytes_eq_refl name);
  }

  -- With a reliable backend, a `Get` by an identified client, of a secret that has expired either
  -- way, is denied, and neither metadata nor payload is left.
  pub get_expired :
      (call : Call) (req : GetRequest) (s : Server B) (hash : Bytes) (m : Metadata)
      → identify P os call.peer ≡ ok hash
      → lookup req.name s.secrets ≡ some m
      → (is_inactive m (call.now 2) || is_past_deadline m (call.now 1)) ≡ true
      → ((message : String) × ((get B P os call req s).0 ≡ denied (errorf message)))
        × IsGone B req.name (get B P os call req s).1
  unfolding get get_known
  get_expired call req s hash m client known expired =
      let gone = expire-IsGone req.name (update_activity B (call.now 0) s) in
      elim (Bool-cases (is_inactive m (call.now 2))) [
        | inl idle ↦
            rw (client, get_verified, known, idle)
              (("secret has expired due to inactivity", refl), gone)
        | inr active ↦
            let late : is_past_deadline m (call.now 1) ≡ true = ground arith in
            rw (client, get_verified, known, active, late)
              (("secret has expired (absolute deadline reached)", refl), gone)
      ]
