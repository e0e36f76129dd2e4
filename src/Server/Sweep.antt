-- ===== src/Server/Sweep.antt =====
-- internal/server/server.go: what one tick of the cleanup goroutine removes.
use burnafter.Prelude.{
  ◌≡◌, refl, ◌∙◌, Bool, true, false, ◌&&◌, ◌||◌, Option, none, some, [], ◌∷◌, ◌==◌, arith,
  if◌then◌else◌, length, Bool-cases, inl, inr, ◌↔◌,
}
use burnafter.Bytes.{Bytes, bytes_eq, bytes_eq_iff, bytes_eq_refl}
use burnafter.GoMap.{GoMap, lookup, NodupKeys, lookup-erase}
use burnafter.Clock.{Time}
use burnafter.Storage.{Metadata, Storage, IsReliable, IsFaithful, view}
use burnafter.Server.{Server, is_inactive, is_past_deadline, expire}
use burnafter.Server.Cleanup.{sweep, cleanup}

-- The entry of a name is due for removal at a tick.
abbrev pub is_expired : Metadata → (since_now now : Time) → Bool
is_expired m since_now now = is_inactive m since_now || is_past_deadline m now

abbrev pub is_due : (now : Time) (since_at : Bytes → Time) → Bytes → Option Metadata → Bool
is_due now since_at n none = false
is_due now since_at n (some m) = is_expired m (since_at n) now

lookup-nil_of_length :
    (m : GoMap Metadata) → (length m == 0) ≡ true → (n : Bytes) → lookup n m ≡ none
unfolding lookup
lookup-nil_of_length [] h n = refl
lookup-nil_of_length (e ∷ m) h n = absurd (ground arith)

length_of_lookup-nil :
    (m : GoMap Metadata) → ((n : Bytes) → lookup n m ≡ none) → (length m == 0) ≡ true
unfolding lookup
length_of_lookup-nil [] h = refl
length_of_lookup-nil ((k, v) ∷ m) h = ground (arith, h k, bytes_eq_refl k)

module _ (B : Storage) where
  pub lookup-expire :
      (name n : Bytes) (s : Server B)
      → lookup n (expire B name s).secrets ≡ (if bytes_eq name n then none else lookup n s.secrets)
  unfolding expire
  lookup-expire name n s = lookup-erase name n s.secrets

  -- One round of the loop.
  abbrev visit : Bool → Bytes → Server B → Server B
  visit b name s = if b then expire B name s else s

  lookup-visit :
      (b : Bool) (name n : Bytes) (s : Server B)
      → lookup n (visit b name s).secrets
        ≡ (if b && bytes_eq name n then none else lookup n s.secrets)
  lookup-visit true name n s = lookup-expire name n s
  lookup-visit false name n s = refl

  module _ (now : Time) (since_at : Bytes → Time) where
    is_due_cons :
        (n k : Bytes) (m : Metadata) (entries : GoMap Metadata)
        → lookup k entries ≡ none
        → is_due now since_at n (lookup n ((k, m) ∷ entries)) ≡ (
            is_due now since_at n (lookup n entries)
            || (is_expired m (since_at k) now && bytes_eq k n))
    unfolding lookup
    is_due_cons n k m entries fresh = elim (Bool-cases (bytes_eq k n)) [
      | inl same ↦ let e : k ≡ n = (bytes_eq_iff k n).0 same in rw (same, ← e, fresh) (ground arith)
      | inr differ ↦ rw differ (ground arith)
    ]

    lookup-sweep :
        (n : Bytes) (entries : GoMap Metadata) (s : Server B)
        → NodupKeys entries
        → lookup n (sweep B now since_at entries s).secrets
          ≡ (if is_due now since_at n (lookup n entries) then none else lookup n s.secrets)
    unfolding sweep
    lookup-sweep n [] s u = unfold lookup in refl
    lookup-sweep n ((k, m) ∷ entries) s (fresh, u) =
        lookup-sweep n entries (visit (is_expired m (since_at k) now) k s) u
        ∙ rw (lookup-visit (is_expired m (since_at k) now) k n s, is_due_cons n k m entries fresh)
            (ground arith)

    -- On a map with no name twice, a tick removes the metadata of exactly the secrets that are due,
    -- and asks for a shutdown exactly if none is left.
    pub cleanup_exact :
        (s : Server B)
        → NodupKeys s.secrets
        → let (stop, s') = cleanup B now since_at s in
          ((n : Bytes)
            → lookup n s'.secrets
              ≡ (if is_due now since_at n (lookup n s.secrets) then none else lookup n s.secrets))
          × ((stop ≡ true) ↔ ((n : Bytes) → lookup n s'.secrets ≡ none))
    unfolding cleanup
    cleanup_exact s u =
        let t = sweep B now since_at s.secrets s in
        (
          λ n. lookup-sweep n s.secrets s u,
          (lookup-nil_of_length t.secrets, length_of_lookup-nil t.secrets),
        )

    module _ (reliable : IsReliable B) where
      view-visit :
          (b : Bool) (name n : Bytes) (s : Server B)
          → view B (visit b name s).storage n
            ≡ (if b && bytes_eq name n then none else view B s.storage n)
      unfolding expire
      view-visit true name n s = reliable.view_delete name s.storage n
      view-visit false name n s = refl

      view-sweep :
          (n : Bytes) (entries : GoMap Metadata) (s : Server B)
          → NodupKeys entries
          → view B (sweep B now since_at entries s).storage n
            ≡ (if is_due now since_at n (lookup n entries) then none else view B s.storage n)
      unfolding sweep
      view-sweep n [] s u = unfold lookup in refl
      view-sweep n ((k, m) ∷ entries) s (fresh, u) =
          view-sweep n entries (visit (is_expired m (since_at k) now) k s) u
          ∙ rw (view-visit (is_expired m (since_at k) now) k n s, is_due_cons n k m entries fresh)
              (ground arith)

      -- With a reliable backend, on a map with no name twice, a tick deletes exactly the payloads
      -- of the secrets that are due.
      pub view-cleanup :
          (s : Server B) (n : Bytes)
          → NodupKeys s.secrets
          → view B (cleanup B now since_at s).1.storage n
            ≡ (if is_due now since_at n (lookup n s.secrets) then none else view B s.storage n)
      unfolding cleanup
      view-cleanup s n u = view-sweep n s.secrets s u

-- The session identifier is for the life of the server.
pub session-sweep :
    (B : Storage) (now : Time) (since_at : Bytes → Time) (entries : GoMap Metadata) (s : Server B)
    → (sweep B now since_at entries s).session_id ≡ s.session_id
unfolding sweep expire
session-sweep B now since_at [] s = refl
session-sweep B now since_at ((k, m) ∷ entries) s =
    session-sweep B now since_at entries _ ∙ ground arith

-- A tick leaves the payload of a secret that is not due, also when the backend fails.
module _ (B : Storage) (faithful : IsFaithful B) (now : Time) (since_at : Bytes → Time) where
  visit-spares :
      (b : Bool) (k n : Bytes) (s : Server B)
      → (b && bytes_eq k n) ≡ false
      → view B (visit B b k s).storage n ≡ view B s.storage n
  unfolding expire
  visit-spares true k n s other = faithful.delete_spares k s.storage n other
  visit-spares false k n s other = refl

  sweep-spares :
      (n : Bytes) (entries : GoMap Metadata) (s : Server B)
      → NodupKeys entries
      → is_due now since_at n (lookup n entries) ≡ false
      → view B (sweep B now since_at entries s).storage n ≡ view B s.storage n
  unfolding sweep
  sweep-spares n [] s u fresh = refl
  sweep-spares n ((k, m) ∷ entries) s (new, u) fresh =
      let parts = is_due_cons B now since_at n k m entries new in
      sweep-spares n entries (visit B (is_expired m (since_at k) now) k s) u
        (ground (arith, parts, fresh))
      ∙ visit-spares (is_expired m (since_at k) now) k n s (ground (arith, parts, fresh))

  pub view-cleanup_spares :
      (s : Server B) (n : Bytes)
      → NodupKeys s.secrets
      → is_due now since_at n (lookup n s.secrets) ≡ false
      → view B (cleanup B now since_at s).1.storage n ≡ view B s.storage n
  unfolding cleanup
  view-cleanup_spares s n u fresh = sweep-spares n s.secrets s u fresh
