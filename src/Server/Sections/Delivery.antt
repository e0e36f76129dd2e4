-- ===== src/Server/Sections/Delivery.antt =====
-- internal/server/store.go and get.go: a secret that is stored, while requests for other names and ticks run
-- at the same time, section by section.
use burnafter.Prelude.{
  ℕ, ◌≡◌, refl, sym, ◌∙◌, ap, Bool, true, false, ◌||◌, Option, none, some, List, ◌⊎◌, inl, inr,
  if◌then◌else◌, if_keeps, ◌==◌,
}
use burnafter.Bytes.{Bytes, bytes_eq}
use burnafter.Clock.{Time}
use burnafter.Result.{Error, ok}
use burnafter.Crypto.{Primitives, IsSound, IsReader}
use burnafter.Storage.{Payload, Storage, view, IsFaithful}
use burnafter.Verify.{Machine}
use burnafter.Server.{
  Server, Call, StoreRequest, granted, identify, update_activity, is_inactive, is_past_deadline,
  expire,
}
use burnafter.Server.Store.{prepare}
use burnafter.Server.Get.{answer, open_payload, answer_fetched, touch}
use burnafter.Server.RoundTrip.{request_for, prepare-opens, found_of_payload}
use burnafter.Server.Sections.{
  Handler, idle, keeping, recording, reading, deleting, Entry, set_at, System, moved,
  record_metadata, Reach, start, store_refused, store_begins, keeps, records, get_unidentified,
  get_unknown, get_expires, deletes, get_touches, reads, pings, sweep_begins, sweep_visits,
  sweep_ends,
}

-- The goroutine does not change what the backend has under the name.
abbrev pub SparesName : Bytes → Handler → Type 0
SparesName name idle = Unit
SparesName name (keeping call req p) = bytes_eq req.name name ≡ false
SparesName name (recording call req outcome) = Unit
SparesName name (reading call req hash) = Unit
SparesName name (deleting n) = bytes_eq n name ≡ false

module _ (B : Storage) (P : Primitives) (os : Machine) (name : Bytes) where
  -- In the run no `Store` of the name is begun, and neither a `Get` nor a tick finds it expired.
  abbrev pub Spares : {x : System B} {h : List Entry} {y : System B} → Reach B P os x h y → Type 0
  Spares start = Unit
  Spares (store_refused call req e reached refused) = Spares reached
  Spares (store_begins i call req p reached free unlocked fills by) =
      (bytes_eq req.name name ≡ false) × Spares reached
  Spares (keeps i call req p reached here) = Spares reached
  Spares (records i call req outcome reached here unlocked) = Spares reached
  Spares (get_unidentified call e reached refused) = Spares reached
  Spares (get_unknown call req hash reached unlocked client missing) = Spares reached
  Spares (get_expires i call req hash m reached free unlocked client known late) =
      (bytes_eq req.name name ≡ false) × Spares reached
  Spares (deletes i n reached here) = Spares reached
  Spares (get_touches i call req hash m reached free unlocked client known early) = Spares reached
  Spares (reads i call req hash reached here) = Spares reached
  Spares (pings now reached) = Spares reached
  Spares (sweep_begins now reached unlocked) = Spares reached
  Spares (sweep_visits now since_now n m rest reached at) =
      ((bytes_eq n name ≡ false) ⊎ ((is_inactive m since_now || is_past_deadline m now) ≡ false))
      × Spares reached
  Spares (sweep_ends now reached at) = Spares reached

module _ (B : Storage) (faithful : IsFaithful B) (P : Primitives) (os : Machine) (name : Bytes)
    (p : Payload) (id : Bytes) where
  -- The payload is in the backend, and no goroutine is about to change that.
  record IsSafe (s : Server B) (handlers : ℕ → Handler) : Type 0 where
    held : view B s.storage name ≡ some p
    session : s.session_id ≡ id
    spared : (i : ℕ) → SparesName name (handlers i)

  moved-IsSafe :
      {s : Server B} {handlers : ℕ → Handler} (i : ℕ) (handler : Handler) (t : Server B)
      → IsSafe s handlers
      → view B t.storage name ≡ view B s.storage name
      → t.session_id ≡ s.session_id
      → SparesName name handler
      → IsSafe t (set_at handlers i handler)
  moved-IsSafe {handlers} i handler t safe same session spares = record {
    held = same ∙ safe.held;
    session = session ∙ safe.session;
    spared = λ j. if_keeps (λ (a : Handler). SparesName name a) (i == j) spares (safe.spared j);
  }

  active-IsSafe :
      {s : Server B} {handlers : ℕ → Handler} (now : Time)
      → IsSafe s handlers
      → IsSafe (update_activity B now s) handlers
  unfolding update_activity
  active-IsSafe now safe = record { held = safe.held; session = safe.session; spared = safe.spared }

  record-IsSafe :
      {s : Server B} {handlers : ℕ → Handler} (i : ℕ) (call : Call) (req : StoreRequest)
      (outcome : Option Error)
      → IsSafe s handlers
      → IsSafe (record_metadata B P os call req outcome s) (set_at handlers i idle)
  record-IsSafe i call req none safe = moved-IsSafe i idle _ safe refl refl tt
  record-IsSafe i call req (some e) safe = moved-IsSafe i idle _ safe refl refl tt

  -- A visit of another entry, or of one that has not expired.
  visit-IsSafe :
      {s : Server B} {handlers : ℕ → Handler} (b : Bool) (n : Bytes)
      → (bytes_eq n name ≡ false) ⊎ (b ≡ false)
      → IsSafe s handlers
      → IsSafe (if b then expire B n s else s) handlers
  unfolding expire
  visit-IsSafe false n o safe = safe
  visit-IsSafe true n (inr gone) safe = absurd (cc gone)
  visit-IsSafe {s} true n (inl other) safe = record {
    held = faithful.delete_spares n s.storage name other ∙ safe.held;
    session = safe.session;
    spared = safe.spared;
  }

  Reach-IsSafe :
      (x : System B)
      → IsSafe x.server x.handlers
      → {h : List Entry} {y : System B} → (run : Reach B P os x h y) → Spares B P os name run
      → IsSafe y.server y.handlers
  unfolding update_activity touch
  Reach-IsSafe x safe start spares = safe
  Reach-IsSafe x safe (store_refused call req e reached refused) spares =
      active-IsSafe (call.now 0) (Reach-IsSafe x safe reached spares)
  Reach-IsSafe x safe (store_begins i call req q reached free unlocked fills by) (other, spares) =
      moved-IsSafe i (keeping call req q) _ (Reach-IsSafe x safe reached spares) refl refl other
  Reach-IsSafe x safe (keeps {y} i call req q reached here) spares =
      let before = Reach-IsSafe x safe reached spares in
      moved-IsSafe i _ _ before
        (faithful.store_spares req.name q y.server.storage name (rw here at (before.spared i))) refl
        tt
  Reach-IsSafe x safe (records i call req outcome reached here unlocked) spares =
      record-IsSafe i call req outcome (Reach-IsSafe x safe reached spares)
  Reach-IsSafe x safe (get_unidentified call e reached refused) spares =
      active-IsSafe (call.now 0) (Reach-IsSafe x safe reached spares)
  Reach-IsSafe x safe (get_unknown call req hash reached unlocked client missing) spares =
      active-IsSafe (call.now 0) (Reach-IsSafe x safe reached spares)
  Reach-IsSafe x safe (get_expires i call req hash m reached free unlocked client known late)
        (other, spares) =
      moved-IsSafe i (deleting req.name) _ (Reach-IsSafe x safe reached spares) refl refl other
  Reach-IsSafe x safe (deletes {y} i n reached here) spares =
      let before = Reach-IsSafe x safe reached spares in
      moved-IsSafe i idle _ before
        (faithful.delete_spares n y.server.storage name (rw here at (before.spared i))) refl tt
  Reach-IsSafe x safe (get_touches i call req hash m reached free unlocked client known early)
        spares =
      moved-IsSafe i (reading call req hash) _ (Reach-IsSafe x safe reached spares) refl refl tt
  Reach-IsSafe x safe (reads i call req hash reached here) spares =
      moved-IsSafe i idle _ (Reach-IsSafe x safe reached spares) refl refl tt
  Reach-IsSafe x safe (pings now reached) spares =
      active-IsSafe now (Reach-IsSafe x safe reached spares)
  Reach-IsSafe x safe (sweep_begins now reached unlocked) spares =
      Reach-IsSafe x safe reached spares
  Reach-IsSafe x safe (sweep_visits now since_now n m rest reached at) (fresh, spares) =
      visit-IsSafe _ n fresh (Reach-IsSafe x safe reached spares)
  Reach-IsSafe x safe (sweep_ends now reached at) spares = Reach-IsSafe x safe reached spares

-- With sound primitives and a backend that keeps the storage interface, from the moment at which it
-- has accepted the payload of a `Store` by an identified client, with no other goroutine about to
-- store or delete that name: whatever requests and ticks run at the same time, section by section,
-- as long as no `Store` of the name is begun and neither a `Get` nor a tick finds it expired, what
-- a `Get` of the name by the same binary and with the same nonce answers from the backend is the
-- secret.
pub reads_stored :
    (B : Storage) (faithful : IsFaithful B) (P : Primitives) (sound : IsSound P) (os : Machine)
    (x : System B) (i : ℕ) (call : Call) (req : StoreRequest) (p : Payload) (hash : Bytes)
    (at : Server B)
    → identify P os call.peer ≡ ok hash
    → IsReader call.nonce_source
    → prepare B P os call req at ≡ ok p
    → at.session_id ≡ x.server.session_id
    → (B.store req.name p x.server.storage).0 ≡ none
    → ((j : ℕ) → SparesName req.name (set_at x.handlers i (recording call req none) j))
    → {h : List Entry} {y : System B}
    → (run : Reach B P os
        (moved B x i
          (recording call req none)
          (record x.server { storage = (B.store req.name p x.server.storage).1 }))
        h
        y)
    → Spares B P os req.name run
    → answer_fetched P hash (request_for req) y.server.session_id (B.get req.name y.server.storage)
      ≡ granted req.secret
reads_stored B faithful P sound os x i call req p hash at client fills made same accepted rest {y}
      run spares =
    let safe =
      Reach-IsSafe B faithful P os req.name p x.server.session_id _
        (record {
          held = faithful.stored req.name p x.server.storage accepted;
          session = refl;
          spared = rest;
        })
        run spares in
    let opens = prepare-opens B P os sound call req at hash p client fills made in
    let opens' =
      ap (λ n. open_payload P hash (request_for req) n p) (safe.session ∙ sym same) ∙ opens in
    let there = found_of_payload (B.get req.name y.server.storage) p safe.held in
    rw there (ap (answer P) opens')
