-- ===== src/Server/Sections/Traced.antt =====
-- internal/server/store.go and get.go: what holds between the sections of the handlers, of each payload in
-- the backend or on its way there.
use burnafter.Prelude.{
  if◌then◌else◌, if_keeps, ◌==◌, ℕ, ◌≡◌, refl, ◌∙◌, Bool, true, false, Option, none, some, List,
  ◌∷◌, inl, inr,
}
use burnafter.Bytes.{Bytes}
use burnafter.Clock.{Time}
use burnafter.Result.{Error, ok}
use burnafter.Crypto.{Primitives, IsSound, IsReader}
use burnafter.Storage.{Payload, Storage, view, IsHonest}
use burnafter.Verify.{Machine}
use burnafter.Server.{
  Server, Call, StoreRequest, GetRequest, GetResponse, granted, denied, panicked, identify,
  update_activity, expire,
}
use burnafter.Server.Store.{prepare}
use burnafter.Server.Get.{answer_fetched}
use burnafter.Server.Access.{answer_fetched-granted}
use burnafter.Server.Sections.{
  Handler, idle, keeping, recording, reading, deleting, Entry, made, answered, set_at,
  record_metadata,
}
use burnafter.Server.Sections.Sources.{
  HasSource, IsJustified, IsMade, WasMade, IsMade-IsSource, made_for, map-Among,
}

module _ (B : Storage) (honest : IsHonest B) (P : Primitives) (sound : IsSound P) (os : Machine)
    (id : Bytes) where
  abbrev pub IsFine : List Entry → Handler → Type 0
  IsFine h idle = Unit
  IsFine h (keeping call req p) = WasMade B P sound os id h req.name p
  IsFine h (recording call req outcome) = Unit
  IsFine h (reading call req hash) = identify P os call.peer ≡ ok hash
  IsFine h (deleting name) = Unit

  -- What is in the backend, or on its way there, was made for its name.
  pub record IsTraced (h : List Entry) (s : Server B) (handlers : ℕ → Handler) : Type 0 where
    pub session : s.session_id ≡ id
    pub stored :
        (name : Bytes) (p : Payload)
        → view B s.storage name ≡ some p
        → WasMade B P sound os id h name p
    pub fine : (i : ℕ) → IsFine h (handlers i)
    pub justified : IsJustified P os h

  pub set_at-IsFine :
      (h : List Entry) (handlers : ℕ → Handler) (i : ℕ) (handler : Handler)
      → ((j : ℕ) → IsFine h (handlers j))
      → IsFine h handler
      → (j : ℕ) → IsFine h (set_at handlers i handler j)
  set_at-IsFine h handlers i handler all new j =
      if_keeps (λ (a : Handler). IsFine h a) (i == j) new (all j)

  made-IsFine :
      (h : List Entry) (call : Call) (req : StoreRequest) (p : Payload) (handler : Handler)
      → IsFine h handler
      → IsFine (made call req p ∷ h) handler
  made-IsFine h call req p idle a = tt
  made-IsFine h call req p (keeping call' req' q) a = inr a
  made-IsFine h call req p (recording call' req' outcome) a = tt
  made-IsFine h call req p (reading call' req' hash) a = a
  made-IsFine h call req p (deleting name) a = tt

  pub answered-IsFine :
      (h : List Entry) (call : Call) (req : GetRequest) (r : GetResponse) (handler : Handler)
      → IsFine h handler
      → IsFine (answered call req r ∷ h) handler
  answered-IsFine h call req r idle a = tt
  answered-IsFine h call req r (keeping call' req' q) a = a
  answered-IsFine h call req r (recording call' req' outcome) a = tt
  answered-IsFine h call req r (reading call' req' hash) a = a
  answered-IsFine h call req r (deleting name) a = tt

  -- A section that only removes from the backend.
  pub moved-IsTraced :
      {h : List Entry} {s : Server B} {handlers : ℕ → Handler} (i : ℕ) (handler : Handler)
      (t : Server B)
      → IsTraced h s handlers
      → t.session_id ≡ s.session_id
      → ((name : Bytes) (p : Payload)
          → view B t.storage name ≡ some p
          → view B s.storage name ≡ some p)
      → IsFine h handler
      → IsTraced h t (set_at handlers i handler)
  moved-IsTraced {h} {handlers} i handler t traced same fewer new = record {
    session = same ∙ traced.session;
    stored = λ name p held. traced.stored name p (fewer name p held);
    fine = set_at-IsFine h handlers i handler traced.fine new;
    justified = traced.justified;
  }

  pub keep-IsTraced :
      {h : List Entry} {s : Server B} {handlers : ℕ → Handler} (i : ℕ) (call : Call)
      (req : StoreRequest) (p : Payload)
      → IsTraced h s handlers
      → handlers i ≡ keeping call req p
      → IsTraced h
          (record s { storage = (B.store req.name p s.storage).1 })
          (set_at handlers i (recording call req (B.store req.name p s.storage).0))
  keep-IsTraced {h} {s} {handlers} i call req p traced here = record {
    session = traced.session;
    stored = λ name q held. elim (honest.store_origin req.name p s.storage name q held) [
      | inl old ↦ traced.stored name q old
      | inr (same, whole) ↦ made_for B P sound os id h same whole (rw here at (traced.fine i))
    ];
    fine =
        set_at-IsFine h handlers i (recording call req (B.store req.name p s.storage).0) traced.fine
          tt;
    justified = traced.justified;
  }

  pub store_begins-IsTraced :
      {h : List Entry} {s : Server B} {handlers : ℕ → Handler} (i : ℕ) (call : Call)
      (req : StoreRequest) (p : Payload)
      → IsTraced h s handlers
      → IsReader call.nonce_source
      → prepare B P os call req (update_activity B (call.now 0) s) ≡ ok p
      → IsTraced
          (made call req p ∷ h)
          (update_activity B (call.now 0) s)
          (set_at handlers i (keeping call req p))
  unfolding update_activity
  store_begins-IsTraced {h} {s} {handlers} i call req p traced fills by = record {
    session = traced.session;
    stored = λ name q held. inr (traced.stored name q held);
    fine =
        set_at-IsFine (made call req p ∷ h) handlers i (keeping call req p)
          (λ j. made-IsFine h call req p (handlers j) (traced.fine j))
          (inl (record {
            same_name = refl;
            same_payload = refl;
            fills = fills;
            at = update_activity B (call.now 0) s;
            session = traced.session;
            by = by;
          }));
    justified = traced.justified;
  }

  pub commit-IsTraced :
      {h : List Entry} {s : Server B} {handlers : ℕ → Handler} (i : ℕ) (call : Call)
      (req : StoreRequest) (outcome : Option Error)
      → IsTraced h s handlers
      → IsTraced h (record_metadata B P os call req outcome s) (set_at handlers i idle)
  commit-IsTraced i call req none traced =
      moved-IsTraced i idle _ traced refl (λ name p held. held) tt
  commit-IsTraced i call req (some e) traced =
      moved-IsTraced i idle _ traced refl (λ name p held. held) tt

  -- The answer to what the backend gave.
  pub answer-HasSource :
      {h : List Entry} {s : Server B} {handlers : ℕ → Handler} (call : Call) (req : GetRequest)
      (hash : Bytes) (r : GetResponse)
      → IsTraced h s handlers
      → identify P os call.peer ≡ ok hash
      → answer_fetched P hash req s.session_id (B.get req.name s.storage) ≡ r
      → HasSource P os h call req r
  answer-HasSource {h} {s} call req hash (granted secret) traced client e =
      let (p, held, opened) =
        answer_fetched-granted B P sound os hash req s.session_id (B.get req.name s.storage) secret
          e in
      map-Among (IsMade B P sound os id req.name p) _ h
        (λ store_call store_req q m.
          IsMade-IsSource B P sound os id call req hash secret p store_call store_req q client
            (rw traced.session at opened) m)
        (traced.stored req.name p held)
  answer-HasSource call req hash (denied e) traced client same = tt
  answer-HasSource call req hash panicked traced client same = tt

  pub visit-IsTraced :
      {h : List Entry} {s : Server B} {handlers : ℕ → Handler} (b : Bool) (name : Bytes)
      → IsTraced h s handlers
      → IsTraced h (if b then expire B name s else s) handlers
  unfolding expire
  visit-IsTraced {s} true name traced = record {
    session = traced.session;
    stored = λ n p held. traced.stored n p (honest.delete_origin name s.storage n p held);
    fine = traced.fine;
    justified = traced.justified;
  }
  visit-IsTraced false name traced = traced

  pub active-IsTraced :
      {h : List Entry} {s : Server B} {handlers : ℕ → Handler} (now : Time)
      → IsTraced h s handlers
      → IsTraced h (update_activity B now s) handlers
  unfolding update_activity
  active-IsTraced now traced = record {
    session = traced.session;
    stored = traced.stored;
    fine = traced.fine;
    justified = traced.justified;
  }
