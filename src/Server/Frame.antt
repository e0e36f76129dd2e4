-- ===== src/Server/Frame.antt =====
-- What the server holds under one name, and the events for others.
use burnafter.Prelude.{◌≡◌, ◌∙◌, false, Option-cases, inl, inr, if_keeps}
use burnafter.Bytes.{Bytes, bytes_eq}
use burnafter.GoMap.{lookup, lookup-insert, lookup-erase}
use burnafter.Clock.{Time}
use burnafter.Crypto.{Primitives}
use burnafter.Result.{Result, ok, err}
use burnafter.Storage.{Payload, Metadata, Storage, IsFaithful}
use burnafter.Verify.{Machine}
use burnafter.Server.{
  Server, Call, StoreRequest, GetRequest, GetResponse, identify, update_activity, is_inactive,
  is_past_deadline, expire, ping,
}
use burnafter.Server.Store.{prepare, commit, finish_store, store}
use burnafter.Server.Get.{touch, get_known, get_verified, get}
use burnafter.Server.Cleanup.{cleanup}
use burnafter.Server.Step.{Event, on_store, on_get, on_ping, on_tick, step}
use burnafter.Server.Bounds.{IsBounded, step-IsBounded}
use burnafter.Server.RoundTrip.{Holds}
use burnafter.Server.Sweep.{is_expired, cleanup_exact, view-cleanup_spares, session-sweep}

-- Events that leave a secret alone: requests for other names, pings, and ticks before it expires.
abbrev pub SparesName : Bytes → Metadata → Event → Type 0
SparesName name m (on_store call req) = bytes_eq req.name name ≡ false
SparesName name m (on_get call req) = bytes_eq req.name name ≡ false
SparesName name m (on_ping now) = Unit
SparesName name m (on_tick now since_at) = is_expired m (since_at name) now ≡ false

-- The states that such events lead to.
pub data Spared (B : Storage) (P : Primitives) (os : Machine) (name : Bytes) (m : Metadata)
    (s : Server B) : Server B → Type 0 where
  done : Spared B P os name m s s
  after :
      {t : Server B}
      → Spared B P os name m s t
      → (e : Event) → SparesName name m e
      → Spared B P os name m s (step B P os e t)

module _ (B : Storage) (faithful : IsFaithful B) (name : Bytes) (m : Metadata) (p : Payload) where
  -- The secret is held, in a given session.
  pub record HoldsIn (id : Bytes) (s : Server B) : Type 0 where
    pub holds : Holds B s name m p
    pub session : s.session_id ≡ id

  module _ (id : Bytes) where
    expire-HoldsIn :
        (other : Bytes) (s : Server B)
        → bytes_eq other name ≡ false
        → HoldsIn id s
        → HoldsIn id (expire B other s)
    unfolding expire
    expire-HoldsIn other s ne h = record {
      holds = record {
        known = rw (lookup-erase other name s.secrets, ne) h.holds.known;
        held = faithful.delete_spares other s.storage name ne ∙ h.holds.held;
      };
      session = h.session;
    }

    touch-HoldsIn :
        (other : Bytes) (m' : Metadata) (now : Time) (s : Server B)
        → bytes_eq other name ≡ false
        → HoldsIn id s
        → HoldsIn id (touch B other m' now s)
    unfolding touch
    touch-HoldsIn other m' now s ne h = record {
      holds = record {
        known = rw (lookup-insert other name _ s.secrets, ne) h.holds.known;
        held = h.holds.held;
      };
      session = h.session;
    }

    commit-HoldsIn :
        (other : Bytes) (m' : Metadata) (q : Payload) (s : Server B)
        → bytes_eq other name ≡ false
        → HoldsIn id s
        → HoldsIn id (commit B other m' (B.store other q s.storage) s).1
    commit-HoldsIn other m' q s ne h =
        let held = faithful.store_spares other q s.storage name ne ∙ h.holds.held in
        elim (Option-cases (B.store other q s.storage).0) [
          | inl accepted ↦
              rw (accepted, commit)
                (record {
                  holds = record {
                    known = rw (lookup-insert other name m' s.secrets, ne) h.holds.known;
                    held = held;
                  };
                  session = h.session;
                })
          | inr (e, refused) ↦
              rw (refused, commit)
                (record {
                  holds = record { known = h.holds.known; held = held };
                  session = h.session;
                })
        ]

    module _ (P : Primitives) (os : Machine) where
      finish_store-HoldsIn :
          (call : Call) (req : StoreRequest) (r : Result Payload) (s : Server B)
          → bytes_eq req.name name ≡ false
          → HoldsIn id s
          → HoldsIn id (finish_store B P os call req r s).1
      finish_store-HoldsIn call req (err e) s ne h = h
      finish_store-HoldsIn call req (ok q) s ne h = commit-HoldsIn req.name _ q s ne h

      get_known-HoldsIn :
          (call : Call) (req : GetRequest) (hash : Bytes) (m' : Metadata) (s : Server B)
          → bytes_eq req.name name ≡ false
          → HoldsIn id s
          → HoldsIn id (get_known B P os call req hash m' s).1
      unfolding get_known
      get_known-HoldsIn call req hash m' s ne h =
          if_keeps (λ (r : GetResponse × Server B). HoldsIn id r.1) (is_inactive m' (call.now 2))
            (expire-HoldsIn req.name s ne h)
            (if_keeps (λ (r : GetResponse × Server B). HoldsIn id r.1)
              (is_past_deadline m' (call.now 1)) (expire-HoldsIn req.name s ne h)
              (touch-HoldsIn req.name m' (call.now 3) s ne h))

      get_verified-HoldsIn :
          (call : Call) (req : GetRequest) (r : Result Bytes) (s : Server B)
          → bytes_eq req.name name ≡ false
          → HoldsIn id s
          → HoldsIn id (get_verified B P os call req r s).1
      get_verified-HoldsIn call req (err e) s ne h = h
      get_verified-HoldsIn call req (ok hash) s ne h =
          elim (Option-cases (lookup req.name s.secrets)) [
            | inl missing ↦ rw (missing, get_verified) h
            | inr (m', there) ↦ rw (there, get_verified) (get_known-HoldsIn call req hash m' s ne h)
          ]

      active-HoldsIn :
          (now : Time) (s : Server B) → HoldsIn id s → HoldsIn id (update_activity B now s)
      unfolding update_activity
      active-HoldsIn now s h = record {
        holds = record { known = h.holds.known; held = h.holds.held };
        session = h.session;
      }

      step-HoldsIn :
          (e : Event) (s : Server B)
          → IsBounded B s
          → SparesName name m e
          → HoldsIn id s
          → HoldsIn id (step B P os e s)
      unfolding step store get ping
      step-HoldsIn (on_store call req) s b ne h =
          finish_store-HoldsIn call req (prepare B P os call req (update_activity B (call.now 0) s))
            (update_activity B (call.now 0) s) ne (active-HoldsIn (call.now 0) s h)
      step-HoldsIn (on_get call req) s b ne h =
          get_verified-HoldsIn call req (identify P os call.peer) (update_activity B (call.now 0) s)
            ne (active-HoldsIn (call.now 0) s h)
      step-HoldsIn (on_ping now) s b spared h = active-HoldsIn now s h
      step-HoldsIn (on_tick now since_at) s b spared h = record {
        holds = record {
          known = (cleanup_exact B now since_at s b.nodup).0 name ∙ rw (h.holds.known, spared);
          held =
              view-cleanup_spares B faithful now since_at s name b.nodup (rw (h.holds.known) spared)
              ∙ h.holds.held;
        };
        session = unfold cleanup in session-sweep B now since_at s.secrets s ∙ h.session;
      }

      pub Spared-HoldsIn :
          {s t : Server B}
          → IsBounded B s
          → HoldsIn id s
          → Spared B P os name m s t
          → HoldsIn id t × IsBounded B t
      Spared-HoldsIn b h done = (h, b)
      Spared-HoldsIn b h (after {t = t} r e spared) =
          let (ht, bt) = Spared-HoldsIn b h r in
          (step-HoldsIn e t bt spared ht, step-IsBounded B P os e t bt)
