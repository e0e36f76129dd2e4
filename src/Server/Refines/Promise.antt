-- ===== src/Server/Refines/Promise.antt =====
-- internal/server: a tick keeps the promise, and with it any sequence of events.
use burnafter.Prelude.{
  ◌≡◌, refl, sym, ◌∙◌, ap, Option, none, some, List, [], ◌∷◌, if◌then◌else◌, if_cases,
}
use burnafter.Bytes.{Bytes}
use burnafter.Clock.{Time}
use burnafter.GoMap.{GoMap, NodupKeys, lookup}
use burnafter.Storage.{Metadata, Storage, view, IsReliable}
use burnafter.Crypto.{Primitives, IsSound}
use burnafter.Verify.{Machine}
use burnafter.Server.{Options, Server, update_activity, ping}
use burnafter.Server.Cleanup.{cleanup}
use burnafter.Server.Sweep.{is_due, cleanup_exact, view-cleanup, session-sweep}
use burnafter.Server.Swept.{cleanup-IsSwept}
use burnafter.Server.Step.{AllFill, FillsBuffers, Event, on_store, on_get, on_ping, on_tick, step}
use burnafter.Server.Spec.{
  Secret, Spec, swept, survivor, listed, is_over, Reply, of_tick, Allows, pinged, ticked, AllowsAll,
  nothing, one_more, reply, replies,
}
use burnafter.Server.Refines.{
  Matches, Refines, listed-Matches, unlisted, Matches_elsewhere, active-Refines,
}
use burnafter.Server.Refines.OnStore.{on_store-Refines}
use burnafter.Server.Refines.OnGet.{on_get-Refines}

empty_distinct : (secrets : GoMap Metadata) → secrets ≡ [] → NodupKeys secrets
empty_distinct secrets e = rw e tt

module _ (B : Storage) (reliable : IsReliable B) (P : Primitives) (sound : IsSound P)
    (os : Machine) where
  module _ (now : Time) (since_at : Bytes → Time) where
    -- What a tick leaves under a name.
    survivor-Matches :
        (s t : Server B) (n : Bytes) (o : Option Secret)
        → Matches B P os s n o
        → t.session_id ≡ s.session_id
        → (lookup n t.secrets
            ≡ (if is_due now since_at n (lookup n s.secrets) then none else lookup n s.secrets))
        → (view B t.storage n
            ≡ (if is_due now since_at n (lookup n s.secrets) then none else view B s.storage n))
        → Matches B P os t n (survivor now since_at n o)
    survivor-Matches s t n none h session same_known same_view = same_known ∙ rw h
    survivor-Matches s t n (some x) h session same_known same_view =
        if_cases (λ (o : Option Secret). Matches B P os t n o) (is_over x.metadata (since_at n) now)
          (λ over. same_known ∙ rw (h.known, over))
          (λ active.
            Matches_elsewhere B P os s t n (some x)
              ((rw (h.known, active) at same_known) ∙ sym h.known)
              (rw (h.known, active) at same_view) session h)

  session-cleanup :
      (now : Time) (since_at : Bytes → Time) (s : Server B)
      → (cleanup B now since_at s).1.session_id ≡ s.session_id
  unfolding cleanup
  session-cleanup now since_at s = session-sweep B now since_at s.secrets s

  on_tick-Refines :
      (now : Time) (since_at : Bytes → Time) (s : Server B) (a : Spec)
      → Refines B P os s a
      → Allows P os s.options a
          (on_tick now since_at)
          (of_tick (cleanup B now since_at s).0)
          (swept now since_at a)
        × Refines B P os (cleanup B now since_at s).1 (swept now since_at a)
  on_tick-Refines now since_at s a r =
      let exact = cleanup_exact B now since_at s r.distinct in
      let t = (cleanup B now since_at s).1 in
      let after : (n : Bytes) → Matches B P os t n (swept now since_at a n) = λ n.
        survivor-Matches now since_at s t n (a n) (r.matches n) (session-cleanup now since_at s)
          (exact.0 n) (view-cleanup B now since_at reliable s n r.distinct) in
      (
        ticked now since_at _ (
          λ stop n.
              unlisted B P os _ (sym (listed-Matches B P os t n _ (after n)) ∙ exact.1.0 stop n),
          λ gone. exact.1.1 (λ n. listed-Matches B P os t n _ (after n) ∙ ap listed (gone n)),
        ),
        record {
          distinct = (cleanup-IsSwept B now since_at s r.distinct).distinct;
          matches = after;
        },
      )

  -- One event.
  step-Refines :
      (e : Event) (s : Server B) (a : Spec)
      → FillsBuffers e
      → Refines B P os s a
      → (b : Spec) × Allows P os s.options a e (reply B P os e s) b
        × Refines B P os (step B P os e s) b
        × ((step B P os e s).options ≡ s.options)
  unfolding step reply ping update_activity
  step-Refines (on_store call req) s a fills r =
      on_store-Refines B reliable P sound os call req s a r fills
  step-Refines (on_get call req) s a fills r = on_get-Refines B reliable P os call req s a r
  step-Refines (on_ping now) s a fills r = (a, pinged now, active-Refines B P os now s a r, refl)
  step-Refines (on_tick now since_at) s a fills r =
      let (allowed, refines) = on_tick-Refines now since_at s a r in
      (_, allowed, refines, (cleanup-IsSwept B now since_at s r.distinct).options)

  with_options :
      (o o' : Options) (a b : Spec) (e : Event) (r : Reply)
      → o ≡ o'
      → Allows P os o a e r b
      → Allows P os o' a e r b
  with_options o o' a b e r same allowed = rw same at allowed

  replies-AllowsAll :
      (options : Options) (es : List Event) (s : Server B) (a : Spec)
      → s.options ≡ options
      → AllFill es
      → Refines B P os s a
      → AllowsAll P os options a es (replies B P os es s)
  unfolding replies
  replies-AllowsAll options [] s a same fills r = nothing a
  replies-AllowsAll options (e ∷ es) s a same (fill, fills) r =
      let (b, allowed, refines, kept) = step-Refines e s a fill r in
      one_more (with_options s.options options a b e (reply B P os e s) same allowed)
        (replies-AllowsAll options es (step B P os e s) b (kept ∙ same) fills refines)

  -- With sound primitives, a reliable backend and random sources that fill their buffers: a server
  -- that starts with no secret answers any sequence of stores, gets, pings and ticks as the promise
  -- `Allows` says, which keeps for each name the stored value, the hash of the storing binary, its
  -- nonce and its times. A `Get` by that binary with that nonce is granted the value, by another
  -- binary it is denied, a secret that has expired is gone; a `Store` fails only for one of the
  -- reasons in `MayRefuse`, and then changes nothing; a tick asks for a shutdown exactly if nothing
  -- is left.
  pub replies_allowed :
      (es : List Event) (s : Server B)
      → AllFill es
      → s.secrets ≡ []
      → AllowsAll P os s.options (λ n. none) es (replies B P os es s)
  unfolding lookup
  replies_allowed es s fills empty =
      replies-AllowsAll s.options es s (λ n. none) refl fills
        (record { distinct = empty_distinct s.secrets empty; matches = λ n. ap (lookup n) empty })
