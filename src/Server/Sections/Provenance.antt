-- ===== src/Server/Sections/Provenance.antt =====
-- internal/server/store.go and get.go: where a secret that a `Get` returns comes from, whatever requests
-- and ticks run at the same time, section by section.
use burnafter.Prelude.{◌≡◌, refl, sym, ◌∙◌, none, List}
use burnafter.Bytes.{Bytes}
use burnafter.Crypto.{Primitives, IsSound}
use burnafter.Storage.{Storage, view, IsHonest}
use burnafter.Verify.{Machine}
use burnafter.Server.{Server, update_activity}
use burnafter.Server.Get.{answer_fetched, touch}
use burnafter.Server.Sections.{
  idle, reading, deleting, Entry, System, Reach, start, store_refused, store_begins, keeps, records,
  get_unidentified, get_unknown, get_expires, deletes, get_touches, reads, pings, sweep_begins,
  sweep_visits, sweep_ends,
}
use burnafter.Server.Sections.Sources.{IsJustified}
use burnafter.Server.Sections.Traced.{
  IsTraced, moved-IsTraced, keep-IsTraced, store_begins-IsTraced, commit-IsTraced, answer-HasSource,
  visit-IsTraced, active-IsTraced, set_at-IsFine, answered-IsFine,
}
use burnafter.Server.Sections.{begin}

module _ (B : Storage) (honest : IsHonest B) (P : Primitives) (sound : IsSound P) (os : Machine)
    (id : Bytes) where
  Reach-IsTraced :
      (s : Server B)
      → s.session_id ≡ id
      → ((name : Bytes) → view B s.storage name ≡ none)
      → {h : List Entry} {y : System B} → Reach B P os (begin B s) h y
      → IsTraced B honest P sound os id h y.server y.handlers
  unfolding update_activity touch
  Reach-IsTraced s session empty start = record {
    session = session;
    stored = λ name p held. absurd (cc (sym (empty name) ∙ held));
    fine = λ i. tt;
    justified = tt;
  }
  Reach-IsTraced s session empty (store_refused call req e reached refused) =
      active-IsTraced B honest P sound os id (call.now 0) (Reach-IsTraced s session empty reached)
  Reach-IsTraced s session empty (store_begins i call req p reached free unlocked fills by) =
      store_begins-IsTraced B honest P sound os id i call req p
        (Reach-IsTraced s session empty reached) fills by
  Reach-IsTraced s session empty (keeps i call req p reached here) =
      keep-IsTraced B honest P sound os id i call req p (Reach-IsTraced s session empty reached)
        here
  Reach-IsTraced s session empty (records i call req outcome reached here unlocked) =
      commit-IsTraced B honest P sound os id i call req outcome
        (Reach-IsTraced s session empty reached)
  Reach-IsTraced s session empty (get_unidentified call e reached refused) =
      active-IsTraced B honest P sound os id (call.now 0) (Reach-IsTraced s session empty reached)
  Reach-IsTraced s session empty (get_unknown call req hash reached unlocked client missing) =
      active-IsTraced B honest P sound os id (call.now 0) (Reach-IsTraced s session empty reached)
  Reach-IsTraced s session empty
        (get_expires i call req hash m reached free unlocked client known late) =
      moved-IsTraced B honest P sound os id i (deleting req.name) _
        (Reach-IsTraced s session empty reached) refl (λ name p held. held) tt
  Reach-IsTraced s session empty (deletes {y} i name reached here) =
      moved-IsTraced B honest P sound os id i idle _ (Reach-IsTraced s session empty reached) refl
        (λ n p held. honest.delete_origin name y.server.storage n p held) tt
  Reach-IsTraced s session empty
        (get_touches i call req hash m reached free unlocked client known early) =
      moved-IsTraced B honest P sound os id i (reading call req hash) _
        (Reach-IsTraced s session empty reached) refl (λ name p held. held) client
  Reach-IsTraced s session empty (reads {h} {y} i call req hash reached here) =
      let traced = Reach-IsTraced s session empty reached in
      let told = answer_fetched P hash req y.server.session_id (B.get req.name y.server.storage) in
      record {
        session = traced.session;
        stored = traced.stored;
        fine = λ j.
            answered-IsFine B honest P sound os id h call req told _
              (set_at-IsFine B honest P sound os id h y.handlers i idle traced.fine tt j);
        justified = (
          answer-HasSource B honest P sound os id call req hash told traced
              (rw here at (traced.fine i)) refl,
          traced.justified,
        );
      }
  Reach-IsTraced s session empty (pings now reached) =
      active-IsTraced B honest P sound os id now (Reach-IsTraced s session empty reached)
  Reach-IsTraced s session empty (sweep_begins now reached unlocked) =
      let traced = Reach-IsTraced s session empty reached in
      record {
        session = traced.session;
        stored = traced.stored;
        fine = traced.fine;
        justified = traced.justified;
      }
  Reach-IsTraced s session empty (sweep_visits now since_now name m rest reached at) =
      visit-IsTraced B honest P sound os id _ name (Reach-IsTraced s session empty reached)
  Reach-IsTraced s session empty (sweep_ends now reached at) =
      Reach-IsTraced s session empty reached

-- With sound primitives and a backend that makes nothing up, from a server whose backend is empty:
-- whatever requests and ticks run at the same time, section by section and in any order, each `Get`
-- that was granted a secret has before it a `Store` of the same name by a process whose binary has
-- the same hash, and the secret is the one of that `Store` unless the nonces of the two requests
-- differ.
pub get_provenance :
    (B : Storage) (honest : IsHonest B) (P : Primitives) (sound : IsSound P) (os : Machine)
    (s : Server B)
    → ((name : Bytes) → view B s.storage name ≡ none)
    → {h : List Entry} {y : System B} → Reach B P os (begin B s) h y
    → IsJustified P os h
get_provenance B honest P sound os s empty reached =
    (Reach-IsTraced B honest P sound os s.session_id s refl empty reached).justified
