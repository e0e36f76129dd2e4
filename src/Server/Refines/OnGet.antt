-- ===== src/Server/Refines/OnGet.antt =====
-- internal/server/get.go: `Get` keeps the promise.
use burnafter.Prelude.{
  ◌≡◌, refl, sym, ◌∙◌, ap, true, false, Option, none, some, inl, inr, Bool-cases, if_cases,
}
use burnafter.Bytes.{Bytes, bytes_eq, bytes_eq_iff, bytes_eq_refl}
use burnafter.Clock.{Time}
use burnafter.GoMap.{lookup-insert, insert-NodupKeys, lookup-erase, erase-NodupKeys}
use burnafter.Crypto.{Primitives}
use burnafter.Result.{Error, Result, ok, err}
use burnafter.Storage.{Storage, IsReliable, found}
use burnafter.Verify.{Machine}
use burnafter.Server.{
  Server, Call, GetRequest, GetResponse, denied, identify, update_activity, expire, is_inactive,
  is_past_deadline,
}
use burnafter.Server.Get.{get, get_verified, get_known, touch, answer_fetched, open_payload}
use burnafter.Server.RoundTrip.{found_of_payload}
use burnafter.Server.Step.{on_get}
use burnafter.Server.Spec.{
  Secret, Spec, put, accessed, is_over, of_get, Allows, get_unidentified, get_unknown, get_over,
  get_foreign, get_own, get_other_nonce,
}
use burnafter.Server.Refines.{active-Refines, IsHeld, Matches, Refines, put-Refines}

module _ (B : Storage) (reliable : IsReliable B) (P : Primitives) (os : Machine) where
  expire-Refines :
      (name : Bytes) (s : Server B) (a : Spec)
      → Refines B P os s a
      → Refines B P os (expire B name s) (put name none a)
  unfolding expire
  expire-Refines name s a r =
      put-Refines B P os s _ a name none r (erase-NodupKeys name s.secrets r.distinct) refl
        (λ n other. lookup-erase name n s.secrets ∙ rw other)
        (λ n other. reliable.view_delete name s.storage n ∙ rw other)
        (lookup-erase name name s.secrets ∙ rw (bytes_eq_refl name))

  touch-Refines :
      (name : Bytes) (x : Secret) (now : Time) (s : Server B) (a : Spec)
      → Refines B P os s a
      → IsHeld B P os s name x
      → Refines B P os (touch B name x.metadata now s) (put name (some (accessed x now)) a)
  unfolding touch
  touch-Refines name x now s a r h =
      let m = record x.metadata { last_accessed = now } in
      put-Refines B P os s _ a name (some (accessed x now)) r
        (insert-NodupKeys name m s.secrets r.distinct) refl
        (λ n other. lookup-insert name n m s.secrets ∙ rw other) (λ n other. refl)
        (record {
          known = lookup-insert name name m s.secrets ∙ rw (bytes_eq_refl name);
          payload = h.payload;
          held = h.held;
          owned = h.owned;
          opens = h.opens;
        })

  opens_for :
      (hash : Bytes) (req : GetRequest) (s : Server B) (x : Secret) (h : IsHeld B P os s req.name x)
      → x.hash ≡ hash
      → req.client_nonce ≡ x.nonce
      → open_payload P hash req s.session_id h.payload ≡ ok x.value
  opens_for hash req s x h own nonce =
      let same : open_payload P hash req s.session_id h.payload
          ≡ open_payload P x.hash (record { name = req.name; client_nonce = x.nonce }) s.session_id
              h.payload =
        cc in
      same ∙ h.opens

  -- The answer, with the state after it, is allowed.
  abbrev IsAllowed : Call → GetRequest → Server B → Spec → GetResponse × Server B → Type 0
  IsAllowed call req s a r =
      (b : Spec) × Allows P os s.options a (on_get call req) (of_get r.0) b
      × Refines B P os r.1 b
      × (r.1.options ≡ s.options)

  module _ (call : Call) (req : GetRequest) (s : Server B) (a : Spec) (r : Refines B P os s a)
      (hash : Bytes) (client : identify P os call.peer ≡ ok hash) (x : Secret)
      (there : a req.name ≡ some x) (h : IsHeld B P os s req.name x) where
    get_over-IsAllowed :
        (e : Error)
        → is_over x.metadata (call.now 2) (call.now 1) ≡ true
        → IsAllowed call req s a (denied e, expire B req.name s)
    unfolding expire
    get_over-IsAllowed e over =
        (_, get_over call req hash x e client there over, expire-Refines req.name s a r, refl)

    get_active-IsAllowed :
        is_over x.metadata (call.now 2) (call.now 1) ≡ false
        → IsAllowed call req s a (
          answer_fetched P hash req s.session_id (found h.payload),
          touch B req.name x.metadata (call.now 3) s,
        )
    unfolding touch open_payload
    get_active-IsAllowed active =
        let touched = touch-Refines req.name x (call.now 3) s a r h in
        elim (Bool-cases (bytes_eq x.hash hash)) [
          | inr differ ↦ (
            _,
            rw (h.owned, differ) (get_foreign call req hash x client there active differ),
            touched,
            refl,
          )
          | inl same ↦
              let own : x.hash ≡ hash = (bytes_eq_iff x.hash hash).0 same in
              elim (Bool-cases (bytes_eq req.client_nonce x.nonce)) [
                | inr other ↦ (
                  _,
                  get_other_nonce call req x _ (client ∙ ap ok (sym own)) there active other,
                  touched,
                  refl,
                )
                | inl agree ↦
                    let nonce : req.client_nonce ≡ x.nonce =
                      (bytes_eq_iff req.client_nonce x.nonce).0 agree in
                    (
                      _,
                      rw (opens_for hash req s x h own nonce)
                          (get_own call req x (client ∙ ap ok (sym own)) there active nonce),
                      touched,
                      refl,
                    )
              ]
        ]

    get_known-IsAllowed : IsAllowed call req s a (get_known B P os call req hash x.metadata s)
    unfolding get_known
    get_known-IsAllowed =
        if_cases (λ (o : GetResponse × Server B). IsAllowed call req s a o)
          (is_inactive x.metadata (call.now 2)) (λ idle. get_over-IsAllowed _ (rw idle))
          (λ busy.
            if_cases (λ (o : GetResponse × Server B). IsAllowed call req s a o)
              (is_past_deadline x.metadata (call.now 1))
              (λ late. get_over-IsAllowed _ (rw (busy, late)))
              (λ early.
                rw (found_of_payload (B.get req.name s.storage) h.payload h.held)
                  (get_active-IsAllowed (rw (busy, early)))))

  pub on_get-Refines :
      (call : Call) (req : GetRequest) (s : Server B) (a : Spec)
      → Refines B P os s a
      → IsAllowed call req s a (get B P os call req s)
  unfolding get update_activity
  on_get-Refines call req s a r = by_client (identify P os call.peer) refl
    where
      s' : Server B
      s' = update_activity B (call.now 0) s

      r' : Refines B P os s' a
      r' = active-Refines B P os (call.now 0) s a r

      by_name :
          (hash : Bytes)
          → identify P os call.peer ≡ ok hash
          → (o : Option Secret) → a req.name ≡ o
          → Matches B P os s' req.name o
          → IsAllowed call req s a (get_verified B P os call req (ok hash) s')
      by_name hash client none absent unknown =
          rw (get_verified, unknown) (a, get_unknown call req hash client absent, r', refl)
      by_name hash client (some x) there h =
          rw (get_verified, h.known) (get_known-IsAllowed call req s' a r' hash client x there h)

      by_client :
          (o : Result Bytes)
          → identify P os call.peer ≡ o
          → IsAllowed call req s a (get_verified B P os call req o s')
      by_client (err e) unknown = (a, get_unidentified call req e unknown, r', refl)
      by_client (ok hash) client = by_name hash client (a req.name) refl (r'.matches req.name)
