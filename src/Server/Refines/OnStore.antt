-- ===== src/Server/Refines/OnStore.antt =====
-- internal/server/store.go: `Store` keeps the promise.
use burnafter.Prelude.{◌≡◌, refl, sym, ◌∙◌, some, inl, inr, Bool-cases, Option-cases, length}
use burnafter.Bytes.{bytes_eq_refl}
use burnafter.Int.{pos, ltb_ℤ}
use burnafter.GoMap.{lookup, lookup-insert, insert-NodupKeys}
use burnafter.Crypto.{Primitives, IsSound, IsReader}
use burnafter.Result.{Error, Result, ok, err, Result-cases}
use burnafter.Storage.{Payload, Storage, IsReliable}
use burnafter.Verify.{Machine}
use burnafter.Server.{Server, Call, StoreRequest, identify, update_activity}
use burnafter.Server.Race.{finish_store_lem}
use burnafter.Server.RoundTrip.{prepare-opens, prepare_total}
use burnafter.Server.Sections.Sources.{prepare_client}
use burnafter.Server.Store.{prepare, finish_store, metadata_of, store, exceeds_limits}
use burnafter.Server.Step.{on_store}
use burnafter.Server.Spec.{
  Spec, put, of_store, MayRefuse, unknown_client, too_large, no_room, no_salt, no_nonce, Allows,
  store_fails, store_done,
}
use burnafter.Server.Refines.{active-Refines, Refines, unlisted, listed-Matches, put-Refines}

module _ (B : Storage) (reliable : IsReliable B) (P : Primitives) (sound : IsSound P)
    (os : Machine) where
  -- A request over a limit.
  over_limit :
      (call : Call) (req : StoreRequest) (s : Server B) (a : Spec) (e : Error)
      → Refines B P os s a
      → exceeds_limits s.options req s.secrets ≡ some e
      → MayRefuse P os s.options a call req
  unfolding exceeds_limits
  over_limit call req s a e r h =
      elim (Bool-cases (ltb_ℤ s.options.max_secret_size (pos (length req.secret)))) [
        | inl large ↦ too_large large
        | inr small ↦ elim (Option-cases (lookup req.name s.secrets)) [
          | inl new ↦
              no_room
                (unlisted B P os (a req.name)
                  (sym (listed-Matches B P os s req.name (a req.name) (r.matches req.name)) ∙ new))
                (record {
                  table = s.secrets;
                  distinct = r.distinct;
                  lists = λ n. listed-Matches B P os s n (a n) (r.matches n);
                  full = elim (Bool-cases (ltb_ℤ (pos (length s.secrets)) s.options.max_secrets)) [
                    | inl room ↦ absurd (cc (rw (small, new, room) at h))
                    | inr full ↦ full
                  ];
                })
          | inr (m, known) ↦ absurd (cc (rw (small, known) at h))
        ]
      ]

  -- What is not prepared may be refused.
  unprepared :
      (call : Call) (req : StoreRequest) (s : Server B) (a : Spec) (e : Error)
      → Refines B P os s a
      → IsReader call.nonce_source
      → prepare B P os call req s ≡ err e
      → MayRefuse P os s.options a call req
  unprepared call req s a e r fills h = elim (Result-cases (identify P os call.peer)) [
    | inr (why, unknown) ↦ unknown_client why unknown
    | inl (hash, client) ↦ elim (Option-cases (exceeds_limits s.options req s.secrets)) [
      | inr (why, over) ↦ over_limit call req s a why r over
      | inl room ↦ elim (Option-cases (call.salt_source 32)) [
        | inl unsalted ↦ no_salt unsalted
        | inr (salt, salted) ↦ elim (Option-cases (call.nonce_source 12)) [
          | inl unnonced ↦ no_nonce unnonced
          | inr (nonce, nonced) ↦
              let (p, made, _) =
                prepare_total B P os sound call req s hash salt nonce client room salted fills
                  nonced in
              absurd (cc (sym h ∙ made))
        ]
      ]
    ]
  ]

  store-Refines :
      (call : Call) (req : StoreRequest) (s : Server B) (a : Spec) (p : Payload)
      → Refines B P os s a
      → IsReader call.nonce_source
      → prepare B P os call req s ≡ ok p
      → Refines B P os (finish_store B P os call req (ok p) s).1 (
          put req.name
            (some (record {
              hash = p.client_binary_hash;
              nonce = req.client_nonce;
              value = req.secret;
              metadata = metadata_of s.options req (call.now 1) (call.now 2);
            }))
            a)
  store-Refines call req s a p r fills made =
      let client = prepare_client P os B call req s p made in
      let m = metadata_of s.options req (call.now 1) (call.now 2) in
      rw (finish_store_lem B reliable P os call req p s) (
        put-Refines B P os s _ a req.name _ r (insert-NodupKeys req.name m s.secrets r.distinct)
          refl (λ n other. lookup-insert req.name n m s.secrets ∙ rw other)
          (λ n other. reliable.view_store req.name p s.storage n ∙ rw other)
          (record {
            known = lookup-insert req.name req.name m s.secrets ∙ rw (bytes_eq_refl req.name);
            payload = p;
            held = reliable.view_store req.name p s.storage req.name ∙ rw (bytes_eq_refl req.name);
            owned = refl;
            opens = prepare-opens B P os sound call req s p.client_binary_hash p client fills made;
          }))

  pub on_store-Refines :
      (call : Call) (req : StoreRequest) (s : Server B) (a : Spec)
      → Refines B P os s a
      → IsReader call.nonce_source
      → (b : Spec) × Allows P os s.options a
          (on_store call req)
          (of_store (store B P os call req s).0)
          b
        × Refines B P os (store B P os call req s).1 b
        × ((store B P os call req s).1.options ≡ s.options)
  unfolding store update_activity
  on_store-Refines call req s a r fills = by_result (prepare B P os call req s') refl
    where
      s' : Server B
      s' = update_activity B (call.now 0) s

      r' : Refines B P os s' a
      r' = active-Refines B P os (call.now 0) s a r

      by_result :
          (o : Result Payload)
          → prepare B P os call req s' ≡ o
          → (b : Spec) × Allows P os s.options a
              (on_store call req)
              (of_store (finish_store B P os call req o s').0)
              b
            × Refines B P os (finish_store B P os call req o s').1 b
            × ((finish_store B P os call req o s').1.options ≡ s.options)
      by_result (err e) refused =
          (a, store_fails call req e (unprepared call req s' a e r' fills refused), r', refl)
      by_result (ok p) made = (
        _,
        rw (finish_store_lem B reliable P os call req p s')
            (store_done call req p.client_binary_hash (prepare_client P os B call req s' p made)),
        store-Refines call req s' a p r' fills made,
        rw (finish_store_lem B reliable P os call req p s'),
      )
