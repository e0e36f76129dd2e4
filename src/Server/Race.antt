-- ===== src/Server/Race.antt =====
-- Two `Store` requests at once. `Store` reads the number of secrets in one locked section and writes its
-- entry in a later one: `prepare` is the part up to the backend, and `finish_store` the rest, on the
-- state as it is by then.
use burnafter.Prelude.{◌≡◌, refl, false, none, suc, length, arith}
use burnafter.Bytes.{bytes_eq, Bytes}
use burnafter.Int.{ℤ, pos, ◌≤ℤ◌}
use burnafter.GoMap.{lookup, insert, length-insert, lookup-insert, GoMap}
use burnafter.Result.{ok}
use burnafter.Crypto.{Primitives}
use burnafter.Storage.{Payload, Storage, IsReliable}
use burnafter.Verify.{Machine}
use burnafter.Server.{Server, Call, StoreRequest, stored, Metadata}
use burnafter.Server.Store.{prepare, finish_store, commit, metadata_of}
use burnafter.Server.Bounds.{IsBounded}

too_many :
    (name name' : Bytes) (m m' : Metadata) (secrets : GoMap Metadata) (max : ℤ)
    → lookup name secrets ≡ none
    → lookup name' secrets ≡ none
    → bytes_eq name name' ≡ false
    → max ≡ pos (suc (length secrets))
    → pos (length (insert name' m' (insert name m secrets))) ≤ℤ max
    → ⊥
too_many name name' m m' secrets max new new' differ room fits =
    let grown : length (insert name' m' (insert name m secrets)) ≡ suc (suc (length secrets)) = rw (
      length-insert name' m' (insert name m secrets),
      lookup-insert name name' m secrets,
      differ,
      new',
      length-insert name m secrets,
      new,
    ) in
    omega (arith, rw (grown, room) at fits)

module _ (B : Storage) (reliable : IsReliable B) (P : Primitives) (os : Machine) where
  pub finish_store_lem :
      (call : Call) (req : StoreRequest) (p : Payload) (s : Server B)
      → finish_store B P os call req (ok p) s ≡ (
        stored,
        record s {
          storage = (B.store req.name p s.storage).1;
          secrets = insert req.name (metadata_of s.options req (call.now 1) (call.now 2)) s.secrets;
        },
      )
  finish_store_lem call req p s = rw (finish_store, reliable.store_ok req.name p s.storage, commit)

  -- With a reliable backend and room for one more secret, two requests for two new names that are
  -- both prepared before either is finished are both answered with success, and the server is then
  -- past its bound.
  pub two_stores_exceed :
      (call call' : Call) (req req' : StoreRequest) (p p' : Payload) (s : Server B)
      → prepare B P os call req s ≡ ok p
      → prepare B P os call' req' s ≡ ok p'
      → lookup req.name s.secrets ≡ none
      → lookup req'.name s.secrets ≡ none
      → bytes_eq req.name req'.name ≡ false
      → s.options.max_secrets ≡ pos (suc (length s.secrets))
      → let first = finish_store B P os call req (prepare B P os call req s) s in
        let second = finish_store B P os call' req' (prepare B P os call' req' s) first.1 in
        (first.0 ≡ stored) × (second.0 ≡ stored) × ¬ (IsBounded B second.1)
  two_stores_exceed call call' req req' p p' s e e' new new' differ room =
      rw
        (
          e,
          e',
          finish_store_lem call req p s,
          reliable.store_ok req'.name p' (B.store req.name p s.storage).1,
          commit,
        )
        (
          refl,
          refl,
          λ h. absurd (
              too_many req.name req'.name _ _ s.secrets s.options.max_secrets new new' differ room
                h.count),
        )
