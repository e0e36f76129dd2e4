-- ===== src/Storage/Items.antt =====
-- internal/secrets/keychain.go: the keychain backend and the interface.
use burnafter.Prelude.{
  ◌≡◌, refl, ◌∙◌, ap, sym, Bool, true, false, Option, none, some, [], ◌∷◌, if◌then◌else◌,
  Option-cases, Bool-cases, inl, inr, ◌⊎◌, arith,
}
use burnafter.Bytes.{Bytes, bytes_eq, bytes_eq_refl}
use burnafter.Storage.{Payload, view, IsFaithful, payload_of}
use burnafter.Storage.Keyring.{Gob}
use burnafter.Storage.Kept.{Decodes}
use burnafter.Storage.Keychain
use burnafter.Storage.Keychain.{
  Keychain, Status, done, not_found, refused, Matches, no_match, query_failed, results,
  first_result, decode_payload, deleted_item, added_item, store_item, keychain_storage,
}

abbrev pub first_item : Matches → Option Bytes
first_item no_match = none
first_item query_failed = none
first_item (results []) = none
first_item (results (item ∷ items)) = some item

-- What `Security` documents of generic passwords: one item of an account, which deletion removes, and
-- calls that fail change nothing.
pub record IsKeychain (K : Keychain) : Type 0 where
  pub added :
      (a b : Bytes) (s : K.State) (j : Bytes)
      → (K.add_item a b s).0 ≡ true
      → first_item (K.query j (K.add_item a b s).1)
        ≡ (if bytes_eq a j then some b else first_item (K.query j s))
  pub not_added :
      (a b : Bytes) (s : K.State) (j : Bytes)
      → (K.add_item a b s).0 ≡ false
      → first_item (K.query j (K.add_item a b s).1) ≡ first_item (K.query j s)
  pub deleted :
      (a : Bytes) (s : K.State) (j : Bytes)
      → (K.delete_item a s).0 ≡ done
      → first_item (K.query j (K.delete_item a s).1)
        ≡ (if bytes_eq a j then none else first_item (K.query j s))
  pub not_deleted :
      (a : Bytes) (s : K.State) (j : Bytes)
      → (K.delete_item a s).0 ≡ refused
      → first_item (K.query j (K.delete_item a s).1) ≡ first_item (K.query j s)
  pub absent :
      (a : Bytes) (s : K.State) (j : Bytes)
      → (K.delete_item a s).0 ≡ not_found
      → (first_item (K.query j (K.delete_item a s).1) ≡ first_item (K.query j s))
        × (first_item (K.query a s) ≡ none)

Status-cases : (r : Status) → (r ≡ done) ⊎ ((r ≡ not_found) ⊎ (r ≡ refused))
Status-cases done = inl refl
Status-cases not_found = inr (inl refl)
Status-cases refused = inr (inr refl)

module _ (K : Keychain) (G : Gob) (laws : IsKeychain K) where
  abbrev decode_item : Option Bytes → Option Payload
  decode_item none = none
  decode_item (some b) = G.decode b

  view_query : (m : Matches) → payload_of (first_result K G m) ≡ decode_item (first_item m)
  view_query no_match = refl
  view_query query_failed = refl
  view_query (results []) = refl
  view_query (results (item ∷ items)) = ground arith

  view-item :
      (s : K.State) (j : Bytes)
      → view (keychain_storage K G) s j ≡ decode_item (first_item (K.query j s))
  unfolding Keychain.get
  view-item s j = view_query (K.query j s)

  item-delete :
      (a : Bytes) (s : K.State) (j : Bytes)
      → bytes_eq a j ≡ false
      → first_item (K.query j (Keychain.delete K G a s).1) ≡ first_item (K.query j s)
  unfolding Keychain.delete
  item-delete a s j other = elim (Status-cases (K.delete_item a s).0) [
    | inl e ↦ rw (e, deleted_item) (laws.deleted a s j e ∙ rw other)
    | inr (inl e) ↦ rw (e, deleted_item) (laws.absent a s j e).0
    | inr (inr e) ↦ rw (e, deleted_item) (laws.not_deleted a s j e)
  ]

  added_item_state : (r : Bool × K.State) → (added_item K G r).1 ≡ r.1
  added_item_state (true, s) = refl
  added_item_state (false, s) = refl

  added_item_done : (r : Bool × K.State) → (added_item K G r).0 ≡ none → r.0 ≡ true
  added_item_done (true, s) h = refl
  added_item_done (false, s) h = cc

  view-stored :
      (id : Bytes) (p : Payload) (s : K.State)
      → Decodes G
      → (Keychain.store K G id p s).0 ≡ none
      → view (keychain_storage K G) (Keychain.store K G id p s).1 id ≡ some p
  unfolding Keychain.store
  view-stored id p s decodes h = elim (Option-cases (G.encode p)) [
    | inl failed ↦ absurd (cc (rw (failed, store_item) at h))
    | inr (b, encoded) ↦
        let r = K.add_item id b (Keychain.delete K G id s).1 in
        let accepted : r.0 ≡ true = added_item_done r (rw (encoded, store_item) at h) in
        rw (encoded, store_item, added_item_state r)
          (view-item r.1 id
            ∙ ap decode_item (laws.added id b (Keychain.delete K G id s).1 id accepted)
            ∙ rw (bytes_eq_refl id) (decodes p b encoded))
  ]

  view-store_spares :
      (id : Bytes) (p : Payload) (s : K.State) (j : Bytes)
      → bytes_eq id j ≡ false
      → view (keychain_storage K G) (Keychain.store K G id p s).1 j
        ≡ view (keychain_storage K G) s j
  unfolding Keychain.store
  view-store_spares id p s j other = elim (Option-cases (G.encode p)) [
    | inl failed ↦ rw (failed, store_item)
    | inr (b, encoded) ↦
        let s' = (Keychain.delete K G id s).1 in
        let kept : first_item (K.query j (K.add_item id b s').1) ≡ first_item (K.query j s') =
          elim (Bool-cases (K.add_item id b s').0) [
            | inl accepted ↦ laws.added id b s' j accepted ∙ rw other
            | inr declined ↦ laws.not_added id b s' j declined
          ] in
        rw (encoded, store_item, added_item_state (K.add_item id b s'))
          (view-item (K.add_item id b s').1 j
            ∙ ap decode_item (kept ∙ item-delete id s j other)
            ∙ sym (view-item s j))
  ]

  view-deleted :
      (id : Bytes) (s : K.State)
      → (Keychain.delete K G id s).0 ≡ none
      → view (keychain_storage K G) (Keychain.delete K G id s).1 id ≡ none
  unfolding Keychain.delete
  view-deleted id s h = elim (Status-cases (K.delete_item id s).0) [
    | inl e ↦
        let gone : first_item (K.query id (K.delete_item id s).1) ≡ none =
          laws.deleted id s id e ∙ rw (bytes_eq_refl id) in
        rw (e, deleted_item) (view-item (K.delete_item id s).1 id ∙ ap decode_item gone)
    | inr (inl e) ↦
        let (same, empty) = laws.absent id s id e in
        rw (e, deleted_item) (view-item (K.delete_item id s).1 id ∙ ap decode_item (same ∙ empty))
    | inr (inr e) ↦ absurd (cc (rw (e, deleted_item) at h))
  ]

  -- On a keychain and with a codec that keep their documentation, the keychain backend keeps the
  -- storage interface: a `Store` that succeeds is found under its name, a `Delete` that succeeds
  -- leaves nothing there, and neither, failed or not, touches another name.
  pub keychain_storage-IsFaithful : Decodes G → IsFaithful (keychain_storage K G)
  keychain_storage-IsFaithful decodes = record {
    stored = λ id p s h. view-stored id p s decodes h;
    deleted = view-deleted;
    store_spares = view-store_spares;
    delete_spares = λ id s j other.
        view-item (Keychain.delete K G id s).1 j
        ∙ ap decode_item (item-delete id s j other)
        ∙ sym (view-item s j);
  }
