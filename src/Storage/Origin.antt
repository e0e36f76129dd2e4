-- ===== src/Storage/Origin.antt =====
-- internal/secrets/keyring.go: where what the keyring backend holds comes from, also after a call that
-- failed.
use burnafter.Prelude.{◌≡◌, refl, sym, ◌∙◌, none, some, Option-cases, Bool-cases, ◌⊎◌, inl, inr}
use burnafter.Bytes.{Bytes, bytes_eq, bytes_eq_iff}
use burnafter.Storage.{IsHonest, Payload, view}
use burnafter.Storage.Keyring.{
  Kernel, Gob, unlink_found, store_encoded, store_on_thread, delete_on_thread, keyring_storage,
}
use burnafter.Storage.Kept.{
  key_data, IsKeyring, Decodes, view-data, added_key_state, unlinked_key_state, view-add_key,
}

module _ (K : Kernel) (G : Gob) (laws : IsKeyring K) where
  -- Of a name, at most its data is gone.
  abbrev Shrinks : K.State → K.State → Bytes → Type 0
  Shrinks s s' j = (key_data K s' j ≡ none) ⊎ (key_data K s' j ≡ key_data K s j)

  unlink-Shrinks :
      (id : Bytes) (s : K.State) (j : Bytes) → Shrinks s (unlink_found K G (K.search id s) s) j
  unlink-Shrinks id s j = elim (Option-cases (K.search id s)) [
    | inl absent ↦ rw (absent, unlink_found) (inr refl)
    | inr (key, present) ↦
        rw (present, unlink_found)
          (elim (Bool-cases (K.unlink key s).0) [
            | inl gone ↦ elim (Bool-cases (bytes_eq id j)) [
              | inl same ↦ inl (laws.unlinked id key s j present gone ∙ rw same)
              | inr other ↦ inr (laws.unlinked id key s j present gone ∙ rw other)
            ]
            | inr kept ↦ inr (laws.not_unlinked key s j kept)
          ])
  ]

  view_shrunk :
      (s s' : K.State) (j : Bytes) (q : Payload)
      → Shrinks s s' j
      → view (keyring_storage K G) s' j ≡ some q
      → view (keyring_storage K G) s j ≡ some q
  view_shrunk s s' j q (inl gone) held =
      absurd (cc (sym (rw (view-data K G laws s' j, gone) at held)))
  view_shrunk s s' j q (inr same) held =
      view-data K G laws s j ∙ rw (← same) (rw (view-data K G laws s' j) at held)

  store_on_thread_origin :
      (decodes : Decodes G) (id : Bytes) (p : Payload) (s : K.State) (j : Bytes) (q : Payload)
      → view (keyring_storage K G) (store_on_thread K G id p s).1 j ≡ some q
      → (view (keyring_storage K G) s j ≡ some q) ⊎ ((id ≡ j) × (p ≡ q))
  unfolding store_on_thread
  store_on_thread_origin decodes id p s j q held = elim (Option-cases (G.encode p)) [
    | inl failed ↦ inl (rw (failed, store_encoded) at held)
    | inr (b, encoded) ↦
        let s' = unlink_found K G (K.search id s) s in
        let held' =
          rw (encoded, store_encoded, added_key_state K G laws (K.add_key id b s')) at held in
        elim (Bool-cases (K.add_key id b s').0) [
          | inl accepted ↦
              let whole = view-add_key K G laws id p b s j decodes encoded accepted in
              elim (Bool-cases (bytes_eq id j)) [
                | inl same ↦ inr ((bytes_eq_iff id j).0 same, cc (sym (rw same at whole) ∙ held'))
                | inr other ↦ inl (sym (rw other at whole) ∙ held')
              ]
          | inr refused ↦ inl (
              view_shrunk s s' j q (unlink-Shrinks id s j) (
                view-data K G laws s' j
                ∙ rw (← laws.not_added id b s' j refused)
                    (rw (view-data K G laws (K.add_key id b s').1 j) at held')))
        ]
  ]

  delete_on_thread_origin :
      (id : Bytes) (s : K.State) (j : Bytes) (q : Payload)
      → view (keyring_storage K G) (delete_on_thread K G id s).1 j ≡ some q
      → view (keyring_storage K G) s j ≡ some q
  unfolding delete_on_thread
  delete_on_thread_origin id s j q held = elim (Option-cases (K.search id s)) [
    | inl absent ↦ rw (absent, delete_on_thread) at held
    | inr (key, present) ↦
        view_shrunk s (K.unlink key s).1 j q (rw (present, unlink_found) at (unlink-Shrinks id s j))
          (rw (present, delete_on_thread, unlinked_key_state K G laws (K.unlink key s)) at held)
  ]

  -- On a kernel and with a codec that keep their documentation, what the keyring backend holds after a
  -- call, failed or not, it held before or was given under that name.
  pub keyring_storage-IsHonest : Decodes G → IsHonest (keyring_storage K G)
  keyring_storage-IsHonest decodes = record {
    store_origin = store_on_thread_origin decodes;
    delete_origin = delete_on_thread_origin;
  }
