-- ===== src/Storage/Kept.antt =====
-- internal/secrets/keyring.go: what the keyring backend keeps and loses.
use burnafter.Prelude.{
  ℕ, ◌≡◌, refl, sym, ◌∙◌, ap, Bool, true, false, Option, none, some, if◌then◌else◌, arith,
  Option-cases, Bool-cases, inl, inr,
}
use burnafter.Bytes.{Bytes, bytes_eq, bytes_eq_refl, bytes_eq_iff}
use burnafter.Result.{errorf}
use burnafter.Storage.{IsFaithful, Payload, view}
use burnafter.Storage.Keyring.{
  Kernel, Gob, get_on_thread, unlink_found, added_key, store_encoded, store_on_thread, unlinked_key,
  delete_on_thread, keyring_storage,
}

-- The data of the key with a description.
abbrev pub key_data : (K : Kernel) → K.State → Bytes → Option Bytes
key_data K s d = elim (K.search d s) [
  | none ↦ none
  | some key ↦ elim (K.size key s) [ none ↦ none | some size ↦ K.read key size s ]
]

-- What add_key(2) and keyctl(2) document: a keyring has one key of a description, adding replaces its
-- data, unlinking removes it, and a call that fails changes nothing.
pub record IsKeyring (K : Kernel) : Type 0 where
  pub added :
      (d b : Bytes) (s : K.State) (j : Bytes)
      → (K.add_key d b s).0 ≡ true
      → key_data K (K.add_key d b s).1 j ≡ (if bytes_eq d j then some b else key_data K s j)
  pub not_added :
      (d b : Bytes) (s : K.State) (j : Bytes)
      → (K.add_key d b s).0 ≡ false
      → key_data K (K.add_key d b s).1 j ≡ key_data K s j
  pub unlinked :
      (d : Bytes) (key : ℕ) (s : K.State) (j : Bytes)
      → K.search d s ≡ some key
      → (K.unlink key s).0 ≡ true
      → key_data K (K.unlink key s).1 j ≡ (if bytes_eq d j then none else key_data K s j)
  pub not_unlinked :
      (key : ℕ) (s : K.State) (j : Bytes)
      → (K.unlink key s).0 ≡ false
      → key_data K (K.unlink key s).1 j ≡ key_data K s j

abbrev pub Decodes : Gob → Type 0
Decodes G = (p : Payload) (b : Bytes) → G.encode p ≡ some b → G.decode b ≡ some p

module _ (K : Kernel) (G : Gob) (laws : IsKeyring K) where
  abbrev decode_data : Option Bytes → Option Payload
  decode_data none = none
  decode_data (some b) = G.decode b

  pub view-data :
      (s : K.State) (j : Bytes) → view (keyring_storage K G) s j ≡ decode_data (key_data K s j)
  unfolding get_on_thread
  view-data s j = ground arith

  -- Other keys than the one looked for are not touched.
  data-unlink_found :
      (id : Bytes) (s : K.State) (j : Bytes)
      → bytes_eq id j ≡ false
      → key_data K (unlink_found K G (K.search id s) s) j ≡ key_data K s j
  data-unlink_found id s j other = elim (Option-cases (K.search id s)) [
    | inl absent ↦ rw (absent, unlink_found)
    | inr (key, present) ↦
        rw (present, unlink_found)
          (elim (Bool-cases (K.unlink key s).0) [
            | inl gone ↦ laws.unlinked id key s j present gone ∙ rw other
            | inr kept ↦ laws.not_unlinked key s j kept
          ])
  ]

  pub added_key_state : (r : Bool × K.State) → (added_key K G r).1 ≡ r.1
  added_key_state (true, s) = refl
  added_key_state (false, s) = refl

  added_key_done : (r : Bool × K.State) → (added_key K G r).0 ≡ none → r.0 ≡ true
  added_key_done (true, s) done = refl
  added_key_done (false, s) done = cc

  added_key_refused :
      (r : Bool × K.State)
      → r.0 ≡ false
      → (added_key K G r).0 ≡ some (errorf "adding key to keyring")
  added_key_refused (true, s) refused = cc
  added_key_refused (false, s) refused = refl

  pub unlinked_key_state : (r : Bool × K.State) → (unlinked_key K G r).1 ≡ r.1
  unlinked_key_state (true, s) = refl
  unlinked_key_state (false, s) = refl

  unlinked_key_done : (r : Bool × K.State) → (unlinked_key K G r).0 ≡ none → r.0 ≡ true
  unlinked_key_done (true, s) done = refl
  unlinked_key_done (false, s) done = cc

  -- Adding a key after the old one is unlinked, or kept.
  pub view-add_key :
      (id : Bytes) (p : Payload) (b : Bytes) (s : K.State) (j : Bytes)
      → Decodes G
      → G.encode p ≡ some b
      → let s' = unlink_found K G (K.search id s) s in
        (K.add_key id b s').0 ≡ true
        → view (keyring_storage K G) (K.add_key id b s').1 j
          ≡ (if bytes_eq id j then some p else view (keyring_storage K G) s j)
  view-add_key id p b s j decodes encoded accepted =
      let s' = unlink_found K G (K.search id s) s in
      view-data (K.add_key id b s').1 j
      ∙ ap decode_data (laws.added id b s' j accepted)
      ∙ elim (Bool-cases (bytes_eq id j)) [
        | inl same ↦ rw same (decodes p b encoded)
        | inr other ↦
            rw other (ap decode_data (data-unlink_found id s j other) ∙ sym (view-data s j))
      ]

  -- On a kernel that keeps its documentation, with a codec that decodes what it encoded, a `Store`
  -- that succeeds puts the payload under its name, whether there was one or not, and changes no
  -- other.
  view-store_on_thread :
      (id : Bytes) (p : Payload) (s : K.State) (j : Bytes)
      → Decodes G
      → (store_on_thread K G id p s).0 ≡ none
      → view (keyring_storage K G) (store_on_thread K G id p s).1 j
        ≡ (if bytes_eq id j then some p else view (keyring_storage K G) s j)
  unfolding store_on_thread
  view-store_on_thread id p s j decodes done = elim (Option-cases (G.encode p)) [
    | inl failed ↦ absurd (cc (rw (failed, store_encoded) at done))
    | inr (b, encoded) ↦
        let r = K.add_key id b (unlink_found K G (K.search id s) s) in
        let accepted : r.0 ≡ true = added_key_done r (rw (encoded, store_encoded) at done) in
        rw (encoded, store_encoded, added_key_state r)
          (view-add_key id p b s j decodes encoded accepted)
  ]

  view_absent :
      (id : Bytes) (s : K.State) → K.search id s ≡ none → view (keyring_storage K G) s id ≡ none
  view_absent id s absent = view-data s id ∙ rw (absent, key_data)

  decode_if :
      (b : Bool) (o : Option Bytes)
      → decode_data (if b then none else o) ≡ (if b then none else decode_data o)
  decode_if true o = refl
  decode_if false o = refl

  -- On a kernel that keeps its documentation, a `Delete` that succeeds leaves nothing under the
  -- name, and changes no other.
  view-delete_on_thread :
      (id : Bytes) (s : K.State) (j : Bytes)
      → (delete_on_thread K G id s).0 ≡ none
      → view (keyring_storage K G) (delete_on_thread K G id s).1 j
        ≡ (if bytes_eq id j then none else view (keyring_storage K G) s j)
  unfolding delete_on_thread
  view-delete_on_thread id s j done = elim (Option-cases (K.search id s)) [
    | inl absent ↦
        rw (absent, delete_on_thread)
          (elim (Bool-cases (bytes_eq id j)) [
            | inl same ↦ rw same (rw (← (bytes_eq_iff id j).0 same) (view_absent id s absent))
            | inr other ↦ rw other
          ])
    | inr (key, present) ↦
        let r = K.unlink key s in
        let gone : r.0 ≡ true = unlinked_key_done r (rw (present, delete_on_thread) at done) in
        rw (present, delete_on_thread, unlinked_key_state r)
          (view-data r.1 j
            ∙ ap decode_data (laws.unlinked id key s j present gone)
            ∙ decode_if (bytes_eq id j) (key_data K s j)
            ∙ rw (view-data s j))
  ]

  data-add_key :
      (id b : Bytes) (s : K.State) (j : Bytes)
      → bytes_eq id j ≡ false
      → key_data K (K.add_key id b s).1 j ≡ key_data K s j
  data-add_key id b s j other = elim (Bool-cases (K.add_key id b s).0) [
    | inl accepted ↦ laws.added id b s j accepted ∙ rw other
    | inr refused ↦ laws.not_added id b s j refused
  ]

  view_of_data :
      (s s' : K.State) (j : Bytes)
      → key_data K s j ≡ key_data K s' j
      → view (keyring_storage K G) s j ≡ view (keyring_storage K G) s' j
  view_of_data s s' j same = view-data s j ∙ ap decode_data same ∙ sym (view-data s' j)

  store_on_thread-spares :
      (id : Bytes) (p : Payload) (s : K.State) (j : Bytes)
      → bytes_eq id j ≡ false
      → view (keyring_storage K G) (store_on_thread K G id p s).1 j ≡ view (keyring_storage K G) s j
  unfolding store_on_thread
  store_on_thread-spares id p s j other = elim (Option-cases (G.encode p)) [
    | inl failed ↦ rw (failed, store_encoded)
    | inr (b, encoded) ↦
        let s' = unlink_found K G (K.search id s) s in
        rw (encoded, store_encoded, added_key_state (K.add_key id b s'))
          (view_of_data (K.add_key id b s').1 s j
            (data-add_key id b s' j other ∙ data-unlink_found id s j other))
  ]

  delete_on_thread-spares :
      (id : Bytes) (s : K.State) (j : Bytes)
      → bytes_eq id j ≡ false
      → view (keyring_storage K G) (delete_on_thread K G id s).1 j ≡ view (keyring_storage K G) s j
  unfolding delete_on_thread
  delete_on_thread-spares id s j other = elim (Option-cases (K.search id s)) [
    | inl absent ↦ rw (absent, delete_on_thread)
    | inr (key, present) ↦
        rw (present, delete_on_thread, unlinked_key_state (K.unlink key s))
          (view_of_data (K.unlink key s).1 s j
            (sym (rw (present, unlink_found) at (sym (data-unlink_found id s j other)))))
  ]

  -- On a kernel and with a codec that keep their documentation, the keyring backend keeps the
  -- storage interface: a `Store` that succeeds is found under its name, a `Delete` that succeeds
  -- leaves nothing there, and neither, failed or not, touches another name.
  pub keyring_storage-IsFaithful : Decodes G → IsFaithful (keyring_storage K G)
  keyring_storage-IsFaithful decodes = record {
    stored = λ id p s done. view-store_on_thread id p s id decodes done ∙ rw (bytes_eq_refl id);
    deleted = λ id s done. view-delete_on_thread id s id done ∙ rw (bytes_eq_refl id);
    store_spares = store_on_thread-spares;
    delete_spares = delete_on_thread-spares;
  }

  -- On a kernel that keeps its documentation, a `Store` over an old payload, whose key can be
  -- unlinked, fails if the new one cannot be added, and the old payload is lost.
  pub store_on_thread_lost :
      (id : Bytes) (p : Payload) (s : K.State) (key : ℕ) (b : Bytes)
      → G.encode p ≡ some b
      → K.search id s ≡ some key
      → (K.unlink key s).0 ≡ true
      → (K.add_key id b (K.unlink key s).1).0 ≡ false
      → ((store_on_thread K G id p s).0 ≡ some (errorf "adding key to keyring"))
        × (view (keyring_storage K G) (store_on_thread K G id p s).1 id ≡ none)
  unfolding store_on_thread
  store_on_thread_lost id p s key b encoded present gone refused =
      let r = K.add_key id b (K.unlink key s).1 in
      let empty : key_data K r.1 id ≡ none =
        laws.not_added id b (K.unlink key s).1 id refused
        ∙ laws.unlinked id key s id present gone
        ∙ rw (bytes_eq_refl id) in
      rw (encoded, store_encoded, present, unlink_found, added_key_state r)
        (added_key_refused r refused, view-data r.1 id ∙ rw empty)
