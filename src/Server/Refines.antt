-- ===== src/Server/Refines.antt =====
-- internal/server: the daemon with a reliable backend keeps its promise.
pub mod OnStore
pub mod OnGet
pub mod Promise
use burnafter.Prelude.{
  ◌≡◌, ◌≢◌, refl, sym, ◌∙◌, ap, Bool, true, false, ◌||◌, Option, none, some, List, [], ◌∷◌, ◌⊎◌,
  inl, inr, Bool-cases, Option-cases, if_cases, if◌then◌else◌,
}
use burnafter.Bytes.{Bytes, bytes_eq, bytes_eq_iff, bytes_eq_refl}
use burnafter.Clock.{Time}
use burnafter.GoMap.{GoMap, lookup, NodupKeys}
use burnafter.Crypto.{Primitives, IsSound}
use burnafter.Result.{Error, errorf, Result, ok, err}
use burnafter.Storage.{Payload, Metadata, Storage, view, IsReliable}
use burnafter.Verify.{Machine}
use burnafter.Server.{update_activity, Server, Call, StoreRequest, GetRequest, identify}
use burnafter.Server.Get.{open_payload}
use burnafter.Server.Spec.{Secret, Spec, put, accessed, swept, survivor, listed, is_over}

module _ (B : Storage) (P : Primitives) (os : Machine) where
  -- The server has the secret: its metadata, and a payload of its binary that opens, with its nonce, to
  -- its value.
  pub record IsHeld (s : Server B) (name : Bytes) (x : Secret) : Type 0 where
    pub known : lookup name s.secrets ≡ some x.metadata
    pub payload : Payload
    pub held : view B s.storage name ≡ some payload
    pub owned : payload.client_binary_hash ≡ x.hash
    pub opens :
        open_payload P x.hash (record { name = name; client_nonce = x.nonce }) s.session_id payload
        ≡ ok x.value

  abbrev pub Matches : Server B → Bytes → Option Secret → Type 0
  Matches s name none = lookup name s.secrets ≡ none
  Matches s name (some x) = IsHeld s name x

  pub record Refines (s : Server B) (a : Spec) : Type 0 where
    pub distinct : NodupKeys s.secrets
    pub matches : (name : Bytes) → Matches s name (a name)

  pub listed-Matches :
      (s : Server B) (name : Bytes) (o : Option Secret)
      → Matches s name o
      → lookup name s.secrets ≡ listed o
  listed-Matches s name none h = h
  listed-Matches s name (some x) h = h.known

  pub unlisted : (o : Option Secret) → listed o ≡ none → o ≡ none
  unlisted none h = refl
  unlisted (some x) h = cc

  -- A change elsewhere.
  pub Matches_elsewhere :
      (s t : Server B) (name : Bytes) (o : Option Secret)
      → lookup name t.secrets ≡ lookup name s.secrets
      → view B t.storage name ≡ view B s.storage name
      → t.session_id ≡ s.session_id
      → Matches s name o
      → Matches t name o
  Matches_elsewhere s t name none same_known same_view session h = same_known ∙ h
  Matches_elsewhere s t name (some x) same_known same_view session h = record {
    known = same_known ∙ h.known;
    payload = h.payload;
    held = same_view ∙ h.held;
    owned = h.owned;
    opens = rw session h.opens;
  }

  -- A change of one name.
  pub put-Refines :
      (s t : Server B) (a : Spec) (name : Bytes) (o : Option Secret)
      → Refines s a
      → NodupKeys t.secrets
      → t.session_id ≡ s.session_id
      → ((n : Bytes) → bytes_eq name n ≡ false → lookup n t.secrets ≡ lookup n s.secrets)
      → ((n : Bytes) → bytes_eq name n ≡ false → view B t.storage n ≡ view B s.storage n)
      → Matches t name o
      → Refines t (put name o a)
  put-Refines s t a name o r unique session same_known same_view new = record {
    distinct = unique;
    matches = λ n.
        if_cases (λ (x : Option Secret). Matches t n x) (bytes_eq name n)
          (λ same. rw (← (bytes_eq_iff name n).0 same) new)
          (λ other.
            Matches_elsewhere s t n (a n) (same_known n other) (same_view n other) session
              (r.matches n));
  }

  pub active-Refines :
      (now : Time) (s : Server B) (a : Spec) → Refines s a → Refines (update_activity B now s) a
  unfolding update_activity
  active-Refines now s a r = record {
    distinct = r.distinct;
    matches =
        λ n. Matches_elsewhere s (update_activity B now s) n (a n) refl refl refl (r.matches n);
  }
