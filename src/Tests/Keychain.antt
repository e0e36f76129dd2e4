-- ===== src/Tests/Keychain.antt =====
-- The keychain backend on a keychain that is a map.
use burnafter.Prelude.{
  ◌≡◌, refl, sym, Bool, true, false, Option, none, some, [], ◌∷◌, if◌then◌else◌,
}
use burnafter.Bytes.{Bytes, bytes_eq}
use burnafter.GoMap.{GoMap, lookup, insert, erase, lookup-insert, lookup-erase}
use burnafter.Storage.{IsFaithful}
use burnafter.Storage.Keychain.{
  Keychain, Status, done, not_found, refused, Matches, no_match, results, keychain_storage,
}
use burnafter.Storage.Items.{IsKeychain, first_item, keychain_storage-IsFaithful}
use burnafter.Tests.Keyring.{gob, gob-Decodes}

abbrev Items : Type 0
Items = GoMap Bytes

abbrev matching : Option Bytes → Matches
matching none = no_match
matching (some b) = results (b ∷ [])

-- An account that is there is a duplicate.
abbrev adding : Option Bytes → Bytes → Bytes → Items → Bool × Items
adding none a b s = (true, insert a b s)
adding (some c) a b s = (false, s)

abbrev deleting : Option Bytes → Bytes → Items → Status × Items
deleting none a s = (not_found, s)
deleting (some c) a s = (done, erase a s)

abbrev keychain : Keychain
keychain = record {
  State = Items;
  query = λ j s. matching (lookup j s);
  add_item = λ a b s. adding (lookup a s) a b s;
  delete_item = λ a s. deleting (lookup a s) a s;
}

first_item-matching : (o : Option Bytes) → first_item (matching o) ≡ o
first_item-matching none = refl
first_item-matching (some b) = refl

adding_done :
    (o : Option Bytes) (a b : Bytes) (s : Items) (j : Bytes)
    → (adding o a b s).0 ≡ true
    → lookup j (adding o a b s).1 ≡ (if bytes_eq a j then some b else lookup j s)
adding_done none a b s j h = lookup-insert a j b s
adding_done (some c) a b s j h = cc

adding_failed :
    (o : Option Bytes) (a b : Bytes) (s : Items) (j : Bytes)
    → (adding o a b s).0 ≡ false
    → lookup j (adding o a b s).1 ≡ lookup j s
adding_failed none a b s j h = cc
adding_failed (some c) a b s j h = refl

deleting_done :
    (o : Option Bytes) (a : Bytes) (s : Items) (j : Bytes)
    → (deleting o a s).0 ≡ done
    → lookup j (deleting o a s).1 ≡ (if bytes_eq a j then none else lookup j s)
deleting_done none a s j h = cc
deleting_done (some c) a s j h = lookup-erase a j s

deleting_failed :
    (o : Option Bytes) (a : Bytes) (s : Items) (j : Bytes)
    → (deleting o a s).0 ≡ refused
    → lookup j (deleting o a s).1 ≡ lookup j s
deleting_failed none a s j h = cc
deleting_failed (some c) a s j h = cc

deleting_absent :
    (o : Option Bytes) (a : Bytes) (s : Items) (j : Bytes)
    → o ≡ lookup a s
    → (deleting o a s).0 ≡ not_found
    → (lookup j (deleting o a s).1 ≡ lookup j s) × (lookup a s ≡ none)
deleting_absent none a s j e h = (refl, sym e)
deleting_absent (some c) a s j e h = cc

keychain-IsKeychain : IsKeychain keychain
keychain-IsKeychain = record {
  added = λ a b s j h.
      rw (first_item-matching, first_item-matching) (adding_done (lookup a s) a b s j h);
  not_added = λ a b s j h.
      rw (first_item-matching, first_item-matching) (adding_failed (lookup a s) a b s j h);
  deleted =
      λ a s j h. rw (first_item-matching, first_item-matching) (deleting_done (lookup a s) a s j h);
  not_deleted = λ a s j h.
      rw (first_item-matching, first_item-matching) (deleting_failed (lookup a s) a s j h);
  absent = λ a s j h.
      rw (first_item-matching, first_item-matching, first_item-matching)
        (deleting_absent (lookup a s) a s j refl h);
}

keychain_storage-IsFaithful_example : IsFaithful (keychain_storage keychain gob)
keychain_storage-IsFaithful_example =
    keychain_storage-IsFaithful keychain gob keychain-IsKeychain gob-Decodes
