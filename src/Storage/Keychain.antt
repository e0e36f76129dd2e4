-- ===== src/Storage/Keychain.antt =====
-- internal/secrets/keychain.go: the backend in the macOS keychain. The keychain is a parameter: its
-- generic passwords under the service of the program, by account.
use burnafter.Prelude.{Bool, true, false, Option, none, some, List, [], ◌∷◌}
use burnafter.Bytes.{Bytes}
use burnafter.Result.{Error, errorf, Result, err}
use burnafter.Storage.{Payload, Fetched, found, failed, Storage}
use burnafter.Storage.Keyring.{Gob}

-- How `DeleteItem` comes out.
pub data Status : Type 0 where
  done not_found refused : Status

-- `QueryItem` with a limit of one
pub data Matches : Type 0 where
  no_match query_failed : Matches
  results : List Bytes → Matches

pub record Keychain : Type 1 where
  pub State : Type 0
  pub query : Bytes → State → Matches
  pub add_item : Bytes → Bytes → State → Bool × State
  pub delete_item : Bytes → State → Status × State

module _ (K : Keychain) (G : Gob) where
  abbrev pub decode_payload : Option Payload → Fetched
  decode_payload none = failed (errorf "decoding secret payload")
  decode_payload (some payload) = found payload

  abbrev pub first_result : Matches → Fetched
  first_result no_match = failed (errorf "secret not found in keychain")
  first_result query_failed = failed (errorf "failed to query keychain")
  first_result (results []) = failed (errorf "secret not found in keychain")
  first_result (results (item ∷ items)) = decode_payload (G.decode item)

  unfoldable pub get : Bytes → K.State → Fetched
  get id s = first_result (K.query id s)

  -- That there is no such item is not an error.
  abbrev pub deleted_item : Status × K.State → Option Error × K.State
  deleted_item (done, s) = (none, s)
  deleted_item (not_found, s) = (none, s)
  deleted_item (refused, s) = (some (errorf "failed to delete item from keychain"), s)

  unfoldable pub delete : Bytes → K.State → Option Error × K.State
  delete id s = deleted_item (K.delete_item id s)

  abbrev pub added_item : Bool × K.State → Option Error × K.State
  added_item (true, s) = (none, s)
  added_item (false, s) = (some (errorf "failed to add item to keychain"), s)

  -- The error of the deletion is ignored.
  abbrev pub store_item : Bytes → Option Bytes → K.State → Option Error × K.State
  store_item id none s = (some (errorf "failed to encode the secret payload"), s)
  store_item id (some buf) s = added_item (K.add_item id buf (delete id s).1)

  unfoldable pub store : Bytes → Payload → K.State → Option Error × K.State
  store id secret s = store_item id (G.encode secret) s

  abbrev pub keychain_storage : Storage
  keychain_storage = record { State = K.State; store = store; get = get; delete = delete }

-- keychain_other.go
abbrev pub no_keychain_storage : (K : Keychain) → Result K.State
no_keychain_storage K = err (errorf "keychain storage is only supported on macOS")
