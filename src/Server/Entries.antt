-- ===== src/Server/Entries.antt =====
-- internal/server: what holds of each entry of the map of secrets, from its `Store` on.
use burnafter.Server.Quiet.Keeps.{tick-Keeps}
use burnafter.Server.{
  is_inactive, is_past_deadline, Options, Server, Call, StoreRequest, GetRequest, GetResponse,
  update_activity, expire, ping,
}
use burnafter.Prelude.{
  Option-cases, if_keeps, ◌≡◌, sym, ◌∙◌, Option, none, some, Bool-cases, inl, inr,
}
use burnafter.Bytes.{Bytes, bytes_eq, bytes_eq_iff}
use burnafter.Storage.{Payload, Metadata, Storage}
use burnafter.GoMap.{NodupKeys, insert, GoMap, lookup, lookup-insert, lookup-erase}
use burnafter.Clock.{Time}
use burnafter.Crypto.{Primitives}
use burnafter.Result.{Error, Result, ok, err}
use burnafter.Verify.{Machine}
use burnafter.Server.Store.{metadata_of, commit, finish_store, store}
use burnafter.Server.Get.{get, get_known, get_verified, touch}
use burnafter.Server.Step.{Event, on_store, on_get, on_ping, on_tick, step}
use burnafter.Server.Swept.{cleanup-IsSwept}

module _ (B : Storage) (options : Options) (Q : Bytes → Metadata → Type 0)
    (new : (req : StoreRequest) (base now : Time) → Q req.name (metadata_of options req base now))
    (again : (n : Bytes) (m : Metadata) (now : Time)
      → Q n m
      → Q n (record m { last_accessed = now })) where
  -- The server has the options, and what each name has in the map is as said.
  pub record AllAre (s : Server B) : Type 0 where
    pub same : s.options ≡ options
    pub each : (n : Bytes) (m : Metadata) → lookup n s.secrets ≡ some m → Q n m

  expire-AllAre : (name : Bytes) (s : Server B) → AllAre s → AllAre (expire B name s)
  unfolding expire
  expire-AllAre name s a = record {
    same = a.same;
    each = λ n m known.
        let whole = sym (lookup-erase name n s.secrets) ∙ known in
        elim (Bool-cases (bytes_eq name n)) [
          | inl same ↦ absurd (cc (rw same at whole))
          | inr other ↦ a.each n m (rw other at whole)
        ];
  }

  each_at : {name n : Bytes} {m k : Metadata} → some m ≡ some k → name ≡ n → Q name m → Q n k
  each_at {m} {k} same here fits = let it : m ≡ k = cc in rw (← it, ← here) fits

  -- A new entry.
  insert-each :
      (name : Bytes) (m : Metadata) (secrets : GoMap Metadata)
      → Q name m
      → ((n : Bytes) (k : Metadata) → lookup n secrets ≡ some k → Q n k)
      → (n : Bytes) (k : Metadata) → lookup n (insert name m secrets) ≡ some k
      → Q n k
  insert-each name m secrets fits old n k known =
      let whole = sym (lookup-insert name n m secrets) ∙ known in
      elim (Bool-cases (bytes_eq name n)) [
        | inl same ↦ each_at (rw same at whole) ((bytes_eq_iff name n).0 same) fits
        | inr other ↦ old n k (rw other at whole)
      ]

  commit-AllAre :
      (name : Bytes) (m : Metadata) (r : Option Error × B.State) (s : Server B)
      → Q name m
      → AllAre s
      → AllAre (commit B name m r s).1
  commit-AllAre name m (some e, storage) s fits a = record { same = a.same; each = a.each }
  commit-AllAre name m (none, storage) s fits a = record {
    same = a.same;
    each = insert-each name m s.secrets fits a.each;
  }

  active-AllAre : (now : Time) (s : Server B) → AllAre s → AllAre (update_activity B now s)
  unfolding update_activity
  active-AllAre now s a = record { same = a.same; each = a.each }

  module _ (P : Primitives) (os : Machine) where
    finish_store-AllAre :
        (call : Call) (req : StoreRequest) (r : Result Payload) (s : Server B)
        → AllAre s
        → AllAre (finish_store B P os call req r s).1
    finish_store-AllAre call req (err e) s a = a
    finish_store-AllAre call req (ok p) s a =
        commit-AllAre req.name _ (B.store req.name p s.storage) s
          (rw (← a.same) at (new req (call.now 1) (call.now 2))) a

    get_known-AllAre :
        (call : Call) (req : GetRequest) (hash : Bytes) (m : Metadata) (s : Server B)
        → lookup req.name s.secrets ≡ some m
        → AllAre s
        → AllAre (get_known B P os call req hash m s).1
    unfolding get_known touch
    get_known-AllAre call req hash m s known a =
        let ended = expire-AllAre req.name s a in
        if_keeps (λ (r : GetResponse × Server B). AllAre r.1) (is_inactive m (call.now 2)) ended
          (if_keeps (λ (r : GetResponse × Server B). AllAre r.1) (is_past_deadline m (call.now 1))
            ended
            (record {
              same = a.same;
              each =
                  insert-each req.name (record m { last_accessed = call.now 3 }) s.secrets
                    (again req.name m (call.now 3) (a.each req.name m known)) a.each;
            }))

    get_verified-AllAre :
        (call : Call) (req : GetRequest) (r : Result Bytes) (s : Server B)
        → AllAre s
        → AllAre (get_verified B P os call req r s).1
    get_verified-AllAre call req (err e) s a = a
    get_verified-AllAre call req (ok hash) s a = elim (Option-cases (lookup req.name s.secrets)) [
      | inl absent ↦ rw (get_verified, absent) a
      | inr (m, known) ↦ rw (get_verified, known) (get_known-AllAre call req hash m s known a)
    ]

    pub step-AllAre :
        (e : Event) (s : Server B) → NodupKeys s.secrets → AllAre s → AllAre (step B P os e s)
    unfolding step store get ping
    step-AllAre (on_store call req) s u a =
        finish_store-AllAre call req _ _ (active-AllAre (call.now 0) s a)
    step-AllAre (on_get call req) s u a =
        get_verified-AllAre call req _ _ (active-AllAre (call.now 0) s a)
    step-AllAre (on_ping now) s u a = active-AllAre now s a
    step-AllAre (on_tick now since_at) s u a = record {
      same = (cleanup-IsSwept B now since_at s u).options ∙ a.same;
      each = λ n m known. a.each n m (tick-Keeps B now since_at s u n m known);
    }
