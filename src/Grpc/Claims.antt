-- ===== src/Grpc/Claims.antt =====
-- Concurrent calls of `execute` in grpc_server.rs, as steps of the sections that hold the lock of the
-- request cache: between them any other call may take its own.
use apprtc.Prelude.{
  ℕ, ◌+◌, ◌-◌, ◌<◌, ◌≤◌, ◌≡◌, refl, some, none, ite, List, [], ◌∷◌, Result, ok, err, arith,
  Option-cases, inl, inr, ◌⊎◌, sym, subst, ◌∙◌, some_inj, ap,
}
use apprtc.Prelude.HashMap
use apprtc.Prelude.HashMap.{get-insert, get-insert_self, get-insert_ne, get-remove}
use apprtc.Grpc.Operations.{AuthorityResult, GrpcStatus}
use apprtc.Grpc.RequestCache.{
  RequestKey, RequestKey-discrete, RequestCache, InFlightRequest, Entered, replayed, refused,
  waiting, claimed, enter, finish, empty_cache,
}
use apprtc.Grpc.RequestCache.Bounded.{IsCache, finish-IsCache}
pub mod Abandoned

-- The cache, and how many calls under a key are past the loop of `execute` and have not yet come to
-- its end: each of them sends one command to the authority.
pub record Server : Type 0 where
  pub cache : RequestCache
  pub running : RequestKey → ℕ

unfoldable pub started : RequestKey → ℕ → Server → Server
unfolding enter
started key fingerprint s = elim (enter key fingerprint s.cache) [
  | claimed c ↦ record {
    cache = c;
    running = λ k. ite (RequestKey-discrete key k) (s.running k + 1) (s.running k);
  }
  | _ ↦ s
]

unfoldable pub stopped : RequestKey → Server → RequestKey → ℕ
stopped key s k = ite (RequestKey-discrete key k) (s.running k - 1) (s.running k)

-- `attempt`: a call takes the lock in the loop. `complete`: a call that runs comes to its end.
-- `cancel`: the future of a call that runs is dropped, for which the code does nothing.
pub data Step (capacity : ℕ) (s : Server) : Server → Type 0 where
  attempt : (key : RequestKey) (fingerprint : ℕ) → Step capacity s (started key fingerprint s)
  complete :
      (key : RequestKey) (fingerprint : ℕ) (outcome : Result AuthorityResult GrpcStatus)
      (c : RequestCache)
      → 0 < s.running key
      → finish capacity key fingerprint outcome s.cache ≡ some c
      → Step capacity s (record { cache = c; running = stopped key s })
  cancel :
      (key : RequestKey)
      → 0 < s.running key
      → Step capacity s (record { cache = s.cache; running = stopped key s })

pub data Steps (capacity : ℕ) (s : Server) : Server → Type 0 where
  none_yet : Steps capacity s s
  then_one : {t u : Server} → Steps capacity s t → Step capacity t u → Steps capacity s u

unfoldable pub started_server : Server
started_server = record { cache = empty_cache; running = λ _. 0 }

-- How many calls under a key the cache knows to run.
unfoldable pub known : RequestCache → RequestKey → ℕ
unfolding HashMap.get
known c k = elim (HashMap.get RequestKey-discrete c.in_flight k) [ none ↦ 0 | some _ ↦ 1 ]

pub record IsServer (capacity : ℕ) (s : Server) : Type 0 where
  pub cache : IsCache capacity s.cache
  pub at_most : (k : RequestKey) → s.running k ≤ known s.cache k

-- The server after a call has claimed its key.
unfoldable pub begun : RequestKey → ℕ → Server → Server
unfolding HashMap.insert
begun key fingerprint s = record {
  cache = record s.cache {
    in_flight =
        HashMap.insert RequestKey-discrete s.cache.in_flight key
          (record { operation_fingerprint = fingerprint });
  };
  running = λ k. ite (RequestKey-discrete key k) (s.running k + 1) (s.running k);
}

-- An attempt changes nothing, or it claims a key that is neither cached nor in flight.
pub started-cases :
    (key : RequestKey) (fingerprint : ℕ) (s : Server)
    → (started key fingerprint s ≡ s)
      ⊎ ((HashMap.get RequestKey-discrete s.cache.entries key ≡ none)
          × (HashMap.get RequestKey-discrete s.cache.in_flight key ≡ none)
          × (started key fingerprint s ≡ begun key fingerprint s))
unfolding started begun
started-cases key fingerprint s =
    elim (Option-cases (HashMap.get RequestKey-discrete s.cache.entries key)) [
      | inr (cached, e) ↦ inl (ground arith)
      | inl e ↦ elim (Option-cases (HashMap.get RequestKey-discrete s.cache.in_flight key)) [
        | inr (running, f) ↦ inl (ground arith)
        | inl f ↦ inr (e, f, rw (e, started) (rw (f, started)))
      ]
    ]

module _ (capacity : ℕ) where
  pub IsServer-begun :
      (key : RequestKey) (fingerprint : ℕ) (s : Server)
      → IsServer capacity s
      → HashMap.get RequestKey-discrete s.cache.entries key ≡ none
      → HashMap.get RequestKey-discrete s.cache.in_flight key ≡ none
      → IsServer capacity (begun key fingerprint s)
  unfolding begun known
  IsServer-begun key fingerprint s v e f =
      let claim : InFlightRequest = record { operation_fingerprint = fingerprint } in
      record {
        cache = record {
          listed = v.cache.listed;
          distinct = v.cache.distinct;
          bounded = v.cache.bounded;
          disjoint = λ k. elim (RequestKey-discrete key k) [
            | yes same ↦
                inl (subst (λ i. HashMap.get RequestKey-discrete s.cache.entries i ≡ none) same e)
            | no ne ↦ elim (v.cache.disjoint k) [
              | inl a ↦ inl a
              | inr b ↦ inr (
                  get-insert_ne RequestKey-discrete s.cache.in_flight key claim (λ i. ne (sym i))
                  ∙ b)
            ]
          ];
        };
        at_most = λ k. elim (RequestKey-discrete key k) [
          | yes same ↦
              subst
                (λ i.
                  ite (RequestKey-discrete key i) (s.running i + 1) (s.running i)
                  ≤ known
                      (record s.cache {
                        in_flight = HashMap.insert RequestKey-discrete s.cache.in_flight key claim;
                      })
                      i)
                same
                (ground (
                  arith,
                  f,
                  v.at_most key,
                  get-insert_self RequestKey-discrete s.cache.in_flight key claim,
                ))
          | no ne ↦
              ground
                (arith, v.at_most k, get-insert RequestKey-discrete s.cache.in_flight key k claim)
        ];
      }

  IsServer-started :
      (key : RequestKey) (fingerprint : ℕ) (s : Server)
      → IsServer capacity s
      → IsServer capacity (started key fingerprint s)
  IsServer-started key fingerprint s v = elim (started-cases key fingerprint s) [
    | inl e ↦ subst (IsServer capacity) (sym e) v
    | inr (e, f, g) ↦ subst (IsServer capacity) (sym g) (IsServer-begun key fingerprint s v e f)
  ]

  running_in_flight :
      (key : RequestKey) (s : Server)
      → IsServer capacity s
      → 0 < s.running key
      → HashMap.get RequestKey-discrete s.cache.entries key ≡ none
  unfolding known
  running_in_flight key s v h = ground (arith, v.at_most key, v.cache.disjoint key)

  at_most-stopped :
      (key : RequestKey) (s : Server) (c : RequestCache) (k : RequestKey)
      → IsServer capacity s
      → 0 < s.running key
      → c.in_flight ≡ HashMap.remove RequestKey-discrete s.cache.in_flight key
      → stopped key s k ≤ known c k
  unfolding stopped known
  at_most-stopped key s c k v h e = elim (RequestKey-discrete key k) [
    | yes same ↦ ground (arith, v.at_most k, ap s.running same)
    | no ne ↦
        rw e (ground (arith, v.at_most k, get-remove RequestKey-discrete s.cache.in_flight key k))
  ]

  fewer :
      (key : RequestKey) (s : Server) (k : RequestKey)
      → IsServer capacity s
      → stopped key s k ≤ known s.cache k
  unfolding stopped
  fewer key s k v = ground (arith, v.at_most k)

  pub IsServer-Step :
      {s t : Server} → 0 < capacity → IsServer capacity s → Step capacity s t → IsServer capacity t
  IsServer-Step {s} p v (Step.attempt key fingerprint) = IsServer-started key fingerprint _ v
  IsServer-Step {s} p v (Step.complete key fingerprint outcome c h done) =
      let (c', done', valid, removed) =
        finish-IsCache capacity _ key fingerprint outcome p v.cache (running_in_flight key _ v h) in
      let same : c' ≡ c = some_inj (sym done' ∙ done) in
      record {
        cache = subst (IsCache capacity) same valid;
        at_most = λ k. at_most-stopped key _ c k v h (
            subst
              (λ (i : RequestCache).
                i.in_flight ≡ HashMap.remove RequestKey-discrete s.cache.in_flight key)
              same removed);
      }
  IsServer-Step {s} p v (Step.cancel key h) = record {
    cache = v.cache;
    at_most = λ k. fewer key _ k v;
  }

  -- With a capacity of at least one result, and however calls interleave, are cancelled or fail
  -- from the start on, at most one call under a key runs at any time, no call runs under a key
  -- whose result is remembered, and the cache is in order and within its capacity.
  pub Steps-IsServer :
      {s : Server} → 0 < capacity → Steps capacity started_server s → IsServer capacity s
  unfolding started_server known
  Steps-IsServer p Steps.none_yet = record {
    cache = record {
      listed = refl;
      distinct = tt;
      bounded = omega arith;
      disjoint = λ k. inl refl;
    };
    at_most = λ k. omega arith;
  }
  Steps-IsServer p (Steps.then_one steps step) = IsServer-Step p (Steps-IsServer p steps) step
